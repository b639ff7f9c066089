-- ===== src/Node/Drivers/Mcp23017.antt =====
-- sensor_node/main/drivers/mcp23017.c, the input and output expander.
use n32r.Prelude.{
  List, Result, Status, [], err, if◌then◌else◌, ok, ℕ, ◌%◌, ◌*◌, ◌+◌, ◌-◌, ◌/◌, ◌>>=◌, ◌∷◌, bit_or,
  bit_and,
}
use n32r.Node.Drivers.{Bus, Write, i2c_write, ◌then◌}

unfoldable pub mcp23017_write16 : Bus → ℕ → ℕ → ℕ → Status × List Write
mcp23017_write16 bus addr reg value = i2c_write bus addr (reg ∷ (value % 256 ∷ (value / 256 ∷ [])))

unfoldable pub mcp23017_read16 : Bus → ℕ → ℕ → Result ℕ
mcp23017_read16 bus addr reg = do (low, high) ← bus.read16 addr reg; ok (high * 256 + low)

unfoldable pub mcp23017_init : Bus → ℕ → ℕ → ℕ → Status × List Write
mcp23017_init bus addr direction_mask pullup_mask =
    mcp23017_write16 bus addr 0 direction_mask then mcp23017_write16 bus addr 12 pullup_mask

unfoldable pub mcp23017_read_gpio : Bus → ℕ → Result ℕ
mcp23017_read_gpio bus addr = mcp23017_read16 bus addr 18

-- `(current & ~mask) | (value & mask)` on 16 bits.
unfoldable pub merged : ℕ → ℕ → ℕ → ℕ
merged current mask value = bit_or (bit_and current (65535 - mask)) (bit_and value mask)

unfoldable pub mcp23017_write_gpio : Bus → ℕ → ℕ → ℕ → Status × List Write
mcp23017_write_gpio bus addr mask value = elim (mcp23017_read16 bus addr 20) [
  | err e ↦ (err e, [])
  | ok current ↦ mcp23017_write16 bus addr 20 (merged current mask value)
]
