-- ===== src/Prelude/Words.antt =====
-- Machine words as native numbers. On the ESP32 `size_t`, `TickType_t` and `uint32_t` have 32 bits.
use Prim.Native.Nat.{ℕ, ◌+◌, ◌-◌, ◌%◌, ◌^◌, ◌<◌}
use mathlib.Core.Path.{◌≡◌}
use native.Mathlib.Omega.{arith}

abbrev pub u8_mod : ℕ
u8_mod = 2 ^ 8

abbrev pub u32_mod : ℕ
u32_mod = 2 ^ 32

abbrev pub u64_mod : ℕ
u64_mod = 2 ^ 64

-- `a + b` and `a - b` on 32 bits; `-` on ℕ stops at 0, so the modulus is added first.
abbrev pub add32 : ℕ → ℕ → ℕ
add32 a b = (a + b) % u32_mod

abbrev pub sub32 : ℕ → ℕ → ℕ
sub32 a b = (a + u32_mod - b) % u32_mod

-- The elapsed ticks of a wrapping counter are the true ones, if those fit in the word.
pub sub32-add32 : (t d : ℕ) → t < u32_mod → d < u32_mod → sub32 (add32 t d) t ≡ d
sub32-add32 t d ht hd = omega arith
