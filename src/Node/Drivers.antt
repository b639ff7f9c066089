-- ===== src/Node/Drivers.antt =====
-- sensor_node/main/drivers: what the drivers of the expanders write to the bus. A transfer of i2c_bus.c is
-- a function of the address and the bytes, and every write that is tried is recorded.
pub mod Pca9685
pub mod Mcp23017
pub mod Tca9548a
pub mod Sht20
pub mod Ds18b20
mod Tests
use n32r.Prelude.{
  Bool, Bool-cases, EspErr, List, Option, Option-cases, Result, Result-cases, Status, [], ap,
  append-nil, append_assoc, ap₂, arith, choose, drop, err, esp_fail, false, get_elem?,
  get_elem?-set_ne, get_elem?-set_self, get_or, guard, if◌then◌else◌, inl, inr, invalid_arg,
  invalid_crc, invalid_response, invalid_size, invalid_state, invalid_version, leb, length,
  length-append, length-drop, length-replicate, length-set, length-take, ltb, lt→ltb, map, min,
  no_mem, none, not, not_found, not_supported, ok, ota_validate_failed, refl, replicate, set, some,
  suc, sym, take, take-append-drop, tests, timeout, true, zero, ℕ, ◌%◌, ◌&&◌, ◌*◌, ◌++◌, ◌+◌, ◌-◌,
  ◌/◌, ◌<◌, ◌==◌, ◌>>=◌, ◌>>◌, ◌^◌, ◌||◌, ◌↔◌, ◌∙◌, ◌∷◌, ◌≡◌, ◌≢◌, ◌≤◌, ◌⊎◌,
}

pub record Write : Type 0 where
  pub addr : ℕ
  pub bytes : List ℕ

-- `i2c_bus_write` and, for a register of two bytes, `i2c_bus_write_read`.
pub record Bus : Type 0 where
  pub write : ℕ → List ℕ → Status
  pub read16 : ℕ → ℕ → Result (ℕ × ℕ)

-- A write, and what follows where it succeeds.
unfoldable pub i2c_write : Bus → ℕ → List ℕ → Status × List Write
i2c_write bus addr bytes = (bus.write addr bytes, record { addr = addr; bytes = bytes } ∷ [])

infixl 5 ◌then◌
abbrev pub ◌then◌ : Status × List Write → Status × List Write → Status × List Write
(err e, writes) then rest = (err e, writes)
(ok _, writes) then (status, writes') = (status, writes ++ writes')
