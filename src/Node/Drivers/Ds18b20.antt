-- ===== src/Node/Drivers/Ds18b20.antt =====
-- sensor_node/main/drivers/ds18b20.c, the temperature sensor on the one-wire bus. What the bus answers is an
-- argument, and so is the division that gives the float. The handles are not null.
use n32r.Prelude.{
  Bool, List, Option, Result, Status, [], err, get_or, if◌then◌else◌, invalid_arg, length, none, ok,
  some, ℕ, ◌*◌, ◌+◌, ◌==◌, ◌>>=◌, ◌>>◌, ◌∷◌,
}

pub record Wire : Type 0 where
  pub reset : Status
  pub write : List ℕ → Status
  pub scratch : Result (List ℕ)
  pub bit : Result Bool

-- `none` addresses every device, else the code of one.
unfoldable pub ds18b20_select_device : Wire → Option (List ℕ) → Status
ds18b20_select_device wire none = do wire.reset; wire.write (204 ∷ [])
ds18b20_select_device wire (some rom_code) = do
  wire.reset
  wire.write (85 ∷ [])
  wire.write rom_code

unfoldable pub ds18b20_conversion_time_ms : ℕ → ℕ
ds18b20_conversion_time_ms resolution_bits =
    if resolution_bits == 9
    then 94
    else (if resolution_bits == 10 then 188 else (if resolution_bits == 11 then 375 else 750))

unfoldable pub config_of : ℕ → ℕ
config_of resolution_bits =
    if resolution_bits == 9
    then 31
    else (if resolution_bits == 10 then 63 else (if resolution_bits == 11 then 95 else 127))

unfoldable pub configure_all : Wire → ℕ → List (List ℕ) → Status
configure_all wire config [] = ok tt
configure_all wire config (rom_code ∷ devices) = do
  ds18b20_select_device wire (some rom_code)
  wire.write (78 ∷ [])
  wire.write (0 ∷ (0 ∷ (config ∷ [])))
  configure_all wire config devices

unfoldable pub ds18b20_start_conversion : Wire → List (List ℕ) → ℕ → Status
ds18b20_start_conversion wire devices resolution_bits =
    if length devices == 0 then err invalid_arg else (do
      configure_all wire (config_of resolution_bits) devices
      ds18b20_select_device wire none
      wire.write (68 ∷ []))

unfoldable pub ds18b20_check_conversion : Wire → Result Bool
ds18b20_check_conversion wire = wire.bit

-- The word is unsigned.
unfoldable pub ds18b20_read_temperature : {F : Type 0} → (ℕ → F) → Wire → List ℕ → Result F
ds18b20_read_temperature sixteenths wire rom_code = do
  ds18b20_select_device wire (some rom_code)
  wire.write (190 ∷ [])
  scratch ← wire.scratch
  ok (sixteenths (get_or scratch 1 0 * 256 + get_or scratch 0 0))
