-- ===== src/Node/Drivers/Pca9685.antt =====
-- sensor_node/main/drivers/pca9685.c, the PWM expander. The prescaler is computed with floats and is an
-- argument.
use n32r.Prelude.{
  List, Status, [], arith, err, get_or, if◌then◌else◌, invalid_arg, leb, length, ok, refl, ℕ, ◌%◌,
  ◌*◌, ◌+◌, ◌/◌, ◌<◌, ◌==◌, ◌∷◌, ◌≡◌,
}
use n32r.Node.Drivers.{Bus, Write, i2c_write, ◌then◌}

unfoldable pub pca9685_write8 : Bus → ℕ → ℕ → ℕ → Status × List Write
pca9685_write8 bus addr reg value = i2c_write bus addr (reg ∷ (value ∷ []))

unfoldable pub pca9685_bytes : ℕ → ℕ → ℕ → List ℕ
pca9685_bytes reg on off =
    reg ∷ (on % 256 ∷ ((on / 256) % 16 ∷ (off % 256 ∷ ((off / 256) % 16 ∷ []))))

unfoldable pub pca9685_init : Bus → ℕ → ℕ → Status × List Write
pca9685_init bus addr prescale_val =
    pca9685_write8 bus addr 0 16
    then pca9685_write8 bus addr 254 prescale_val
    then pca9685_write8 bus addr 0 161
    then pca9685_write8 bus addr 1 4

unfoldable pub pca9685_set_pwm : Bus → ℕ → ℕ → ℕ → Status × List Write
pca9685_set_pwm bus addr channel duty =
    if leb 16 channel
    then (err invalid_arg, [])
    else i2c_write bus addr
        (pca9685_bytes ((6 + 4 * channel) % 256) 0 (if leb 4096 duty then 4096 else duty))

-- The channels from a number on. The channel is a byte.
unfoldable pub set_from : Bus → ℕ → ℕ → List ℕ → Status × List Write
set_from bus addr i [] = (ok tt, [])
set_from bus addr i (duty ∷ duties) =
    pca9685_set_pwm bus addr (i % 256) duty then set_from bus addr (i + 1) duties

unfoldable pub pca9685_set_all : Bus → ℕ → List ℕ → Status × List Write
pca9685_set_all bus addr duty =
    if length duty == 0 then (err invalid_arg, []) else set_from bus addr 0 duty

-- What the expander's documentation calls the on time and the off time: the twelve bits of two bytes each.
abbrev pub on_time : List ℕ → ℕ
on_time bytes = get_or bytes 1 0 + 256 * get_or bytes 2 0

abbrev pub off_time : List ℕ → ℕ
off_time bytes = get_or bytes 3 0 + 256 * get_or bytes 4 0

-- For one of the sixteen channels, one write of five bytes is made to the device: the first is the register 6 + 4 *
-- channel, the on time is 0, and the off time is the duty where that is below 4096, but 0, as for the duty 0, where
-- it is 4096 or more. The status is that of the write.
pub set_pwm_lem :
    (bus : Bus) (addr channel duty : ℕ)
    → channel < 16
    → (bytes : List ℕ) × (pca9685_set_pwm bus addr channel duty
        ≡ (bus.write addr bytes, record { addr = addr; bytes = bytes } ∷ []))
      × (length bytes ≡ 5)
      × (get_or bytes 0 0 ≡ 6 + 4 * channel)
      × (on_time bytes ≡ 0)
      × (off_time bytes ≡ (if leb 4096 duty then 0 else duty))
unfolding pca9685_set_pwm i2c_write pca9685_bytes
set_pwm_lem bus addr channel duty small = (
  pca9685_bytes ((6 + 4 * channel) % 256) 0 (if leb 4096 duty then 4096 else duty),
  ground arith,
  refl,
  omega arith,
  refl,
  ground arith,
)
