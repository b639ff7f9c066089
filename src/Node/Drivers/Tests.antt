-- ===== src/Node/Drivers/Tests.antt =====
-- Tests of the drivers, on a bus that acknowledges everything.
use n32r.Prelude.{List, [], arith, get_or, length, ok, refl, some, true, ℕ, ◌∷◌, ◌≡◌}
use n32r.Node.Drivers.{Bus}
use n32r.Node.Drivers.Pca9685.{pca9685_set_pwm, on_time, off_time, set_pwm_lem}
use n32r.Node.Drivers.Tca9548a.{
  Selection, Coherent, Selected, tca9548a_select, payload, select-Selected,
}
use n32r.Node.Drivers.Sht20.{sht20_crc8, crc8_from, crc_bits, crc_bit}

abbrev bus : Bus
bus = record { write = λ addr bytes. ok tt; read16 = λ addr reg. ok (1, 2) }

set_pwm_lem_example :
    (bytes : List ℕ) × (pca9685_set_pwm bus 64 3 4096
      ≡ (ok tt, record { addr = 64; bytes = bytes } ∷ []))
    × (length bytes ≡ 5)
    × (get_or bytes 0 0 ≡ 18)
    × (on_time bytes ≡ 0)
    × (off_time bytes ≡ 0)
set_pwm_lem_example = set_pwm_lem bus 64 3 4096 (omega arith)

abbrev selection : Selection
selection = record { last_addr = 112; last_channel = some 2; has_state = true }

-- Every multiplexer has its third channel selected.
abbrev regs : ℕ → ℕ
regs addr = 4

coherent : Coherent selection regs
unfolding payload
coherent e = refl

select-Selected_example :
    Selected bus 113 (some 5) selection regs (tca9548a_select bus 113 (some 5) selection)
select-Selected_example = select-Selected bus 113 (some 5) selection regs coherent

crc_known : sht20_crc8 (104 ∷ (58 ∷ [])) ≡ 124
unfolding sht20_crc8 crc8_from crc_bits crc_bit
crc_known = refl
