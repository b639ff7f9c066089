-- ===== src/Node/Drivers/Sht20.antt =====
-- sensor_node/main/drivers/sht20.c, the humidity sensor. What the bus answers to each attempt is an
-- argument, and so are the two conversions to floats.
use n32r.Prelude.{
  invalid_crc, bit_and, bit_xor, Bool-cases, EspErr, List, Result, Result-cases, Status, [], arith,
  bit_and, err, esp_fail, get_or, guard, if◌then◌else◌, inl, inr, invalid_crc, leb, ok, suc, take,
  zero, ℕ, ◌%◌, ◌*◌, ◌++◌, ◌+◌, ◌<◌, ◌==◌, ◌>>=◌, ◌>>◌, ◌^◌, ◌∷◌, ◌≡◌, ◌≤◌,
}

pub record Attempt : Type 0 where
  pub command : Status
  pub raw_bytes : Result (List ℕ)
  pub reset : Status

-- The polynomial is 0x131.
unfoldable pub crc_bit : ℕ → ℕ
crc_bit crc = if leb 128 crc then bit_xor (crc * 2) 305 % 256 else crc * 2 % 256

unfoldable pub crc_bits : ℕ → ℕ → ℕ
crc_bits zero crc = crc
crc_bits (suc n) crc = crc_bits n (crc_bit crc)

unfoldable pub crc8_from : List ℕ → ℕ → ℕ
crc8_from [] crc = crc
crc8_from (byte ∷ bytes) crc = crc8_from bytes (crc_bits 8 (bit_xor crc byte))

unfoldable pub sht20_crc8 : List ℕ → ℕ
sht20_crc8 bytes = crc8_from bytes 0

unfoldable pub sht20_measure_once : Attempt → Result (List ℕ)
sht20_measure_once attempt = do attempt.command; attempt.raw_bytes

-- The measured word of an attempt, without its status bits.
unfoldable pub checked : Attempt → Result ℕ
checked attempt = do
  bytes ← sht20_measure_once attempt
  guard (sht20_crc8 (take 2 bytes) == get_or bytes 2 0) invalid_crc
  ok (bit_and (get_or bytes 0 0 * 256 + get_or bytes 1 0) 65532)

-- The delays after a failure.
unfoldable pub pauses : Attempt → ℕ → List ℕ
pauses attempt n =
    (if leb 2 n then (elim attempt.reset [ ok _ ↦ 20 ∷ [] | err e ↦ [] ]) else [])
    ++ (10 * 2 ^ n ∷ [])

-- The attempts that are left, from a number on.
unfoldable pub read_from : (ℕ → Attempt) → ℕ → ℕ → EspErr → Result ℕ × List ℕ
read_from attempts zero n last_err = (err last_err, [])
read_from attempts (suc left) n last_err = elim (checked (attempts n)) [
  | ok raw ↦ (ok raw, [])
  | err e ↦
      let (result, delays) = read_from attempts left (n + 1) e in
      (result, pauses (attempts n) n ++ delays)
]

module _ {F : Type 0} where
  unfoldable pub sht20_read_measurement : (ℕ → F) → (ℕ → Attempt) → Result F × List ℕ
  sht20_read_measurement convert attempts =
      let (result, delays) = read_from attempts 5 0 esp_fail in
      (elim result [ ok raw ↦ ok (convert raw) | err e ↦ err e ], delays)

  unfoldable pub sht20_read_temperature_humidity :
      (ℕ → F) → (ℕ → F) → (ℕ → Attempt) → (ℕ → Attempt) → Result (F × F)
  sht20_read_temperature_humidity temperature humidity first second = do
    t ← (sht20_read_measurement temperature first).0
    h ← (sht20_read_measurement humidity second).0
    ok (t, h)

-- An attempt that fails.
abbrev pub Fails : Attempt → Type 0
Fails attempt = (e : EspErr) × (checked attempt ≡ err e)

-- The result is the word of the first attempt that succeeds, of so many from a number on, and an error
-- where none does.
abbrev pub FirstGood : (ℕ → Attempt) → ℕ → ℕ → Result ℕ → Type 0
FirstGood attempts left n (ok raw) =
    (i : ℕ) × (n ≤ i)
    × (i < n + left)
    × (checked (attempts i) ≡ ok raw)
    × ((j : ℕ) → n ≤ j → j < i → Fails (attempts j))
FirstGood attempts left n (err e) = (j : ℕ) → n ≤ j → j < n + left → Fails (attempts j)

-- A failure before others.
later-Fails :
    (attempts : ℕ → Attempt) (n bound j : ℕ)
    → Fails (attempts n)
    → ((k : ℕ) → n + 1 ≤ k → k < bound → Fails (attempts k))
    → n ≤ j
    → j < bound
    → Fails (attempts j)
later-Fails attempts n bound j here rest lo hi = elim (Bool-cases (j == n)) [
  | inl e ↦ (let same : j ≡ n = ground arith in rw same here)
  | inr e ↦ rest j (ground arith) hi
]

later-FirstGood :
    (attempts : ℕ → Attempt) (left n : ℕ) (r : Result ℕ)
    → Fails (attempts n)
    → FirstGood attempts left (n + 1) r
    → FirstGood attempts (suc left) n r
later-FirstGood attempts left n (ok raw) here (i, lo, hi, e, before) =
    (i, omega arith, omega arith, e, λ j l h. later-Fails attempts n i j here before l h)
later-FirstGood attempts left n (err e) here rest =
    λ j l h. later-Fails attempts n (n + suc left) j here (λ k a b. rest k a (omega arith)) l h

-- Of so many attempts from a number on (the driver makes five, from 0), the result is the word of the first
-- whose transfer succeeds and whose checksum fits, and an error only where all of them fail.
pub read_from-FirstGood :
    (attempts : ℕ → Attempt) (left n : ℕ) (last_err : EspErr)
    → FirstGood attempts left n (read_from attempts left n last_err).0
unfolding read_from
read_from-FirstGood attempts zero n last_err = λ j l h. absurd (omega arith)
read_from-FirstGood attempts (suc left) n last_err = elim (Result-cases (checked (attempts n))) [
  | inl (raw, f) ↦
      simp (f, read_from) (n, omega arith, omega arith, f, λ j l h. absurd (omega arith))
  | inr (e, f) ↦
      simp (f, read_from)
        (later-FirstGood attempts left n _ (e, f) (read_from-FirstGood attempts left (n + 1) e))
]
