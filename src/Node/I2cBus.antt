-- ===== src/Node/I2cBus.antt =====
-- sensor_node/main/i2c_bus.c: the retries of a transfer and the recovery of the bus. What the driver answers
-- is an argument; lengths only decide which driver calls are made, and `built` is the first failure of those.
mod Tests
use mathlib.Core.Bool.{false≢true}
use n32r.Prelude.{
  choose, Bool, Bool-cases, EspErr, List, Option, Option-cases, Result, Result-cases, Status, [],
  ap, append-nil, append_assoc, ap₂, arith, bit_and, bit_or, bit_xor, choose, drop, err, esp_fail,
  false, get_elem?, get_elem?-set_ne, get_elem?-set_self, get_or, guard, if◌then◌else◌, inl, inr,
  invalid_arg, invalid_crc, invalid_response, invalid_size, invalid_state, invalid_version, leb,
  length, length-append, length-drop, length-replicate, length-set, length-take, ltb, lt→ltb, map,
  min, no_mem, none, not, not_found, not_supported, ok, ota_validate_failed, refl, replicate, set,
  some, suc, sym, take, take-append-drop, tests, timeout, true, zero, ℕ, ◌%◌, ◌&&◌, ◌*◌, ◌++◌, ◌+◌,
  ◌-◌, ◌/◌, ◌<◌, ◌==◌, ◌>>=◌, ◌>>◌, ◌^◌, ◌||◌, ◌↔◌, ◌∙◌, ◌∷◌, ◌≡◌, ◌≢◌, ◌≤◌, ◌⊎◌,
}

pub record Try : Type 0 where
  pub link : Bool
  pub built : Status
  pub begin : Status
  pub recovered : Status

-- The status and the count of failures in a row, which is a byte. Three of them recover the bus.
unfoldable pub cmd_begin : Try → ℕ → Status × ℕ
cmd_begin try failures = elim try.begin [
  | ok _ ↦ (ok tt, 0)
  | err e ↦
      let counted = (failures + 1) % 256 in
      (
        err e,
        if leb 3 counted then (elim try.recovered [ ok _ ↦ 0 | err e' ↦ counted ]) else counted,
      )
]

unfoldable pub attempt_once : Try → ℕ → Status × ℕ
attempt_once try failures = elim try.built [
  | err e ↦ (err e, failures)
  | ok _ ↦ cmd_begin try failures
]

-- The attempts that are left, from a number on: the status, the count, and the delays in milliseconds.
unfoldable pub attempts_from : (ℕ → Try) → ℕ → ℕ → EspErr → ℕ → Status × (ℕ × List ℕ)
attempts_from tries zero n last_err failures = (err last_err, (failures, []))
attempts_from tries (suc left) n last_err failures =
    if not (tries n).link
    then (err no_mem, (failures, []))
    else (elim (attempt_once (tries n) failures).0 [
      | ok _ ↦ (ok tt, ((attempt_once (tries n) failures).1, []))
      | err e ↦
          let (status, (failures', delays)) =
            attempts_from tries left (n + 1) e (attempt_once (tries n) failures).1 in
          (status, (failures', 5 * 2 ^ n ∷ delays))
    ])

unfoldable pub i2c_master_cmd : (ℕ → Try) → Bool → ℕ → Status × (ℕ × List ℕ)
i2c_master_cmd tries initialized failures =
    if not initialized
    then (err invalid_state, (failures, []))
    else attempts_from tries 3 0 esp_fail failures

-- One transfer without data; the driver's answers are those of a single attempt.
unfoldable pub i2c_bus_probe : Try → ℕ → ℕ → Status × ℕ
i2c_bus_probe try addr failures =
    if ltb addr 8 || ltb 119 addr
    then (err invalid_arg, failures)
    else (if not try.link then (err no_mem, failures) else attempt_once try failures)

recovered-lt :
    (failures : ℕ)
    → failures < 3
    → (if leb 3 ((failures + 1) % 256) then 0 else (failures + 1) % 256) < 3
recovered-lt failures h = ground arith

-- Where the recovery works, the count stays below three; with it below three, a step leaves it there.
once-lt :
    (try : Try) (failures : ℕ)
    → try.recovered ≡ ok tt
    → failures < 3
    → (attempt_once try failures).1 < 3
unfolding attempt_once cmd_begin
once-lt try failures r h = elim (Result-cases try.built) [
  | inr (e, f) ↦ simp (f, attempt_once) h
  | inl (_, f) ↦ elim (Result-cases try.begin) [
    | inl (_, g) ↦ simp (f, g, attempt_once, cmd_begin) (omega arith)
    | inr (e, g) ↦ simp (f, g, r, attempt_once, cmd_begin) (recovered-lt failures h)
  ]
]

-- What a transfer comes to: the count stays below three, and success is that of one of the attempts.
abbrev pub Transferred : (ℕ → Try) → ℕ → ℕ → Status × (ℕ × List ℕ) → Type 0
Transferred tries left n (ok _, (failures, delays)) =
    (failures < 3)
    × (i : ℕ) × (n ≤ i)
    × (i < n + left)
    × ((tries i).built ≡ ok tt)
    × ((tries i).begin ≡ ok tt)
Transferred tries left n (err e, (failures, delays)) = failures < 3

once-ok :
    (try : Try) (failures : ℕ) (s : Unit {0})
    → (attempt_once try failures).0 ≡ ok s
    → (try.built ≡ ok tt) × (try.begin ≡ ok tt)
unfolding attempt_once cmd_begin
once-ok try failures s h = elim (Result-cases try.built) [
  | inr (e, f) ↦ absurd (false≢true (ground arith))
  | inl (_, f) ↦ elim (Result-cases try.begin) [
    | inl (_, g) ↦ (f, g)
    | inr (e, g) ↦ absurd (false≢true (ground arith))
  ]
]

later-Transferred :
    (tries : ℕ → Try) (left n delay : ℕ) (r : Status × (ℕ × List ℕ))
    → Transferred tries left (n + 1) r
    → Transferred tries (suc left) n (r.0, (r.1.0, delay ∷ r.1.1))
later-Transferred tries left n delay (ok _, (failures, delays)) (lt, i, lo, hi, a, b) =
    (lt, i, omega arith, omega arith, a, b)
later-Transferred tries left n delay (err e, (failures, delays)) lt = lt

attempts-Transferred :
    (tries : ℕ → Try) (left n failures : ℕ) (last_err : EspErr)
    → ((i : ℕ) → (tries i).recovered ≡ ok tt)
    → failures < 3
    → Transferred tries left n (attempts_from tries left n last_err failures)
unfolding attempts_from
attempts-Transferred tries zero n failures last_err r h = h
attempts-Transferred tries (suc left) n failures last_err r h =
    choose (Transferred tries (suc left) n) (not (tries n).link) (λ _. h)
      (λ _. elim (Result-cases (attempt_once (tries n) failures).0) [
        | inl (s, f) ↦
            (let (a, b) = once-ok (tries n) failures s f in
              simp (f) (once-lt (tries n) failures (r n) h, n, omega arith, omega arith, a, b))
        | inr (e, f) ↦ simp (f) (
            later-Transferred tries left n (5 * 2 ^ n) _ (
              attempts-Transferred tries left (n + 1) (attempt_once (tries n) failures).1 e r
                (once-lt (tries n) failures (r n) h)))
      ])

-- Where the recovery of the bus succeeds and fewer than three failures in a row are counted, a transfer
-- leaves fewer than three counted; and it succeeds only where one of its three attempts could be set up and
-- was acknowledged.
pub i2c_master_cmd-Transferred :
    (tries : ℕ → Try) (initialized : Bool) (failures : ℕ)
    → ((i : ℕ) → (tries i).recovered ≡ ok tt)
    → failures < 3
    → Transferred tries 3 0 (i2c_master_cmd tries initialized failures)
unfolding i2c_master_cmd
i2c_master_cmd-Transferred tries initialized failures r h =
    choose (Transferred tries 3 0) (not initialized) (λ _. h)
      (λ _. attempts-Transferred tries 3 0 failures esp_fail r h)
