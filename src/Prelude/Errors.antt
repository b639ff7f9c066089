-- ===== src/Prelude/Errors.antt =====
-- The `esp_err_t` codes that the firmware tests or returns, and results that carry one.
use mathlib.Core.Path.{◌≡◌, refl}
use mathlib.Core.Logic.{◌⊎◌, inl, inr}
use mathlib.Core.Bool.{Bool, true, false}

-- `other` stands for every code of a driver that the firmware only passes on.
pub data EspErr : Type 0 where
  esp_fail no_mem invalid_arg invalid_state invalid_size not_found not_supported : EspErr
  timeout invalid_response invalid_crc invalid_version ota_validate_failed : EspErr

-- `ok` is ESP_OK with what the function stores through its out-parameters.
pub data Result {ℓ} (A : Type ℓ) : Type ℓ where
  ok : A → Result A
  err : EspErr → Result A

-- A call that returns a status only.
abbrev pub Status : Type 0
Status = Result (Unit {0})

infixl 5 ◌>>=◌ ◌>>◌
abbrev pub ◌>>=◌ {ℓ κ} : {A : Type ℓ} {B : Type κ} → Result A → (A → Result B) → Result B
err code >>= next = err code
ok value >>= next = next value

-- A failed call ends the function.
abbrev pub ◌>>◌ {ℓ} : {B : Type ℓ} → Status → Result B → Result B
err code >> rest = err code
ok done >> rest = rest

-- `if (!test) return code;`
abbrev pub guard : Bool → EspErr → Status
guard false code = err code
guard true code = ok tt

pub Result-cases {ℓ} :
    {A : Type ℓ} (r : Result A) → ((a : A) × (r ≡ ok a)) ⊎ ((e : EspErr) × (r ≡ err e))
Result-cases (err code) = inr (code, refl)
Result-cases (ok value) = inl (value, refl)
