-- ===== src/Util/Totp/Digits.antt =====
-- The codes of `totp_compute` have the configured number of digits.
use n32r.Prelude.{ℕ, ◌^◌, ◌≤◌, ◌<◌, ◌≡◌, refl, inl, inr, ◌⊎◌, arith, ok}
use n32r.Crypto.{Crypto}
use n32r.Util.Totp.{Config, compute, pow10_u32}

digits_cases : (d : ℕ) → 6 ≤ d → d ≤ 8 → (d ≡ 6) ⊎ (d ≡ 7) ⊎ (d ≡ 8)
digits_cases d lo hi = omega arith

pow10_six : pow10_u32 6 ≡ 10 ^ 6
unfolding pow10_u32
pow10_six = refl

pow10_seven : pow10_u32 7 ≡ 10 ^ 7
unfolding pow10_u32
pow10_seven = refl

pow10_eight : pow10_u32 8 ≡ 10 ^ 8
unfolding pow10_u32
pow10_eight = refl

-- The power of ten does not wrap at the digits that the configuration allows.
pow10_lem : (d : ℕ) → 6 ≤ d → d ≤ 8 → (pow10_u32 d ≡ 10 ^ d) × (0 < pow10_u32 d)
pow10_lem d lo hi = elim (digits_cases d lo hi) [
  | inl e ↦ rw e (pow10_six, omega (arith, pow10_six))
  | inr (inl e) ↦ rw e (pow10_seven, omega (arith, pow10_seven))
  | inr (inr e) ↦ rw e (pow10_eight, omega (arith, pow10_eight))
]

compute_parts :
    (c : Crypto) (cfg : Config) (t code : ℕ)
    → compute c cfg t ≡ ok code
    → (6 ≤ cfg.digits) × (cfg.digits ≤ 8)
unfolding compute
compute_parts c cfg t code h = (ground arith, ground arith)

compute_small :
    (c : Crypto) (cfg : Config) (t code : ℕ)
    → 0 < pow10_u32 cfg.digits
    → compute c cfg t ≡ ok code
    → code < pow10_u32 cfg.digits
unfolding compute
compute_small c cfg t code pos h = ground arith

-- A code that `totp_compute` returns has at most the configured number of decimal digits, which lies
-- between 6 and 8.
pub compute-lt :
    (c : Crypto) (cfg : Config) (t code : ℕ)
    → compute c cfg t ≡ ok code
    → (6 ≤ cfg.digits) × (cfg.digits ≤ 8) × (code < 10 ^ cfg.digits)
compute-lt c cfg t code h =
    let (lo, hi) = compute_parts c cfg t code h in
    let (p, pos) = pow10_lem cfg.digits lo hi in
    (lo, hi, rw (← p) (compute_small c cfg t code pos h))
