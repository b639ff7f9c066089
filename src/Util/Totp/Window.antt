-- ===== src/Util/Totp/Window.antt =====
-- Which codes `totp_verify` accepts: those of a clock that is at most `window` steps away.
use n32r.Prelude.{
  ℕ, zero, suc, ◌+◌, ◌-◌, ◌*◌, ◌/◌, ◌%◌, ◌^◌, ◌≤◌, ◌<◌, ◌≡◌, ◌⊎◌, inl, inr, true, false, some,
  arith, length, ◌==◌, Option-cases, ok, sym, ◌∙◌, ap, ◌↔◌, lt→ltb,
}
use n32r.Prelude.Words.{u64_mod}
use native.Mathlib.Nat.{add-mul-div_right}
use native.Mathlib.Decide.{dec_lt}
use n32r.Crypto.{Crypto}
use n32r.Util.Totp.{Config, is_invalid, compute, adjusted_time, verify_from, verify}

-- The steps of two clocks are at most `window` apart.
abbrev pub InWindow : Config → ℕ → ℕ → ℕ → Type 0
InWindow cfg now window t =
    (t / cfg.period_s ≤ now / cfg.period_s + window)
    × (now / cfg.period_s ≤ t / cfg.period_s + window)

step_forward : (p k n : ℕ) → 0 < p → (n + k * p) / p ≡ n / p + k
step_forward p k n h = add-mul-div_right n k h

step_back : (p k n : ℕ) → 0 < p → k * p ≤ n → (n - k * p) / p + k ≡ n / p
step_back p k n h le =
    sym (step_forward p k (n - k * p) h) ∙ ap (λ m. m / p) {x = n - k * p + k * p} (omega arith)

back_fits : (p k n : ℕ) → 0 < p → k ≤ n / p → k * p ≤ n
back_fits p k n h le = grind arith

module _ (cfg : Config) (now window : ℕ) where
  -- The two ways in which a round gets its time.
  adjusted_cases :
      (i t : ℕ)
      → adjusted_time cfg now window i ≡ some t
      → ((i < window)
          × ((window - i) * cfg.period_s ≤ now)
          × (t ≡ now - (window - i) * cfg.period_s))
        ⊎ ((window ≤ i) × (t ≡ (now + (i - window) * cfg.period_s) % u64_mod))
  unfolding adjusted_time
  adjusted_cases i t e = ground arith

  adjusted_back :
      (k : ℕ)
      → 0 < k
      → k ≤ window
      → k * cfg.period_s ≤ now
      → adjusted_time cfg now window (window - k) ≡ some (now - k * cfg.period_s)
  unfolding adjusted_time
  adjusted_back k pos h le = let e : window - (window - k) ≡ k = omega arith in rw e (ground arith)

  adjusted_on :
      (k : ℕ)
      → adjusted_time cfg now window (window + k) ≡ some ((now + k * cfg.period_s) % u64_mod)
  unfolding adjusted_time
  adjusted_on k = let e : window + k - window ≡ k = omega arith in rw e (ground arith)

  module _ (pos : 0 < cfg.period_s) (no_wrap : now + window * cfg.period_s < u64_mod) where
    fits : (k : ℕ) → k ≤ window → (now + k * cfg.period_s) % u64_mod ≡ now + k * cfg.period_s
    fits k h = let le : k * cfg.period_s ≤ window * cfg.period_s = grind arith in omega arith

    adjusted_time-InWindow :
        (i t : ℕ)
        → i < 2 * window + 1
        → adjusted_time cfg now window i ≡ some t
        → InWindow cfg now window t
    adjusted_time-InWindow i t h e = elim (adjusted_cases i t e) [
      | inl (lt, le, at) ↦ rw at (omega (arith, step_back cfg.period_s (window - i) now pos le))
      | inr (le, at) ↦
          rw (at, fits (i - window) (omega arith))
            (omega (arith, step_forward cfg.period_s (i - window) now pos))
    ]

    -- Every step in the window is tried: the round is the step's distance.
    try_step :
        (t : ℕ)
        → InWindow cfg now window t
        → (i : ℕ) × (u : ℕ) × (i < 2 * window + 1)
          × (adjusted_time cfg now window i ≡ some u)
          × (u / cfg.period_s ≡ t / cfg.period_s)
    try_step t (lo, hi) = elim (dec_lt (t / cfg.period_s) (now / cfg.period_s)) [
      | yes lt ↦
          let k : ℕ = now / cfg.period_s - t / cfg.period_s in
          let le : k * cfg.period_s ≤ now = back_fits cfg.period_s k now pos (omega arith) in
          (
            window - k,
            now - k * cfg.period_s,
            omega arith,
            adjusted_back k (omega arith) (omega arith) le,
            omega (arith, step_back cfg.period_s k now pos le),
          )
      | no ge ↦
          let k : ℕ = t / cfg.period_s - now / cfg.period_s in
          (
            window + k,
            now + k * cfg.period_s,
            omega arith,
            rw (← fits k (omega arith)) (adjusted_on k),
            omega (arith, step_forward cfg.period_s k now pos),
          )
    ]

module _ (c : Crypto) (cfg : Config) where
  -- The code depends on the step only.
  pub compute_step :
      (t u : ℕ) → t / cfg.period_s ≡ u / cfg.period_s → compute c cfg t ≡ compute c cfg u
  unfolding compute
  compute_step t u e = rw e

  module _ (now window code : ℕ) where
    -- What an accepting round has found, and what else it leaves to the others.
    round_sound :
        (i left : ℕ)
        → verify_from c cfg now window code i (suc left) ≡ ok true
        → ((t : ℕ) × (adjusted_time cfg now window i ≡ some t) × (compute c cfg t ≡ ok code))
          ⊎ (verify_from c cfg now window code (i + 1) left ≡ ok true)
    unfolding verify_from
    round_sound i left h = ground arith

    verify_from_sound :
        (i left : ℕ)
        → verify_from c cfg now window code i left ≡ ok true
        → (j : ℕ) × (t : ℕ) × (j < i + left)
          × (adjusted_time cfg now window j ≡ some t)
          × (compute c cfg t ≡ ok code)
    unfolding verify_from
    verify_from_sound i zero h = cc
    verify_from_sound i (suc left) h = elim (round_sound i left h) [
      | inl (t, at, hit) ↦ (i, t, omega arith, at, hit)
      | inr rest ↦
          let (j, t, lt, at, hit) = verify_from_sound (i + 1) left rest in
          (j, t, omega arith, at, hit)
    ]

    later :
        (i left : ℕ)
        → ((t : ℕ) → (e : ℕ) × (compute c cfg t ≡ ok e))
        → verify_from c cfg now window code (i + 1) left ≡ ok true
        → verify_from c cfg now window code i (suc left) ≡ ok true
    unfolding verify_from
    later i left total rest = elim (Option-cases (adjusted_time cfg now window i)) [
      | inl e ↦ rw (e, verify_from) rest
      | inr (u, e) ↦ let (x, xe) = total u in rw (e, verify_from) (rw xe (ground arith))
    ]

    -- With no failing HMAC an acceptable round is found.
    verify_from_complete :
        (total : (t : ℕ) → (e : ℕ) × (compute c cfg t ≡ ok e)) (i left : ℕ) (j t : ℕ)
        → i ≤ j
        → j < i + left
        → adjusted_time cfg now window j ≡ some t
        → compute c cfg t ≡ ok code
        → verify_from c cfg now window code i left ≡ ok true
    unfolding verify_from
    verify_from_complete total i zero j t le lt at hit = absurd (omega arith)
    verify_from_complete total i (suc left) j t le lt at hit = elim (dec_lt i j) [
      | yes on ↦
          later i left total
            (verify_from_complete total (i + 1) left j t (omega arith) (omega arith) at hit)
      | no stop ↦
          let here : j ≡ i = omega arith in
          let at' : adjusted_time cfg now window i ≡ some t = rw here at at in
          rw (at', verify_from) (rw hit (ground arith))
    ]

valid_parts :
    (cfg : Config)
    → is_invalid cfg ≡ false
    → ((length cfg.secret == 0) ≡ false) × (0 < cfg.period_s)
unfolding is_invalid
valid_parts cfg valid = (ground arith, ground arith)

verify_rounds :
    (c : Crypto) (cfg : Config) (now window code : ℕ)
    → is_invalid cfg ≡ false
    → window < 2 ^ 31
    → verify c cfg now window code ≡ verify_from c cfg now window code 0 (2 * window + 1)
unfolding verify
verify_rounds c cfg now window code valid small =
    rw ((valid_parts cfg valid).0, lt→ltb window (2 ^ 31) small)

-- `totp_verify` accepts a code exactly if it is the code of some time whose step is at most
-- `window` steps from the present one. It is assumed that the configuration is valid, that the
-- window is below 2 ^ 31 and stays below the end of time, and that the HMAC does not fail.
pub verify_iff :
    (c : Crypto) (cfg : Config) (now window code : ℕ)
    → is_invalid cfg ≡ false
    → window < 2 ^ 31
    → now + window * cfg.period_s < u64_mod
    → ((t : ℕ) → (e : ℕ) × (compute c cfg t ≡ ok e))
    → (verify c cfg now window code ≡ ok true)
      ↔ ((t : ℕ) × InWindow cfg now window t × (compute c cfg t ≡ ok code))
verify_iff c cfg now window code valid small no_wrap total =
    rw (verify_rounds c cfg now window code valid small) (accepted, found)
  where
    pos : 0 < cfg.period_s
    pos = (valid_parts cfg valid).1

    accepted :
        verify_from c cfg now window code 0 (2 * window + 1) ≡ ok true
        → (t : ℕ) × InWindow cfg now window t × (compute c cfg t ≡ ok code)
    accepted h =
        let (i, t, lt, at, hit) = verify_from_sound c cfg now window code 0 (2 * window + 1) h in
        (t, adjusted_time-InWindow cfg now window pos no_wrap i t (omega arith) at, hit)

    found :
        (t : ℕ) × InWindow cfg now window t × (compute c cfg t ≡ ok code)
        → verify_from c cfg now window code 0 (2 * window + 1) ≡ ok true
    found (t, near, hit) =
        let (i, u, lt, at, step) = try_step cfg now window pos no_wrap t near in
        verify_from_complete c cfg now window code total 0 (2 * window + 1) i u (omega arith)
          (omega arith) at (compute_step c cfg u t step ∙ hit)
