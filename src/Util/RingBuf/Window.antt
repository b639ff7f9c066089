-- ===== src/Util/RingBuf/Window.antt =====
-- The bytes that a circular array holds between two of its indices, and what a write does to them.
use native.Mathlib.Nat.{mod-add-mod}
use mathlib.Core.Logic.{◌⊎◌}
use n32r.Prelude.{
  ℕ, zero, suc, ◌+◌, ◌%◌, ◌≤◌, ◌<◌, ◌≡◌, ◌≢◌, refl, ap, ap₂, ◌∙◌, List, [], ◌∷◌, ◌++◌, arith,
  length, get_or, set, drop,
}

-- Stepping round the array either wraps to the start or does not.
pub round_cases :
    (slots h : ℕ)
    → h < slots
    → ((h + 1 ≡ slots) × ((h + 1) % slots ≡ 0)) ⊎ ((h + 1 < slots) × ((h + 1) % slots ≡ h + 1))
round_cases slots h lt = grind arith

get_or-set_self : (x : ℕ) (bs : List ℕ) (i : ℕ) → i < length bs → get_or (set bs i x) i 0 ≡ x
get_or-set_self x [] i lt = absurd (omega arith)
get_or-set_self x (b ∷ bs) zero lt = refl
get_or-set_self x (b ∷ bs) (suc i) lt = get_or-set_self x bs i (omega arith)

get_or-set_ne : (x : ℕ) (bs : List ℕ) (i j : ℕ) → i ≢ j → get_or (set bs i x) j 0 ≡ get_or bs j 0
get_or-set_ne x [] i j ne = refl
get_or-set_ne x (b ∷ bs) zero zero ne = absurd (ne refl)
get_or-set_ne x (b ∷ bs) zero (suc j) ne = refl
get_or-set_ne x (b ∷ bs) (suc i) zero ne = refl
get_or-set_ne x (b ∷ bs) (suc i) (suc j) ne = get_or-set_ne x bs i j (λ e. ne (ap suc e))

module _ (slots : ℕ) where
  -- `n` bytes from index `h` on.
  unfoldable pub window : List ℕ → ℕ → ℕ → List ℕ
  window bs h zero = []
  window bs h (suc n) = get_or bs h 0 ∷ window bs ((h + 1) % slots) n

  pub length-window : (bs : List ℕ) (h n : ℕ) → length (window bs h n) ≡ n
  unfolding window
  length-window bs h zero = refl
  length-window bs h (suc n) = ap suc (length-window bs ((h + 1) % slots) n)

-- The array is not circled in fewer than `slots` steps.
round-ne : (slots h k : ℕ) → h < slots → suc k < slots → (h + suc k) % slots ≢ h
round-ne slots h k hh hk = grind arith

-- A write just past the window extends it.
pub window-set :
    (slots : ℕ) (x : ℕ) (bs : List ℕ) (i h n : ℕ)
    → slots ≤ length bs
    → h < slots
    → n < slots
    → (h + n) % slots ≡ i
    → window slots (set bs i x) h (suc n) ≡ window slots bs h n ++ (x ∷ [])
unfolding window
window-set slots x bs i h zero fits hh hn e =
    let at : i ≡ h = grind arith in ap (λ b. b ∷ []) (rw at (get_or-set_self x bs h (omega arith)))
window-set slots x bs i h (suc n) fits hh hn e =
    ap₂ ◌∷◌ (get_or-set_ne x bs i h (λ p. round-ne slots h n hh hn (omega arith)))
      (window-set slots x bs i ((h + 1) % slots) n fits (omega arith) (omega arith) (shifted ∙ e))
  where
    shifted : ((h + 1) % slots + n) % slots ≡ (h + suc n) % slots
    shifted = rw mod-add-mod (ap (λ k. k % slots) (omega arith))

-- The window without its first byte is the window that starts one further.
pub drop-window :
    (slots : ℕ) (bs : List ℕ) (h n : ℕ)
    → drop 1 (window slots bs h (suc n)) ≡ window slots bs ((h + 1) % slots) n
unfolding window
drop-window slots bs h n = refl
