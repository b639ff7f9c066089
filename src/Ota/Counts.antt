-- ===== src/Ota/Counts.antt =====
-- Counts of what the update task does: handles begun, handles closed, restarts.
use n32r.Prelude.{
  Bool-cases, List, [], arith, if◌then◌else◌, inl, inr, ltb, refl, replicate, suc, zero, ℕ, ◌++◌,
  ◌+◌, ◌∷◌, ◌≡◌,
}
use n32r.Ota.{Action, begun, aborted, ended, delayed, stored, marked_valid, restarted}

-- The handles that were begun, and those that were aborted or finished.
abbrev pub opened : List Action → ℕ
opened [] = 0
opened (begun ∷ actions) = opened actions + 1
opened (aborted ∷ actions) = opened actions
opened (ended ∷ actions) = opened actions
opened (delayed ms ∷ actions) = opened actions
opened (stored v ∷ actions) = opened actions
opened (marked_valid ∷ actions) = opened actions
opened (restarted ∷ actions) = opened actions

abbrev pub closed : List Action → ℕ
closed [] = 0
closed (begun ∷ actions) = closed actions
closed (aborted ∷ actions) = closed actions + 1
closed (ended ∷ actions) = closed actions + 1
closed (delayed ms ∷ actions) = closed actions
closed (stored v ∷ actions) = closed actions
closed (marked_valid ∷ actions) = closed actions
closed (restarted ∷ actions) = closed actions

abbrev pub restarts : List Action → ℕ
restarts [] = 0
restarts (begun ∷ actions) = restarts actions
restarts (aborted ∷ actions) = restarts actions
restarts (ended ∷ actions) = restarts actions
restarts (delayed ms ∷ actions) = restarts actions
restarts (stored v ∷ actions) = restarts actions
restarts (marked_valid ∷ actions) = restarts actions
restarts (restarted ∷ actions) = restarts actions + 1

-- What is counted adds up.
pub counts-append :
    (xs ys : List Action)
    → (opened (xs ++ ys) ≡ opened xs + opened ys)
      × (closed (xs ++ ys) ≡ closed xs + closed ys)
      × (restarts (xs ++ ys) ≡ restarts xs + restarts ys)
counts-append [] ys = (omega arith, omega arith, omega arith)
counts-append (begun ∷ xs) ys =
    (let (a, b, d) = counts-append xs ys in (omega arith, omega arith, omega arith))
counts-append (aborted ∷ xs) ys =
    (let (a, b, d) = counts-append xs ys in (omega arith, omega arith, omega arith))
counts-append (ended ∷ xs) ys =
    (let (a, b, d) = counts-append xs ys in (omega arith, omega arith, omega arith))
counts-append (delayed ms ∷ xs) ys =
    (let (a, b, d) = counts-append xs ys in (omega arith, omega arith, omega arith))
counts-append (stored v ∷ xs) ys =
    (let (a, b, d) = counts-append xs ys in (omega arith, omega arith, omega arith))
counts-append (marked_valid ∷ xs) ys =
    (let (a, b, d) = counts-append xs ys in (omega arith, omega arith, omega arith))
counts-append (restarted ∷ xs) ys =
    (let (a, b, d) = counts-append xs ys in (omega arith, omega arith, omega arith))

pub polls_count :
    (n ms : ℕ) (xs : List Action)
    → (opened (replicate n (delayed ms) ++ xs) ≡ opened xs)
      × (closed (replicate n (delayed ms) ++ xs) ≡ closed xs)
      × (restarts (replicate n (delayed ms) ++ xs) ≡ restarts xs)
polls_count zero ms xs = (refl, refl, refl)
polls_count (suc n) ms xs = polls_count n ms xs

pub wait_counts :
    (ms : ℕ) (xs : List Action)
    → (opened ((if ltb 0 ms then delayed ms ∷ [] else []) ++ xs) ≡ opened xs)
      × (closed ((if ltb 0 ms then delayed ms ∷ [] else []) ++ xs) ≡ closed xs)
      × (restarts ((if ltb 0 ms then delayed ms ∷ [] else []) ++ xs) ≡ restarts xs)
wait_counts ms xs = elim (Bool-cases (ltb 0 ms)) [
  | inl e ↦ simp (e) (refl, refl, refl)
  | inr e ↦ simp (e) (refl, refl, refl)
]

-- Actions that are not counted.
abbrev pub Quiet : List Action → Type 0
Quiet xs = (opened xs ≡ 0) × (closed xs ≡ 0) × (restarts xs ≡ 0)

pub delays-Quiet : (n ms : ℕ) → Quiet (replicate n (delayed ms))
delays-Quiet zero ms = (refl, refl, refl)
delays-Quiet (suc n) ms = delays-Quiet n ms

pub Quiet-append : (xs ys : List Action) → Quiet xs → Quiet ys → Quiet (xs ++ ys)
Quiet-append xs ys (a, b, c) (d, e, f) =
    (let (k, l, m) = counts-append xs ys in (omega arith, omega arith, omega arith))
