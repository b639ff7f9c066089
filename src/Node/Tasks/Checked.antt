-- ===== src/Node/Tasks/Checked.antt =====
-- Accesses to the arrays of a task. `none` is an access that is out of bounds.
use n32r.Prelude.{
  ℕ, zero, suc, ◌≡◌, ◌≤◌, ◌<◌, refl, arith, Option, none, some, List, [], ◌∷◌, length, get_elem?,
}

infixl 5 ◌>>=◌
abbrev pub ◌>>=◌ {ℓ κ} : {A : Type ℓ} {B : Type κ} → Option A → (A → Option B) → Option B
none >>= next = none
some a >>= next = next a

-- `xs[i] = v`
abbrev pub put {ℓ} : {A : Type ℓ} → List A → ℕ → A → Option (List A)
put [] i v = none
put (x ∷ xs) zero v = some (v ∷ xs)
put (x ∷ xs) (suc i) v = put xs i v >>= λ xs'. some (x ∷ xs')

-- The first elements, for a callee that reads so many.
abbrev pub first_of {ℓ} : {A : Type ℓ} → ℕ → List A → Option (List A)
first_of zero xs = some []
first_of (suc n) [] = none
first_of (suc n) (x ∷ xs) = first_of n xs >>= λ ys. some (x ∷ ys)

-- Nothing is out of bounds, and the result has the property.
abbrev pub Always {ℓ} : {A : Type ℓ} → (A → Type 0) → Option A → Type 0
Always P none = ⊥
Always P (some a) = P a

pub bind-Always {ℓ κ} :
    {A : Type ℓ} {B : Type κ} (P : A → Type 0) (Q : B → Type 0) (o : Option A)
    → Always P o
    → (f : A → Option B) → ((a : A) → P a → Always Q (f a))
    → Always Q (o >>= f)
bind-Always P Q none h f g = absurd h
bind-Always P Q (some a) h f g = g a h

-- The result has the property, if nothing is out of bounds.
abbrev pub Whenever {ℓ} : {A : Type ℓ} → (A → Type 0) → Option A → Type 0
Whenever P none = Unit {0}
Whenever P (some a) = P a

pub bind-Whenever {ℓ κ} :
    {A : Type ℓ} {B : Type κ} (P : A → Type 0) (Q : B → Type 0) (o : Option A)
    → Whenever P o
    → (f : A → Option B) → ((a : A) → P a → Whenever Q (f a))
    → Whenever Q (o >>= f)
bind-Whenever P Q none h f g = tt
bind-Whenever P Q (some a) h f g = g a h

pub any-Whenever {ℓ} : {A : Type ℓ} (o : Option A) → Whenever (λ a. Unit {0}) o
any-Whenever none = tt
any-Whenever (some a) = tt

pub get_elem?-Always :
    {A : Type 0} (xs : List A) (i : ℕ)
    → i < length xs
    → Always (λ v. get_elem? xs i ≡ some v) (get_elem? xs i)
get_elem?-Always [] i h = omega arith
get_elem?-Always (x ∷ xs) zero h = refl
get_elem?-Always (x ∷ xs) (suc i) h = get_elem?-Always xs i (omega arith)

pub put-Always {ℓ} :
    {A : Type ℓ} (xs : List A) (i : ℕ) (v : A)
    → i < length xs
    → Always (λ ys. length ys ≡ length xs) (put xs i v)
put-Always [] i v h = omega arith
put-Always (x ∷ xs) zero v h = refl
put-Always (x ∷ xs) (suc i) v h =
    bind-Always (λ ys. length ys ≡ length xs) (λ ys. length ys ≡ suc (length xs)) (put xs i v)
      (put-Always xs i v (omega arith)) _ (λ ys e. omega arith)

pub first_of-Always {ℓ} :
    {A : Type ℓ} (n : ℕ) (xs : List A)
    → n ≤ length xs
    → Always (λ ys. length ys ≡ n) (first_of n xs)
first_of-Always zero xs h = refl
first_of-Always (suc n) [] h = omega arith
first_of-Always (suc n) (x ∷ xs) h =
    bind-Always (λ ys. length ys ≡ n) (λ ys. length ys ≡ suc n) (first_of n xs)
      (first_of-Always n xs (omega arith)) _ (λ ys e. omega arith)
