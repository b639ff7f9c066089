-- ===== src/Util/RingBuf/Contents.antt =====
-- The invariant of `ringbuf_t`, the bytes that a ring holds, and what one round of the write loop
-- does to them.
use n32r.Prelude.{
  ℕ, zero, suc, ◌+◌, ◌-◌, ◌%◌, ◌≤◌, ◌<◌, min, ◌≡◌, refl, sym, ap, ◌∙◌, ◌⊎◌, inl, inr, true, false,
  List, [], ◌∷◌, ◌++◌, arith, length, set, drop, length-set, length-append, length-drop, Bool-cases,
  if◌then◌else◌,
}
use n32r.Prelude.Words.{u32_mod, add32}
use n32r.Util.RingBuf.{RingBuf, size, put}
use n32r.Util.RingBuf.Window.{window, length-window, drop-window, window-set, round_cases}

-- A ring with no room keeps its initial indices.
pub record IsValid (rb : RingBuf) : Type 0 where
  pub storage : rb.capacity ≤ length rb.buffer
  pub small : rb.capacity < u32_mod
  pub head_in : (rb.head < rb.capacity) ⊎ ((rb.capacity ≡ 0) × (rb.head ≡ 0))
  pub tail_in : (rb.tail < rb.capacity) ⊎ ((rb.capacity ≡ 0) × (rb.tail ≡ 0))
  pub full_at : rb.full ≡ true → (rb.head ≡ rb.tail) × (0 < rb.capacity)

-- The bytes held, oldest first.
abbrev pub contents : RingBuf → List ℕ
contents rb = window rb.capacity rb.buffer rb.tail (size rb)

-- The specification: the last `n` bytes of a list.
abbrev pub keep_last : ℕ → List ℕ → List ℕ
keep_last n xs = drop (length xs - n) xs

pub size-le : {rb : RingBuf} → IsValid rb → size rb ≤ rb.capacity
unfolding size
size-le v = ground arith

-- Where the next byte goes.
pub head_at :
    {rb : RingBuf} → IsValid rb → 0 < rb.capacity → (rb.tail + size rb) % rb.capacity ≡ rb.head
unfolding size
head_at v pos = grind arith

pub size_full : (rb : RingBuf) → rb.full ≡ true → size rb ≡ rb.capacity
unfolding size
size_full rb e = rw e

pub size_partly :
    {rb : RingBuf} → IsValid rb → rb.full ≡ false → 0 < rb.capacity → size rb < rb.capacity
unfolding size
size_partly v e pos = ground arith

pub size-put :
    {rb : RingBuf} (x : ℕ)
    → IsValid rb
    → 0 < rb.capacity
    → size (put rb x) ≡ min (size rb + 1) rb.capacity
unfolding put size
size-put {rb} x v pos =
    ground (arith, round_cases rb.capacity rb.head, round_cases rb.capacity rb.tail)

pub put-IsValid : {rb : RingBuf} (x : ℕ) → IsValid rb → 0 < rb.capacity → IsValid (put rb x)
unfolding put
put-IsValid {rb} x v pos = ground (
  arith,
  length-set rb.buffer rb.head x,
  round_cases rb.capacity rb.head,
  round_cases rb.capacity rb.tail,
)

drop-append : (n : ℕ) (xs ys : List ℕ) → n ≤ length xs → drop n (xs ++ ys) ≡ drop n xs ++ ys
drop-append zero xs ys h = refl
drop-append (suc n) [] ys h = elim h [ ]
drop-append (suc n) (x ∷ xs) ys h = drop-append n xs ys (omega arith)

drop-nil : (n : ℕ) → drop {A = ℕ} n [] ≡ []
drop-nil zero = refl
drop-nil (suc n) = refl

suc-add : (n m : ℕ) → suc (n + m) ≡ suc n + m
suc-add n m = omega arith

drop-drop : (m n : ℕ) (xs : List ℕ) → drop m (drop n xs) ≡ drop (n + m) xs
drop-drop m zero xs = ap (λ k. drop k xs) (omega arith)
drop-drop zero (suc n) [] = sym (drop-nil (suc n + 0))
drop-drop (suc m) (suc n) [] = sym (drop-nil (suc n + suc m))
drop-drop m (suc n) (x ∷ xs) = drop-drop m n xs ∙ ap (λ k. drop k (x ∷ xs)) (suc-add n m)

pub keep_last-append :
    (n : ℕ) (xs ys : List ℕ) → keep_last n (keep_last n xs ++ ys) ≡ keep_last n (xs ++ ys)
keep_last-append n xs ys =
    let d : ℕ = length xs - n in
    rw (← drop-append d xs ys (omega arith)) (
      drop-drop _ d (xs ++ ys)
      ∙ ap (λ k. drop k (xs ++ ys)) (omega (arith, length-drop d (xs ++ ys), length-append xs ys)))

pub keep_last-short : (n : ℕ) (xs : List ℕ) → length xs ≤ n → keep_last n xs ≡ xs
keep_last-short n xs h = let e : length xs - n ≡ 0 = omega arith in rw e

pub capacity-put : (rb : RingBuf) (x : ℕ) → (put rb x).capacity ≡ rb.capacity
unfolding put
capacity-put rb x = refl

buffer-put : (rb : RingBuf) (x : ℕ) → (put rb x).buffer ≡ set rb.buffer rb.head x
unfolding put
buffer-put rb x = refl

tail-put :
    (rb : RingBuf) (x : ℕ)
    → (put rb x).tail ≡ (if rb.full then add32 rb.tail 1 % rb.capacity else rb.tail)
unfolding put
tail-put rb x = refl

pub length-contents : (rb : RingBuf) → length (contents rb) ≡ size rb
length-contents rb = length-window rb.capacity rb.buffer rb.tail (size rb)

put_partly :
    {rb : RingBuf} (x : ℕ)
    → IsValid rb
    → 0 < rb.capacity
    → rb.full ≡ false
    → contents (put rb x) ≡ contents rb ++ (x ∷ [])
put_partly {rb} x v pos e =
    let grown : size (put rb x) ≡ suc (size rb) =
      omega (arith, size-put x v pos, size_partly v e pos) in
    let at : (put rb x).tail ≡ rb.tail = ground (arith, tail-put rb x) in
    rw (grown, capacity-put rb x, buffer-put rb x, at)
      (window-set rb.capacity x rb.buffer rb.head rb.tail (size rb) v.storage (omega arith)
        (size_partly v e pos) (head_at v pos))

put_full :
    {rb : RingBuf} (x : ℕ)
    → IsValid rb
    → 0 < rb.capacity
    → rb.full ≡ true
    → contents (put rb x) ≡ drop 1 (contents rb) ++ (x ∷ [])
put_full {rb} x v pos e =
    let held : size rb ≡ suc (rb.capacity - 1) = omega (arith, size_full rb e) in
    let grown : size (put rb x) ≡ suc (rb.capacity - 1) = omega (arith, size-put x v pos) in
    let at : (put rb x).tail ≡ (rb.tail + 1) % rb.capacity = ground (arith, tail-put rb x) in
    rw (grown, held, capacity-put rb x, buffer-put rb x, at, drop-window)
      (window-set rb.capacity x rb.buffer rb.head ((rb.tail + 1) % rb.capacity) (rb.capacity - 1)
        v.storage (omega arith) (omega arith) (grind arith))

pub put_lem :
    {rb : RingBuf} (x : ℕ)
    → IsValid rb
    → 0 < rb.capacity
    → contents (put rb x) ≡ keep_last rb.capacity (contents rb ++ (x ∷ []))
put_lem {rb} x v pos = elim (Bool-cases rb.full) [
  | inl e ↦
      put_full x v pos e
      ∙ sym
          (drop-append 1 (contents rb) (x ∷ []) (omega (arith, length-contents rb, size_full rb e)))
      ∙ ap (λ k. drop k (contents rb ++ (x ∷ []))) {x = 1}
          (omega (arith, size_full rb e, length-contents rb, length-append (contents rb) (x ∷ [])))
  | inr e ↦
      put_partly x v pos e
      ∙ sym (
          keep_last-short rb.capacity (contents rb ++ (x ∷ [])) (
            omega (
              arith,
              size_partly v e pos,
              length-contents rb,
              length-append (contents rb) (x ∷ []),
            )))
]
