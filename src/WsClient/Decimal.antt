-- ===== src/WsClient/Decimal.antt =====
-- The server reads the one-time password that the client prints with `%0*u`.
use native.Mathlib.Nat.{pow-suc, pow-le-pow_right}
use n32r.Prelude.{
  List, [], ap, append_assoc, arith, false, if◌then◌else◌, length, length-append, ltb, refl,
  replicate, some, suc, sym, true, zero, ℕ, ◌%◌, ◌*◌, ◌++◌, ◌+◌, ◌-◌, ◌/◌, ◌<◌, ◌^◌, ◌∙◌, ◌∷◌, ◌≡◌,
  ◌≤◌, tests,
}
use n32r.Server.Headers.{is_digit, parse_decimal_from, parse_decimal_header}
use native.Mathlib.Decide.{dec_lt}
use n32r.Prelude.Words.{u32_mod}

-- The digits of a number below 10 ^ suc `more`, highest first.
unfoldable pub decimal : ℕ → ℕ → List ℕ
decimal zero n = (b'0' + n % 10) ∷ []
decimal (suc more) n =
    let rest = decimal more (n / 10) in
    if ltb n 10 then (b'0' + n) ∷ [] else rest ++ ((b'0' + n % 10) ∷ [])

-- `snprintf` with `%0*u`, whose argument has 32 bits and so ten digits at most.
unfoldable pub print_padded : ℕ → ℕ → List ℕ
print_padded width n = replicate (width - length (decimal 9 n)) b'0' ++ decimal 9 n

-- Exactly `width` digits, leading zeros included.
fixed : ℕ → ℕ → List ℕ
fixed zero n = []
fixed (suc width) n = fixed width (n / 10) ++ ((b'0' + n % 10) ∷ [])

length-fixed : (width n : ℕ) → length (fixed width n) ≡ width
unfolding fixed
length-fixed zero n = refl
length-fixed (suc width) n = omega (
  arith,
  length-append (fixed width (n / 10)) ((b'0' + n % 10) ∷ []),
  length-fixed width (n / 10),
)

replicate-snoc : (k x : ℕ) → replicate k x ++ (x ∷ []) ≡ x ∷ replicate k x
replicate-snoc zero x = refl
replicate-snoc (suc k) x = ap (λ xs. x ∷ xs) (replicate-snoc k x)

fixed-zero : (width : ℕ) → fixed width 0 ≡ replicate width b'0'
unfolding fixed
fixed-zero zero = refl
fixed-zero (suc width) = rw (fixed-zero width) (replicate-snoc width b'0')

-- The padding of `printf`.
abbrev pad : ℕ → List ℕ → List ℕ
pad width digits = replicate (width - length digits) b'0' ++ digits

pad-snoc :
    (width x : ℕ) (digits : List ℕ)
    → pad (suc width) (digits ++ (x ∷ [])) ≡ pad width digits ++ (x ∷ [])
pad-snoc width x digits =
    let n : length (digits ++ (x ∷ [])) ≡ suc (length digits) =
      omega (arith, length-append digits (x ∷ [])) in
    let k : suc width - suc (length digits) ≡ width - length digits = omega arith in
    rw (n, k) (sym (append_assoc (replicate (width - length digits) b'0') digits (x ∷ [])))

decimal_digit : (more n : ℕ) → n < 10 → decimal more n ≡ (b'0' + n) ∷ []
unfolding decimal
decimal_digit zero n lt = let r : n % 10 ≡ n = omega arith in rw r refl
decimal_digit (suc more) n lt = let t : ltb n 10 ≡ true = omega tests in rw t refl

pad_digit : (more width n : ℕ) → n < 10 → pad (suc width) (decimal more n) ≡ fixed (suc width) n
unfolding fixed
pad_digit more width n lt =
    let q : n / 10 ≡ 0 = omega arith in
    let r : n % 10 ≡ n = omega arith in
    let k : suc width - 1 ≡ width = omega arith in
    rw (decimal_digit more n lt, q, r, k, fixed-zero width) refl

pad_long :
    (more width n : ℕ)
    → ¬ (n < 10)
    → pad (suc width) (decimal more (n / 10)) ≡ fixed (suc width) (n / 10)
    → pad (suc (suc width)) (decimal (suc more) n) ≡ fixed (suc (suc width)) n
unfolding decimal fixed
pad_long more width n ge rest =
    let t : ltb n 10 ≡ false = ground arith in
    rw t (
      pad-snoc (suc width) (b'0' + n % 10) (decimal more (n / 10))
      ∙ ap (λ xs. xs ++ ((b'0' + n % 10) ∷ [])) rest)

tenth : (k n : ℕ) → n < 10 ^ suc k → n / 10 < 10 ^ k
tenth k n h = let p : 10 ^ suc k ≡ 10 * 10 ^ k = omega (arith, pow-suc 10 k) in omega arith

pad-decimal :
    (more width n : ℕ)
    → n < 10 ^ suc more
    → n < 10 ^ suc width
    → pad (suc width) (decimal more n) ≡ fixed (suc width) n
pad-decimal zero width n small h = pad_digit zero width n (omega arith)
pad-decimal (suc more) zero n small h = pad_digit (suc more) zero n (omega arith)
pad-decimal (suc more) (suc width) n small h = elim (dec_lt n 10) [
  | yes lt ↦ pad_digit (suc more) (suc width) n lt
  | no ge ↦
      pad_long more width n ge
        (pad-decimal more width (n / 10) (tenth (suc more) n small) (tenth (suc width) n h))
]

below : (width n : ℕ) → width ≤ 8 → n < 10 ^ width → n < 10 ^ 8
below width n hi h = omega (arith, pow-le-pow_right {n = 10} (omega arith) hi)

parse_step :
    (acc c : ℕ) (xs : List ℕ) (v : ℕ)
    → parse_decimal_from acc (c ∷ xs) ≡ some v
    → (is_digit c ≡ true) × (parse_decimal_from ((acc * 10 + (c - b'0')) % u32_mod) xs ≡ some v)
unfolding parse_decimal_from
parse_step acc c xs v h = ground arith

parse_digit :
    (acc c : ℕ) (xs : List ℕ) (v : ℕ)
    → is_digit c ≡ true
    → parse_decimal_from ((acc * 10 + (c - b'0')) % u32_mod) xs ≡ some v
    → parse_decimal_from acc (c ∷ xs) ≡ some v
unfolding parse_decimal_from
parse_digit acc c xs v e h = rw e h

parse-snoc :
    (acc d : ℕ) (xs : List ℕ) {v : ℕ}
    → d < 10
    → parse_decimal_from acc xs ≡ some v
    → parse_decimal_from acc (xs ++ ((b'0' + d) ∷ [])) ≡ some ((v * 10 + d) % u32_mod)
unfolding parse_decimal_from is_digit
parse-snoc acc d [] lt h = ground arith
parse-snoc acc d (x ∷ xs) {v} lt h =
    let (e, rest) = parse_step acc x xs v h in
    parse_digit acc x (xs ++ ((b'0' + d) ∷ [])) ((v * 10 + d) % u32_mod) e
      (parse-snoc ((acc * 10 + (x - b'0')) % u32_mod) d xs lt rest)

parse-fixed :
    (width n : ℕ) → n < 10 ^ width → n < u32_mod → parse_decimal_from 0 (fixed width n) ≡ some n
unfolding fixed parse_decimal_from
parse-fixed zero n h small = ap some (omega arith)
parse-fixed (suc width) n h small =
    let e : (n / 10 * 10 + n % 10) % u32_mod ≡ n = omega arith in
    parse-snoc 0 (n % 10) (fixed width (n / 10)) (omega arith)
      (parse-fixed width (n / 10) (tenth width n h) (omega arith))
    ∙ ap some e

-- What `%0*u` prints is `width` digits where the number has no more.
pub print_padded_lem :
    (width n : ℕ)
    → 1 ≤ width
    → width ≤ 8
    → n < 10 ^ width
    → (length (print_padded width n) ≡ width)
      × (parse_decimal_header (print_padded width n) width ≡ some n)
unfolding print_padded parse_decimal_header
print_padded_lem zero n lo hi h = absurd (omega arith)
print_padded_lem (suc width) n lo hi h =
    let small : n < 10 ^ 8 = below (suc width) n hi h in
    let e : pad (suc width) (decimal 9 n) ≡ fixed (suc width) n =
      pad-decimal 9 width n (omega arith) h in
    rw e (
      length-fixed (suc width) n,
      ground (arith, length-fixed (suc width) n, parse-fixed (suc width) n h (omega arith)),
    )
