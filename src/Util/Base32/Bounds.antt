-- ===== src/Util/Base32/Bounds.antt =====
-- How many bytes a Base32 string gives.
use n32r.Prelude.{
  ℕ, ◌+◌, ◌*◌, ◌≤◌, ◌<◌, ◌-◌, ◌/◌, ◌%◌, ◌^◌, ◌≡◌, refl, inl, inr, false, List, [], ◌∷◌, arith,
  length, length-append, ◌==◌, if◌then◌else◌, Bool-cases, Option-cases, Result-cases, ok,
}
use mathlib.Core.Bool.{false≢true}
use n32r.Prelude.Words.{u32_mod}
use n32r.Util.Base32.{decode_char, is_space, Decoder, push, decode_from, decode}

-- The characters before the padding that are no spaces.
abbrev pub symbols : List ℕ → ℕ
symbols [] = 0
symbols (c ∷ input) =
    if c == b'=' then 0 else (if is_space c then symbols input else symbols input + 1)

-- The state after `n` symbols.
record After (out_size n : ℕ) (d : Decoder) : Type 0 where
  count : 8 * length d.output + d.bits ≡ 5 * n
  few : d.bits < 8
  room : length d.output ≤ out_size

-- The byte that a round writes.
abbrev byte : ℕ → Decoder → ℕ
byte value d = (d.buffer * 2 ^ 5 % u32_mod + value) / 2 ^ (d.bits + 5 - 8) % 2 ^ 8

module _ (out_size : ℕ) where
  push-After :
      (value n : ℕ) (d : Decoder) {d' : Decoder}
      → After out_size n d
      → push out_size value d ≡ ok d'
      → After out_size (n + 1) d'
  unfolding push
  push-After value n d a h = record {
    count = ground (arith, length-append d.output (byte value d ∷ []));
    few = ground arith;
    room = ground (arith, length-append d.output (byte value d ∷ []));
  }

  -- A round that does not fail, on a symbol.
  round_symbol :
      (c : ℕ) (input : List ℕ) (d : Decoder) {d' : Decoder}
      → (c == b'=') ≡ false
      → is_space c ≡ false
      → decode_from out_size (c ∷ input) d ≡ ok d'
      → (value : ℕ) × (next : Decoder) × (push out_size value d ≡ ok next)
        × (decode_from out_size input next ≡ ok d')
  unfolding decode_from
  round_symbol c input d pad space h = elim (Option-cases (decode_char c)) [
    | inl e ↦ elim (false≢true (ground arith)) [ ]
    | inr (value, e) ↦ elim (Result-cases (push out_size value d)) [
      | inr (code, f) ↦ elim (false≢true (ground arith)) [ ]
      | inl (next, f) ↦ (value, next, f, ground arith)
    ]
  ]

  After-same :
      {n n' : ℕ} {d d' : Decoder}
      → n ≡ n'
      → ok d ≡ ok d'
      → After out_size n d
      → After out_size n' d'
  After-same e h a = record {
    count = ground (arith, a.count);
    few = ground (arith, a.few);
    room = ground (arith, a.room);
  }

  decode_from-After :
      (input : List ℕ) (n : ℕ) (d : Decoder) {d' : Decoder}
      → After out_size n d
      → decode_from out_size input d ≡ ok d'
      → After out_size (n + symbols input) d'
  unfolding decode_from
  decode_from-After [] n d a h = After-same (omega arith) h a
  decode_from-After (c ∷ input) n d a h = elim (Bool-cases (c == b'=')) [
    | inl pad ↦ After-same (ground arith) (ground arith) a
    | inr char ↦ elim (Bool-cases (is_space c)) [
      | inl space ↦ After-same (ground arith) refl (decode_from-After input n d a (ground arith))
      | inr symbol ↦
          let (value, next, p, q) = round_symbol c input d char symbol h in
          After-same (ground arith) refl
            (decode_from-After input (n + 1) next (push-After value n d a p) q)
    ]
  ]

-- The decoder returns no more than `out_size` bytes, and these are the whole bytes in the five bits
-- of each symbol before the padding.
pub length-decode :
    (input : List ℕ) (out_size : ℕ) (out : List ℕ)
    → decode input out_size ≡ ok out
    → (length out ≤ out_size)
      × (8 * length out ≤ 5 * symbols input)
      × (5 * symbols input < 8 * length out + 8)
unfolding decode
length-decode input out_size out h =
    elim (Result-cases
      (decode_from out_size input (record { buffer = 0; bits = 0; output = [] }))) [
        | inl (d, e) ↦
            let a =
              decode_from-After out_size input 0 (record { buffer = 0; bits = 0; output = [] })
                (record { count = refl; few = omega arith; room = omega arith }) e in
            (ground (arith, a.room), ground (arith, a.count), ground (arith, a.count, a.few))
        | inr (code, e) ↦ elim (false≢true (ground arith)) [ ]
      ]
