-- ===== src/Util/Base32.antt =====
-- common/util/base32_utils.c. A C string is its characters before the terminator; pointers are not
-- null.
pub mod Bounds
mod Tests
use n32r.Prelude.{
  ℕ, zero, suc, ◌+◌, ◌-◌, ◌*◌, ◌/◌, ◌%◌, ◌^◌, Bool, true, false, not, ◌&&◌, ◌||◌, Option, none,
  some, List, [], ◌∷◌, ◌++◌, length, leb, ltb, ◌==◌, if◌then◌else◌, EspErr, no_mem, invalid_arg,
  invalid_size, Result, ok, err,
}
use n32r.Prelude.Words.{u32_mod}

-- `none` is -1.
unfoldable pub decode_char : ℕ → Option ℕ
decode_char c =
    if leb b'A' c && leb c b'Z'
    then some (c - b'A')
    else (if leb b'a' c && leb c b'z'
        then some (c - b'a')
        else (if leb b'2' c && leb c b'7' then some (c - b'2' + 26) else none))

-- `isspace` of the C locale.
abbrev pub is_space : ℕ → Bool
is_space c = c == b' ' || leb 9 c && leb c 13

-- The variables of the loop: the bits that are not written yet are the last `bits` of `buffer`.
pub record Decoder : Type 0 where
  pub buffer : ℕ
  pub bits : ℕ
  pub output : List ℕ

-- What a round does with the value of its character.
unfoldable pub push : ℕ → ℕ → Decoder → Result Decoder
push out_size value d =
    let buffer = d.buffer * 2 ^ 5 % u32_mod + value in
    let bits = d.bits + 5 in
    if ltb bits 8
    then ok (record { buffer = buffer; bits = bits; output = d.output })
    else (if leb out_size (length d.output)
        then err no_mem
        else ok (record {
          buffer = buffer;
          bits = bits - 8;
          output = d.output ++ (buffer / 2 ^ (bits - 8) % 2 ^ 8 ∷ []);
        }))

unfoldable pub decode_from : ℕ → List ℕ → Decoder → Result Decoder
decode_from out_size [] d = ok d
decode_from out_size (c ∷ input) d =
    if c == b'='
    then ok d
    else (if is_space c then decode_from out_size input d else (elim (decode_char c) [
      | none ↦ err invalid_arg
      | some value ↦ elim (push out_size value d) [
        | err e ↦ err e
        | ok d' ↦ decode_from out_size input d'
      ]
    ]))

unfoldable pub decode : List ℕ → ℕ → Result (List ℕ)
decode input out_size =
    elim (decode_from out_size input (record { buffer = 0; bits = 0; output = [] })) [
      | err e ↦ err e
      | ok d ↦
          if ltb 0 d.bits && not (d.buffer % 2 ^ d.bits == 0) then err invalid_size else ok d.output
    ]
