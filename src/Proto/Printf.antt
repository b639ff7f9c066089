-- ===== src/Proto/Printf.antt =====
-- The conversions of printf that messages.c uses, and `json_append`, which prints to the rest of a buffer.
use n32r.Prelude.{
  ℕ, zero, suc, ◌+◌, ◌-◌, ◌/◌, ◌%◌, ◌<◌, ◌≡◌, Option, none, some, List, [], ◌∷◌, ◌++◌, length, ltb,
  if◌then◌else◌, arith, append-nil, append_assoc, length-append,
}

-- The digits before those that are there; a word of 32 bits has ten at most.
unfoldable pub digits_from : ℕ → ℕ → List ℕ → List ℕ
digits_from zero n out = out
digits_from (suc left) n out =
    let out' = (b'0' + n % 10) ∷ out in
    let rest = digits_from left (n / 10) out' in if ltb n 10 then out' else rest

-- `%u`
unfoldable pub decimal : ℕ → List ℕ
decimal n = digits_from 10 n []

abbrev pub hex_digit : ℕ → ℕ
hex_digit n = if ltb n 10 then b'0' + n else b'A' + (n - 10)

-- `%02X` of each byte.
unfoldable pub hex : List ℕ → List ℕ
hex [] = []
hex (byte ∷ bytes) = hex_digit (byte / 16) ∷ (hex_digit (byte % 16) ∷ hex bytes)

-- What stands before the cursor, and the room behind it.
pub record Cursor : Type 0 where
  pub text : List ℕ
  pub remaining : ℕ

-- The last byte of the room is for the terminator.
unfoldable pub json_append : List ℕ → Cursor → Option Cursor
json_append printed cursor =
    if ltb (length printed) cursor.remaining
    then some
        (record { text = cursor.text ++ printed; remaining = cursor.remaining - length printed })
    else none

-- Calls one after the other; the first that fails ends the function.
unfoldable pub append_all : List (List ℕ) → Cursor → Option Cursor
append_all [] cursor = some cursor
append_all (printed ∷ later) cursor = elim (json_append printed cursor) [
  | none ↦ none
  | some cursor' ↦ append_all later cursor'
]

unfoldable pub concat : List (List ℕ) → List ℕ
concat [] = []
concat (xs ∷ xss) = xs ++ concat xss

-- Where there is room, the calls succeed if and only if all that they print fits with the terminator.
pub append_all_lem :
    (calls : List (List ℕ)) (cursor : Cursor)
    → 0 < cursor.remaining
    → append_all calls cursor ≡ (
        if ltb (length (concat calls)) cursor.remaining
        then some (record {
          text = cursor.text ++ concat calls;
          remaining = cursor.remaining - length (concat calls);
        })
        else none)
unfolding append_all json_append concat
append_all_lem [] cursor room = simp append-nil (ground arith)
append_all_lem (printed ∷ later) cursor room =
    let cursor' : Cursor = record {
      text = cursor.text ++ printed;
      remaining = cursor.remaining - length printed;
    } in
    ground (
      arith,
      append_all_lem later cursor',
      length-append printed (concat later),
      append_assoc cursor.text printed (concat later),
    )
