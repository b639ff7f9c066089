-- ===== src/Proto/Tinycbor.antt =====
-- messages.c, the decoders of CBOR. What the code calls of TinyCBOR is a parameter. A loop over a container has a
-- bound on its rounds; `unfinished` is a loop that has used them up.
pub mod Command
pub mod Sensor
pub mod Items
pub mod Laws
use n32r.Prelude.{ℕ, zero, suc, Bool, true, false, Option, none, some, List, if◌then◌else◌}
use n32r.Prelude.Bytes.{codes, bytes_eq}
use Prim.Native.String.{String}

-- Positions in a message. The status of a call is given where the code reads it. A string is copied to a buffer of
-- some size: the status, the text there and the position after it. A number that cannot be read stays 0.
pub record Reader (V Double : Type 0) : Type 0 where
  pub parser_init : List ℕ → Option V
  pub is_map : V → Bool
  pub enter_container : V → Option V
  pub at_end : V → Bool
  pub copy_text_string : ℕ → V → Bool × (List ℕ × V)
  pub get_uint64 : V → Option ℕ
  pub get_boolean : V → Option Bool
  pub get_double : V → Double
  pub leave_container : V → V → V
  pub advance : V → V

-- What a part of a decoder does: it goes on, or the decoder returns false.
pub data Read {ℓ} (A : Type ℓ) : Type ℓ where
  read : A → Read A
  failed : Read A
  unfinished : Read A

infixl 5 ◌>>=◌
abbrev pub ◌>>=◌ {ℓ κ} : {A : Type ℓ} {B : Type κ} → Read A → (A → Read B) → Read B
read a >>= next = next a
failed >>= next = failed
unfinished >>= next = unfinished

-- A call whose failure ends the decoder.
abbrev pub tried {ℓ} : {A : Type ℓ} → Option A → Read A
tried none = failed
tried (some a) = read a

-- `while (!at_end(v) && more(s))` over the position and what is decoded so far.
unfoldable pub loop :
    {V S : Type 0} → ℕ → (V → Bool) → (S → Bool) → (V → S → Read (V × S)) → V → S → Read (V × S)
loop zero at_end more body v s = unfinished
loop (suc fuel) at_end more body v s =
    if at_end v
    then read (v, s)
    else (if more s
        then (body v s >>= λ (v', s'). loop fuel at_end more body v' s')
        else read (v, s))

abbrev pub always : {S : Type 0} → S → Bool
always s = true

abbrev pub is_key : List ℕ → String → Bool
is_key key name = bytes_eq key (codes name)

abbrev pub or_zero : Option ℕ → ℕ
or_zero none = 0
or_zero (some n) = n

module _ {V Double : Type 0} (r : Reader V Double) where
  -- A key that must be a string that fits.
  abbrev pub strict_key : ℕ → V → Read (List ℕ × V)
  strict_key size v =
      let (copied, (key, v')) = r.copy_text_string size v in
      if copied then read (key, v') else failed

  -- A container inside: entered, read by a loop and left; the position after `leave_container`.
  abbrev pub within : {S : Type 0} → ℕ → (S → Bool) → (V → S → Read (V × S)) → V → S → Read (V × S)
  within fuel more body v s = do
    inner ← tried (r.enter_container v)
    (inner', s') ← loop fuel r.at_end more body inner s
    read (r.leave_container v inner', s')

  -- So is a part of the outermost map read; the position moves on once more.
  abbrev pub part : {S : Type 0} → ℕ → (S → Bool) → (V → S → Read (V × S)) → V → S → Read (V × S)
  part fuel more body v s = do (v', s') ← within fuel more body v s; read (r.advance v', s')

  -- The outermost map, or failure.
  unfoldable pub outermost : {S : Type 0} → ℕ → (V → S → Read (V × S)) → List ℕ → S → Read S
  outermost fuel body payload s = elim (r.parser_init payload) [
    | none ↦ failed
    | some root ↦
        if r.is_map root
        then (do
          map ← tried (r.enter_container root)
          (_, s') ← loop fuel r.at_end always body map s
          read s')
        else failed
  ]
