-- ===== src/Proto/Tinycbor/Items.antt =====
-- What a reader of CBOR does, in terms of items, and the steps of the decoders' loops.
use n32r.Prelude.{Bool, List, [], false, length, some, suc, true, ℕ, ◌∷◌, ◌≡◌, ◌≤◌}
use n32r.Proto.Document.{Document, num, real, str, bool, arr, obj, Fields, end, field}
use n32r.Proto.Tinycbor.{Reader, Read, read, loop}

-- The items of a map: each name before its value.
unfoldable pub flat : Fields → List Document
flat end = []
flat (field name x fs) = str name ∷ (x ∷ flat fs)

abbrev pub is_nil : List Document → Bool
is_nil [] = true
is_nil (x ∷ xs) = false

abbrev pub is_str : Document → Bool
is_str (num n) = false
is_str (real text) = false
is_str (str s) = true
is_str (bool b) = false
is_str (arr xs) = false
is_str (obj fs) = false

-- What TinyCBOR documents, in terms of the items that a position has before it in its container, and of those behind
-- each container that it is in. `advance` goes over an item, where there is one; a map is entered; a container whose
-- items are gone over is left to what is behind it; and a string that fits is copied and gone over. Nothing is
-- said of other calls.
pub record IsReader {V Double : Type 0} (r : Reader V Double) (rest : V → List Document)
    (outer : V → List (List Document)) : Type 0 where
  pub end_lem : (v : V) → r.at_end v ≡ is_nil (rest v)
  pub advance_lem :
      (v : V) (x : Document) (after : List Document)
      → rest v ≡ x ∷ after
      → (rest (r.advance v) ≡ after) × (outer (r.advance v) ≡ outer v)
  pub enter_lem :
      (v : V) (fs : Fields) (after : List Document)
      → rest v ≡ obj fs ∷ after
      → (inner : V) × (r.enter_container v ≡ some inner)
        × (rest inner ≡ flat fs)
        × (outer inner ≡ after ∷ outer v)
  pub leave_lem :
      (v inner : V) (fs : Fields) (after : List Document)
      → rest v ≡ obj fs ∷ after
      → rest inner ≡ []
      → outer inner ≡ after ∷ outer v
      → rest (r.leave_container v inner) ≡ after
  pub text_lem :
      (v : V) (s : List ℕ) (after : List Document) (size : ℕ)
      → rest v ≡ str s ∷ after
      → length s ≤ size
      → (v' : V) × (r.copy_text_string size v ≡ (true, (s, v')))
        × (rest v' ≡ after)
        × (outer v' ≡ outer v)
  pub uint_lem :
      (v : V) (n : ℕ) (after : List Document) → rest v ≡ num n ∷ after → r.get_uint64 v ≡ some n

module _ {V S : Type 0} (at_end : V → Bool) (more : S → Bool) (body : V → S → Read (V × S)) where
  pub loop_step :
      (n : ℕ) (v v' : V) (s s' : S)
      → at_end v ≡ false
      → more s ≡ true
      → body v s ≡ read (v', s')
      → loop (suc n) at_end more body v s ≡ loop n at_end more body v' s'
  unfolding loop
  loop_step n v v' s s' a b c = simp (a, b, c)

  pub loop_end :
      (n : ℕ) (v : V) (s : S) → at_end v ≡ true → loop (suc n) at_end more body v s ≡ read (v, s)
  unfolding loop
  loop_end n v s a = simp (a)
