-- ===== src/Util/Base64.antt =====
-- common/util/base64_utils.c over mbedtls/base64.h, which is a parameter. A C string is the list of
-- its characters before the terminator; pointers are not null.
pub mod Toy
mod Tests
use n32r.Prelude.{
  Bool, Bool-cases, EspErr, List, Option, Option-cases, Result, Result-cases, Status, [], ap,
  append-nil, append_assoc, ap₂, arith, drop, err, esp_fail, false, get_elem?, get_elem?-set_ne,
  get_elem?-set_self, get_or, guard, if◌then◌else◌, inl, inr, invalid_arg, invalid_response,
  invalid_size, invalid_state, invalid_version, leb, length, length-append, length-drop,
  length-replicate, length-set, length-take, ltb, lt→ltb, map, min, no_mem, none, not, ok, refl,
  replicate, set, some, suc, sym, take, take-append-drop, tests, true, zero, ℕ, ◌%◌, ◌&&◌, ◌*◌,
  ◌++◌, ◌+◌, ◌-◌, ◌/◌, ◌<◌, ◌==◌, ◌>>=◌, ◌>>◌, ◌^◌, ◌||◌, ◌↔◌, ◌∙◌, ◌∷◌, ◌≡◌, ◌≢◌, ◌≤◌, ◌⊎◌,
}

-- What `mbedtls_base64_encode` and `mbedtls_base64_decode` return.
pub data Coded : Type 0 where
  done : List ℕ → Coded
  buffer_too_small invalid_character : Coded

pub record Codec : Type 0 where
  -- the room in the output, then the input
  pub encode : ℕ → List ℕ → Coded
  pub decode : ℕ → List ℕ → Coded

-- What the documentation of the two functions promises.
pub record IsCodec (b : Codec) : Type 0 where
  -- What was encoded is decoded again where it fits.
  pub decode-encode :
      (room room' : ℕ) (src out : List ℕ)
      → b.encode room src ≡ done out
      → length src ≤ room'
      → b.decode room' out ≡ done src
  -- Something is encoded as something.
  pub encode_some :
      (room : ℕ) (src out : List ℕ) → b.encode room src ≡ done out → 0 < length src → 0 < length out

module _ (b : Codec) where
  unfoldable pub decode : List ℕ → ℕ → Result (List ℕ)
  decode encoded out_size =
      if out_size == 0 || length encoded == 0
      then err invalid_arg
      else (elim (b.decode out_size encoded) [
        | buffer_too_small ↦ err no_mem
        | invalid_character ↦ err esp_fail
        | done out ↦ ok out
      ])

  -- The terminator needs one more byte.
  unfoldable pub encode : List ℕ → ℕ → Result (List ℕ)
  encode input out_size =
      if out_size == 0 then err invalid_arg else (elim (b.encode out_size input) [
        | buffer_too_small ↦ err no_mem
        | invalid_character ↦ err esp_fail
        | done out ↦ if leb out_size (length out) then err no_mem else ok out
      ])

  -- What `base64_utils_encode` returns, `base64_utils_decode` reads back into a buffer that is large
  -- enough, and its terminator fits.
  pub decode-encode :
      IsCodec b
      → (input : List ℕ) (out_size room : ℕ) (out : List ℕ) → 0 < length input
      → length input ≤ room
      → encode input out_size ≡ ok out
      → (length out < out_size) × (decode out room ≡ ok input)
  unfolding encode decode
  decode-encode laws input out_size room out some_input fits h =
      let e : b.encode out_size input ≡ done out = ground arith in
      (
        ground arith,
        ground (
          arith,
          laws.decode-encode out_size room input out e fits,
          laws.encode_some out_size input out e some_input,
        ),
      )
