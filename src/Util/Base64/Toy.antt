-- ===== src/Util/Base64/Toy.antt =====
-- A concrete codec for tests, which copies what fits.
use n32r.Prelude.{ℕ, arith, List, length, leb, if◌then◌else◌}
use n32r.Util.Base64.{Codec, Coded, done, buffer_too_small, IsCodec}

abbrev pub copy : ℕ → List ℕ → Coded
copy room src = if leb (length src) room then done src else buffer_too_small

abbrev pub copying : Codec
copying = record { encode = copy; decode = copy }

pub copying-IsCodec : IsCodec copying
copying-IsCodec = record {
  decode-encode = λ room room' src out e fits. ground arith;
  encode_some = λ room src out e some_input. ground arith;
}
