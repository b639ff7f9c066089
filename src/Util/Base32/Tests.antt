-- ===== src/Util/Base32/Tests.antt =====
-- Tests of the Base32 decoder.
use n32r.Prelude.{◌≡◌, refl, [], ◌∷◌, ok}
use n32r.Prelude.Bytes.{codes}
use n32r.Util.Base32.{decode_char, push, decode_from, decode}

decode_foob : decode (codes "MZXW 6YQ=") 4 ≡ ok (102 ∷ 111 ∷ 111 ∷ 98 ∷ [])
unfolding decode decode_from push decode_char
decode_foob = refl
