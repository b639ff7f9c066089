-- ===== src/Util/Base64/Tests.antt =====
-- Tests of the Base64 wrappers.
use n32r.Prelude.{◌≡◌, refl, [], ◌∷◌, ok}
use n32r.Util.Base64.{encode}
use n32r.Util.Base64.Toy.{copying}

encode_copy : encode copying (1 ∷ 2 ∷ []) 3 ≡ ok (1 ∷ 2 ∷ [])
unfolding encode
encode_copy = refl
