-- ===== src/Util/Crc32.antt =====
-- common/proto/proto_crc32.c, the checksum of a message.
use n32r.Prelude.Bytes.{codes}
use n32r.Prelude.{
  bit_xor, List, [], bit_xor, if◌then◌else◌, refl, suc, zero, ℕ, ◌%◌, ◌-◌, ◌/◌, ◌==◌, ◌∷◌, ◌≡◌,
}

-- One bit, with the reflected polynomial.
unfoldable pub crc32_bit : ℕ → ℕ
crc32_bit crc = if crc % 2 == 1 then bit_xor (crc / 2) 3988292384 else crc / 2

unfoldable pub crc32_bits : ℕ → ℕ → ℕ
crc32_bits zero crc = crc
crc32_bits (suc n) crc = crc32_bits n (crc32_bit crc)

unfoldable pub crc32_from : List ℕ → ℕ → ℕ
crc32_from [] crc = crc
crc32_from (byte ∷ bytes) crc = crc32_from bytes (crc32_bits 8 (bit_xor crc byte))

unfoldable pub proto_crc32 : List ℕ → ℕ
proto_crc32 bytes = 4294967295 - crc32_from bytes 4294967295

-- The published check value.
crc32_check : proto_crc32 (codes "123456789") ≡ 3421780262
unfolding proto_crc32 crc32_from crc32_bits crc32_bit
crc32_check = refl
