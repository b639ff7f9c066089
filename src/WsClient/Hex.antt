-- ===== src/WsClient/Hex.antt =====
-- The server reads the nonce that the client prints.
use n32r.Prelude.{
  ℕ, zero, suc, ◌/◌, ◌%◌, ◌^◌, ◌<◌, ◌≡◌, refl, sym, ap, ◌∙◌, List, [], ◌∷◌, some, arith, length,
  get_or,
}
use n32r.Prelude.Bytes.{codes}
use n32r.Security.{nonce_len}
use n32r.Server.Headers.{hex_value, parse_hex, parse_nonce_hex}
use n32r.WsClient.{bytes_to_hex}

-- Every element is a byte.
abbrev pub AllBytes : List ℕ → Type 0
AllBytes [] = Unit
AllBytes (byte ∷ bytes) = (byte < 2 ^ 8) × AllBytes bytes

abbrev digit : ℕ → ℕ
digit n = get_or (codes "0123456789abcdef") n 0

hex_value-digit : (n : ℕ) → n < 16 → hex_value (digit n) ≡ n
unfolding hex_value
hex_value-digit zero h = refl
hex_value-digit (suc zero) h = refl
hex_value-digit (suc (suc zero)) h = refl
hex_value-digit (suc (suc (suc zero))) h = refl
hex_value-digit (suc (suc (suc (suc zero)))) h = refl
hex_value-digit (suc (suc (suc (suc (suc zero))))) h = refl
hex_value-digit (suc (suc (suc (suc (suc (suc zero)))))) h = refl
hex_value-digit (suc (suc (suc (suc (suc (suc (suc zero))))))) h = refl
hex_value-digit (suc (suc (suc (suc (suc (suc (suc (suc zero)))))))) h = refl
hex_value-digit (suc (suc (suc (suc (suc (suc (suc (suc (suc zero))))))))) h = refl
hex_value-digit (suc (suc (suc (suc (suc (suc (suc (suc (suc (suc zero)))))))))) h = refl
hex_value-digit (suc (suc (suc (suc (suc (suc (suc (suc (suc (suc (suc zero))))))))))) h = refl
hex_value-digit (suc (suc (suc (suc (suc (suc (suc (suc (suc (suc (suc (suc zero)))))))))))) h =
    refl
hex_value-digit (suc (suc (suc (suc (suc (suc (suc (suc (suc (suc (suc (suc (suc zero)))))))))))))
      h =
    refl
hex_value-digit
      (suc (suc (suc (suc (suc (suc (suc (suc (suc (suc (suc (suc (suc (suc zero)))))))))))))) h =
    refl
hex_value-digit
      (suc (suc (suc (suc (suc (suc (suc (suc (suc (suc (suc (suc (suc (suc (suc zero)))))))))))))))
      h =
    refl
hex_value-digit
      (suc
        (suc (suc (suc (suc (suc (suc (suc (suc (suc (suc (suc (suc (suc (suc (suc n))))))))))))))))
      h =
    absurd (omega arith)

parse_pair :
    (n h l byte : ℕ) (hex bytes : List ℕ)
    → hex_value h ≡ byte / 2 ^ 4
    → hex_value l ≡ byte % 2 ^ 4
    → byte < 2 ^ 8
    → parse_hex n hex ≡ some bytes
    → parse_hex (suc n) (h ∷ (l ∷ hex)) ≡ some (byte ∷ bytes)
unfolding parse_hex
parse_pair n h l byte hex bytes e e' small rest = ground arith

parse_hex-bytes_to_hex :
    (bytes : List ℕ) → AllBytes bytes → parse_hex (length bytes) (bytes_to_hex bytes) ≡ some bytes
unfolding bytes_to_hex parse_hex
parse_hex-bytes_to_hex [] small = refl
parse_hex-bytes_to_hex (byte ∷ bytes) (lt, small) =
    parse_pair (length bytes) (digit (byte / 2 ^ 4)) (digit (byte % 2 ^ 4)) byte
      (bytes_to_hex bytes) bytes (hex_value-digit (byte / 2 ^ 4) (omega arith))
      (hex_value-digit (byte % 2 ^ 4) (omega arith)) lt (parse_hex-bytes_to_hex bytes small)

-- The server's `parse_nonce_hex` gives back the nonce of 16 bytes that the client's `bytes_to_hex`
-- has printed.
pub parse_nonce_hex-bytes_to_hex :
    (nonce : List ℕ)
    → AllBytes nonce
    → length nonce ≡ nonce_len
    → parse_nonce_hex (bytes_to_hex nonce) ≡ some nonce
unfolding parse_nonce_hex
parse_nonce_hex-bytes_to_hex nonce small size =
    ap (λ n. parse_hex n (bytes_to_hex nonce)) (sym size) ∙ parse_hex-bytes_to_hex nonce small
