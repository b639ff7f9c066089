-- ===== src/Security/Tests.antt =====
-- Tests of the endpoint's security, over the toy cipher.
use n32r.Prelude.{ℕ, ◌≡◌, refl, some, List, [], ◌∷◌, ◌++◌, true, arith, length, take, replicate, ok}
use n32r.Prelude.Bytes.{le_bytes, le_value, bytes_eq}
use n32r.Crypto.Toy.{toy, toy-IsCrypto, digest}
use n32r.Security.{
  Config, Context, zeroed, context_init, derive_key, encrypt, decrypt, open_frame, encrypted_size,
  compute_handshake_signature,
}
use n32r.Security.Frame.{header, frame, decrypt-encrypt}

abbrev config : Config
config = record {
  secret = 1 ∷ 2 ∷ [];
  enable_encryption = true;
  enable_handshake = true;
  enable_totp = true;
  totp_secret = 9 ∷ [];
  totp_period_s = 30;
  totp_digits = 6;
  totp_window = 1;
}

abbrev ctx : Context
ctx = record {
  handshake_enabled = true;
  encryption_enabled = true;
  totp_enabled = true;
  handshake_key =
      take 32 (
        1
        ∷ 2
        ∷ 119
        ∷ 115
        ∷ 45
        ∷ 104
        ∷ 97
        ∷ 110
        ∷ 100
        ∷ 115
        ∷ 104
        ∷ 97
        ∷ 107
        ∷ 101
        ∷ replicate 18 0);
  frame_key = take 32 (1 ∷ 2 ∷ 119 ∷ 115 ∷ 45 ∷ 102 ∷ 114 ∷ 97 ∷ 109 ∷ 101 ∷ replicate 22 0);
  tx_counter = 0;
  totp_secret = 9 ∷ [];
  totp_period_s = 30;
  totp_digits = 6;
  totp_window = 1;
}

init_config : context_init toy (some config) ≡ (ok tt, ctx)
unfolding context_init derive_key zeroed digest
init_config = refl

abbrev iv : List ℕ
iv = replicate 12 5

abbrev text : List ℕ
text = 7 ∷ 8 ∷ []

abbrev tag : List ℕ
tag = digest 16 ctx.frame_key (header 1 ++ text)

decrypt-encrypt_example :
    (f : List ℕ) × (encrypt toy iv ctx text 64 ≡ (ok f, record ctx { tx_counter = 1 }))
    × (length f ≡ encrypted_size ctx (length text))
    × (decrypt toy ctx f (some 0) ≡ ok (text, some 1))
unfolding encrypted_size
decrypt-encrypt_example =
    decrypt-encrypt toy-IsCrypto ctx ctx iv text text tag 64 0 refl refl refl refl (omega arith)
      (omega arith) (omega arith) refl (omega arith)

abbrev f1 : List ℕ
f1 = frame 1 iv text (take 16 ctx.frame_key)

opened : decrypt toy ctx f1 (some 0) ≡ ok (text, some 1)
unfolding decrypt digest open_frame le_bytes le_value bytes_eq
opened = refl

abbrev nonce : List ℕ
nonce = replicate 16 3

abbrev signature : List ℕ
signature = digest 32 ctx.handshake_key (nonce ++ text)

sign : compute_handshake_signature toy ctx nonce text 32 ≡ ok signature
unfolding compute_handshake_signature
sign = refl
