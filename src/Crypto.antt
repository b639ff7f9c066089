-- ===== src/Crypto.antt =====
-- What the firmware takes from mbedTLS: HMAC and AES-GCM. `none` is a return code other than 0. The
-- functions are parameters of the model, and `IsCrypto` states what their documentation promises.
pub mod Toy
use n32r.Prelude.{ℕ, ◌≡◌, List, Option, some, length}

pub record Crypto : Type 0 where
  -- key, then message
  pub hmac_sha1 : List ℕ → List ℕ → Option (List ℕ)
  pub hmac_sha256 : List ℕ → List ℕ → Option (List ℕ)
  -- key, nonce, additional data and plaintext give the ciphertext and the tag
  pub gcm_crypt_and_tag : List ℕ → List ℕ → List ℕ → List ℕ → Option (List ℕ × List ℕ)
  -- key, nonce, additional data, ciphertext and tag
  pub gcm_auth_decrypt : List ℕ → List ℕ → List ℕ → List ℕ → List ℕ → Option (List ℕ)

pub record IsCrypto (c : Crypto) : Type 0 where
  -- A digest has its algorithm's length.
  pub length-hmac_sha1 : (key msg d : List ℕ) → c.hmac_sha1 key msg ≡ some d → length d ≡ 20
  pub length-hmac_sha256 : (key msg d : List ℕ) → c.hmac_sha256 key msg ≡ some d → length d ≡ 32
  -- The ciphertext is as long as the plaintext, and the tag has the requested 16 bytes.
  pub length-crypt :
      (key iv aad text ct tag : List ℕ)
      → c.gcm_crypt_and_tag key iv aad text ≡ some (ct, tag)
      → (length ct ≡ length text) × (length tag ≡ 16)
  -- What was encrypted is authentic under the same key, nonce and additional data.
  pub decrypt-crypt :
      (key iv aad text ct tag : List ℕ)
      → c.gcm_crypt_and_tag key iv aad text ≡ some (ct, tag)
      → c.gcm_auth_decrypt key iv aad ct tag ≡ some text
