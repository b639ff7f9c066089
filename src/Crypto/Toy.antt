-- ===== src/Crypto/Toy.antt =====
-- A concrete cipher and digest for tests: they keep every law of `IsCrypto` and no secret.
use n32r.Prelude.{
  ℕ, ◌≡◌, some, none, List, ◌++◌, arith, length, take, replicate, length-take, length-append,
  length-replicate, if◌then◌else◌,
}
use n32r.Prelude.Bytes.{bytes_eq, bytes_eq_refl}
use n32r.Crypto.{Crypto, IsCrypto}

-- The first bytes of key, message and padding.
unfoldable pub digest : ℕ → List ℕ → List ℕ → List ℕ
digest n key msg = take n (key ++ (msg ++ replicate n 0))

length-digest : (n : ℕ) (key msg : List ℕ) → length (digest n key msg) ≡ n
unfolding digest
length-digest n key msg = omega (
  arith,
  length-take n (key ++ (msg ++ replicate n 0)),
  length-append key (msg ++ replicate n 0),
  length-append msg (replicate n 0),
  length-replicate {A = ℕ} n 0,
)

abbrev pub toy : Crypto
toy = record {
  hmac_sha1 = λ key msg. some (digest 20 key msg);
  hmac_sha256 = λ key msg. some (digest 32 key msg);
  gcm_crypt_and_tag = λ key iv aad text. some (text, digest 16 key (aad ++ text));
  gcm_auth_decrypt =
      λ key iv aad ct tag. if bytes_eq tag (digest 16 key (aad ++ ct)) then some ct else none;
}

pub toy-IsCrypto : IsCrypto toy
toy-IsCrypto = record {
  length-hmac_sha1 = λ key msg d e. ground (arith, length-digest 20 key msg);
  length-hmac_sha256 = λ key msg d e. ground (arith, length-digest 32 key msg);
  length-crypt = λ key iv aad text ct tag e.
      (ground arith, ground (arith, length-digest 16 key (aad ++ text)));
  decrypt-crypt = λ key iv aad text ct tag e. ground (arith, bytes_eq_refl tag);
}
