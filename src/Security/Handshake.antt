-- ===== src/Security/Handshake.antt =====
-- Whom `ws_security_verify_handshake` lets in.
use n32r.Prelude.{
  ℕ, ◌≤◌, ◌<◌, ◌≡◌, ◌↔◌, true, some, List, ◌++◌, arith, length, take, ok, length-append, ◌∙◌, ap,
}
use n32r.Prelude.Bytes.{take-append, bytes_eq_refl, bytes_eq→≡, bytes_eq}
use n32r.Crypto.{Crypto, IsCrypto}
use n32r.Security.{Context, compute_handshake_signature, verify_handshake}

-- The signature that the shared key gives for a nonce and a token.
abbrev pub Signed : Crypto → Context → List ℕ → List ℕ → List ℕ → Type 0
Signed c ctx nonce token signature =
    (ctx.handshake_enabled ≡ true)
    × (0 < length nonce)
    × (c.hmac_sha256 ctx.handshake_key (nonce ++ token) ≡ some signature)

-- The digest that a successful verification has compared.
compared :
    (c : Crypto) (ctx : Context) (nonce token signature : List ℕ)
    → verify_handshake c ctx nonce token signature ≡ ok tt
    → (d : List ℕ) × (c.hmac_sha256 ctx.handshake_key (nonce ++ token) ≡ some d)
      × (bytes_eq d (take 32 signature) ≡ true)
unfolding verify_handshake
compared c ctx nonce token signature h = ground arith

-- A handshake is verified exactly if the signature has at least 32 bytes and its first 32 are the
-- HMAC of nonce and token under the handshake key, with the feature enabled and a nonce that is not
-- empty.
pub verify_handshake_iff :
    (c : Crypto) (ctx : Context) (nonce token signature : List ℕ)
    → (verify_handshake c ctx nonce token signature ≡ ok tt)
      ↔ ((32 ≤ length signature) × Signed c ctx nonce token (take 32 signature))
unfolding verify_handshake
verify_handshake_iff c ctx nonce token signature = (
  λ h. (ground arith, (ground arith, ground arith, same h)),
  λ (long, (on, some_nonce, e)). ground (arith, bytes_eq_refl (take 32 signature)),
)
  where
    same :
        verify_handshake c ctx nonce token signature ≡ ok tt
        → c.hmac_sha256 ctx.handshake_key (nonce ++ token) ≡ some (take 32 signature)
    same h =
        let (d, e, b) = compared c ctx nonce token signature h in
        e ∙ ap some (bytes_eq→≡ d (take 32 signature) b)

pub signed_parts :
    (c : Crypto) (client : Context) (nonce token : List ℕ) (room : ℕ) {signature : List ℕ}
    → compute_handshake_signature c client nonce token room ≡ ok signature
    → (0 < length nonce) × (c.hmac_sha256 client.handshake_key (nonce ++ token) ≡ some signature)
unfolding compute_handshake_signature
signed_parts c client nonce token room h = (ground arith, ground arith)

-- A signature that one side computes is verified by a side that has the same key, whatever follows
-- its 32 bytes in the buffer.
pub verify-compute :
    {c : Crypto} (laws : IsCrypto c) (client server : Context) (nonce token rest signature : List ℕ)
    (room : ℕ)
    → server.handshake_enabled ≡ true
    → server.handshake_key ≡ client.handshake_key
    → compute_handshake_signature c client nonce token room ≡ ok signature
    → verify_handshake c server nonce token (signature ++ rest) ≡ ok tt
verify-compute {c} laws client server nonce token rest signature room on key h =
    let (some_nonce, e) = signed_parts c client nonce token room h in
    let n : length signature ≡ 32 = laws.length-hmac_sha256 _ _ _ e in
    (verify_handshake_iff c server nonce token (signature ++ rest)).1 (
      omega (arith, length-append signature rest),
      (on, some_nonce, rw (key, take-append signature rest 32 n) e),
    )
