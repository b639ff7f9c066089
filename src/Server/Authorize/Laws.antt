-- ===== src/Server/Authorize/Laws.antt =====
-- Who passes `authorize_request`.
use mathlib.Core.Bool.{false≢true}
use n32r.Prelude.{
  ℕ, ◌≤◌, ◌<◌, ◌≡◌, ap, ◌∙◌, ◌⊎◌, inl, inr, true, false, some, Bool-cases, Result-cases, List, ◌++◌,
  arith, length, take, drop, take-append-drop, ok, sym, Option-cases, ap₂, Bool-cases,
}
use n32r.Prelude.Words.{u32_mod, add32}
use n32r.Prelude.Bytes.{bytes_eq, bytes_eq→≡}
use n32r.Crypto.{Crypto}
use n32r.Util.Base64.{Codec}
use n32r.Security.{Context, verify_handshake, verify_totp, totp_digits}
use n32r.Security.Handshake.{Signed, verify_handshake_iff}
use n32r.Server.Types.{NonceEntry}
use n32r.Server.Headers.{parse_decimal_header}
use n32r.Server.Nonces.{nonce_is_duplicate, nonce_store}
use n32r.Server.Nonces.Laws.{duplicate-store, length-duplicate}
use n32r.Server.Authorize.{
  Headers, bearer, check_bearer, signed_nonce, check_handshake, check_totp, authorize_request,
}

module _ (c : Crypto) (b : Codec) (ctx : Context) (token : List ℕ) (ttl : ℕ) where
  -- What the headers of an authorized request show, and what the cache then holds.
  pub record Authorized (now unix_time : ℕ) (headers : Headers) (cache cache' : List NonceEntry)
      : Type 0 where
    pub bearer_ok : (length token ≡ 0) ⊎ (headers.authorization ≡ some (bearer ++ token))
    pub handshake_ok :
        ((ctx.handshake_enabled ≡ false) × (cache' ≡ cache))
        ⊎ ((nonce : List ℕ) × (signature : List ℕ) × (signed_nonce c b headers
              ≡ some (nonce, signature))
            × ((nonce_is_duplicate ttl nonce now cache).0 ≡ false)
            × Signed c ctx nonce token (take 32 signature)
            × (cache' ≡ nonce_store nonce now (nonce_is_duplicate ttl nonce now cache).1))
    pub totp_ok :
        (ctx.totp_enabled ≡ false)
        ⊎ ((header : List ℕ) × (code : ℕ) × (headers.totp ≡ some header)
            × (parse_decimal_header header (totp_digits ctx) ≡ some code)
            × (verify_totp c ctx unix_time code ≡ ok true))

  bearer_sound :
      (headers : Headers)
      → check_bearer token headers ≡ true
      → (length token ≡ 0)
        ⊎ ((header : List ℕ) × (headers.authorization ≡ some header)
            × (bytes_eq (take 7 header) bearer ≡ true)
            × (bytes_eq (drop 7 header) token ≡ true))
  unfolding check_bearer
  bearer_sound headers h = ground arith

  handshake_sound :
      (now : ℕ) (headers : Headers) (cache : List NonceEntry) {cache' : List NonceEntry}
      → check_handshake c b ctx token ttl now headers cache ≡ (true, cache')
      → ((ctx.handshake_enabled ≡ false) × (cache' ≡ cache))
        ⊎ ((nonce : List ℕ) × (signature : List ℕ) × (signed_nonce c b headers
              ≡ some (nonce, signature))
            × ((nonce_is_duplicate ttl nonce now cache).0 ≡ false)
            × (verify_handshake c ctx nonce token signature ≡ ok tt)
            × (cache' ≡ nonce_store nonce now (nonce_is_duplicate ttl nonce now cache).1))
  unfolding check_handshake
  handshake_sound now headers cache {cache'} h = elim (Bool-cases ctx.handshake_enabled) [
    | inr off ↦ inl (off, ground arith)
    | inl on ↦ elim (Option-cases (signed_nonce c b headers)) [
      | inl e ↦ elim (false≢true (ground arith)) [ ]
      | inr ((n, s), e) ↦ elim (Bool-cases (nonce_is_duplicate ttl n now cache).0) [
        | inl known ↦ elim (false≢true (ground arith)) [ ]
        | inr fresh ↦ elim (Result-cases (verify_handshake c ctx n token s)) [
          | inr (x, v) ↦ elim (false≢true (ground arith)) [ ]
          | inl (_, v) ↦ inr (n, s, e, fresh, v, ground arith)
        ]
      ]
    ]
  ]

  totp_sound :
      (unix_time : ℕ) (headers : Headers)
      → check_totp c b ctx unix_time headers ≡ true
      → (ctx.totp_enabled ≡ false)
        ⊎ ((header : List ℕ) × (code : ℕ) × (headers.totp ≡ some header)
            × (parse_decimal_header header (totp_digits ctx) ≡ some code)
            × (verify_totp c ctx unix_time code ≡ ok true))
  unfolding check_totp
  totp_sound unix_time headers h = ground arith

  bearer_lem :
      (headers : Headers)
      → (length token ≡ 0)
        ⊎ ((header : List ℕ) × (headers.authorization ≡ some header)
            × (bytes_eq (take 7 header) bearer ≡ true)
            × (bytes_eq (drop 7 header) token ≡ true))
      → (length token ≡ 0) ⊎ (headers.authorization ≡ some (bearer ++ token))
  bearer_lem headers (inl e) = inl e
  bearer_lem headers (inr (header, e, p, q)) = inr (
      e
      ∙ ap some (
          sym (take-append-drop 7 header)
          ∙ ap₂ ◌++◌ (bytes_eq→≡ (take 7 header) bearer p) (bytes_eq→≡ (drop 7 header) token q)))

  handshake_lem :
      (now : ℕ) (headers : Headers) (cache : List NonceEntry) {cache' : List NonceEntry}
      → ((ctx.handshake_enabled ≡ false) × (cache' ≡ cache))
        ⊎ ((nonce : List ℕ) × (signature : List ℕ) × (signed_nonce c b headers
              ≡ some (nonce, signature))
            × ((nonce_is_duplicate ttl nonce now cache).0 ≡ false)
            × (verify_handshake c ctx nonce token signature ≡ ok tt)
            × (cache' ≡ nonce_store nonce now (nonce_is_duplicate ttl nonce now cache).1))
      → ((ctx.handshake_enabled ≡ false) × (cache' ≡ cache))
        ⊎ ((nonce : List ℕ) × (signature : List ℕ) × (signed_nonce c b headers
              ≡ some (nonce, signature))
            × ((nonce_is_duplicate ttl nonce now cache).0 ≡ false)
            × Signed c ctx nonce token (take 32 signature)
            × (cache' ≡ nonce_store nonce now (nonce_is_duplicate ttl nonce now cache).1))
  handshake_lem now headers cache (inl e) = inl e
  handshake_lem now headers cache (inr (n, s, e, fresh, v, st)) =
      inr (n, s, e, fresh, ((verify_handshake_iff c ctx n token s).0 v).1, st)

  same_nonce :
      (headers headers' : Headers) (n s n' s' : List ℕ)
      → signed_nonce c b headers ≡ some (n, s)
      → signed_nonce c b headers' ≡ some (n', s')
      → headers'.nonce ≡ headers.nonce
      → n' ≡ n
  unfolding signed_nonce
  same_nonce headers headers' n s n' s' e e' same = ground arith

  refused :
      (now : ℕ) (headers : Headers) (cache : List NonceEntry)
      → ctx.handshake_enabled ≡ true
      → ((n s : List ℕ)
          → signed_nonce c b headers ≡ some (n, s)
          → (nonce_is_duplicate ttl n now cache).0 ≡ true)
      → (check_handshake c b ctx token ttl now headers cache).0 ≡ false
  unfolding check_handshake
  refused now headers cache on known = elim (Option-cases (signed_nonce c b headers)) [
    | inl e ↦ ground arith
    | inr ((n, s), e) ↦ ground (arith, known n s e)
  ]

  handshake_gates :
      (now unix_time : ℕ) (headers : Headers) (cache : List NonceEntry)
      → (check_handshake c b ctx token ttl now headers cache).0 ≡ false
      → (authorize_request c b ctx token ttl now unix_time headers cache).0 ≡ false
  unfolding authorize_request
  handshake_gates now unix_time headers cache h = ground arith

  stages :
      (now unix_time : ℕ) (headers : Headers) (cache : List NonceEntry) {cache' : List NonceEntry}
      → authorize_request c b ctx token ttl now unix_time headers cache ≡ (true, cache')
      → (check_bearer token headers ≡ true)
        × (check_handshake c b ctx token ttl now headers cache ≡ (true, cache'))
        × (check_totp c b ctx unix_time headers ≡ true)
  unfolding authorize_request
  stages now unix_time headers cache h = (ground arith, ground arith, ground arith)

  -- A request passes only if its bearer token is the configured one, its nonce is no duplicate and is
  -- signed under the handshake key, and its one-time password is accepted; each where the server
  -- asks for it. An accepted nonce is stored, and without handshakes the cache is not touched.
  pub authorize_sound :
      (now unix_time : ℕ) (headers : Headers) (cache : List NonceEntry) {cache' : List NonceEntry}
      → authorize_request c b ctx token ttl now unix_time headers cache ≡ (true, cache')
      → Authorized now unix_time headers cache cache'
  authorize_sound now unix_time headers cache h =
      let (p, q, r) = stages now unix_time headers cache h in
      record {
        bearer_ok = bearer_lem headers (bearer_sound headers p);
        handshake_ok = handshake_lem now headers cache (handshake_sound now headers cache q);
        totp_ok = totp_sound unix_time headers r;
      }

  -- A request that was let in is refused when it comes again with the same nonce before the replay
  -- window has passed, whatever its other headers and the time of day are. It is assumed that
  -- handshakes are enabled, that the cache has room, and that no other request came between.
  pub authorize_replay :
      (now passed unix_time unix_time' : ℕ) (headers headers' : Headers) (cache : List NonceEntry)
      {cache' : List NonceEntry}
      → ctx.handshake_enabled ≡ true
      → 0 < length cache
      → now < u32_mod
      → passed < u32_mod
      → (ttl ≡ 0) ⊎ (passed ≤ ttl)
      → authorize_request c b ctx token ttl now unix_time headers cache ≡ (true, cache')
      → headers'.nonce ≡ headers.nonce
      → (authorize_request c b ctx token ttl (add32 now passed) unix_time' headers' cache').0
        ≡ false
  authorize_replay now passed unix_time unix_time' headers headers' cache on room now_ok passed_ok
        window h same =
      let (p, q, r) = stages now unix_time headers cache h in
      elim (handshake_sound now headers cache q) [
        | inl (off, _) ↦ cc
        | inr (n, s, e, fresh, v, st) ↦ handshake_gates (add32 now passed) unix_time' headers' _ (
            refused (add32 now passed) headers' _ on (λ n' s' e'.
              rw (same_nonce headers headers' n s n' s' e e' same, st)
                (duplicate-store ttl n now passed (nonce_is_duplicate ttl n now cache).1
                  (rw (length-duplicate ttl now n cache) room) now_ok passed_ok window)))
      ]
