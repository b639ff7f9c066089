-- ===== src/WsClient/Authorized.antt =====
-- The two sides together: the server lets in a client whose headers `regenerate_headers` has
-- written. Between them stands the HTTP parser, which finds the value of a header by its name.
pub mod Reader
use n32r.Prelude.{
  Bool-cases, List, Option, [], ap, append-nil, arith, false, if◌then◌else◌, inl, inr, length,
  length-append, ltb, none, ok, refl, some, sym, take, true, ℕ, ◌*◌, ◌++◌, ◌+◌, ◌<◌, ◌==◌, ◌^◌, ◌∙◌,
  ◌∷◌, ◌≡◌, ◌⊎◌,
}
use n32r.Util.Base64
use n32r.Util.Totp
use n32r.Security.{Context, totp_config, totp_digits, verify_totp, compute_totp, verify_handshake}
use n32r.Server.Authorize.{
  Headers, bearer, authorize_request, signed_nonce, check_bearer, check_handshake, check_totp,
}
use n32r.WsClient.{codes, bytes_to_hex}
use n32r.WsClient.State.{State, Field}
use n32r.WsClient.Headers.Fields.{fields_of, build_fields_lem}
use n32r.Prelude.Bytes.{bytes_eq, bytes_eq_refl}
use n32r.Crypto.{Crypto, IsCrypto}
use n32r.Util.Base64.{Codec, IsCodec}
use n32r.Server.Types.{NonceEntry}
use n32r.Server.Headers.{parse_nonce_hex}
use n32r.Server.Headers.{parse_decimal_header}
use n32r.Server.Nonces.{nonce_is_duplicate}
use n32r.WsClient.Hex.{AllBytes, parse_nonce_hex-bytes_to_hex}
use n32r.Prelude.Words.{u64_mod}
use n32r.Util.Totp.Window.{InWindow, verify_iff}
use n32r.WsClient.Headers.{build_fields}
use n32r.Security.Handshake.{verify-compute, signed_parts}
use n32r.Util.Totp.Digits.{compute-lt}
use n32r.WsClient.Decimal.{print_padded_lem, print_padded}
use n32r.WsClient.Authorized.Reader.{
  IsReader, value_of, received, first, second, with_scheme, received_lem, reader-received,
}
use n32r.WsClient.Authorized.Reader.{sent}

-- Server and client are configured for each other.
pub record Paired (ctx : Context) (st : State) : Type 0 where
  pub handshake : st.handshake_enabled ≡ ctx.handshake_enabled
  pub handshake_key : ctx.handshake_key ≡ st.security.handshake_key
  pub totp : st.totp_enabled ≡ ctx.totp_enabled
  pub digits : st.totp_digits ≡ totp_digits ctx
  pub secret : totp_config st.security ≡ totp_config ctx

module _ (c : Crypto) (b : Codec) (ctx : Context) (st : State) (nonce : List ℕ)
    (client_time : ℕ) where
  bearer_passes :
      (headers : Headers) (token : Option (List ℕ))
      → (((length st.token == 0) ≡ true) × (token ≡ none))
        ⊎ (((length st.token == 0) ≡ false) × (token ≡ some st.token))
      → length st.token < 185
      → headers.authorization ≡ sent 192 (with_scheme token)
      → check_bearer st.token headers ≡ true
  unfolding check_bearer
  bearer_passes headers token (inl (empty, _)) short e = rw (empty, check_bearer) refl
  bearer_passes headers token (inr (full, t)) short e =
      let fits : length (bearer ++ st.token) < 192 = omega (arith, length-append bearer st.token) in
      let at : headers.authorization ≡ some (bearer ++ st.token) =
        e ∙ ap (λ x. sent 192 (with_scheme x)) t ∙ ground (arith, fits) in
      let scheme : bytes_eq (take 7 (bearer ++ st.token)) bearer ≡ true = bytes_eq_refl bearer in
      ground (arith, at, scheme, bytes_eq_refl st.token)

  signed_lem :
      (headers : Headers) (base64 signature : List ℕ)
      → headers.nonce ≡ some (bytes_to_hex nonce)
      → headers.signature ≡ some base64
      → length (bytes_to_hex nonce) ≡ 32
      → parse_nonce_hex (bytes_to_hex nonce) ≡ some nonce
      → Base64.decode b base64 64 ≡ ok signature
      → signed_nonce c b headers ≡ some (nonce, signature)
  unfolding signed_nonce
  signed_lem headers base64 signature n s len p d = rw (n, len, p, s, d, signed_nonce) refl

  handshake_passes :
      (ttl now : ℕ) (headers : Headers) (cache : List NonceEntry) (signature : List ℕ)
      → signed_nonce c b headers ≡ some (nonce, signature)
      → (nonce_is_duplicate ttl nonce now cache).0 ≡ false
      → verify_handshake c ctx nonce st.token signature ≡ ok tt
      → (check_handshake c b ctx st.token ttl now headers cache).0 ≡ true
  unfolding check_handshake
  handshake_passes ttl now headers cache signature s fresh v = ground arith

  handshake_off :
      (ttl now : ℕ) (headers : Headers) (cache : List NonceEntry)
      → ctx.handshake_enabled ≡ false
      → (check_handshake c b ctx st.token ttl now headers cache).0 ≡ true
  unfolding check_handshake
  handshake_off ttl now headers cache off = ground arith

  totp_passes :
      (server_time : ℕ) (headers : Headers) (digits : List ℕ) (value : ℕ)
      → headers.totp ≡ some digits
      → parse_decimal_header digits (totp_digits ctx) ≡ some value
      → verify_totp c ctx server_time value ≡ ok true
      → check_totp c b ctx server_time headers ≡ true
  unfolding check_totp
  totp_passes server_time headers digits value h p v = ground arith

  totp_off :
      (server_time : ℕ) (headers : Headers)
      → ctx.totp_enabled ≡ false
      → check_totp c b ctx server_time headers ≡ true
  unfolding check_totp
  totp_off server_time headers off = ground arith

  passes :
      (ttl now server_time : ℕ) (headers : Headers) (cache : List NonceEntry)
      → check_bearer st.token headers ≡ true
      → (check_handshake c b ctx st.token ttl now headers cache).0 ≡ true
      → check_totp c b ctx server_time headers ≡ true
      → (authorize_request c b ctx st.token ttl now server_time headers cache).0 ≡ true
  unfolding authorize_request
  passes ttl now server_time headers cache p q r = ground arith

  computed :
      (value : ℕ)
      → compute_totp c st.security client_time ≡ ok value
      → Totp.compute c (totp_config st.security) client_time ≡ ok value
  unfolding compute_totp
  computed value h = ground arith

  verified :
      (server_time value : ℕ)
      → ctx.totp_enabled ≡ true
      → Totp.verify c (totp_config ctx) server_time ctx.totp_window value ≡ ok true
      → verify_totp c ctx server_time value ≡ ok true
  unfolding verify_totp
  verified server_time value on h = ground arith

length-bytes_to_hex : (bytes : List ℕ) → length (bytes_to_hex bytes) ≡ 2 * length bytes
unfolding bytes_to_hex
length-bytes_to_hex [] = refl
length-bytes_to_hex (x ∷ bytes) = omega (arith, length-bytes_to_hex bytes)

valid_of_compute :
    (c : Crypto) (cfg : Totp.Config) (t code : ℕ)
    → Totp.compute c cfg t ≡ ok code
    → Totp.is_invalid cfg ≡ false
unfolding Totp.compute
valid_of_compute c cfg t code h = ground arith

digits_on : (ctx : Context) → ctx.totp_enabled ≡ true → totp_digits ctx ≡ ctx.totp_digits
unfolding totp_digits
digits_on ctx on = ground arith

-- A client whose header block is complete is let in by a server that is configured for it: they
-- share the token, which has less than 185 characters, the handshake key and the one-time-password
-- settings. The HTTP parser must find the lines by their names, and Base64 decode what it encoded. The nonce must be 16 bytes that the cache does not hold; the clocks must differ by no
-- more steps than the window, which stays within the time's range; and HMAC must not fail.
pub authorize-build_fields :
    {c : Crypto} {b : Codec} {get : List Field → List ℕ → ℕ → Option (List ℕ)}
    (reader : IsReader get) (laws : IsCrypto c) (codec : IsCodec b) (ctx : Context) (st : State)
    (nonce : List ℕ) (client_time server_time now ttl : ℕ) (cache : List NonceEntry)
    (fields : List Field)
    → Paired ctx st
    → length st.token < 185
    → AllBytes nonce
    → length nonce ≡ 16
    → (nonce_is_duplicate ttl nonce now cache).0 ≡ false
    → ctx.totp_window < 2 ^ 31
    → server_time + ctx.totp_window * ctx.totp_period_s < u64_mod
    → InWindow (totp_config ctx) server_time ctx.totp_window client_time
    → ((t : ℕ) → (e : ℕ) × (Totp.compute c (totp_config ctx) t ≡ ok e))
    → build_fields c b nonce client_time st ≡ ok fields
    → (authorize_request c b ctx st.token ttl now server_time (received get fields) cache).0 ≡ true
unfolding totp_config
authorize-build_fields {c} {b} {get} reader laws codec ctx st nonce client_time server_time now ttl
      cache fields paired short bytes size fresh window no_wrap near total h =
    let (token, signed, code, e, w) = build_fields_lem c b st nonce client_time fields h in
    let at =
      reader-received reader fields ∙ ap (received value_of) e ∙ received_lem token signed code in
    passes c b ctx st nonce client_time ttl now server_time (received get fields) cache
      (bearer_passes c b ctx st nonce client_time (received get fields) token w.token_from short
        (ap (λ h. h.authorization) at))
      (elim w.signed_from [
        | inl (off, _) ↦
            handshake_off c b ctx st nonce client_time ttl now (received get fields) cache
              (sym paired.handshake ∙ off)
        | inr (signature, base64, on, s, en, eq) ↦
            let n : length signature ≡ 32 =
              laws.length-hmac_sha256 _ _ _ (signed_parts c st.security nonce st.token 32 s).1 in
            let (lt, dec) =
              Base64.decode-encode b codec signature 96 64 base64 (omega arith) (omega arith) en in
            let len : length (bytes_to_hex nonce) ≡ 32 = omega (arith, length-bytes_to_hex nonce) in
            handshake_passes c b ctx st nonce client_time ttl now (received get fields) cache
              signature
              (signed_lem c b ctx st nonce client_time (received get fields) base64 signature
                (ap (λ h. h.nonce) at ∙ ap (λ x. sent 33 (first x)) eq ∙ ground (arith, len))
                (ap (λ h. h.signature) at ∙ ap (λ x. sent 160 (second x)) eq ∙ ground (arith, lt))
                len (parse_nonce_hex-bytes_to_hex nonce bytes size) dec)
              fresh
              (rw⁻¹ (append-nil signature) (
                verify-compute laws st.security ctx nonce st.token [] signature 32
                  (sym paired.handshake ∙ on) paired.handshake_key s))
      ])
      (elim w.code_from [
        | inl (off, _) ↦
            totp_off c b ctx st nonce client_time server_time (received get fields)
              (sym paired.totp ∙ off)
        | inr (value, on, co, eq) ↦
            let enabled = sym paired.totp ∙ on in
            let co' : Totp.compute c (totp_config ctx) client_time ≡ ok value =
              ap (λ cfg. Totp.compute c cfg client_time) (sym paired.secret)
              ∙ computed c b ctx st nonce client_time value co in
            let (lo, hi, small) = compute-lt c (totp_config ctx) client_time value co' in
            let d : st.totp_digits ≡ ctx.totp_digits = paired.digits ∙ digits_on ctx enabled in
            let (len, parsed) =
              print_padded_lem st.totp_digits value (omega arith) (omega arith) (rw d small) in
            totp_passes c b ctx st nonce client_time server_time (received get fields)
              (print_padded st.totp_digits value) value
              (ap (λ h. h.totp) at ∙ ap (sent 16) eq ∙ ground (arith, len))
              (ap (parse_decimal_header (print_padded st.totp_digits value)) (sym paired.digits)
                ∙ parsed)
              (verified c b ctx st nonce client_time server_time value enabled (
                (verify_iff c (totp_config ctx) server_time ctx.totp_window value
                    (valid_of_compute c (totp_config ctx) client_time value co') window no_wrap
                    total).1
                  (client_time, near, co')))
      ])
