-- ===== src/Server/Authorize.antt =====
-- `authorize_request` of ws_server.c, in its three parts. A header is `none` where
-- `httpd_req_get_hdr_value_str` does not return ESP_OK: it is missing or longer than its buffer.
pub mod Laws
mod Tests
use n32r.Prelude.{
  ℕ, ◌+◌, ◌*◌, Bool, true, false, not, ◌&&◌, Option, none, some, List, [], length, take, drop, ◌==◌,
  if◌then◌else◌, ok, err,
}
use n32r.Prelude.Bytes.{codes, bytes_eq}
use n32r.Crypto.{Crypto}
use n32r.Util.Base64
use n32r.Util.Base64.{Codec}
use n32r.Security
use n32r.Security.{Context, nonce_len, verify_handshake, verify_totp, totp_digits}
use n32r.Server.Types.{NonceEntry}
use n32r.Server.Headers.{parse_nonce_hex, parse_decimal_header}
use n32r.Server.Nonces.{nonce_is_duplicate, nonce_store}

pub record Headers : Type 0 where
  pub authorization : Option (List ℕ)
  pub nonce : Option (List ℕ)
  pub signature : Option (List ℕ)
  pub totp : Option (List ℕ)

-- The time that the one-time password is checked at: that of the configured function if there is
-- one, else the system's, where `none` is a negative time.
unfoldable pub get_authorize_time : Option ℕ → Option ℕ → ℕ
get_authorize_time (some custom) system = custom
get_authorize_time none none = 0
get_authorize_time none (some now) = now

abbrev pub bearer : List ℕ
bearer = codes "Bearer "

-- The empty token switches the test off. `strncmp` and `strcmp` stop at the terminators.
unfoldable pub check_bearer : List ℕ → Headers → Bool
check_bearer token headers = if length token == 0 then true else (elim headers.authorization [
  | none ↦ false
  | some header ↦ bytes_eq (take 7 header) bearer && bytes_eq (drop 7 header) token
])

module _ (c : Crypto) (b : Codec) where
  -- The nonce and the signature that the headers carry.
  unfoldable pub signed_nonce : Headers → Option (List ℕ × List ℕ)
  signed_nonce headers = elim headers.nonce [
    | none ↦ none
    | some hex ↦ if not (length hex == nonce_len * 2) then none else (elim (parse_nonce_hex hex) [
      | none ↦ none
      | some nonce ↦ elim headers.signature [
        | none ↦ none
        | some base64 ↦ elim (Base64.decode b base64 64) [
          | err e ↦ none
          | ok signature ↦ some (nonce, signature)
        ]
      ]
    ])
  ]

  unfoldable pub check_handshake :
      Context → List ℕ → ℕ → ℕ → Headers → List NonceEntry → Bool × List NonceEntry
  check_handshake ctx token ttl now headers cache =
      if not ctx.handshake_enabled then (true, cache) else (elim (signed_nonce headers) [
        | none ↦ (false, cache)
        | some (nonce, signature) ↦
            let (duplicate, cache') = nonce_is_duplicate ttl nonce now cache in
            if duplicate
            then (false, cache')
            else (elim (verify_handshake c ctx nonce token signature) [
              | err e ↦ (false, cache')
              | ok _ ↦ (true, nonce_store nonce now cache')
            ])
      ])

  unfoldable pub check_totp : Context → ℕ → Headers → Bool
  check_totp ctx unix_time headers = if not ctx.totp_enabled then true else (elim headers.totp [
    | none ↦ false
    | some header ↦ elim (parse_decimal_header header (totp_digits ctx)) [
      | none ↦ false
      | some code ↦ elim (verify_totp c ctx unix_time code) [ err e ↦ false | ok match ↦ match ]
    ]
  ])

  -- The tick count, the time and the nonce cache are read where the code reads them.
  unfoldable pub authorize_request :
      Context → List ℕ → ℕ → ℕ → ℕ → Headers → List NonceEntry → Bool × List NonceEntry
  authorize_request ctx token ttl now unix_time headers cache =
      if not (check_bearer token headers)
      then (false, cache)
      else (let (passed, cache') = check_handshake ctx token ttl now headers cache in
          if passed then (check_totp ctx unix_time headers, cache') else (false, cache'))
