-- ===== src/Security.antt =====
-- common/net/ws_security.c: the keys of a WebSocket endpoint, the protection of its frames, the
-- handshake signature and the one-time password. The context is never null; a null secret counts as
-- an empty one. Random nonces are arguments.
pub mod Init
pub mod Frame
pub mod Replay
pub mod Handshake
mod Tests
use n32r.Prelude.{
  ℕ, suc, ◌+◌, ◌-◌, ◌%◌, ◌^◌, Bool, true, false, not, ◌&&◌, ◌||◌, Option, none, some, List, [], ◌∷◌,
  ◌++◌, length, get_or, take, drop, replicate, ltb, leb, ◌==◌, if◌then◌else◌, EspErr, esp_fail,
  no_mem, invalid_arg, invalid_state, invalid_size, invalid_response, invalid_version, Result, ok,
  err, Status, guard, ◌>>=◌, ◌>>◌,
}
use n32r.Prelude.Words.{u32_mod, u64_mod}
use n32r.Prelude.Bytes.{codes, bytes_eq, le_bytes, le_value}
use n32r.Crypto.{Crypto}
use n32r.Util.Totp

abbrev pub version : ℕ
version = 1

abbrev pub iv_len : ℕ
iv_len = 12

abbrev pub tag_len : ℕ
tag_len = 16

abbrev pub fixed_header_len : ℕ
fixed_header_len = 10

abbrev pub header_len : ℕ
header_len = fixed_header_len + iv_len

abbrev pub nonce_len : ℕ
nonce_len = 16

-- `ws_security_config_t`
pub record Config : Type 0 where
  pub secret : List ℕ
  pub enable_encryption : Bool
  pub enable_handshake : Bool
  pub enable_totp : Bool
  pub totp_secret : List ℕ
  pub totp_period_s : ℕ
  pub totp_digits : ℕ
  pub totp_window : ℕ

-- `ws_security_context_t`; `totp_secret` is its first `totp_secret_len` bytes.
pub record Context : Type 0 where
  pub handshake_enabled : Bool
  pub encryption_enabled : Bool
  pub totp_enabled : Bool
  pub handshake_key : List ℕ
  pub frame_key : List ℕ
  pub tx_counter : ℕ
  pub totp_secret : List ℕ
  pub totp_period_s : ℕ
  pub totp_digits : ℕ
  pub totp_window : ℕ

-- After `memset(ctx, 0, sizeof(*ctx))`.
unfoldable pub zeroed : Context
zeroed = record {
  handshake_enabled = false;
  encryption_enabled = false;
  totp_enabled = false;
  handshake_key = replicate 32 0;
  frame_key = replicate 32 0;
  tx_counter = 0;
  totp_secret = [];
  totp_period_s = 0;
  totp_digits = 0;
  totp_window = 0;
}

pub is_missing : Config → Bool
is_missing config =
    length config.secret == 0 && (config.enable_encryption || config.enable_handshake)

init_totp : Config → Context → Status × Context
init_totp config ctx =
    if not config.enable_totp
    then (ok tt, ctx)
    else (if length config.totp_secret == 0 || ltb 64 (length config.totp_secret)
        then (err invalid_arg, ctx)
        else (if ltb config.totp_digits 6 || ltb 8 config.totp_digits || config.totp_period_s == 0
            then (err invalid_arg, ctx)
            else (
              ok tt,
              record ctx {
                totp_secret = config.totp_secret;
                totp_digits = config.totp_digits;
                totp_period_s = config.totp_period_s;
                totp_window = config.totp_window;
                totp_enabled = true;
              },
            )))

unfoldable pub encrypted_size : Context → ℕ → ℕ
encrypted_size ctx plaintext_len =
    if not ctx.encryption_enabled
    then plaintext_len
    else (header_len + plaintext_len + tag_len) % u32_mod

unfoldable pub reset_counters : Context → Context
reset_counters ctx = record ctx { tx_counter = 0 }

unfoldable pub totp_digits : Context → ℕ
totp_digits ctx = if ctx.totp_enabled then ctx.totp_digits else 0

unfoldable pub totp_config : Context → Totp.Config
totp_config ctx = record {
  secret = ctx.totp_secret;
  period_s = ctx.totp_period_s;
  digits = ctx.totp_digits;
}

module _ (c : Crypto) where
  pub derive_key : List ℕ → List ℕ → ℕ → Result (List ℕ)
  derive_key secret label out_len =
      if length secret == 0 || out_len == 0
      then err invalid_arg
      else (elim (c.hmac_sha256 secret label) [
        | none ↦ err esp_fail
        | some digest ↦ if ltb 32 out_len then err invalid_size else ok (take out_len digest)
      ])

  init_encryption : Config → Context → Status × Context
  unfolding init_totp
  init_encryption config ctx =
      if not config.enable_encryption
      then init_totp config ctx
      else (elim (derive_key config.secret (codes "ws-frame") 32) [
        | err e ↦ (err e, ctx)
        | ok key ↦
            init_totp config
              (record ctx { frame_key = key; encryption_enabled = true; tx_counter = 0 })
      ])

  init_handshake : Config → Context → Status × Context
  unfolding init_encryption
  init_handshake config ctx =
      if not config.enable_handshake
      then init_encryption config ctx
      else (elim (derive_key config.secret (codes "ws-handshake") 32) [
        | err e ↦ (err e, ctx)
        | ok key ↦
            init_encryption config (record ctx { handshake_key = key; handshake_enabled = true })
      ])

  -- The context is cleared first and keeps what was written before a failure.
  unfoldable pub context_init : Option Config → Status × Context
  unfolding init_handshake is_missing
  context_init none = (ok tt, zeroed)
  context_init (some config) =
      if is_missing config then (err invalid_arg, zeroed) else init_handshake config zeroed

  -- The counter is stepped before the cipher runs. The first `out_len` bytes of `out` are returned.
  unfoldable pub encrypt : List ℕ → Context → List ℕ → ℕ → Result (List ℕ) × Context
  encrypt iv ctx plaintext out_size =
      if not ctx.encryption_enabled
      then (if ltb out_size (length plaintext) then (err no_mem, ctx) else (ok plaintext, ctx))
      else (if ltb out_size (encrypted_size ctx (length plaintext))
          then (err no_mem, ctx)
          else (let counter = (ctx.tx_counter + 1) % u64_mod in
              let header = version ∷ 0 ∷ le_bytes 8 counter in
              let ctx' : Context = record ctx { tx_counter = counter } in
              elim (c.gcm_crypt_and_tag ctx.frame_key iv header plaintext) [
                | none ↦ (err esp_fail, ctx')
                | some (ciphertext, tag) ↦ (ok (header ++ (iv ++ (ciphertext ++ tag))), ctx')
              ]))

  -- What the checks of the header leave to the cipher. The counter is `none` for a null pointer.
  unfoldable pub open_frame : Context → List ℕ → ℕ → Result (List ℕ)
  open_frame ctx buffer ciphertext_len =
      elim (c.gcm_auth_decrypt ctx.frame_key (take iv_len (drop fixed_header_len buffer))
        (take fixed_header_len buffer) (take ciphertext_len (drop header_len buffer))
        (take tag_len (drop (header_len + ciphertext_len) buffer))) [
          | none ↦ err invalid_response
          | some plaintext ↦ ok plaintext
        ]

  -- Returns the plaintext, which replaces the frame in the buffer, and the new counter state.
  unfoldable pub decrypt : Context → List ℕ → Option ℕ → Result (List ℕ × Option ℕ)
  decrypt ctx buffer counter_state =
      if not ctx.encryption_enabled
      then ok (buffer, counter_state)
      else (if ltb (length buffer) (header_len + tag_len)
          then err invalid_size
          else (if not (get_or buffer 0 0 == version)
              then err invalid_version
              else (if not (get_or buffer 1 0 == 0)
                  then err invalid_state
                  else (let counter = le_value (take 8 (drop 2 buffer)) in
                      elim counter_state [
                        | none ↦ do
                          plaintext ← open_frame ctx buffer (length buffer - header_len - tag_len)
                          ok (plaintext, none)
                        | some last ↦ if leb counter last then err invalid_response else do
                          plaintext ← open_frame ctx buffer (length buffer - header_len - tag_len)
                          ok (plaintext, some counter)
                      ]))))

  unfoldable pub handshake_hmac : Context → List ℕ → List ℕ → Result (List ℕ)
  handshake_hmac ctx nonce auth_token =
      if length nonce == 0
      then err invalid_arg
      else (if not ctx.handshake_enabled
          then err invalid_state
          else (elim (c.hmac_sha256 ctx.handshake_key (nonce ++ auth_token)) [
            | none ↦ err esp_fail
            | some digest ↦ ok digest
          ]))

  -- `signature_len` is the room for the signature.
  unfoldable pub compute_handshake_signature : Context → List ℕ → List ℕ → ℕ → Result (List ℕ)
  unfolding handshake_hmac
  compute_handshake_signature ctx nonce auth_token signature_len =
      if ltb signature_len 32 then err invalid_arg else handshake_hmac ctx nonce auth_token

  unfoldable pub verify_handshake : Context → List ℕ → List ℕ → List ℕ → Status
  unfolding handshake_hmac
  verify_handshake ctx nonce auth_token signature =
      if ltb (length signature) 32 then err invalid_arg else (do
        expected ← handshake_hmac ctx nonce auth_token
        guard (bytes_eq expected (take 32 signature)) invalid_response)

  unfoldable pub compute_totp : Context → ℕ → Result ℕ
  unfolding totp_config
  compute_totp ctx unix_time =
      if not ctx.totp_enabled then err invalid_state else Totp.compute c (totp_config ctx) unix_time

  unfoldable pub verify_totp : Context → ℕ → ℕ → Result Bool
  unfolding totp_config
  verify_totp ctx unix_time code =
      if not ctx.totp_enabled
      then err invalid_state
      else Totp.verify c (totp_config ctx) unix_time ctx.totp_window code
