-- ===== src/WsClient/Lifecycle.antt =====
-- `ws_client_start`, `cleanup_client` and `ws_client_stop` of ws_client.c, a stage for each resource.
-- What the allocations and the platform answer is an argument. The settings of the transport and the
-- registration of the event handler are not modelled.
pub mod Laws
use n32r.Prelude.{
  Bool, Bool-cases, EspErr, List, Option, Option-cases, Result, Result-cases, Status, [], ap,
  append-nil, append_assoc, ap₂, arith, choose, drop, err, esp_fail, false, get_elem?,
  get_elem?-set_ne, get_elem?-set_self, get_or, guard, if◌then◌else◌, inl, inr, invalid_arg,
  invalid_response, invalid_size, invalid_state, invalid_version, leb, length, length-append,
  length-drop, length-replicate, length-set, length-take, ltb, lt→ltb, map, min, no_mem, none, not,
  ok, refl, replicate, set, some, suc, sym, take, take-append-drop, tests, true, zero, ℕ, ◌%◌, ◌&&◌,
  ◌*◌, ◌++◌, ◌+◌, ◌-◌, ◌/◌, ◌<◌, ◌==◌, ◌>>=◌, ◌>>◌, ◌^◌, ◌||◌, ◌↔◌, ◌∙◌, ◌∷◌, ◌≡◌, ◌≢◌, ◌≤◌, ◌⊎◌,
}
use n32r.Crypto.{Crypto}
use n32r.Util.Base64.{Codec}
use n32r.Security
use n32r.Security.{zeroed, context_init, reset_counters, totp_digits, nonce_len}
use n32r.WsClient.State.{Config, State}
use n32r.WsClient.Headers.{regenerate_headers}
use n32r.Prelude.Words.{u32_mod}

-- Whether each resource is granted.
pub record Grants : Type 0 where
  pub header_block : Bool
  pub client : Bool
  pub timer : Bool
  pub start : Status

unfoldable pub security_config : Config → Security.Config
security_config config = record {
  secret = config.crypto_secret;
  enable_encryption = config.enable_frame_encryption;
  enable_handshake = config.enable_handshake_token;
  enable_totp = config.enable_totp;
  totp_secret = config.totp_secret;
  totp_period_s = config.totp_period_s;
  totp_digits = config.totp_digits;
  totp_window = config.totp_window;
}

unfoldable pub cleanup_client : State → State
cleanup_client st = record st {
  has_timer = false;
  has_client = false;
  has_header_block = false;
  headers = none;
  has_rx_cb = false;
  has_error_cb = false;
  connected = false;
  rx_counter = 0;
  security = zeroed;
  token = [];
  header_len = 0;
  handshake_enabled = false;
  totp_enabled = false;
  totp_digits = 0;
  has_time_fn = false;
}

unfoldable pub ws_client_stop : State → State
ws_client_stop st = cleanup_client (record st { should_run = false })

-- The room for the lines of the header block: token, then signature, then one-time password.
unfoldable pub header_length : State → ℕ
header_length st =
    ((if length st.token == 0 then 0 else 22 + length st.token + 2)
      + (if st.handshake_enabled then 12 + nonce_len * 2 + 2 + (16 + 44 + 2) else 0)
      + (if st.totp_enabled && ltb 0 st.totp_digits then 11 + st.totp_digits + 2 else 0))
    % u32_mod

unfoldable pub set_handshake : Config → State → State
set_handshake config st =
    let st' : State = record st {
      handshake_enabled = st.security.handshake_enabled;
      totp_enabled = st.security.totp_enabled;
      totp_digits = totp_digits st.security;
      has_time_fn = config.has_time_fn;
      token = config.auth_token;
    } in
    record st' { header_len = header_length st' }

unfoldable pub set_delays : Config → State → State
set_delays config st =
    let lo = if config.reconnect_min_delay_ms == 0 then 2000 else config.reconnect_min_delay_ms in
    let hi = if config.reconnect_max_delay_ms == 0 then 60000 else config.reconnect_max_delay_ms in
    record st {
      reconnect_min_ms = lo;
      reconnect_max_ms = if ltb hi lo then lo else hi;
      reconnect_delay_ms = lo;
    }

module _ (grants : Grants) (config : Config) (has_cb : Bool) where
  unfoldable pub start_client : State → Status × State
  start_client st =
      let st' : State = record st {
        has_rx_cb = has_cb;
        has_error_cb = config.has_error_cb;
        should_run = true;
        connected = false;
      } in
      elim grants.start [ err e ↦ (err e, cleanup_client st') | ok _ ↦ (ok tt, st') ]

  unfoldable pub create_timer : State → Status × State
  create_timer st =
      if not grants.timer
      then (err no_mem, cleanup_client st)
      else start_client (record st { has_timer = true })

  unfoldable pub create_client : State → Status × State
  create_client st =
      if not grants.client
      then (err no_mem, record st { has_header_block = false; headers = none })
      else create_timer (set_delays config (record st { has_client = true }))

  unfoldable pub build_headers : Crypto → Codec → List ℕ → ℕ → State → Status × State
  build_headers c b nonce unix_time st =
      if not (ltb 0 st.header_len)
      then create_client st
      else (let (status, st') = regenerate_headers c b grants.header_block nonce unix_time st in
          elim status [
            | err e ↦
                (err e, record st' { has_header_block = false; headers = none; header_len = 0 })
            | ok _ ↦ create_client st'
          ])

  unfoldable pub ws_client_start : Crypto → Codec → List ℕ → ℕ → State → Status × State
  ws_client_start c b nonce unix_time st =
      if not config.has_uri
      then (err invalid_arg, st)
      else (if st.has_client
          then (err invalid_state, st)
          else (let (status, security') = context_init c (some (security_config config)) in
              elim status [
                | err e ↦ (err e, record st { security = security' })
                | ok _ ↦ build_headers c b nonce unix_time (
                    set_handshake config
                      (record st { security = reset_counters security'; rx_counter = 0 }))
              ]))
