-- ===== src/Server/Lifecycle.antt =====
-- `ws_server_start` and `ws_server_stop` of ws_server.c, a stage for each resource. What the
-- allocations and the HTTPS server answer is an argument, `pdMS_TO_TICKS` a parameter. The
-- settings of the HTTPS server and the registration of its handlers are not modelled.
pub mod Stages
pub mod Laws
mod Tests
use n32r.Prelude.{
  ℕ, ◌*◌, ◌%◌, Bool, true, false, not, ◌&&◌, ◌||◌, Option, none, some, List, [], length, replicate,
  ltb, ◌==◌, if◌then◌else◌, no_mem, invalid_arg, invalid_state, Status, ok, err,
}
use n32r.Prelude.Words.{u32_mod}
use n32r.Crypto.{Crypto}
use n32r.Security
use n32r.Security.{Context, zeroed, context_init, reset_counters, nonce_len}
use n32r.Server.Types.{NonceEntry}
use n32r.Server.Clients.{free_slot}
use n32r.Server.State.{Config, Server}

-- Whether each resource is granted.
pub record Grants : Type 0 where
  pub nonce_cache : Bool
  pub clients : Bool
  pub rx_buffer : Bool
  pub lock : Bool
  pub timer : Bool
  pub https : Status

abbrev pub or_default : ℕ → ℕ → ℕ
or_default value fallback = if value == 0 then fallback else value

unfoldable pub is_incomplete : Config → Bool
is_incomplete config = length config.server_cert == 0 || length config.server_key == 0

unfoldable pub with_defaults : Config → Config
with_defaults config = record config {
  max_clients = or_default config.max_clients 4;
  rx_buffer_size = or_default config.rx_buffer_size 2048;
  ping_interval_ms = or_default config.ping_interval_ms 10000;
  pong_timeout_ms = or_default config.pong_timeout_ms 5000;
  handshake_replay_window_ms = or_default config.handshake_replay_window_ms 300000;
}

unfoldable pub lacks_secret : Config → Bool
lacks_secret config =
    (config.enable_frame_encryption || config.enable_handshake_token)
    && (length config.crypto_secret == 0)

unfoldable pub with_cache_size : Config → Config
with_cache_size config = record config {
  handshake_cache_size =
      or_default config.handshake_cache_size
        (if config.max_clients == 0 then 16 else config.max_clients * 4 % u32_mod);
}

unfoldable pub has_bad_totp : Config → Bool
has_bad_totp config =
    config.enable_totp
    && (length config.totp_secret == 0
        || (ltb config.totp_digits 6 || ltb 8 config.totp_digits || config.totp_period_s == 0))

unfoldable pub security_config : Config → Security.Config
security_config config = record {
  secret = config.crypto_secret;
  enable_encryption = config.enable_frame_encryption;
  enable_handshake = config.enable_handshake_token;
  enable_totp = config.enable_totp;
  totp_secret = config.totp_secret;
  totp_period_s = config.totp_period_s;
  totp_digits = config.totp_digits;
  totp_window = config.totp_window;
}

-- An entry of the zeroed cache.
abbrev pub unused : NonceEntry
unused = record { valid = false; timestamp = 0; nonce = replicate nonce_len 0 }

module _ (grants : Grants) (has_cb : Bool) where
  -- `httpd_ssl_start`, with the callback set before it.
  unfoldable pub start_https : Server → Status × Server
  start_https server = elim grants.https [
    | ok _ ↦ (ok tt, record server { has_rx_cb = has_cb; started = true })
    | err e ↦ (
      err e,
      record server {
        has_rx_cb = has_cb;
        has_timer = false;
        has_lock = false;
        has_rx_buffer = false;
        nonce_cache = none;
        nonce_capacity = 0;
        clients = none;
      },
    )
  ]

  unfoldable pub start_timer : Server → Status × Server
  start_timer server =
      if not grants.timer
      then (
        err no_mem,
        record server {
          has_timer = false;
          has_lock = false;
          has_rx_buffer = false;
          nonce_cache = none;
          nonce_capacity = 0;
          clients = none;
        },
      )
      else start_https (record server { has_timer = true })

  unfoldable pub start_lock : Server → Status × Server
  start_lock server =
      if not grants.lock
      then (
        err no_mem,
        record server {
          has_lock = false;
          has_rx_buffer = false;
          nonce_cache = none;
          nonce_capacity = 0;
          clients = none;
        },
      )
      else start_timer (record server { has_lock = true })

  unfoldable pub start_buffer : Server → Status × Server
  start_buffer server =
      if not grants.rx_buffer
      then (
        err no_mem,
        record server {
          has_rx_buffer = false;
          nonce_cache = none;
          nonce_capacity = 0;
          clients = none;
        },
      )
      else start_lock (record server { has_rx_buffer = true })

  unfoldable pub start_clients : Server → Status × Server
  start_clients server =
      if not grants.clients
      then (
        err no_mem,
        record server {
          client_capacity = server.cfg.max_clients;
          nonce_cache = none;
          nonce_capacity = 0;
          clients = none;
        },
      )
      else start_buffer (record server {
        client_capacity = server.cfg.max_clients;
        clients =
            some (
              replicate server.cfg.max_clients (free_slot (not server.security.handshake_enabled)));
      })

  unfoldable pub start_cache : Server → Status × Server
  start_cache server =
      let server' : Server = record server { nonce_cache = none; nonce_capacity = 0 } in
      let capacity = or_default server.cfg.handshake_cache_size 16 in
      if not server.security.handshake_enabled
      then start_clients server'
      else (if not grants.nonce_cache
          then (err no_mem, record server' { nonce_capacity = capacity })
          else start_clients (record server' {
            nonce_capacity = capacity;
            nonce_cache = some (replicate capacity unused);
          }))

  unfoldable pub start_security : Crypto → (ℕ → ℕ) → Server → Status × Server
  start_security c ms_to_ticks server =
      let (status, ctx) = context_init c (some (security_config server.cfg)) in
      elim status [
        | err e ↦ (err e, record server { security = ctx })
        | ok _ ↦ start_cache (record server {
          security = reset_counters ctx;
          nonce_ttl_ticks = ms_to_ticks server.cfg.handshake_replay_window_ms;
        })
      ]

  unfoldable pub ws_server_start : Crypto → (ℕ → ℕ) → Config → Server → Status × Server
  ws_server_start c ms_to_ticks config server =
      if is_incomplete config
      then (err invalid_arg, server)
      else (if server.started
          then (err invalid_state, server)
          else (let cfg' = with_defaults config in
              let server' : Server = record server {
                cfg = cfg';
                has_time_fn = config.has_time_fn;
              } in
              if lacks_secret cfg'
              then (err invalid_arg, server')
              else (let server'' : Server = record server' { cfg = with_cache_size cfg' } in
                  if has_bad_totp cfg'
                  then (err invalid_arg, server'')
                  else start_security c ms_to_ticks server'')))

unfoldable pub ws_server_stop : Server → Server
ws_server_stop server = record server {
  has_timer = false;
  started = false;
  has_lock = false;
  has_rx_buffer = false;
  clients = none;
  client_capacity = 0;
  has_rx_cb = false;
  nonce_cache = none;
  nonce_capacity = 0;
  nonce_ttl_ticks = 0;
  security = zeroed;
  has_time_fn = false;
}
