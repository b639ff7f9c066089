-- ===== src/Server/State.antt =====
-- `ws_server_config_t` and the static variables of ws_server.c. A pointer that the code only tests
-- is a Boolean; a null string or key counts as an empty one.
use n32r.Prelude.{ℕ, Bool, Option, List}
use n32r.Security.{Context}
use n32r.Server.Types.{NonceEntry}
use n32r.Server.Clients.{Table}

pub record Config : Type 0 where
  pub port : ℕ
  pub max_clients : ℕ
  pub auth_token : List ℕ
  pub server_cert : List ℕ
  pub server_key : List ℕ
  pub ping_interval_ms : ℕ
  pub pong_timeout_ms : ℕ
  pub rx_buffer_size : ℕ
  pub crypto_secret : List ℕ
  pub enable_frame_encryption : Bool
  pub enable_handshake_token : Bool
  pub handshake_replay_window_ms : ℕ
  pub handshake_cache_size : ℕ
  pub enable_totp : Bool
  pub totp_secret : List ℕ
  pub totp_period_s : ℕ
  pub totp_digits : ℕ
  pub totp_window : ℕ
  pub has_time_fn : Bool

pub record Server : Type 0 where
  pub started : Bool
  pub cfg : Config
  pub clients : Table
  pub client_capacity : ℕ
  pub has_rx_cb : Bool
  pub has_lock : Bool
  pub has_timer : Bool
  pub has_rx_buffer : Bool
  pub security : Context
  pub has_time_fn : Bool
  pub nonce_cache : Option (List NonceEntry)
  pub nonce_capacity : ℕ
  pub nonce_ttl_ticks : ℕ
