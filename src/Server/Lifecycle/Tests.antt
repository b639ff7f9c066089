-- ===== src/Server/Lifecycle/Tests.antt =====
-- Tests of start and stop.
use n32r.Prelude.{none, [], ◌∷◌, true, false, ok}
use n32r.Crypto.Toy.{toy}
use n32r.Security.{zeroed}
use n32r.Server.State.{Config, Server}
use n32r.Server.Lifecycle.{Grants, ws_server_start, ws_server_stop}
use n32r.Server.Lifecycle.Stages.{Settled}
use n32r.Server.Lifecycle.Laws.{ws_server_start_lem, ws_server_stop-Stopped}

abbrev config : Config
config = record {
  port = 8443;
  max_clients = 0;
  auth_token = 116 ∷ [];
  server_cert = 1 ∷ [];
  server_key = 2 ∷ [];
  ping_interval_ms = 0;
  pong_timeout_ms = 0;
  rx_buffer_size = 0;
  crypto_secret = 3 ∷ [];
  enable_frame_encryption = true;
  enable_handshake_token = true;
  handshake_replay_window_ms = 0;
  handshake_cache_size = 0;
  enable_totp = false;
  totp_secret = [];
  totp_period_s = 0;
  totp_digits = 0;
  totp_window = 0;
  has_time_fn = false;
}

-- Everything is granted.
abbrev grants : Grants
grants = record {
  nonce_cache = true;
  clients = true;
  rx_buffer = true;
  lock = true;
  timer = true;
  https = ok tt;
}

abbrev used : Server
used = record {
  started = true;
  cfg = config;
  clients = none;
  client_capacity = 0;
  has_rx_cb = true;
  has_lock = true;
  has_timer = true;
  has_rx_buffer = true;
  security = zeroed;
  has_time_fn = false;
  nonce_cache = none;
  nonce_capacity = 0;
  nonce_ttl_ticks = 0;
}

ws_server_start_lem_example :
    Settled true 4 16 (ws_server_start grants true toy (λ ms. ms) config (ws_server_stop used))
ws_server_start_lem_example =
    ws_server_start_lem grants true toy (λ ms. ms) config (ws_server_stop used)
      (ws_server_stop-Stopped used)
