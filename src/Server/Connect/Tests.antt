-- ===== src/Server/Connect/Tests.antt =====
-- Tests of the opening of a connection.
use n32r.Prelude.{refl, some, none, List, [], ◌∷◌, true, false}
use n32r.Crypto.Toy.{toy}
use n32r.Util.Base64.Toy.{copying}
use n32r.Security.{zeroed}
use n32r.Server.Types.{Client}
use n32r.Server.Clients.{free_slot}
use n32r.Server.Authorize.{Headers}
use n32r.Server.State.{Server}
use n32r.Server.Connect.{connect}
use n32r.Server.Connect.Laws.{Outcome, connect_lem}

abbrev clients : List Client
clients = free_slot true ∷ []

abbrev server : Server
server = record {
  started = true;
  cfg = record {
    port = 8443;
    max_clients = 1;
    auth_token = 116 ∷ [];
    server_cert = 1 ∷ [];
    server_key = 2 ∷ [];
    ping_interval_ms = 10000;
    pong_timeout_ms = 5000;
    rx_buffer_size = 2048;
    crypto_secret = [];
    enable_frame_encryption = false;
    enable_handshake_token = false;
    handshake_replay_window_ms = 300000;
    handshake_cache_size = 4;
    enable_totp = false;
    totp_secret = [];
    totp_period_s = 0;
    totp_digits = 0;
    totp_window = 0;
    has_time_fn = false;
  };
  clients = some clients;
  client_capacity = 1;
  has_rx_cb = true;
  has_lock = true;
  has_timer = true;
  has_rx_buffer = true;
  security = zeroed;
  has_time_fn = false;
  nonce_cache = none;
  nonce_capacity = 0;
  nonce_ttl_ticks = 300;
}

abbrev headers : Headers
headers = record { authorization = none; nonce = none; signature = none; totp = none }

connect_lem_example :
    Outcome toy copying 10 1000 headers 4 server clients
      (connect toy copying 10 1000 headers (some 4) server)
connect_lem_example = connect_lem toy copying 10 1000 headers 4 server clients refl
