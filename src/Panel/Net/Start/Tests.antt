-- ===== src/Panel/Net/Start/Tests.antt =====
-- A test of the start, over the toy cipher and the copying codec.
use n32r.Prelude.{[], ◌∷◌, true, false, some, none, ok, refl, replicate}
use n32r.Prelude.Bytes.{codes}
use n32r.Crypto.Toy.{toy}
use n32r.Util.Base64.Toy.{copying}
use n32r.Security.{zeroed}
use n32r.Wifi.Start.{Calls, init_done}
use n32r.WsClient.Lifecycle.{Grants}
use n32r.Panel.Net.Cache.Laws.{granted}
use n32r.Panel.Net.Start.{Options, Surroundings, Left, hmi_ws_client_start}
use n32r.Panel.Net.Start.Laws.{IsStarted, hmi_ws_client_start-IsStarted}

abbrev options : Options
options = record {
  prov_sec2_salt_base64 = codes "salt";
  prov_sec2_verifier_base64 = codes "verifier";
  prov_sec2_username = codes "panel";
  prov_prefer_ble = true;
  prov_max_attempts = 3;
  discovery_timeout_ms = 4000;
  discovery_cache_ttl_minutes = 120;
  sensor_hostname = codes "node";
  sensor_port = 8443;
  ws_tls_sni_override = [];
  ws_crypto_secret_base64 = replicate 32 b'k';
  ws_totp_secret_base32 = [];
  ws_enable_encryption = true;
  ws_enable_handshake = true;
  ws_enable_totp = false;
  ws_auth_token = codes "token";
  ws_totp_period_s = 30;
  ws_totp_digits = 6;
  ws_totp_window = 1;
}

-- Nothing answers, and the flash memory holds an endpoint.
abbrev around : Surroundings
around = record {
  granted = granted;
  load_opened = true;
  erase_opened = true;
  now = 9000;
  rounds = record { elapsed = 0; results = []; elapsed_after = 5000 } ∷ [];
}

abbrev calls : Calls
calls = record {
  nvs = ok tt;
  netif = ok tt;
  wifi_init = init_done;
  timer = true;
  register_wifi = ok tt;
  register_ip = ok tt;
  prov_mgr_init = λ scheme. ok tt;
  is_provisioned = ok true;
  set_username = ok tt;
  start_provisioning = ok tt;
  provisioning = [];
  station = ok tt;
}

abbrev grants : Grants
grants = record { header_block = true; client = true; timer = true; start = ok tt }

abbrev left : Left
left = record {
  network = record { sec2_params = none; s_wifi_ready = true };
  wifi = record {
    bits = record { connected = true; fail = false; prov_done = true };
    is_connected = true;
    has_timer = true;
    backoff_ms = 1000;
    force_reprovision = false;
  };
  store = record {
    last_uri = some (codes "wss://10.0.0.7:8443/ws");
    last_sni = none;
    last_ts = some 5000;
  };
  s_next_command_seq = 7;
  settings = none;
  client = record {
    has_client = false;
    has_rx_cb = false;
    has_error_cb = false;
    connected = false;
    should_run = false;
    has_timer = false;
    reconnect_delay_ms = 0;
    reconnect_min_ms = 0;
    reconnect_max_ms = 0;
    has_header_block = false;
    headers = none;
    security = zeroed;
    rx_counter = 0;
    token = [];
    header_len = 0;
    handshake_enabled = false;
    totp_enabled = false;
    totp_digits = 0;
    has_time_fn = false;
  };
}

hmi_ws_client_start-IsStarted_example :
    IsStarted copying options
      (hmi_ws_client_start toy copying grants (replicate 16 9) 59 around options calls [] left)
hmi_ws_client_start-IsStarted_example =
    hmi_ws_client_start-IsStarted toy copying grants (replicate 16 9) 59 around options calls []
      left (record { no_client = refl; no_timer = refl; no_block = refl; not_connected = refl })
