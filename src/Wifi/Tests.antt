-- ===== src/Wifi/Tests.antt =====
-- Tests of the Wi-Fi station.
use n32r.Prelude.{List, [], arith, false, ok, refl, replicate, true, ◌∷◌, ◌≡◌}
use n32r.Wifi.{Config, State, Event, sta_start, sta_disconnected, sta_got_ip}
use n32r.Wifi.Connect.{connect_loop}
use n32r.Wifi.Connect.Laws.{Ended, connect_loop-Ended}
use n32r.Wifi.Start.{
  ble, Calls, init_done, waits, lacks_params, prepare_provisioning, wifi_manager_start,
}
use n32r.Wifi.Start.Laws.{Joined, wifi_manager_start-Joined, Stored, start_waits}

abbrev idle : State
idle = record {
  bits = record { connected = false; fail = false; prov_done = false };
  is_connected = false;
  has_timer = true;
  backoff_ms = 1000;
  force_reprovision = false;
}

abbrev config : Config
config = record {
  salt = 1 ∷ [];
  verifier = 2 ∷ [];
  sec2_username = [];
  prefer_ble = true;
  force_provisioning = false;
  max_connect_attempts = 3;
}

abbrev calls : Calls
calls = record {
  nvs = ok tt;
  netif = ok tt;
  wifi_init = init_done;
  timer = true;
  register_wifi = ok tt;
  register_ip = ok tt;
  prov_mgr_init = λ scheme. ok tt;
  is_provisioned = ok true;
  set_username = ok tt;
  start_provisioning = ok tt;
  provisioning = [];
  station = ok tt;
}

abbrev losses : List Event
losses = sta_disconnected ∷ sta_disconnected ∷ []

-- A wait that times out, a loss, and then a connection.
abbrev rounds : List (List Event)
rounds = [] ∷ (losses ∷ ((sta_start ∷ (sta_got_ip ∷ [])) ∷ []))

connect_loop-Ended_example : Ended idle (connect_loop config rounds 0 idle)
connect_loop-Ended_example =
    connect_loop-Ended config rounds 0 idle (λ e. e) refl (omega arith) (omega arith) (omega arith)

wifi_manager_start-Joined_example : Joined (wifi_manager_start calls config rounds idle)
wifi_manager_start-Joined_example = wifi_manager_start-Joined calls config rounds idle

stored : Stored calls config idle
unfolding prepare_provisioning lacks_params
stored = record {
  nvs = refl;
  netif = refl;
  wifi_init = refl;
  register_wifi = refl;
  register_ip = refl;
  scheme = ble;
  prepared = refl;
  stored = refl;
  station = refl;
  calm = refl;
  unforced = refl;
}

start_waits_example :
    ((wifi_manager_start calls config (replicate 100 []) idle).0 ≡ waits)
    × ((wifi_manager_start calls config (replicate 100 []) idle).1.1 ≡ [])
start_waits_example = start_waits calls config idle 100 stored
