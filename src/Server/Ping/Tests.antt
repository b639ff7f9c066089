-- ===== src/Server/Ping/Tests.antt =====
-- Tests of the ping timer.
use n32r.Prelude.{ℕ, ◌≡◌, refl, some, List, [], ◌∷◌, true, false, Status, ok}
use n32r.Server.Types.{Client, fd_eq, closed}
use n32r.Server.Clients.{drop_client_locked}
use n32r.Server.Sweep.{sweep, round}
use n32r.Server.Ping.{Timing, ping_client, ping_timer_cb}

abbrev late : Client
late = record {
  fd = some 4;
  last_seen = 100;
  awaiting_pong = true;
  handshake_verified = true;
  last_counter = 0;
}

abbrev clients : List Client
clients = late ∷ (record late { fd = some 7; awaiting_pong = false } ∷ [])

abbrev timing : Timing
timing = record { ping_interval = 50; pong_timeout = 25 }

abbrev all_sent : ℕ → Status
all_sent fd = ok tt

tick_closes : (ping_timer_cb true all_sent timing 140 (some clients)).1 ≡ closed (some 4) ∷ []
unfolding ping_timer_cb sweep round ping_client drop_client_locked fd_eq
tick_closes = refl
