-- ===== src/Server/Ping.antt =====
-- `ping_timer_cb` of ws_server.c. The outcome of `httpd_ws_send_frame_async` on a descriptor is a
-- parameter, and so is `pdMS_TO_TICKS`.
pub mod Laws
mod Tests
use n32r.Prelude.{
  ℕ, Bool, true, false, not, ◌&&◌, Option, none, some, List, [], ◌∷◌, length, leb, if◌then◌else◌,
  Status, ok, err,
}
use n32r.Prelude.Words.{sub32}
use n32r.Server.Types.{Client, Action, FrameType, ping, sent, closed}
use n32r.Server.Clients.{Table}
use n32r.Server.Sweep.{Verdict, keep, drop, sweep}

pub record Timing : Type 0 where
  pub ping_interval : ℕ
  pub pong_timeout : ℕ

-- One round.
unfoldable pub ping_client : (ℕ → Status) → Timing → ℕ → ℕ → Client → Verdict
ping_client send timing now fd client =
    let elapsed = sub32 now client.last_seen in
    if client.awaiting_pong && leb timing.pong_timeout elapsed
    then drop (closed (some fd) ∷ []) none
    else (if not client.awaiting_pong && leb timing.ping_interval elapsed
        then (elim (send fd) [
          | ok _ ↦ keep (record client { awaiting_pong = true }) (sent (some fd) ping [] ∷ [])
          | err e ↦ drop (sent (some fd) ping [] ∷ (closed (some fd) ∷ [])) none
        ])
        else keep client [])

unfoldable pub ping_timer_cb : Bool → (ℕ → Status) → Timing → ℕ → Table → Table × List Action
ping_timer_cb handshake_enabled send timing now none = (none, [])
ping_timer_cb handshake_enabled send timing now (some clients) =
    let (clients', (actions, _)) =
      sweep handshake_enabled (ping_client send timing now) (length clients) 0 clients (ok tt) in
    (some clients', actions)
