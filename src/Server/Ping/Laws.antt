-- ===== src/Server/Ping/Laws.antt =====
-- What a tick of the ping timer does to each client.
use n32r.Prelude.{
  ℕ, ◌≡◌, refl, ◌∙◌, Bool, true, Option, some, none, List, arith, Status, ok, err, leb,
  if◌then◌else◌,
}
use n32r.Prelude.Words.{sub32}
use n32r.Server.Types.{Client, Action}
use n32r.Server.Clients.{find_client}
use n32r.Server.Sweep.Laws.{Distinct, Keeps, visited, sweep-visited}
use n32r.Server.Sweep.Find.{find-visited}
use n32r.Server.Ping.{Timing, ping_client, ping_timer_cb}

-- What is to become of a client that was last heard of `elapsed` ticks ago, when a ping to it has
-- the given outcome.
abbrev pub after_tick : Status → Timing → ℕ → Client → Option Client
after_tick outcome timing elapsed client =
    if client.awaiting_pong
    then (if leb timing.pong_timeout elapsed then none else some client)
    else (if leb timing.ping_interval elapsed
        then (elim outcome [ ok _ ↦ some (record client { awaiting_pong = true }) | err e ↦ none ])
        else some client)

module _ (hs : Bool) (send : ℕ → Status) (timing : Timing) (now : ℕ) where
  ping_keeps : Keeps hs (ping_client send timing now)
  unfolding ping_client
  ping_keeps fd client client' actions h = ground arith

  ping-visited :
      (clients : List Client)
      → Distinct clients
      → ping_timer_cb hs send timing now (some clients) ≡ (
          let (clients', (actions, _)) = visited hs (ping_client send timing now) clients (ok tt) in
          (some clients', actions))
  unfolding ping_timer_cb
  ping-visited clients distinct =
      rw (sweep-visited hs (ping_client send timing now) ping_keeps clients (ok tt) distinct) refl

  -- In a table without double descriptors, a tick of the ping timer drops a client that has let the
  -- pong timeout pass, pings one that has been silent for the ping interval, marking it as awaiting
  -- a pong or dropping it if the ping fails, and leaves every other client as it is.
  pub ping_timer_lem :
      (clients : List Client) (fd : ℕ) (client : Client)
      → Distinct clients
      → find_client (some fd) clients ≡ some client
      → (clients' : List Client) × (actions : List Action) × (ping_timer_cb hs send timing now
            (some clients)
          ≡ (some clients', actions))
        × (find_client (some fd) clients'
            ≡ after_tick (send fd) timing (sub32 now client.last_seen) client)
  unfolding ping_client
  ping_timer_lem clients fd client distinct at =
      let v = visited hs (ping_client send timing now) clients (ok tt) in
      (
        v.0,
        v.1.0,
        ping-visited clients distinct,
        find-visited hs (ping_client send timing now) ping_keeps fd clients client (ok tt) distinct
              at
            ∙ ground arith,
      )
