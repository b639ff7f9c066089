-- ===== src/Server/Sweep.antt =====
-- The loop of `ping_timer_cb` and of `ws_server_send`: it walks over the slots of the client table
-- and drops clients by their descriptor while it does. What a round does with a client is a
-- parameter.
pub mod Laws
pub mod Find
use n32r.Prelude.{
  ℕ, zero, suc, ◌+◌, Bool, Option, none, some, List, [], ◌∷◌, ◌++◌, set, get_elem?, EspErr, Status,
  ok, err,
}
use n32r.Server.Types.{Client, Action}
use n32r.Server.Clients.{drop_client_locked}

-- A round keeps its client, as it has changed it, or drops it; then it may leave an error for the
-- caller.
pub data Verdict : Type 0 where
  keep : Client → List Action → Verdict
  drop : List Action → Option EspErr → Verdict

-- The error of a later round replaces that of an earlier one.
abbrev pub worse : Status → Option EspErr → Status
worse result none = result
worse result (some e) = err e

module _ (handshake_enabled : Bool) (visit : ℕ → Client → Verdict) where
  -- What one round makes of the table.
  unfoldable pub round : ℕ → Client → ℕ → List Client → List Client × (List Action × Option EspErr)
  round i client fd clients = elim (visit fd client) [
    | keep client' actions ↦ (set clients i client', (actions, none))
    | drop actions failure ↦
        (drop_client_locked handshake_enabled (some fd) clients, (actions, failure))
  ]

  -- The rounds from slot `i` on, `left` of them.
  unfoldable pub sweep : ℕ → ℕ → List Client → Status → List Client × (List Action × Status)
  sweep zero i clients result = (clients, ([], result))
  sweep (suc left) i clients result = elim (get_elem? clients i) [
    | none ↦ (clients, ([], result))
    | some client ↦ elim client.fd [
      | none ↦ sweep left (i + 1) clients result
      | some fd ↦
          let (clients', (actions, failure)) = round i client fd clients in
          let (clients'', (actions', result')) =
            sweep left (i + 1) clients' (worse result failure) in
          (clients'', (actions ++ actions', result'))
    ]
  ]
