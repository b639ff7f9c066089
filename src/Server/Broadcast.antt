-- ===== src/Server/Broadcast.antt =====
-- `ws_server_send` of ws_server.c. The random nonce, the outcome of the allocation and the outcome
-- of a frame on each descriptor are arguments.
pub mod Laws
use n32r.Prelude.{
  ℕ, Bool, true, false, not, ◌||◌, ◌==◌, Option, none, some, List, [], ◌∷◌, length, if◌then◌else◌,
  EspErr, no_mem, invalid_state, Result, Status, ok, err,
}
use n32r.Crypto.{Crypto}
use n32r.Security.{Context, encrypted_size, encrypt}
use n32r.Server.Types.{Client, Action, FrameType, binary, sent, closed}
use n32r.Server.Clients.{Table}
use n32r.Server.Sweep.{Verdict, keep, drop, sweep}

-- One round.
unfoldable pub send_client : (ℕ → Status) → List ℕ → ℕ → Client → Verdict
send_client send frame fd client = elim (send fd) [
  | ok _ ↦ keep client (sent (some fd) binary frame ∷ [])
  | err e ↦ drop (sent (some fd) binary frame ∷ (closed (some fd) ∷ [])) (some e)
]

-- The frame that is sent to every client, and the context after it.
unfoldable pub frame_of : Crypto → List ℕ → Bool → Context → List ℕ → Result (List ℕ) × Context
frame_of c iv allocated ctx payload =
    if not ctx.encryption_enabled
    then (ok payload, ctx)
    else (if not allocated
        then (err no_mem, ctx)
        else encrypt c iv ctx payload (encrypted_size ctx (length payload)))

-- A server that has been started has a table.
unfoldable pub broadcast : (ℕ → Status) → Context → List ℕ → Table → Status × (Table × List Action)
broadcast send ctx frame none = (ok tt, (none, []))
broadcast send ctx frame (some clients) =
    let (clients', (actions, result)) =
      sweep ctx.handshake_enabled (send_client send frame) (length clients) 0 clients (ok tt) in
    (result, (some clients', actions))

unfoldable pub ws_server_send :
    Crypto
    → List ℕ
    → Bool
    → (ℕ → Status)
    → Bool
    → Context
    → List ℕ
    → Table
    → Status × (Context × (Table × List Action))
ws_server_send c iv allocated send started ctx payload table =
    if not started || length payload == 0
    then (err invalid_state, (ctx, (table, [])))
    else (let (frame, ctx') = frame_of c iv allocated ctx payload in
        elim frame [
          | err e ↦ (err e, (ctx', (table, [])))
          | ok bytes ↦
              let (result, (table', actions)) = broadcast send ctx' bytes table in
              (result, (ctx', (table', actions)))
        ])
