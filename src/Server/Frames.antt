-- ===== src/Server/Frames.antt =====
-- The frames that `ws_handler` of ws_server.c takes from a client. The receive callback is an
-- action and does not call the server back.
pub mod Laws
mod Tests
use n32r.Prelude.{
  ℕ, Bool, true, false, not, ◌&&◌, Option, none, some, List, [], ◌∷◌, length, take, drop, leb, ltb,
  if◌then◌else◌, no_mem, invalid_state, Result, Status, ok, err,
}
use n32r.Prelude.Bytes.{le_value}
use n32r.Crypto.{Crypto}
use n32r.Security.{Context, decrypt}
use n32r.Server.Types.{
  Client, FrameType, text, binary, ping, pong, other, Action, sent, closed, delivered,
}
use n32r.Server.Clients.{Table, find_client, update_client, drop_client_locked}

abbrev pub is_binary : FrameType → Bool
is_binary text = false
is_binary binary = true
is_binary ping = false
is_binary pong = false
is_binary other = false

-- The message for the callback: a binary one starts with its CRC.
unfoldable pub deliver : FrameType → List ℕ → Action
deliver type payload =
    if is_binary type && leb 4 (length payload)
    then delivered (drop 4 payload) (le_value (take 4 payload))
    else delivered payload 0

-- The client after a message, with the counter of its frame if that was encrypted.
abbrev pub heard : Option ℕ → Client → Client
heard none client = record client { awaiting_pong = false }
heard (some counter) client = record client { awaiting_pong = false; last_counter = counter }

module _ (c : Crypto) (ctx : Context) (fd : Option ℕ) where
  -- The part of `ws_handler` that runs when there is a callback.
  unfoldable pub receive :
      FrameType → List ℕ → Client → List Client → Status × (List Client × List Action)
  receive type payload client clients =
      if not (ctx.encryption_enabled && is_binary type)
      then (ok tt, (update_client fd (heard none) clients, deliver type payload ∷ []))
      else (if not client.handshake_verified
          then (err invalid_state, (clients, []))
          else (elim (decrypt c ctx payload (some client.last_counter)) [
            | err e ↦ (err e, (drop_client_locked ctx.handshake_enabled fd clients, closed fd ∷ []))
            | ok (plaintext, counter) ↦
                (ok tt, (update_client fd (heard counter) clients, deliver type plaintext ∷ []))
          ]))

  -- A frame that has been read, at tick `now`.
  unfoldable pub on_frame :
      Bool → ℕ → FrameType → List ℕ → List Client → Status × (List Client × List Action)
  on_frame has_rx_cb now type payload clients = elim (find_client fd clients) [
    | none ↦ (err invalid_state, (clients, []))
    | some client ↦
        let clients' = update_client fd (λ c. record c { last_seen = now }) clients in
        let message =
          if has_rx_cb
          then receive type payload client clients'
          else (ok tt, (update_client fd (heard none) clients', [])) in
        elim type [
          | pong ↦ (ok tt, (update_client fd (heard none) clients', []))
          | ping ↦ (ok tt, (clients', sent fd pong payload ∷ []))
          | text ↦ message
          | binary ↦ message
          | other ↦ message
        ]
  ]

  -- What the two calls of `httpd_ws_recv_frame` give: the length, then type and payload.
  unfoldable pub handle_frame :
      Bool → ℕ → ℕ → Result ℕ → Result (FrameType × List ℕ) → Table → Status × (Table × List Action)
  handle_frame has_rx_cb rx_buffer_size now announced frame table = elim announced [
    | err e ↦ (err e, (table, []))
    | ok len ↦ if ltb rx_buffer_size len then (err no_mem, (table, [])) else (elim frame [
      | err e ↦ (err e, (table, []))
      | ok (type, payload) ↦ elim table [
        | none ↦ (err invalid_state, (none, []))
        | some clients ↦
            let (status, (clients', actions)) = on_frame has_rx_cb now type payload clients in
            (status, (some clients', actions))
      ]
    ])
  ]
