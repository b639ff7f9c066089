-- ===== src/WsClient/Events.antt =====
-- `websocket_event_handler` and `reconnect_timer_cb` of ws_client.c. Events carry their data; the
-- receive callback is an action and does not call the client back.
pub mod Backoff
pub mod Receive
use n32r.Prelude.{
  Bool, Bool-cases, EspErr, List, Option, Option-cases, Result, Result-cases, Status, [], ap,
  append-nil, append_assoc, ap₂, arith, drop, err, esp_fail, false, get_elem?, get_elem?-set_ne,
  get_elem?-set_self, get_or, guard, if◌then◌else◌, inl, inr, invalid_arg, invalid_response,
  invalid_size, invalid_state, invalid_version, leb, length, length-append, length-drop,
  length-replicate, length-set, length-take, ltb, lt→ltb, map, min, no_mem, none, not, ok, refl,
  replicate, set, some, suc, sym, take, take-append-drop, tests, true, zero, ℕ, ◌%◌, ◌&&◌, ◌*◌,
  ◌++◌, ◌+◌, ◌-◌, ◌/◌, ◌<◌, ◌==◌, ◌>>=◌, ◌>>◌, ◌^◌, ◌||◌, ◌↔◌, ◌∙◌, ◌∷◌, ◌≡◌, ◌≢◌, ◌≤◌, ◌⊎◌,
}
use n32r.Crypto.{Crypto}
use n32r.Util.Base64.{Codec}
use n32r.Security.{decrypt, reset_counters}
use n32r.Server.Types.{FrameType, text, binary, ping, pong, other}
use n32r.Server.Frames.{is_binary}
use n32r.WsClient.State.{State}
use n32r.WsClient.Headers.{regenerate_headers}
use n32r.Prelude.Words.{u32_mod}
use n32r.Prelude.Bytes.{le_value}

pub data Event : Type 0 where
  connected disconnected failed ignored : Event
  arrived : FrameType → List ℕ → Event

-- A reconnect after so many milliseconds, the start of a connection, a message for the receive
-- callback with its CRC, and a call of the error callback.
pub data Action : Type 0 where
  armed : ℕ → Action
  started : Action
  delivered : List ℕ → ℕ → Action
  reported : Action

unfoldable pub on_connected : State → State
on_connected st = record st {
  connected = true;
  reconnect_delay_ms = st.reconnect_min_ms;
  security = reset_counters st.security;
  rx_counter = 0;
}

-- The delay that is used, and the one for the next time.
unfoldable pub delay_of : State → ℕ
delay_of st =
    if ltb st.reconnect_max_ms st.reconnect_delay_ms
    then st.reconnect_max_ms
    else st.reconnect_delay_ms

unfoldable pub next_delay : State → ℕ
next_delay st =
    if ltb st.reconnect_delay_ms st.reconnect_max_ms
    then (let next = st.reconnect_delay_ms * 2 in
        (if ltb st.reconnect_max_ms next then st.reconnect_max_ms else next) % u32_mod)
    else st.reconnect_delay_ms

unfoldable pub on_disconnected : State → State × List Action
on_disconnected st =
    if st.should_run && st.has_timer
    then (
      record st { connected = false; reconnect_delay_ms = next_delay st },
      armed (delay_of st) ∷ [],
    )
    else (record st { connected = false }, [])

-- A binary message starts with its CRC.
unfoldable pub deliver : FrameType → List ℕ → Action
deliver op_code payload =
    if is_binary op_code && leb 4 (length payload)
    then delivered (drop 4 payload) (le_value (take 4 payload))
    else delivered payload 0

-- The counter after a frame, which `decrypt` was given.
abbrev counted : Option ℕ → ℕ → ℕ
counted none counter = counter
counted (some counter') counter = counter'

module _ (c : Crypto) where
  unfoldable pub on_data : FrameType → List ℕ → State → State × List Action
  on_data op_code payload st =
      if not (st.has_rx_cb && ltb 0 (length payload))
      then (st, [])
      else (if not (st.security.encryption_enabled && is_binary op_code)
          then (st, deliver op_code payload ∷ [])
          else (elim (decrypt c st.security payload (some st.rx_counter)) [
            | err e ↦ (st, [])
            | ok (plaintext, counter) ↦ (
              record st { rx_counter = counted counter st.rx_counter },
              deliver op_code plaintext ∷ [],
            )
          ]))

  unfoldable pub websocket_event_handler : Event → State → State × List Action
  websocket_event_handler connected st = (on_connected st, [])
  websocket_event_handler disconnected st = on_disconnected st
  websocket_event_handler (arrived op_code payload) st = on_data op_code payload st
  websocket_event_handler failed st = (st, if st.has_error_cb then reported ∷ [] else [])
  websocket_event_handler ignored st = (st, [])

  -- Events in their order.
  unfoldable pub handle_all : List Event → State → State × List Action
  handle_all [] st = (st, [])
  handle_all (event ∷ events) st =
      let (st', actions) = websocket_event_handler event st in
      let (st'', actions') = handle_all events st' in (st'', actions ++ actions')

  -- The timer fires once; the outcome of `client_start` is not looked at.
  unfoldable pub reconnect_timer_cb : Codec → Bool → List ℕ → ℕ → State → State × List Action
  reconnect_timer_cb b allocated nonce unix_time st =
      if not (st.has_client && st.should_run)
      then (st, [])
      else (if st.header_len == 0
          then (st, started ∷ [])
          else (let (status, st') = regenerate_headers c b allocated nonce unix_time st in
              elim status [ err e ↦ (st', []) | ok _ ↦ (st', started ∷ []) ]))
