-- ===== src/Wifi/Connect.antt =====
-- The loop of `wifi_manager_start` that waits for the connection. A round is the events that come
-- until a wait returns; `none` is a loop that has not returned yet.
pub mod Laws
use n32r.Prelude.{
  Bool, Bool-cases, EspErr, List, Option, Option-cases, Result, Result-cases, Status, [], ap,
  append-nil, append_assoc, ap₂, arith, choose, drop, err, esp_fail, false, get_elem?,
  get_elem?-set_ne, get_elem?-set_self, get_or, guard, if◌then◌else◌, inl, inr, invalid_arg,
  invalid_response, invalid_size, invalid_state, invalid_version, leb, length, length-append,
  length-drop, length-replicate, length-set, length-take, ltb, lt→ltb, map, min, no_mem, none, not,
  ok, refl, replicate, set, some, suc, sym, take, take-append-drop, tests, true, zero, ℕ, ◌%◌, ◌&&◌,
  ◌*◌, ◌++◌, ◌+◌, ◌-◌, ◌/◌, ◌<◌, ◌==◌, ◌>>=◌, ◌>>◌, ◌^◌, ◌||◌, ◌↔◌, ◌∙◌, ◌∷◌, ◌≡◌, ◌≢◌, ◌≤◌, ◌⊎◌,
  timeout,
}
use n32r.Prelude.Words.{u32_mod}
use n32r.Wifi.{Config, Bits, State, Event, Action, connects, disconnects, handle_all}

-- `xEventGroupWaitBits` gives all bits of the group.
unfoldable pub is_zero : Bits → Bool
is_zero bits = not (bits.connected || (bits.fail || bits.prov_done))

-- It clears the bits that it waited for.
unfoldable pub clear_waited : State → State
clear_waited st = record st { bits = record st.bits { connected = false; fail = false } }

unfoldable pub connect_loop :
    Config → List (List Event) → ℕ → State → Option Status × (State × List Action)
connect_loop config [] attempts st = (none, (st, []))
connect_loop config (round ∷ rounds) attempts st =
    let (st', actions) = handle_all round st in
    let bits = st'.bits in
    let counted = is_zero bits || bits.fail in
    let attempts' = if counted then (attempts + 1) % u32_mod else attempts in
    let retry : List Action = if is_zero bits then disconnects ∷ (connects ∷ []) else [] in
    let (result, (st'', actions')) = connect_loop config rounds attempts' (clear_waited st') in
    if bits.connected
    then (some (ok tt), (clear_waited st', actions))
    else (if counted
          && (not (config.max_connect_attempts == 0) && leb config.max_connect_attempts attempts')
        then (some (err timeout), (clear_waited st', actions ++ retry))
        else (result, (st'', actions ++ (retry ++ actions'))))
