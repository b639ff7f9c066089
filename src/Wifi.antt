-- ===== src/Wifi.antt =====
-- common/net/wifi_manager.c: the Wi-Fi station, its events and the waits between reconnects. The event
-- group exists; log messages are not modelled.
pub mod Backoff
pub mod Connect
pub mod Start
mod Tests
use n32r.Prelude.{
  Bool, Bool-cases, EspErr, List, Option, Option-cases, Result, Result-cases, Status, [], ap,
  append-nil, append_assoc, ap₂, arith, choose, drop, err, esp_fail, false, get_elem?,
  get_elem?-set_ne, get_elem?-set_self, get_or, guard, if◌then◌else◌, inl, inr, invalid_arg,
  invalid_response, invalid_size, invalid_state, invalid_version, leb, length, length-append,
  length-drop, length-replicate, length-set, length-take, ltb, lt→ltb, map, min, no_mem, none, not,
  ok, refl, replicate, set, some, suc, sym, take, take-append-drop, tests, true, zero, ℕ, ◌%◌, ◌&&◌,
  ◌*◌, ◌++◌, ◌+◌, ◌-◌, ◌/◌, ◌<◌, ◌==◌, ◌>>=◌, ◌>>◌, ◌^◌, ◌||◌, ◌↔◌, ◌∙◌, ◌∷◌, ◌≡◌, ◌≢◌, ◌≤◌, ◌⊎◌,
}
use n32r.Prelude.Words.{u32_mod}

-- `wifi_manager_config_t`; a null string or parameter counts as an empty one. The timeouts and the
-- service key go to the driver and to the scheduler only.
pub record Config : Type 0 where
  pub salt : List ℕ
  pub verifier : List ℕ
  pub sec2_username : List ℕ
  pub prefer_ble : Bool
  pub force_provisioning : Bool
  pub max_connect_attempts : ℕ

-- The event group's bits.
pub record Bits : Type 0 where
  pub connected : Bool
  pub fail : Bool
  pub prov_done : Bool

-- The static variables.
pub record State : Type 0 where
  pub bits : Bits
  pub is_connected : Bool
  pub has_timer : Bool
  pub backoff_ms : ℕ
  pub force_reprovision : Bool

pub data Event : Type 0 where
  sta_start sta_disconnected sta_got_ip unrelated : Event

-- What is asked of the driver, the timer and the provisioning manager.
pub data Action : Type 0 where
  connects disconnects : Action
  armed : ℕ → Action
  provisions ends_provisioning resets : Action

unfoldable pub on_disconnected : State → State × List Action
on_disconnected st =
    let st' : State = record st {
      is_connected = false;
      bits = record st.bits { connected = false; fail = true };
    } in
    if not st.has_timer then (st', []) else (
      record st' {
        backoff_ms = if ltb st.backoff_ms 32000 then st.backoff_ms * 2 % u32_mod else st.backoff_ms;
      },
      armed st.backoff_ms ∷ [],
    )

unfoldable pub wifi_event_handler : Event → State → State × List Action
wifi_event_handler sta_start st = (st, connects ∷ [])
wifi_event_handler sta_disconnected st = on_disconnected st
wifi_event_handler sta_got_ip st = (
  record st { is_connected = true; backoff_ms = 1000; bits = record st.bits { connected = true } },
  [],
)
wifi_event_handler unrelated st = (st, [])

-- Events in their order.
unfoldable pub handle_all : List Event → State → State × List Action
handle_all [] st = (st, [])
handle_all (event ∷ events) st =
    let (st', actions) = wifi_event_handler event st in
    let (st'', actions') = handle_all events st' in (st'', actions ++ actions')

abbrev pub reconnect_timer_cb : List Action
reconnect_timer_cb = connects ∷ []

unfoldable pub wifi_manager_request_reprovision : State → State × List Action
wifi_manager_request_reprovision st = (record st { force_reprovision = true }, resets ∷ [])
