-- ===== src/Wifi/Start.antt =====
-- `wifi_manager_prepare_provisioning` and `wifi_manager_start` of wifi_manager.c. What ESP-IDF answers to
-- the calls is an argument; the service name, the keys and the timeouts are passed on to it and not
-- modelled. The configuration and the event group are not null.
pub mod Laws
use n32r.Prelude.{
  ota_validate_failed, Bool, Bool-cases, EspErr, List, Option, Option-cases, Result, Result-cases,
  Status, [], ap, append-nil, append_assoc, ap₂, arith, choose, drop, err, esp_fail, false,
  get_elem?, get_elem?-set_ne, get_elem?-set_self, get_or, guard, if◌then◌else◌, inl, inr,
  invalid_arg, invalid_response, invalid_size, invalid_state, invalid_version, timeout, not_found,
  not_supported, invalid_crc, leb, length, length-append, length-drop, length-replicate, length-set,
  length-take, ltb, lt→ltb, map, min, no_mem, none, not, ok, refl, replicate, set, some, suc, sym,
  take, take-append-drop, tests, timeout, true, zero, ℕ, ◌%◌, ◌&&◌, ◌*◌, ◌++◌, ◌+◌, ◌-◌, ◌/◌, ◌<◌,
  ◌==◌, ◌>>=◌, ◌>>◌, ◌^◌, ◌||◌, ◌↔◌, ◌∙◌, ◌∷◌, ◌≡◌, ◌≢◌, ◌≤◌, ◌⊎◌,
}
use n32r.Wifi.{Config, Bits, State, Event, Action, provisions, ends_provisioning}
use n32r.Wifi.Connect.{connect_loop}

pub data Scheme : Type 0 where
  ble softap : Scheme

-- Events of the provisioning manager: those that are only logged, success, and the end.
pub data Provisioning : Type 0 where
  logged cred_success ended : Provisioning

-- How `esp_wifi_init` answers.
pub data WifiInit : Type 0 where
  init_done init_state : WifiInit
  init_failed : EspErr → WifiInit

-- How a call of `wifi_manager_start` ends: it returns, `ESP_ERROR_CHECK` aborts, or it still waits.
pub data Ending : Type 0 where
  returned : Status → Ending
  aborted waits : Ending

-- What the calls answer. `station` is the first failure of the calls that start the station.
pub record Calls : Type 0 where
  pub nvs : Status
  pub netif : Status
  pub wifi_init : WifiInit
  pub timer : Bool
  pub register_wifi : Status
  pub register_ip : Status
  pub prov_mgr_init : Scheme → Status
  pub is_provisioned : Result Bool
  pub set_username : Status
  pub start_provisioning : Status
  pub provisioning : List Provisioning
  pub station : Status

unfoldable pub lacks_params : Config → Bool
lacks_params config = length config.salt == 0 || length config.verifier == 0

-- The scheme that is active, of the one that is preferred and the one that is always there.
unfoldable pub prepare_provisioning : (Scheme → Status) → Config → Result Scheme
prepare_provisioning init config =
    if lacks_params config
    then err invalid_arg
    else (elim (init (if config.prefer_ble then ble else softap)) [
      | ok _ ↦ ok (if config.prefer_ble then ble else softap)
      | err e ↦
          if not config.prefer_ble
          then err e
          else (elim (init softap) [ ok _ ↦ ok softap | err e' ↦ err e' ])
    ])

unfoldable pub provisioning_event_handler : Provisioning → State → State × List Action
provisioning_event_handler logged st = (st, [])
provisioning_event_handler cred_success st =
    (record st { bits = record st.bits { prov_done = true } }, [])
provisioning_event_handler ended st = (st, ends_provisioning ∷ [])

unfoldable pub handle_provisioning : List Provisioning → State → State × List Action
handle_provisioning [] st = (st, [])
handle_provisioning (event ∷ events) st =
    let (st', actions) = provisioning_event_handler event st in
    let (st'', actions') = handle_provisioning events st' in (st'', actions ++ actions')

-- `esp_event_handler_register`: a handler that is there already will do.
unfoldable pub is_registered : Status → Status
is_registered (ok _) = ok tt
is_registered (err code) = elim code [
  | esp_fail ↦ err esp_fail
  | no_mem ↦ err no_mem
  | invalid_arg ↦ err invalid_arg
  | invalid_state ↦ ok tt
  | invalid_size ↦ err invalid_size
  | not_found ↦ err not_found
  | not_supported ↦ err not_supported
  | timeout ↦ err timeout
  | invalid_response ↦ err invalid_response
  | invalid_crc ↦ err invalid_crc
  | invalid_version ↦ err invalid_version
  | ota_validate_failed ↦ err ota_validate_failed
]

abbrev pub ending : Option Status → Ending
ending none = waits
ending (some status) = returned status

module _ (calls : Calls) (config : Config) where
  -- The last part.
  unfoldable pub connect_station :
      List (List Event) → State → List Action → Ending × (State × List Action)
  connect_station rounds st actions = elim calls.station [
    | err e ↦ (aborted, (st, actions))
    | ok _ ↦
        let ready : State = record st {
          bits = record st.bits { connected = false; fail = false };
        } in
        let (result, (st', actions')) = connect_loop config rounds 0 ready in
        (ending result, (st', actions ++ actions'))
  ]

  -- Until credentials have come. The wait clears the bit that it waits for.
  unfoldable pub provision : List (List Event) → State → Ending × (State × List Action)
  provision rounds st =
      let cleared : State = record st {
        bits = record { connected = false; fail = false; prov_done = false };
      } in
      if ltb 65535 (length config.salt) || ltb 65535 (length config.verifier)
      then (returned (err invalid_size), (cleared, []))
      else (elim (if length config.sec2_username == 0 then ok tt else calls.set_username) [
        | err e ↦ (aborted, (cleared, []))
        | ok _ ↦ elim calls.start_provisioning [
          | err e ↦ (aborted, (cleared, []))
          | ok _ ↦
              let (st', actions) = handle_provisioning calls.provisioning cleared in
              let waited : State = record st' { bits = record st'.bits { prov_done = false } } in
              if not st'.bits.prov_done
              then (
                returned (err timeout),
                (waited, provisions ∷ (actions ++ (ends_provisioning ∷ []))),
              )
              else connect_station rounds (record waited { force_reprovision = false })
                  (provisions ∷ actions)
        ]
      ])

  unfoldable pub with_provisioning : List (List Event) → State → Ending × (State × List Action)
  with_provisioning rounds st = elim (prepare_provisioning calls.prov_mgr_init config) [
    | err e ↦ (aborted, (st, []))
    | ok scheme ↦ elim calls.is_provisioned [
      | err e ↦ (aborted, (st, []))
      | ok provisioned ↦
          if not provisioned || (st.force_reprovision || config.force_provisioning)
          then provision rounds st
          else connect_station rounds (record st { bits = record st.bits { prov_done = true } }) []
    ]
  ]

  unfoldable pub with_handlers : List (List Event) → State → Ending × (State × List Action)
  with_handlers rounds st = elim (is_registered calls.register_wifi) [
    | err e ↦ (returned (err e), (st, []))
    | ok _ ↦ elim (is_registered calls.register_ip) [
      | err e ↦ (returned (err e), (st, []))
      | ok _ ↦ with_provisioning rounds st
    ]
  ]

  unfoldable pub wifi_manager_start : List (List Event) → State → Ending × (State × List Action)
  wifi_manager_start rounds st = elim calls.nvs [
    | err e ↦ (aborted, (st, []))
    | ok _ ↦ elim calls.netif [
      | err e ↦ (aborted, (st, []))
      | ok _ ↦ elim calls.wifi_init [
        | init_state ↦ (returned (err invalid_state), (st, []))
        | init_failed e ↦ (returned (err e), (st, []))
        | init_done ↦ with_handlers rounds (record st { has_timer = st.has_timer || calls.timer })
      ]
    ]
  ]
