-- ===== src/Wifi/Start/Laws.antt =====
-- What a start that returns has brought about, and a start that does not return.
use n32r.Prelude.{
  Bool, Bool-cases, EspErr, List, Result, Result-cases, Status, [], ap, arith, choose, err,
  esp_fail, false, if◌then◌else◌, inl, inr, invalid_arg, length, ltb, not, ok, refl, replicate,
  true, ℕ, ◌==◌, ◌||◌, ◌∙◌, ◌∷◌, ◌≡◌, ◌⊎◌,
}
use mathlib.Core.Bool.{false≢true}
use n32r.Prelude.{choose}
use n32r.Wifi.{Config, State, Event, Action}
use n32r.Wifi.Connect.Laws.{connect_loop-Sound, marked, silent_rounds}
use n32r.Wifi.Start.{
  Scheme, ble, softap, WifiInit, init_done, init_state, init_failed, Ending, returned, aborted,
  waits, Calls, lacks_params, prepare_provisioning, handle_provisioning, connect_station, provision,
  with_provisioning, with_handlers, wifi_manager_start, is_registered,
}

-- The schemes in the order in which they are to be tried.
abbrev pub preferences : Config → List Scheme
preferences config = if config.prefer_ble then ble ∷ (softap ∷ []) else softap ∷ []

-- The first that can be started, or the last failure.
abbrev pub first_of : (Scheme → Status) → EspErr → List Scheme → Result Scheme
first_of init e [] = err e
first_of init e (scheme ∷ schemes) =
    let rest = λ (code : EspErr). first_of init code schemes in
    elim (init scheme) [ ok _ ↦ ok scheme | err e' ↦ rest e' ]

-- Without Security 2 parameters the preparation fails as an invalid argument. With them it activates the
-- first scheme that can be started, Bluetooth before the access point where that is preferred, and fails
-- as the last one failed where none can be.
pub prepare_provisioning_lem :
    (init : Scheme → Status) (config : Config)
    → prepare_provisioning init config ≡ (
        if lacks_params config
        then err invalid_arg
        else first_of init esp_fail (preferences config))
unfolding prepare_provisioning
prepare_provisioning_lem init config = elim (Bool-cases (lacks_params config)) [
  | inl e ↦ simp (e) refl
  | inr e ↦ elim (Bool-cases config.prefer_ble) [
    | inl p ↦ elim (Result-cases (init ble)) [
      | inl (_, f) ↦ simp (e, p, f) refl
      | inr (code, f) ↦ elim (Result-cases (init softap)) [
        | inl (_, g) ↦ simp (e, p, f, g) refl
        | inr (code', g) ↦ simp (e, p, f, g) refl
      ]
    ]
    | inr p ↦ elim (Result-cases (init softap)) [
      | inl (_, g) ↦ simp (e, p, g) refl
      | inr (code', g) ↦ simp (e, p, g) refl
    ]
  ]
]

-- Success means connected, with no request to provision left.
abbrev pub Joined : Ending × (State × List Action) → Type 0
Joined (returned (ok _), (st, actions)) = (st.is_connected ≡ true) × (st.force_reprovision ≡ false)
Joined (returned (err e), (st, actions)) = Unit
Joined (aborted, (st, actions)) = Unit
Joined (waits, (st, actions)) = Unit

init_cases :
    (w : WifiInit) → (w ≡ init_done) ⊎ ((w ≡ init_state) ⊎ ((e : EspErr) × (w ≡ init_failed e)))
init_cases init_done = inl refl
init_cases init_state = inr (inl refl)
init_cases (init_failed e) = inr (inr (e, refl))

module _ (calls : Calls) (config : Config) (rounds : List (List Event)) where
  station-Joined :
      (st : State) (actions : List Action)
      → st.force_reprovision ≡ false
      → Joined (connect_station calls config rounds st actions)
  unfolding connect_station
  station-Joined st actions calm =
      let ready : State = record st { bits = record st.bits { connected = false; fail = false } } in
      elim (Result-cases calls.station) [
        | inr (e, f) ↦ simp (f, connect_station) tt
        | inl (_, f) ↦
            elim (connect_loop-Sound config rounds 0 ready (λ e. absurd (false≢true e))) [
              | inl g ↦ simp (f, connect_station, g) tt
              | inr (inr g) ↦ simp (f, connect_station, g) tt
              | inr (inl (g, on, kept)) ↦ simp (f, connect_station, g) (on, kept ∙ calm)
            ]
      ]

  provision-Joined : (st : State) → Joined (provision calls config rounds st)
  unfolding provision
  provision-Joined st =
      let cleared : State = record st {
        bits = record { connected = false; fail = false; prov_done = false };
      } in
      choose Joined (ltb 65535 (length config.salt) || ltb 65535 (length config.verifier)) (λ e. tt)
        (λ e.
          elim (Result-cases
            (if length config.sec2_username == 0 then ok tt else calls.set_username)) [
              | inr (code, f) ↦ simp (f, provision) tt
              | inl (_, f) ↦ elim (Result-cases calls.start_provisioning) [
                | inr (code, g) ↦ simp (f, g, provision) tt
                | inl (_, g) ↦
                    simp (f, g, provision)
                      (choose Joined
                        (not (handle_provisioning calls.provisioning cleared).0.bits.prov_done)
                        (λ e. tt) (λ e. station-Joined _ _ refl))
              ]
            ])

  provisioned_false : (a b d : Bool) → (a || (b || d)) ≡ false → b ≡ false
  provisioned_false a b d e = ground arith

  provisioning-Joined : (st : State) → Joined (with_provisioning calls config rounds st)
  unfolding with_provisioning
  provisioning-Joined st = elim (Result-cases (prepare_provisioning calls.prov_mgr_init config)) [
    | inr (code, f) ↦ simp (f, with_provisioning) tt
    | inl (scheme, f) ↦ elim (Result-cases calls.is_provisioned) [
      | inr (code, g) ↦ simp (f, g, with_provisioning) tt
      | inl (provisioned, g) ↦
          simp (f, g, with_provisioning)
            (choose Joined (not provisioned || (st.force_reprovision || config.force_provisioning))
              (λ e. provision-Joined st)
              (λ e. station-Joined _ [] (
                provisioned_false (not provisioned) st.force_reprovision config.force_provisioning
                  e)))
    ]
  ]

  handlers-Joined : (st : State) → Joined (with_handlers calls config rounds st)
  unfolding with_handlers
  handlers-Joined st = elim (Result-cases (is_registered calls.register_wifi)) [
    | inr (code, f) ↦ simp (f, with_handlers) tt
    | inl (_, f) ↦ elim (Result-cases (is_registered calls.register_ip)) [
      | inr (code, g) ↦ simp (f, g, with_handlers) tt
      | inl (_, g) ↦ simp (f, g, with_handlers) (provisioning-Joined st)
    ]
  ]

  -- Where `wifi_manager_start` returns success, from whatever state and whatever events come, the station
  -- is connected and no request to provision again is left.
  pub wifi_manager_start-Joined : (st : State) → Joined (wifi_manager_start calls config rounds st)
  unfolding wifi_manager_start
  wifi_manager_start-Joined st = elim (Result-cases calls.nvs) [
    | inr (code, f) ↦ simp (f, wifi_manager_start) tt
    | inl (_, f) ↦ elim (Result-cases calls.netif) [
      | inr (code, g) ↦ simp (f, g, wifi_manager_start) tt
      | inl (_, g) ↦ elim (init_cases calls.wifi_init) [
        | inl h ↦ simp (f, g, h, wifi_manager_start) (handlers-Joined _)
        | inr (inl h) ↦ simp (f, g, h, wifi_manager_start) tt
        | inr (inr (code, h)) ↦ simp (f, g, h, wifi_manager_start) tt
      ]
    ]
  ]

-- Every call succeeds, and there are credentials from before.
pub record Stored (calls : Calls) (config : Config) (st : State) : Type 0 where
  pub nvs : calls.nvs ≡ ok tt
  pub netif : calls.netif ≡ ok tt
  pub wifi_init : calls.wifi_init ≡ init_done
  pub register_wifi : calls.register_wifi ≡ ok tt
  pub register_ip : calls.register_ip ≡ ok tt
  pub scheme : Scheme
  pub prepared : prepare_provisioning calls.prov_mgr_init config ≡ ok scheme
  pub stored : calls.is_provisioned ≡ ok true
  pub station : calls.station ≡ ok tt
  pub calm : st.force_reprovision ≡ false
  pub unforced : config.force_provisioning ≡ false

station_waits :
    (calls : Calls) (config : Config) (st : State) (n : ℕ)
    → calls.station ≡ ok tt
    → connect_station calls config
        (replicate n [])
        (record st { bits = record st.bits { prov_done = true } })
        []
      ≡ (waits, (marked st, []))
unfolding connect_station
station_waits calls config st n e = simp (e, connect_station, silent_rounds config n 0 st) refl

provisioning_waits :
    (calls : Calls) (config : Config) (st : State) (n : ℕ)
    → Stored calls config st
    → with_provisioning calls config (replicate n []) st ≡ (waits, (marked st, []))
unfolding with_provisioning
provisioning_waits calls config st n s =
    let calm : (st.force_reprovision || config.force_provisioning) ≡ false =
      rw (s.calm, s.unforced) refl in
    simp (s.prepared, s.stored, calm, with_provisioning) (station_waits calls config st n s.station)

handlers_pass :
    (calls : Calls) (config : Config) (rounds : List (List Event)) (st : State)
    → is_registered calls.register_wifi ≡ ok tt
    → is_registered calls.register_ip ≡ ok tt
    → with_handlers calls config rounds st ≡ with_provisioning calls config rounds st
unfolding with_handlers
handlers_pass calls config rounds st wifi ip = rw (wifi, with_handlers) (rw (ip) refl)

-- With stored credentials, when all calls succeed but no event comes, `wifi_manager_start` still waits
-- after any number of waits that timed out, however few attempts the configuration allows, and asks the
-- driver for no further attempt: the waits read the bit that marks the end of provisioning with the
-- others and so do not count.
pub start_waits :
    (calls : Calls) (config : Config) (st : State) (n : ℕ)
    → Stored calls config st
    → ((wifi_manager_start calls config (replicate n []) st).0 ≡ waits)
      × ((wifi_manager_start calls config (replicate n []) st).1.1 ≡ [])
unfolding wifi_manager_start is_registered
start_waits calls config st n s =
    let granted : State = record st { has_timer = st.has_timer || calls.timer } in
    let e = provisioning_waits calls config granted n (record {
      nvs = s.nvs;
      netif = s.netif;
      wifi_init = s.wifi_init;
      register_wifi = s.register_wifi;
      register_ip = s.register_ip;
      scheme = s.scheme;
      prepared = s.prepared;
      stored = s.stored;
      station = s.station;
      calm = s.calm;
      unforced = s.unforced;
    }) in
    let h =
      handlers_pass calls config (replicate n []) granted (ap is_registered s.register_wifi)
        (ap is_registered s.register_ip) in
    simp (s.nvs, s.netif, s.wifi_init, wifi_manager_start)
      (ap (λ r. r.0) (h ∙ e), ap (λ r. r.1.1) (h ∙ e))
