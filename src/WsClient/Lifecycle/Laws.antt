-- ===== src/WsClient/Lifecycle/Laws.antt =====
-- A start that fails leaves nothing behind, and one that succeeds is ready to reconnect.
use n32r.Prelude.{
  Bool, EspErr, List, Result-cases, Status, arith, choose, err, false, inl, inr, invalid_arg,
  invalid_state, ltb, no_mem, not, ok, refl, some, true, ℕ, ◌&&◌, ◌<◌, ◌==◌, ◌≡◌, ◌⊎◌,
}
use n32r.Crypto.{Crypto}
use n32r.Util.Base64.{Codec}
use n32r.WsClient.State.{Config, State}
use n32r.WsClient.Headers.{build_fields, regenerate_headers}
use n32r.WsClient.Events.Backoff.{InBounds}
use n32r.WsClient.Lifecycle.{
  Grants, security_config, cleanup_client, ws_client_stop, set_handshake, set_delays, start_client,
  create_timer, create_client, build_headers, ws_client_start, context_init,
}
use n32r.Prelude.Words.{u32_mod}
use n32r.Security.{context_init}

-- No resource is held.
pub record Stopped (st : State) : Type 0 where
  pub no_client : st.has_client ≡ false
  pub no_timer : st.has_timer ≡ false
  pub no_block : st.has_header_block ≡ false
  pub not_connected : st.connected ≡ false

-- Everything that a reconnect needs is there.
pub record Running (st : State) : Type 0 where
  pub client : st.has_client ≡ true
  pub timer : st.has_timer ≡ true
  pub runs : st.should_run ≡ true
  pub not_connected : st.connected ≡ false
  pub bounds : InBounds st

abbrev pub Settled : Status × State → Type 0
Settled (status, st) =
    ((e : EspErr) × (status ≡ err e) × Stopped st) ⊎ ((status ≡ ok tt) × Running st)

cleaned : (st : State) → Stopped (cleanup_client st)
unfolding cleanup_client
cleaned st = record { no_client = refl; no_timer = refl; no_block = refl; not_connected = refl }

-- Nothing runs yet.
record Idle (st : State) : Type 0 where
  no_client : st.has_client ≡ false
  no_timer : st.has_timer ≡ false
  not_connected : st.connected ≡ false

abbrev IdleAfter : Status × State → Type 0
IdleAfter (status, st) = Idle st

regenerate-Idle :
    (c : Crypto) (b : Codec) (allocated : Bool) (nonce : List ℕ) (unix_time : ℕ) (st : State)
    → Idle st
    → Idle (regenerate_headers c b allocated nonce unix_time st).1
unfolding regenerate_headers
regenerate-Idle c b allocated nonce unix_time st i =
    choose IdleAfter (st.header_len == 0) (λ e. i)
      (λ e.
        choose IdleAfter (not st.has_header_block && not allocated) (λ e. i)
          (λ e. elim (Result-cases (build_fields c b nonce unix_time st)) [
            | inr (code, f) ↦
                simp (f, regenerate_headers)
                  (record {
                    no_client = i.no_client;
                    no_timer = i.no_timer;
                    not_connected = i.not_connected;
                  })
            | inl (fields, f) ↦
                simp (f, regenerate_headers)
                  (record {
                    no_client = i.no_client;
                    no_timer = i.no_timer;
                    not_connected = i.not_connected;
                  })
          ]))

handshake-Idle : (config : Config) (st : State) → Idle st → Idle (set_handshake config st)
unfolding set_handshake
handshake-Idle config st i = record {
  no_client = i.no_client;
  no_timer = i.no_timer;
  not_connected = i.not_connected;
}

module _ (grants : Grants) (config : Config) (has_cb : Bool) where
  client-Settled :
      (st : State)
      → st.has_client ≡ true
      → st.has_timer ≡ true
      → InBounds st
      → Settled (start_client grants config has_cb st)
  unfolding start_client
  client-Settled st client timer i = elim (Result-cases grants.start) [
    | inr (e, f) ↦ simp (f, start_client) (inl (e, refl, cleaned _))
    | inl (_, f) ↦
        simp (f, start_client)
          (inr (
            refl,
            record {
              client = client;
              timer = timer;
              runs = refl;
              not_connected = refl;
              bounds = record { least = i.least; most = i.most; word = i.word };
            },
          ))
  ]

  timer-Settled :
      (st : State)
      → st.has_client ≡ true
      → InBounds st
      → Settled (create_timer grants config has_cb st)
  unfolding create_timer
  timer-Settled st client i =
      choose Settled (not grants.timer) (λ e. inl (no_mem, refl, cleaned st))
        (λ e.
          client-Settled (record st { has_timer = true }) client refl
            (record { least = i.least; most = i.most; word = i.word }))

  delays-InBounds :
      (st : State)
      → config.reconnect_min_delay_ms < u32_mod
      → config.reconnect_max_delay_ms < u32_mod
      → InBounds (set_delays config st)
  unfolding set_delays
  delays-InBounds st lo hi = record {
    least = omega arith;
    most = ground arith;
    word = ground arith;
  }

  create_client-Settled :
      (st : State)
      → config.reconnect_min_delay_ms < u32_mod
      → config.reconnect_max_delay_ms < u32_mod
      → Idle st
      → Settled (create_client grants config has_cb st)
  unfolding create_client set_delays
  create_client-Settled st lo hi idle =
      choose Settled (not grants.client)
        (λ e. inl (
          no_mem,
          refl,
          record {
            no_client = idle.no_client;
            no_timer = idle.no_timer;
            no_block = refl;
            not_connected = idle.not_connected;
          },
        ))
        (λ e.
          timer-Settled (set_delays config (record st { has_client = true })) (refl)
            (delays-InBounds (record st { has_client = true }) lo hi))

  headers-Settled :
      (c : Crypto) (b : Codec) (nonce : List ℕ) (unix_time : ℕ) (st : State)
      → config.reconnect_min_delay_ms < u32_mod
      → config.reconnect_max_delay_ms < u32_mod
      → Idle st
      → Settled (build_headers grants config has_cb c b nonce unix_time st)
  unfolding build_headers
  headers-Settled c b nonce unix_time st lo hi idle =
      let idle' = regenerate-Idle c b grants.header_block nonce unix_time st idle in
      choose Settled (not (ltb 0 st.header_len)) (λ e. create_client-Settled st lo hi idle)
        (λ e.
          elim (Result-cases (regenerate_headers c b grants.header_block nonce unix_time st).0) [
            | inr (code, f) ↦
                simp (f, build_headers)
                  (inl (
                    code,
                    refl,
                    record {
                      no_client = idle'.no_client;
                      no_timer = idle'.no_timer;
                      no_block = refl;
                      not_connected = idle'.not_connected;
                    },
                  ))
            | inl (_, f) ↦ simp (f, build_headers) (create_client-Settled _ lo hi idle')
          ])

-- From a state that holds nothing, a start that fails holds nothing either and has a cause, and one
-- that succeeds has a client that runs with a timer, not yet connected, with a delay between its
-- bounds. The configured delays are 32-bit numbers.
pub ws_client_start-Settled :
    (grants : Grants) (config : Config) (has_cb : Bool) (c : Crypto) (b : Codec) (nonce : List ℕ)
    (unix_time : ℕ) (st : State)
    → config.reconnect_min_delay_ms < u32_mod
    → config.reconnect_max_delay_ms < u32_mod
    → Stopped st
    → Settled (ws_client_start grants config has_cb c b nonce unix_time st)
unfolding ws_client_start
ws_client_start-Settled grants config has_cb c b nonce unix_time st lo hi stopped =
    choose Settled (not config.has_uri) (λ e. inl (invalid_arg, refl, stopped))
      (λ e.
        choose Settled st.has_client (λ e. inl (invalid_state, refl, stopped))
          (λ e. elim (Result-cases (context_init c (some (security_config config))).0) [
            | inr (code, f) ↦
                simp (f, ws_client_start)
                  (inl (
                    code,
                    refl,
                    record {
                      no_client = stopped.no_client;
                      no_timer = stopped.no_timer;
                      no_block = stopped.no_block;
                      not_connected = stopped.not_connected;
                    },
                  ))
            | inl (_, f) ↦
                simp (f, ws_client_start)
                  (headers-Settled grants config has_cb c b nonce unix_time _ lo hi (
                    handshake-Idle config _ (record {
                      no_client = stopped.no_client;
                      no_timer = stopped.no_timer;
                      not_connected = stopped.not_connected;
                    })))
          ]))

-- Whatever the state, nothing is held after a stop, and no reconnect will start.
pub ws_client_stop-Stopped :
    (st : State) → Stopped (ws_client_stop st) × ((ws_client_stop st).should_run ≡ false)
unfolding ws_client_stop cleanup_client
ws_client_stop-Stopped st = (cleaned (record st { should_run = false }), refl)
