-- ===== src/WsClient/Events/Receive.antt =====
-- Protected messages reach the callback once.
use mathlib.Core.Bool.{false≢true}
use n32r.Prelude.{
  Bool-cases, EspErr, List, Option, Result-cases, [], ap, arith, err, inl, inr, invalid_response,
  length, ltb, ok, refl, some, true, ℕ, ◌&&◌, ◌∙◌, ◌∷◌, ◌≡◌, ◌≤◌,
}
use n32r.Crypto.{Crypto}
use n32r.Security.{decrypt}
use n32r.Security.Replay.{decrypt_grows, decrypt_twice, counter_of}
use n32r.Server.Types.{FrameType, binary}
use n32r.Server.Frames.{is_binary}
use n32r.WsClient.State.{State}
use n32r.WsClient.Events.{
  Event, connected, disconnected, failed, ignored, arrived, Action, counted, on_disconnected,
  on_data, websocket_event_handler, handle_all,
}

-- No event of the list is a new connection.
abbrev pub Unbroken : List Event → Type 0
Unbroken [] = Unit
Unbroken (connected ∷ events) = ⊥
Unbroken (disconnected ∷ events) = Unbroken events
Unbroken (failed ∷ events) = Unbroken events
Unbroken (ignored ∷ events) = Unbroken events
Unbroken (arrived op_code payload ∷ events) = Unbroken events

-- The keys stay, and the counter does not fall.
record Later (st st' : State) : Type 0 where
  security : st'.security ≡ st.security
  counter : st.rx_counter ≤ st'.rx_counter
  callback : st'.has_rx_cb ≡ st.has_rx_cb

Later-refl : (st : State) → Later st st
Later-refl st = record { security = refl; counter = omega arith; callback = refl }

Later-trans : {x y z : State} → Later x y → Later y z → Later x z
Later-trans p q =
    (let a = p.counter in
      let b = q.counter in
      record {
        security = q.security ∙ p.security;
        counter = omega arith;
        callback = q.callback ∙ p.callback;
      })

disconnected-Later : (st : State) → Later st (on_disconnected st).0
unfolding on_disconnected
disconnected-Later st = elim (Bool-cases (st.should_run && st.has_timer)) [
  | inl e ↦ simp (e) (record { security = refl; counter = omega arith; callback = refl })
  | inr e ↦ simp (e) (record { security = refl; counter = omega arith; callback = refl })
]

module _ (c : Crypto) where
  -- What the counter state of a decryption is, when it succeeds.
  decrypted :
      (payload plaintext : List ℕ) (counter : Option ℕ) (st : State)
      → st.security.encryption_enabled ≡ true
      → decrypt c st.security payload (some st.rx_counter) ≡ ok (plaintext, counter)
      → st.rx_counter ≤ counted counter st.rx_counter
  decrypted payload plaintext counter st on h =
      let (e, lt) = decrypt_grows c st.security on payload h in rw e (omega arith)

  data-Later :
      (op_code : FrameType) (payload : List ℕ) (st : State)
      → Later st (on_data c op_code payload st).0
  unfolding on_data
  data-Later op_code payload st = elim (Bool-cases (st.has_rx_cb && ltb 0 (length payload))) [
    | inr e ↦ simp (e) (Later-refl st)
    | inl e ↦ elim (Bool-cases (st.security.encryption_enabled && is_binary op_code)) [
      | inr e' ↦ simp (e, e') (Later-refl st)
      | inl e' ↦ elim (Result-cases (decrypt c st.security payload (some st.rx_counter))) [
        | inr (code, f) ↦ simp (e, e', f) (Later-refl st)
        | inl ((plaintext, counter), f) ↦
            simp (e, e', f)
              (record {
                security = refl;
                counter = decrypted payload plaintext counter st (ground arith) f;
                callback = refl;
              })
      ]
    ]
  ]

  all-Later :
      (events : List Event) (st : State) → Unbroken events → Later st (handle_all c events st).0
  unfolding handle_all websocket_event_handler
  all-Later [] st u = Later-refl st
  all-Later (connected ∷ events) st u = elim u [ ]
  all-Later (disconnected ∷ events) st u =
      Later-trans (disconnected-Later st) (all-Later events _ u)
  all-Later (failed ∷ events) st u = all-Later events st u
  all-Later (ignored ∷ events) st u = all-Later events st u
  all-Later (arrived op_code payload ∷ events) st u =
      Later-trans (data-Later op_code payload st) (all-Later events _ u)

  -- What lets a protected frame through.
  accepted :
      (payload : List ℕ) (st st' : State) (action : Action)
      → st.security.encryption_enabled ≡ true
      → on_data c binary payload st ≡ (st', action ∷ [])
      → (st.has_rx_cb ≡ true)
        × (plaintext : List ℕ) × (counter : Option ℕ) × (decrypt c st.security payload
              (some st.rx_counter)
            ≡ ok (plaintext, counter))
        × (st' ≡ record st { rx_counter = counted counter st.rx_counter })
  unfolding on_data
  accepted payload st st' action on h = elim (Bool-cases (st.has_rx_cb && ltb 0 (length payload))) [
    | inr e ↦ absurd (false≢true (ground arith))
    | inl e ↦ elim (Result-cases (decrypt c st.security payload (some st.rx_counter))) [
      | inr (code, f) ↦ absurd (false≢true (ground arith))
      | inl ((plaintext, counter), f) ↦ (ground arith, plaintext, counter, f, ground arith)
    ]
  ]

  refused :
      (payload : List ℕ) (st : State) (e : EspErr)
      → st.security.encryption_enabled ≡ true
      → decrypt c st.security payload (some st.rx_counter) ≡ err e
      → on_data c binary payload st ≡ (st, [])
  unfolding on_data
  refused payload st e on f = elim (Bool-cases (st.has_rx_cb && ltb 0 (length payload))) [
    | inr h ↦ simp (h) refl
    | inl h ↦ simp (h, on, f) refl
  ]

  -- With encryption, where a binary frame once reached the callback, the same frame is dropped
  -- after any further events with no new connection among them: neither the state nor the callback
  -- sees it.
  pub on_data_twice :
      (payload : List ℕ) (events : List Event) (st st' : State) (action : Action)
      → st.security.encryption_enabled ≡ true
      → on_data c binary payload st ≡ (st', action ∷ [])
      → Unbroken events
      → on_data c binary payload (handle_all c events st').0 ≡ ((handle_all c events st').0, [])
  on_data_twice payload events st st' action on h u =
      let (cb, plaintext, counter, f, e) = accepted payload st st' action on h in
      let later = all-Later events st' u in
      let same : (handle_all c events st').0.security ≡ st.security =
        later.security ∙ ap (λ s. s.security) e in
      let more = later.counter in
      let (g, _) = decrypt_grows c st.security on payload f in
      let at : st'.rx_counter ≡ counted counter st.rx_counter = ap (λ s. s.rx_counter) e in
      let reached : st'.rx_counter ≡ counter_of payload =
        at ∙ ap (λ o. counted o st.rx_counter) g in
      refused payload (handle_all c events st').0 invalid_response
        (ap (λ s. s.encryption_enabled) same ∙ on)
        (ap (λ s. decrypt c s payload (some (handle_all c events st').0.rx_counter)) same
          ∙ (decrypt_twice c st.security on payload (f ∙ ap (λ o. ok (plaintext, o)) g)
              (omega arith)).1)
