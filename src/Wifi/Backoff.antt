-- ===== src/Wifi/Backoff.antt =====
-- The waits between reconnects.
use n32r.Prelude.{
  Bool-cases, List, [], ap, arith, false, inl, inr, ltb, refl, suc, tests, ℕ, ◌%◌, ◌*◌, ◌++◌, ◌<◌,
  ◌^◌, ◌∙◌, ◌∷◌, ◌≡◌, ◌≤◌,
}
use n32r.Prelude.Words.{u32_mod}
use n32r.Wifi.{
  State, Event, sta_start, sta_disconnected, sta_got_ip, unrelated, Action, connects, disconnects,
  armed, provisions, ends_provisioning, resets, on_disconnected, wifi_event_handler, handle_all,
}

-- A wait is one of 1, 2, 4, 8, 16 and 32 seconds.
pub record IsWait (ms : ℕ) : Type 0 where
  pub doublings : ℕ
  pub at_most : doublings ≤ 5
  pub value : ms ≡ 1000 * 2 ^ doublings

abbrev pub AllWaits : List Action → Type 0
AllWaits [] = Unit
AllWaits (connects ∷ actions) = AllWaits actions
AllWaits (disconnects ∷ actions) = AllWaits actions
AllWaits (armed ms ∷ actions) = IsWait ms × AllWaits actions
AllWaits (provisions ∷ actions) = AllWaits actions
AllWaits (ends_provisioning ∷ actions) = AllWaits actions
AllWaits (resets ∷ actions) = AllWaits actions

AllWaits-append : (xs ys : List Action) → AllWaits xs → AllWaits ys → AllWaits (xs ++ ys)
AllWaits-append [] ys p q = q
AllWaits-append (connects ∷ xs) ys p q = AllWaits-append xs ys p q
AllWaits-append (disconnects ∷ xs) ys p q = AllWaits-append xs ys p q
AllWaits-append (armed ms ∷ xs) ys (e, p) q = (e, AllWaits-append xs ys p q)
AllWaits-append (provisions ∷ xs) ys p q = AllWaits-append xs ys p q
AllWaits-append (ends_provisioning ∷ xs) ys p q = AllWaits-append xs ys p q
AllWaits-append (resets ∷ xs) ys p q = AllWaits-append xs ys p q

two_pow_step : (k : ℕ) → 2 ^ suc k ≡ 2 * 2 ^ k
two_pow_step k = omega arith

ltb-false : (m n : ℕ) → ltb m n ≡ false → n ≤ m
ltb-false m n e = ground arith

-- Below the last wait there is a doubling left.
doubled-IsWait : (ms : ℕ) → IsWait ms → ms < 32000 → IsWait (ms * 2 % u32_mod)
doubled-IsWait ms w lt = elim (Bool-cases (ltb w.doublings 5)) [
  | inl e ↦
      (let step = two_pow_step w.doublings in
        let v = w.value in
        record { doublings = suc w.doublings; at_most = ground arith; value = omega arith })
  | inr e ↦
      (let least = ltb-false w.doublings 5 e in
        let most = w.at_most in
        let five : w.doublings ≡ 5 = omega arith in
        let v : ms ≡ 1000 * 2 ^ 5 = w.value ∙ ap (λ k. 1000 * 2 ^ k) five in
        record { doublings = 0; at_most = omega arith; value = omega arith })
]

start-IsWait : IsWait 1000
start-IsWait = record { doublings = 0; at_most = omega arith; value = refl }

disconnected-IsWait :
    (st : State)
    → IsWait st.backoff_ms
    → IsWait (on_disconnected st).0.backoff_ms × AllWaits (on_disconnected st).1
unfolding on_disconnected
disconnected-IsWait st w = elim (Bool-cases st.has_timer) [
  | inr e ↦ simp (e) (w, tt)
  | inl e ↦ elim (Bool-cases (ltb st.backoff_ms 32000)) [
    | inl e' ↦ simp (e, e') (doubled-IsWait st.backoff_ms w (omega tests), (w, tt))
    | inr e' ↦ simp (e, e') (w, (w, tt))
  ]
]

event-IsWait :
    (event : Event) (st : State)
    → IsWait st.backoff_ms
    → IsWait (wifi_event_handler event st).0.backoff_ms × AllWaits (wifi_event_handler event st).1
unfolding wifi_event_handler
event-IsWait sta_start st w = (w, tt)
event-IsWait sta_disconnected st w = disconnected-IsWait st w
event-IsWait sta_got_ip st w = (start-IsWait, tt)
event-IsWait unrelated st w = (w, tt)

-- Where the wait is 1, 2, 4, 8, 16 or 32 seconds, as it is at the start, it is one of these after any
-- events, and so is every wait that was armed.
pub handle_all-IsWait :
    (events : List Event) (st : State)
    → IsWait st.backoff_ms
    → IsWait (handle_all events st).0.backoff_ms × AllWaits (handle_all events st).1
unfolding handle_all
handle_all-IsWait [] st w = (w, tt)
handle_all-IsWait (event ∷ events) st w =
    let (w', here) = event-IsWait event st w in
    let (w'', there) = handle_all-IsWait events (wifi_event_handler event st).0 w' in
    (
      w'',
      AllWaits-append (wifi_event_handler event st).1
          (handle_all events (wifi_event_handler event st).0).1 here there,
    )
