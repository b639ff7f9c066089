-- ===== src/Wifi/Connect/Laws.antt =====
-- When the loop ends, and when it does not.
use mathlib.Core.Bool.{false≢true}
use n32r.Prelude.Words.{u32_mod}
use n32r.Wifi.{
  Config, Bits, State, Event, sta_start, sta_disconnected, sta_got_ip, unrelated, Action,
  on_disconnected, wifi_event_handler, handle_all,
}
use n32r.Wifi.Connect.{is_zero, clear_waited, connect_loop}
use n32r.Prelude.{
  Bool-cases, List, Option, Status, [], arith, err, false, if◌then◌else◌, inl, inr, leb, length,
  none, not, ok, refl, replicate, some, suc, true, zero, ℕ, ◌%◌, ◌&&◌, ◌+◌, ◌<◌, ◌==◌, ◌||◌, ◌∙◌,
  ◌∷◌, ◌≡◌, ◌≤◌, ◌⊎◌, timeout,
}

-- The bit is set only while the station is connected.
abbrev pub Coherent : State → Type 0
Coherent st = st.bits.connected ≡ true → st.is_connected ≡ true

record Kept (st st' : State) : Type 0 where
  coherent : Coherent st'
  prov_done : st'.bits.prov_done ≡ st.bits.prov_done
  forced : st'.force_reprovision ≡ st.force_reprovision

disconnected-Kept : (st : State) → Kept st (on_disconnected st).0
unfolding on_disconnected
disconnected-Kept st = elim (Bool-cases st.has_timer) [
  | inl e ↦
      simp (e) (record { coherent = λ e. absurd (false≢true e); prov_done = refl; forced = refl })
  | inr e ↦
      simp (e) (record { coherent = λ e. absurd (false≢true e); prov_done = refl; forced = refl })
]

event-Kept : (event : Event) (st : State) → Coherent st → Kept st (wifi_event_handler event st).0
unfolding wifi_event_handler
event-Kept sta_start st i = record { coherent = i; prov_done = refl; forced = refl }
event-Kept sta_disconnected st i = disconnected-Kept st
event-Kept sta_got_ip st i = record { coherent = λ e. refl; prov_done = refl; forced = refl }
event-Kept unrelated st i = record { coherent = i; prov_done = refl; forced = refl }

all-Kept : (events : List Event) (st : State) → Coherent st → Kept st (handle_all events st).0
unfolding handle_all
all-Kept [] st i = record { coherent = i; prov_done = refl; forced = refl }
all-Kept (event ∷ events) st i =
    let here = event-Kept event st i in
    let there = all-Kept events (wifi_event_handler event st).0 here.coherent in
    record {
      coherent = there.coherent;
      prov_done = there.prov_done ∙ here.prov_done;
      forced = there.forced ∙ here.forced;
    }

cleared-Coherent : (st : State) → Coherent (clear_waited st)
unfolding clear_waited
cleared-Coherent st e = absurd (false≢true e)

-- A result, once there is one: connected, or out of attempts.
abbrev pub Ended : State → Option Status × (State × List Action) → Type 0
Ended start (result, (st, actions)) =
    ((result ≡ some (ok tt))
      × (st.is_connected ≡ true)
      × (st.force_reprovision ≡ start.force_reprovision))
    ⊎ (result ≡ some (err timeout))

-- What holds after a round that leaves the flag holds of the whole.
later :
    (st st' : State) (r : Option Status × (State × List Action))
    → st'.force_reprovision ≡ st.force_reprovision
    → Ended st' r
    → Ended st r
later st st' (result, (st'', actions)) e (inl (a, b, f)) = inl (a, b, f ∙ e)
later st st' (result, (st'', actions)) e (inr a) = inr a

leb-false : (m n : ℕ) → leb m n ≡ false → n < m
leb-false m n e = ground arith

-- While the provisioning bit is clear, a round that does not connect counts.
counts :
    (bits : Bits)
    → bits.prov_done ≡ false
    → bits.connected ≡ false
    → (is_zero bits || bits.fail) ≡ true
unfolding is_zero
counts bits clear off = ground arith

-- The attempt after a round that counted.
next_attempt :
    (attempts most : ℕ) → most < u32_mod → attempts < most → (attempts + 1) % u32_mod ≡ attempts + 1
next_attempt attempts most small more = omega arith

not_zero : (attempts most : ℕ) → attempts < most → (most == 0) ≡ false
not_zero attempts most more = ground arith

-- The retries are limited: where the bit that marks the end of provisioning is clear and the number of
-- attempts is limited, that many rounds, whatever happens in them, are enough for the loop to return. It
-- returns success with the station connected, or else the timeout. No round has counted yet more
-- attempts than that.
pub connect_loop-Ended :
    (config : Config) (rounds : List (List Event)) (attempts : ℕ) (st : State)
    → Coherent st
    → st.bits.prov_done ≡ false
    → config.max_connect_attempts < u32_mod
    → attempts < config.max_connect_attempts
    → config.max_connect_attempts ≤ attempts + length rounds
    → Ended st (connect_loop config rounds attempts st)
unfolding connect_loop clear_waited
connect_loop-Ended config [] attempts st i clear small more enough = absurd (omega arith)
connect_loop-Ended config (round ∷ rounds) attempts st i clear small more enough =
    let kept = all-Kept round st i in
    let st' = (handle_all round st).0 in
    let wrap = next_attempt attempts config.max_connect_attempts small more in
    let limited = not_zero attempts config.max_connect_attempts more in
    elim (Bool-cases st'.bits.connected) [
      | inl on ↦ simp (on) (inl (refl, kept.coherent on, kept.forced))
      | inr off ↦
          (let count = counts st'.bits (kept.prov_done ∙ clear) off in
            elim (Bool-cases (leb config.max_connect_attempts (attempts + 1))) [
              | inl last ↦ simp (off, count, wrap, limited, last) (inr refl)
              | inr left ↦
                  simp (off, count, wrap, limited, left)
                    (later st (clear_waited st')
                      (connect_loop config rounds (attempts + 1) (clear_waited st')) kept.forced
                      (connect_loop-Ended config rounds (attempts + 1) (clear_waited st')
                        (cleared-Coherent st') (kept.prov_done ∙ clear) small (leb-false _ _ left)
                        (omega arith)))
            ])
    ]

-- As long as the loop runs it has no result.
abbrev pub Sound : State → Option Status × (State × List Action) → Type 0
Sound start r = (r.0 ≡ none) ⊎ Ended start r

later-Sound :
    (st st' : State) (r : Option Status × (State × List Action))
    → st'.force_reprovision ≡ st.force_reprovision
    → Sound st' r
    → Sound st r
later-Sound st st' r e (inl a) = inl a
later-Sound st st' r e (inr a) = inr (later st st' r e a)

pub connect_loop-Sound :
    (config : Config) (rounds : List (List Event)) (attempts : ℕ) (st : State)
    → Coherent st
    → Sound st (connect_loop config rounds attempts st)
unfolding connect_loop clear_waited
connect_loop-Sound config [] attempts st i = inl refl
connect_loop-Sound config (round ∷ rounds) attempts st i =
    let kept = all-Kept round st i in
    let st' = (handle_all round st).0 in
    let counted = is_zero st'.bits || st'.bits.fail in
    let attempts' = if counted then (attempts + 1) % u32_mod else attempts in
    elim (Bool-cases st'.bits.connected) [
      | inl on ↦ simp (on) (inr (inl (refl, kept.coherent on, kept.forced)))
      | inr off ↦
          elim (Bool-cases (
            counted
            && (not (config.max_connect_attempts == 0)
                && leb config.max_connect_attempts attempts'))) [
                  | inl last ↦ simp (off, last) (inr (inr refl))
                  | inr left ↦
                      simp (off, left)
                        (later-Sound st (clear_waited st')
                          (connect_loop config rounds attempts' (clear_waited st')) kept.forced
                          (connect_loop-Sound config rounds attempts' (clear_waited st')
                            (cleared-Coherent st')))
                ]
    ]

-- The end of provisioning is marked, and nothing else.
abbrev pub marked : State → State
marked st = record st { bits = record { connected = false; fail = false; prov_done = true } }

-- With the mark set, rounds in which nothing happens count nothing and retry nothing.
pub silent_rounds :
    (config : Config) (n attempts : ℕ) (st : State)
    → connect_loop config (replicate n []) attempts (marked st) ≡ (none, (marked st, []))
unfolding connect_loop handle_all is_zero clear_waited
silent_rounds config zero attempts st = refl
silent_rounds config (suc n) attempts st = silent_rounds config n attempts st
