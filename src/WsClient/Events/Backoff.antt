-- ===== src/WsClient/Events/Backoff.antt =====
-- The delays between reconnects.
use native.Mathlib.Nat.{le-mul_of_pos_right, mul-le-mul_right}
use n32r.Prelude.{
  Bool, Bool-cases, List, Result-cases, [], ap, ap₂, arith, false, if◌then◌else◌, inl, inr, leb,
  length, ltb, min, refl, replicate, some, suc, sym, true, zero, ℕ, ◌&&◌, ◌*◌, ◌++◌, ◌<◌, ◌^◌, ◌∙◌,
  ◌∷◌, ◌≡◌, ◌≤◌,
}
use n32r.Crypto.{Crypto}
use n32r.WsClient.State.{State}
use n32r.WsClient.Events.{
  Event, connected, disconnected, failed, ignored, arrived, Action, armed, started, delivered,
  reported, on_connected, delay_of, next_delay, on_disconnected, on_data, websocket_event_handler,
  handle_all, u32_mod, deliver, FrameType, is_binary, decrypt, counted,
}
use n32r.Prelude.Words.{u32_mod}
use n32r.Server.Types.{FrameType}
use n32r.Server.Frames.{is_binary}
use n32r.Security.{decrypt}

-- The delay lies between its bounds, which are 32-bit numbers.
pub record InBounds (st : State) : Type 0 where
  pub least : st.reconnect_min_ms ≤ st.reconnect_delay_ms
  pub most : st.reconnect_delay_ms ≤ st.reconnect_max_ms
  pub word : st.reconnect_max_ms < u32_mod

-- Every timer that is armed waits for a time between the bounds.
abbrev pub AllBetween : ℕ → ℕ → List Action → Type 0
AllBetween lo hi [] = Unit
AllBetween lo hi (armed ms ∷ actions) = ((lo ≤ ms) × (ms ≤ hi)) × AllBetween lo hi actions
AllBetween lo hi (started ∷ actions) = AllBetween lo hi actions
AllBetween lo hi (delivered p crc ∷ actions) = AllBetween lo hi actions
AllBetween lo hi (reported ∷ actions) = AllBetween lo hi actions

AllBetween-append :
    (lo hi : ℕ) (xs ys : List Action)
    → AllBetween lo hi xs
    → AllBetween lo hi ys
    → AllBetween lo hi (xs ++ ys)
AllBetween-append lo hi [] ys p q = q
AllBetween-append lo hi (armed ms ∷ xs) ys (e, p) q = (e, AllBetween-append lo hi xs ys p q)
AllBetween-append lo hi (started ∷ xs) ys p q = AllBetween-append lo hi xs ys p q
AllBetween-append lo hi (delivered m crc ∷ xs) ys p q = AllBetween-append lo hi xs ys p q
AllBetween-append lo hi (reported ∷ xs) ys p q = AllBetween-append lo hi xs ys p q

-- What an event leaves as it was, and what holds after it.
record Kept (st st' : State) (actions : List Action) : Type 0 where
  bounds : InBounds st'
  lower : st'.reconnect_min_ms ≡ st.reconnect_min_ms
  upper : st'.reconnect_max_ms ≡ st.reconnect_max_ms
  waits : AllBetween st.reconnect_min_ms st.reconnect_max_ms actions

-- The doubling on numbers, with what is known of them.
next_least : (st : State) → InBounds st → st.reconnect_min_ms ≤ next_delay st
unfolding next_delay
next_least st i = (let least = i.least in let most = i.most in let word = i.word in ground arith)

next_most : (st : State) → InBounds st → next_delay st ≤ st.reconnect_max_ms
unfolding next_delay
next_most st i = (let most = i.most in let word = i.word in ground arith)

delay_of_lem : (st : State) → InBounds st → delay_of st ≡ st.reconnect_delay_ms
unfolding delay_of
delay_of_lem st i = (let most = i.most in ground arith)

connected-Kept : (st : State) → InBounds st → Kept st (on_connected st) []
unfolding on_connected
connected-Kept st i = record {
  bounds = record {
    least = ground arith;
    most = (let l = i.least in let m = i.most in ground arith);
    word = i.word;
  };
  lower = refl;
  upper = refl;
  waits = tt;
}

disconnected-Kept :
    (st : State) → InBounds st → Kept st (on_disconnected st).0 (on_disconnected st).1
unfolding on_disconnected
disconnected-Kept st i = elim (Bool-cases (st.should_run && st.has_timer)) [
  | inl e ↦ simp (e) (record {
    bounds = record { least = next_least st i; most = next_most st i; word = i.word };
    lower = refl;
    upper = refl;
    waits = ((rw (delay_of_lem st i) i.least, rw (delay_of_lem st i) i.most), tt);
  })
  | inr e ↦ simp (e) (record {
    bounds = record { least = i.least; most = i.most; word = i.word };
    lower = refl;
    upper = refl;
    waits = tt;
  })
]

-- A state whose delays are those before.
same_Kept :
    (st : State) (counter : ℕ) (actions : List Action)
    → InBounds st
    → AllBetween st.reconnect_min_ms st.reconnect_max_ms actions
    → Kept st (record st { rx_counter = counter }) actions
same_Kept st counter actions i q = record {
  bounds = record { least = i.least; most = i.most; word = i.word };
  lower = refl;
  upper = refl;
  waits = q;
}

deliver-AllBetween :
    (lo hi : ℕ) (op_code : FrameType) (payload : List ℕ)
    → AllBetween lo hi (deliver op_code payload ∷ [])
unfolding deliver
deliver-AllBetween lo hi op_code payload =
    elim (Bool-cases (is_binary op_code && leb 4 (length payload))) [
      | inl e ↦ simp (e) tt
      | inr e ↦ simp (e) tt
    ]

report-AllBetween :
    (lo hi : ℕ) (has_error_cb : Bool)
    → AllBetween lo hi (if has_error_cb then reported ∷ [] else [])
report-AllBetween lo hi true = tt
report-AllBetween lo hi false = tt

between_at :
    {lo hi lo' hi' : ℕ} (actions : List Action)
    → lo' ≡ lo
    → hi' ≡ hi
    → AllBetween lo' hi' actions
    → AllBetween lo hi actions
between_at actions p q between = rw (sym p, sym q) between

next_delay_lem :
    (st : State) → InBounds st → next_delay st ≡ min (st.reconnect_delay_ms * 2) st.reconnect_max_ms
unfolding next_delay
next_delay_lem st i = (let most = i.most in let word = i.word in ground arith)

after_disconnect :
    (st : State)
    → InBounds st
    → st.should_run ≡ true
    → st.has_timer ≡ true
    → (on_disconnected st).0.reconnect_delay_ms
      ≡ min (st.reconnect_delay_ms * 2) st.reconnect_max_ms
unfolding on_disconnected
after_disconnect st i run timer = simp (run, timer) (next_delay_lem st i)

flags_kept :
    (st : State)
    → ((on_disconnected st).0.should_run ≡ st.should_run)
      × ((on_disconnected st).0.has_timer ≡ st.has_timer)
unfolding on_disconnected
flags_kept st = elim (Bool-cases (st.should_run && st.has_timer)) [
  | inl e ↦ simp (e) (refl, refl)
  | inr e ↦ simp (e) (refl, refl)
]

times_two : (d p : ℕ) → d * 2 * p ≡ d * (p * 2)
times_two d p = grind arith

le_times : (n p : ℕ) → 0 < p → n ≤ n * p
le_times n p q = le-mul_of_pos_right n q

times_most : (d hi p : ℕ) → hi ≤ d * 2 → hi * p ≤ d * 2 * p
times_most d hi p q = mul-le-mul_right p q

two_pow_pos : (n : ℕ) → 0 < 2 ^ n
two_pow_pos zero = omega arith
two_pow_pos (suc n) = (let h = two_pow_pos n in omega arith)

two_pow_step : (n : ℕ) → 2 ^ n * 2 ≡ 2 ^ suc n
two_pow_step n = omega arith

min_doubled : (d hi p : ℕ) → 0 < p → min (min (d * 2) hi * p) hi ≡ min (d * (p * 2)) hi
min_doubled d hi p q =
    let e = times_two d p in
    let more = le_times hi p q in let most = times_most d hi p in ground arith

module _ (c : Crypto) where
  data-Kept :
      (op_code : FrameType) (payload : List ℕ) (st : State)
      → InBounds st
      → Kept st (on_data c op_code payload st).0 (on_data c op_code payload st).1
  unfolding on_data
  data-Kept op_code payload st i = elim (Bool-cases (st.has_rx_cb && ltb 0 (length payload))) [
    | inr e ↦ simp (e) (same_Kept st st.rx_counter [] i tt)
    | inl e ↦ elim (Bool-cases (st.security.encryption_enabled && is_binary op_code)) [
      | inr e' ↦
          simp (e, e') (same_Kept st st.rx_counter _ i (deliver-AllBetween _ _ op_code payload))
      | inl e' ↦ elim (Result-cases (decrypt c st.security payload (some st.rx_counter))) [
        | inr (code, f) ↦ simp (e, e', f) (same_Kept st st.rx_counter [] i tt)
        | inl ((plaintext, counter), f) ↦
            simp (e, e', f)
              (same_Kept st (counted counter st.rx_counter) _ i
                (deliver-AllBetween _ _ op_code plaintext))
      ]
    ]
  ]

  event-Kept :
      (event : Event) (st : State)
      → InBounds st
      → Kept st (websocket_event_handler c event st).0 (websocket_event_handler c event st).1
  unfolding websocket_event_handler
  event-Kept connected st i = connected-Kept st i
  event-Kept disconnected st i = disconnected-Kept st i
  event-Kept (arrived op_code payload) st i = data-Kept op_code payload st i
  event-Kept failed st i = same_Kept st st.rx_counter _ i (report-AllBetween _ _ st.has_error_cb)
  event-Kept ignored st i = same_Kept st st.rx_counter [] i tt

  all-Kept :
      (events : List Event) (st : State)
      → InBounds st
      → Kept st (handle_all c events st).0 (handle_all c events st).1
  unfolding handle_all
  all-Kept [] st i = same_Kept st st.rx_counter [] i tt
  all-Kept (event ∷ events) st i =
      let here = event-Kept event st i in
      let there = all-Kept events (websocket_event_handler c event st).0 here.bounds in
      record {
        bounds = there.bounds;
        lower = there.lower ∙ here.lower;
        upper = there.upper ∙ here.upper;
        waits = AllBetween-append _ _ (websocket_event_handler c event st).1 _ here.waits (
            between_at (handle_all c events (websocket_event_handler c event st).0).1 here.lower
              here.upper there.waits);
      }

  -- From a state whose delay lies between its bounds, which are below 2^32, whatever events come,
  -- it lies there after them, and every timer that was armed waits for a time between the bounds.
  pub backoff :
      (events : List Event) (st : State)
      → InBounds st
      → InBounds (handle_all c events st).0
        × AllBetween st.reconnect_min_ms st.reconnect_max_ms (handle_all c events st).1
  backoff events st i = (let kept = all-Kept events st i in (kept.bounds, kept.waits))

  -- While the client runs and has its timer, the delay after n disconnects in a row is the first
  -- one times 2^n, or the upper bound where that is less.
  pub backoff_doubles :
      (n : ℕ) (st : State)
      → InBounds st
      → st.should_run ≡ true
      → st.has_timer ≡ true
      → (handle_all c (replicate n disconnected) st).0.reconnect_delay_ms
        ≡ min (st.reconnect_delay_ms * 2 ^ n) st.reconnect_max_ms
  unfolding handle_all websocket_event_handler
  backoff_doubles zero st i run timer = (let most = i.most in ground arith)
  backoff_doubles (suc n) st i run timer =
      let kept = disconnected-Kept st i in
      let rest =
        backoff_doubles n (on_disconnected st).0 kept.bounds ((flags_kept st).0 ∙ run)
          ((flags_kept st).1 ∙ timer) in
      rest
      ∙ ap₂ (λ d hi. min (d * 2 ^ n) hi) (after_disconnect st i run timer) kept.upper
      ∙ min_doubled st.reconnect_delay_ms st.reconnect_max_ms (2 ^ n) (two_pow_pos n)
      ∙ ap (λ p. min (st.reconnect_delay_ms * p) st.reconnect_max_ms) (two_pow_step n)
