-- ===== src/Security/Replay.antt =====
-- The replay protection of `ws_security_decrypt`.
use n32r.Prelude.{
  ℕ, ◌≤◌, ◌<◌, ◌≡◌, true, Option, some, List, arith, take, drop, ok, err, invalid_response,
}
use n32r.Prelude.Bytes.{le_value}
use n32r.Crypto.{Crypto}
use n32r.Security.{Context, decrypt}

-- The counter in the header of a frame.
abbrev pub counter_of : List ℕ → ℕ
counter_of f = le_value (take 8 (drop 2 f))

module _ (c : Crypto) (rx : Context) (on : rx.encryption_enabled ≡ true) (f : List ℕ) where
  -- The counter state after a success is the frame's counter, and it has grown.
  pub decrypt_grows :
      {text : List ℕ} {last : ℕ} {state : Option ℕ}
      → decrypt c rx f (some last) ≡ ok (text, state)
      → (state ≡ some (counter_of f)) × (last < counter_of f)
  unfolding decrypt
  decrypt_grows h = (ground arith, ground arith)

  -- A frame whose counter is not above the state is never decrypted.
  pub decrypt_stale :
      {text : List ℕ} {last : ℕ} {state : Option ℕ}
      → counter_of f ≤ last
      → ¬ (decrypt c rx f (some last) ≡ ok (text, state))
  decrypt_stale le h = omega (arith, (decrypt_grows h).1)

  -- Once a frame is accepted, it is refused as a replay in every later counter state.
  pub decrypt_twice :
      {text : List ℕ} {last now later : ℕ}
      → decrypt c rx f (some last) ≡ ok (text, some now)
      → now ≤ later
      → (last < now) × (decrypt c rx f (some later) ≡ err invalid_response)
  unfolding decrypt
  decrypt_twice h le = (ground arith, ground arith)
