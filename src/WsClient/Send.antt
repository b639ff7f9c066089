-- ===== src/WsClient/Send.antt =====
-- `ws_client_send` of ws_client.c. The random nonce, the outcome of the allocation and that of
-- `client_send_bin` are arguments.
pub mod Transfer
use n32r.Prelude.{
  Bool, Bool-cases, EspErr, List, Option, Option-cases, Result, Result-cases, Status, [], ap,
  append-nil, append_assoc, ap₂, arith, drop, err, esp_fail, false, get_elem?, get_elem?-set_ne,
  get_elem?-set_self, get_or, guard, if◌then◌else◌, inl, inr, invalid_arg, invalid_response,
  invalid_size, invalid_state, invalid_version, leb, length, length-append, length-drop,
  length-replicate, length-set, length-take, ltb, lt→ltb, map, min, no_mem, none, not, ok, refl,
  replicate, set, some, suc, sym, take, take-append-drop, tests, true, zero, ℕ, ◌%◌, ◌&&◌, ◌*◌,
  ◌++◌, ◌+◌, ◌-◌, ◌/◌, ◌<◌, ◌==◌, ◌>>=◌, ◌>>◌, ◌^◌, ◌||◌, ◌↔◌, ◌∙◌, ◌∷◌, ◌≡◌, ◌≢◌, ◌≤◌, ◌⊎◌,
}
use n32r.Crypto.{Crypto}
use n32r.Security.{encrypted_size, encrypt}
use n32r.WsClient.State.{State}

abbrev outcome : Bool → Status
outcome sent = guard sent esp_fail

-- The status, the state and the bytes that were handed to the transport.
unfoldable pub ws_client_send :
    Crypto → List ℕ → Bool → Bool → List ℕ → State → Status × (State × Option (List ℕ))
ws_client_send c iv allocated sent payload st =
    if not (st.has_client && st.connected)
    then (err invalid_state, (st, none))
    else (if not st.security.encryption_enabled
        then (outcome sent, (st, some payload))
        else (if not allocated
            then (err no_mem, (st, none))
            else (let (frame, security') =
                  encrypt c iv st.security payload (encrypted_size st.security (length payload)) in
                elim frame [
                  | err e ↦ (err e, (record st { security = security' }, none))
                  | ok bytes ↦ (outcome sent, (record st { security = security' }, some bytes))
                ])))
