-- ===== src/WsClient/Headers.antt =====
-- `regenerate_headers` of ws_client.c. The random nonce, the time and the outcome of the allocation
-- are arguments.
pub mod Fields
use n32r.Prelude.{
  Bool, Bool-cases, EspErr, List, Option, Option-cases, Result, Result-cases, Status, [], ap,
  append-nil, append_assoc, ap₂, arith, drop, err, esp_fail, false, get_elem?, get_elem?-set_ne,
  get_elem?-set_self, get_or, guard, if◌then◌else◌, inl, inr, invalid_arg, invalid_response,
  invalid_size, invalid_state, invalid_version, leb, length, length-append, length-drop,
  length-replicate, length-set, length-take, ltb, lt→ltb, map, min, no_mem, none, not, ok, refl,
  replicate, set, some, suc, sym, take, take-append-drop, true, zero, ℕ, ◌%◌, ◌&&◌, ◌*◌, ◌++◌, ◌+◌,
  ◌-◌, ◌/◌, ◌<◌, ◌==◌, ◌>>=◌, ◌>>◌, ◌^◌, ◌||◌, ◌↔◌, ◌∙◌, ◌∷◌, ◌≡◌, ◌≢◌, ◌≤◌, ◌⊎◌,
}
use n32r.Crypto.{Crypto}
use n32r.Util.Base64
use n32r.Util.Base64.{Codec}
use n32r.Security.{compute_handshake_signature, compute_totp}
use n32r.Server.Authorize.{bearer}
use n32r.WsClient.{bytes_to_hex, ℕ, List, codes}
use n32r.WsClient.Decimal.{print_padded}
use n32r.WsClient.State.{State, Field}

abbrev pub line : Field → List ℕ
line field = field.name ++ (codes ": " ++ (field.value ++ (13 ∷ (10 ∷ []))))

abbrev pub block : List Field → List ℕ
block [] = []
block (field ∷ fields) = line field ++ block fields

-- One call of `snprintf` on the rest of the block, with its test.
unfoldable pub add_field : ℕ → Field → List Field → Result (List Field)
add_field header_len field fields =
    if ltb (header_len - length (block fields)) (length (line field))
    then err invalid_size
    else ok (fields ++ (field ∷ []))

abbrev pub authorization : List ℕ → Field
authorization token = record { name = codes "Authorization"; value = bearer ++ token }

abbrev pub nonce_field : List ℕ → Field
nonce_field hex = record { name = codes "X-WS-Nonce"; value = hex }

abbrev pub signature_field : List ℕ → Field
signature_field base64 = record { name = codes "X-WS-Signature"; value = base64 }

abbrev pub totp_field : List ℕ → Field
totp_field code = record { name = codes "X-WS-TOTP"; value = code }

unfoldable pub add_authorization : State → List Field → Result (List Field)
add_authorization st fields =
    if length st.token == 0
    then ok fields
    else add_field st.header_len (authorization st.token) fields

module _ (c : Crypto) (b : Codec) where
  unfoldable pub add_signature : List ℕ → State → List Field → Result (List Field)
  add_signature nonce st fields = if not st.handshake_enabled then ok fields else (do
    signature ← compute_handshake_signature c st.security nonce st.token 32
    base64 ← Base64.encode b signature 96
    fields' ← add_field st.header_len (nonce_field (bytes_to_hex nonce)) fields
    add_field st.header_len (signature_field base64) fields')

  unfoldable pub add_totp : ℕ → State → List Field → Result (List Field)
  add_totp unix_time st fields = if not st.totp_enabled then ok fields else (do
    code ← compute_totp c st.security unix_time
    guard (ltb (length (print_padded st.totp_digits code)) 12) invalid_size
    add_field st.header_len (totp_field (print_padded st.totp_digits code)) fields)

  -- The lines that the block is to hold.
  unfoldable pub build_fields : List ℕ → ℕ → State → Result (List Field)
  build_fields nonce unix_time st = do
    f ← add_authorization st []
    g ← add_signature nonce st f
    add_totp unix_time st g

  unfoldable pub regenerate_headers : Bool → List ℕ → ℕ → State → Status × State
  regenerate_headers allocated nonce unix_time st =
      if st.header_len == 0
      then (ok tt, st)
      else (if not st.has_header_block && not allocated
          then (err no_mem, st)
          else (elim (build_fields nonce unix_time st) [
            | err e ↦ (err e, record st { has_header_block = true; headers = none })
            | ok fields ↦ (ok tt, record st { has_header_block = true; headers = some fields })
          ]))
