-- ===== src/WsClient/Headers/Fields.antt =====
-- What a successful `regenerate_headers` has written.
use mathlib.Core.Bool.{false≢true}
use n32r.Prelude.{
  Bool-cases, List, Option, Result-cases, [], ap, append-nil, append_assoc, arith, false, inl, inr,
  length, none, ok, refl, some, sym, true, ℕ, ◌++◌, ◌==◌, ◌∙◌, ◌∷◌, ◌≡◌, ◌⊎◌,
}
use n32r.Crypto.{Crypto}
use n32r.Util.Base64
use n32r.Util.Base64.{Codec}
use n32r.Security.{compute_handshake_signature, compute_totp}
use n32r.WsClient.{bytes_to_hex}
use n32r.WsClient.Decimal.{print_padded}
use n32r.WsClient.State.{State, Field}
use n32r.WsClient.Headers.{
  authorization, nonce_field, signature_field, totp_field, add_field, add_authorization,
  add_signature, add_totp, build_fields,
}

add_field_lem :
    (header_len : ℕ) (field : Field) (fields out : List Field)
    → add_field header_len field fields ≡ ok out
    → out ≡ fields ++ (field ∷ [])
unfolding add_field
add_field_lem header_len field fields out h = ground arith

abbrev pub token_lines : Option (List ℕ) → List Field
token_lines none = []
token_lines (some token) = authorization token ∷ []

-- The nonce and the signature as text.
abbrev pub signed_lines : Option (List ℕ × List ℕ) → List Field
signed_lines none = []
signed_lines (some (hex, base64)) = nonce_field hex ∷ (signature_field base64 ∷ [])

abbrev pub code_lines : Option (List ℕ) → List Field
code_lines none = []
code_lines (some digits) = totp_field digits ∷ []

abbrev pub fields_of : Option (List ℕ) → Option (List ℕ × List ℕ) → Option (List ℕ) → List Field
fields_of token signed code = (token_lines token ++ signed_lines signed) ++ code_lines code

module _ (c : Crypto) (b : Codec) (st : State) (nonce : List ℕ) (unix_time : ℕ) where
  abbrev pub SignedFrom : Option (List ℕ × List ℕ) → Type 0
  SignedFrom signed =
      ((st.handshake_enabled ≡ false) × (signed ≡ none))
      ⊎ ((signature : List ℕ) × (base64 : List ℕ) × (st.handshake_enabled ≡ true)
          × (compute_handshake_signature c st.security nonce st.token 32 ≡ ok signature)
          × (Base64.encode b signature 96 ≡ ok base64)
          × (signed ≡ some (bytes_to_hex nonce, base64)))

  abbrev pub CodeFrom : Option (List ℕ) → Type 0
  CodeFrom code =
      ((st.totp_enabled ≡ false) × (code ≡ none))
      ⊎ ((value : ℕ) × (st.totp_enabled ≡ true)
          × (compute_totp c st.security unix_time ≡ ok value)
          × (code ≡ some (print_padded st.totp_digits value)))

  -- Whence the lines come, each where the client is to send it.
  pub record Whence (token : Option (List ℕ)) (signed : Option (List ℕ × List ℕ))
      (code : Option (List ℕ)) : Type 0 where
    pub token_from :
        (((length st.token == 0) ≡ true) × (token ≡ none))
        ⊎ (((length st.token == 0) ≡ false) × (token ≡ some st.token))
    pub signed_from : SignedFrom signed
    pub code_from : CodeFrom code

  authorization_stage :
      (out : List Field)
      → add_authorization st [] ≡ ok out
      → ((length st.token == 0) ≡ true) × (out ≡ [])
        ⊎ (((length st.token == 0) ≡ false) × (out ≡ authorization st.token ∷ []))
  unfolding add_authorization
  authorization_stage out h = elim (Bool-cases (length st.token == 0)) [
    | inl e ↦ inl (e, ground arith)
    | inr e ↦ inr (e, add_field_lem st.header_len (authorization st.token) [] out (ground arith))
  ]

  signature_stage :
      (fields out : List Field)
      → add_signature c b nonce st fields ≡ ok out
      → ((st.handshake_enabled ≡ false) × (out ≡ fields))
        ⊎ ((signature : List ℕ) × (base64 : List ℕ) × (st.handshake_enabled ≡ true)
            × (compute_handshake_signature c st.security nonce st.token 32 ≡ ok signature)
            × (Base64.encode b signature 96 ≡ ok base64)
            × (out
                ≡ (fields ++ (nonce_field (bytes_to_hex nonce) ∷ []))
                  ++ (signature_field base64 ∷ [])))
  unfolding add_signature
  signature_stage fields out h = elim (Bool-cases st.handshake_enabled) [
    | inr off ↦ inl (off, ground arith)
    | inl on ↦ elim (Result-cases (compute_handshake_signature c st.security nonce st.token 32)) [
      | inr (e, f) ↦ absurd (false≢true (ground arith))
      | inl (sig, f) ↦ elim (Result-cases (Base64.encode b sig 96)) [
        | inr (e, g) ↦ absurd (false≢true (ground arith))
        | inl (base64, g) ↦
            elim (Result-cases
              (add_field st.header_len (nonce_field (bytes_to_hex nonce)) fields)) [
                | inr (e, k) ↦ absurd (false≢true (ground arith))
                | inl (mid, k) ↦ inr (
                  sig,
                  base64,
                  on,
                  f,
                  g,
                  add_field_lem st.header_len (signature_field base64) mid out (ground arith)
                      ∙ ap (λ fs. fs ++ (signature_field base64 ∷ []))
                          (add_field_lem st.header_len (nonce_field (bytes_to_hex nonce)) fields mid
                            k),
                )
              ]
      ]
    ]
  ]

  totp_stage :
      (fields out : List Field)
      → add_totp c b unix_time st fields ≡ ok out
      → ((st.totp_enabled ≡ false) × (out ≡ fields))
        ⊎ ((value : ℕ) × (st.totp_enabled ≡ true)
            × (compute_totp c st.security unix_time ≡ ok value)
            × (out ≡ fields ++ (totp_field (print_padded st.totp_digits value) ∷ [])))
  unfolding add_totp
  totp_stage fields out h = elim (Bool-cases st.totp_enabled) [
    | inr off ↦ inl (off, ground arith)
    | inl on ↦ elim (Result-cases (compute_totp c st.security unix_time)) [
      | inr (e, f) ↦ absurd (false≢true (ground arith))
      | inl (value, f) ↦ inr (
        value,
        on,
        f,
        add_field_lem st.header_len (totp_field (print_padded st.totp_digits value)) fields out
            (ground arith),
      )
    ]
  ]

  token_part :
      (f : List Field)
      → add_authorization st [] ≡ ok f
      → (token : Option (List ℕ)) × (f ≡ token_lines token)
        × (((length st.token == 0) ≡ true) × (token ≡ none)
            ⊎ (((length st.token == 0) ≡ false) × (token ≡ some st.token)))
  token_part f p = elim (authorization_stage f p) [
    | inl (t, e) ↦ (none, e, inl (t, refl))
    | inr (t, e) ↦ (some st.token, e, inr (t, refl))
  ]

  signed_part :
      (f g : List Field)
      → add_signature c b nonce st f ≡ ok g
      → (signed : Option (List ℕ × List ℕ)) × (g ≡ f ++ signed_lines signed) × SignedFrom signed
  signed_part f g q = elim (signature_stage f g q) [
    | inl (off, e) ↦ (none, e ∙ sym (append-nil f), inl (off, refl))
    | inr (signature, base64, on, p, p', e) ↦ (
      some (bytes_to_hex nonce, base64),
      e ∙ append_assoc f (nonce_field (bytes_to_hex nonce) ∷ []) (signature_field base64 ∷ []),
      inr (signature, base64, on, p, p', refl),
    )
  ]

  code_part :
      (g out : List Field)
      → add_totp c b unix_time st g ≡ ok out
      → (code : Option (List ℕ)) × (out ≡ g ++ code_lines code) × CodeFrom code
  code_part g out r = elim (totp_stage g out r) [
    | inl (off, e) ↦ (none, e ∙ sym (append-nil g), inl (off, refl))
    | inr (value, on, p, e) ↦
        (some (print_padded st.totp_digits value), e, inr (value, on, p, refl))
  ]

  stages :
      (fields : List Field)
      → build_fields c b nonce unix_time st ≡ ok fields
      → (f : List Field) × (g : List Field) × (add_authorization st [] ≡ ok f)
        × (add_signature c b nonce st f ≡ ok g)
        × (add_totp c b unix_time st g ≡ ok fields)
  unfolding build_fields
  stages fields h = elim (Result-cases (add_authorization st [])) [
    | inr (e, p) ↦ absurd (false≢true (ground arith))
    | inl (f, p) ↦ elim (Result-cases (add_signature c b nonce st f)) [
      | inr (e, q) ↦ absurd (false≢true (ground arith))
      | inl (g, q) ↦ (f, g, p, q, ground arith)
    ]
  ]

  -- The lines of a complete header block, and whence they come.
  pub build_fields_lem :
      (fields : List Field)
      → build_fields c b nonce unix_time st ≡ ok fields
      → (token : Option (List ℕ)) × (signed : Option (List ℕ × List ℕ)) × (code : Option (List ℕ))
        × (fields ≡ fields_of token signed code)
        × Whence token signed code
  build_fields_lem fields h =
      let (f, g, p, q, r) = stages fields h in
      let (token, e, t) = token_part f p in
      let (signed, e', s) = signed_part f g q in
      let (code, e'', d) = code_part g fields r in
      (
        token,
        signed,
        code,
        e'' ∙ ap (λ fs. fs ++ code_lines code) (e' ∙ ap (λ fs. fs ++ signed_lines signed) e),
        record { token_from = t; signed_from = s; code_from = d },
      )
