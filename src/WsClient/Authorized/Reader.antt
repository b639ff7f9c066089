-- ===== src/WsClient/Authorized/Reader.antt =====
-- The values that the server reads from the lines of the client, through the HTTP parser.
use n32r.Prelude.{
  Bool-cases, List, Option, [], false, if◌then◌else◌, inl, inr, length, ltb, none, refl, some, true,
  ℕ, ◌++◌, ◌∙◌, ◌∷◌, ◌≡◌,
}
use n32r.Server.Authorize.{Headers, bearer}
use n32r.WsClient.{codes}
use n32r.WsClient.State.{Field}
use n32r.WsClient.Headers.Fields.{fields_of}
use n32r.Prelude.Bytes.{bytes_eq}

-- What the documentation of `httpd_req_get_hdr_value_str` promises of header lines, the name asked for
-- and the size of the buffer: the value of the first line of that name, where it fits with its
-- terminator.
pub record IsReader (get : List Field → List ℕ → ℕ → Option (List ℕ)) : Type 0 where
  pub nothing : (name : List ℕ) (size : ℕ) → get [] name size ≡ none
  pub found :
      (field : Field) (fields : List Field) (name : List ℕ) (size : ℕ)
      → bytes_eq field.name name ≡ true
      → get (field ∷ fields) name size
        ≡ (if ltb (length field.value) size then some field.value else none)
  pub skipped :
      (field : Field) (fields : List Field) (name : List ℕ) (size : ℕ)
      → bytes_eq field.name name ≡ false
      → get (field ∷ fields) name size ≡ get fields name size

-- The only function of that kind.
unfoldable pub value_of : List Field → List ℕ → ℕ → Option (List ℕ)
value_of [] name size = none
value_of (field ∷ fields) name size =
    let rest = value_of fields name size in
    if bytes_eq field.name name
    then (if ltb (length field.value) size then some field.value else none)
    else rest

-- What the server reads with the buffers of `authorize_request`.
unfoldable pub received : (List Field → List ℕ → ℕ → Option (List ℕ)) → List Field → Headers
received get fields = record {
  authorization = get fields (codes "Authorization") 192;
  nonce = get fields (codes "X-WS-Nonce") 33;
  signature = get fields (codes "X-WS-Signature") 160;
  totp = get fields (codes "X-WS-TOTP") 16;
}

reader_lem :
    {get : List Field → List ℕ → ℕ → Option (List ℕ)} (laws : IsReader get) (fields : List Field)
    (name : List ℕ) (size : ℕ)
    → get fields name size ≡ value_of fields name size
unfolding value_of
reader_lem laws [] name size = laws.nothing name size
reader_lem laws (field ∷ fields) name size = elim (Bool-cases (bytes_eq field.name name)) [
  | inl e ↦ laws.found field fields name size e ∙ rw e refl
  | inr e ↦ laws.skipped field fields name size e ∙ reader_lem laws fields name size ∙ rw e refl
]

pub value_of-IsReader : IsReader value_of
unfolding value_of
value_of-IsReader = record {
  nothing = λ name size. refl;
  found = λ field fields name size e. rw e refl;
  skipped = λ field fields name size e. rw e refl;
}

pub reader-received :
    {get : List Field → List ℕ → ℕ → Option (List ℕ)} (laws : IsReader get) (fields : List Field)
    → received get fields ≡ received value_of fields
unfolding received
reader-received laws fields =
    rw
      (
        reader_lem laws fields (codes "Authorization") 192,
        reader_lem laws fields (codes "X-WS-Nonce") 33,
        reader_lem laws fields (codes "X-WS-Signature") 160,
        reader_lem laws fields (codes "X-WS-TOTP") 16,
      )
      refl

abbrev pub sized : ℕ → List ℕ → Option (List ℕ)
sized size value = if ltb (length value) size then some value else none

abbrev pub sent : ℕ → Option (List ℕ) → Option (List ℕ)
sent size none = none
sent size (some value) = sized size value

abbrev pub first : Option (List ℕ × List ℕ) → Option (List ℕ)
first none = none
first (some (hex, base64)) = some hex

abbrev pub second : Option (List ℕ × List ℕ) → Option (List ℕ)
second none = none
second (some (hex, base64)) = some base64

abbrev pub with_scheme : Option (List ℕ) → Option (List ℕ)
with_scheme none = none
with_scheme (some token) = some (bearer ++ token)

pub received_lem :
    (token : Option (List ℕ)) (signed : Option (List ℕ × List ℕ)) (code : Option (List ℕ))
    → received value_of (fields_of token signed code) ≡ record {
      authorization = sent 192 (with_scheme token);
      nonce = sent 33 (first signed);
      signature = sent 160 (second signed);
      totp = sent 16 code;
    }
unfolding received value_of bytes_eq
received_lem none none none = refl
received_lem none none (some d) = refl
received_lem none (some (h, s)) none = refl
received_lem none (some (h, s)) (some d) = refl
received_lem (some t) none none = refl
received_lem (some t) none (some d) = refl
received_lem (some t) (some (h, s)) none = refl
received_lem (some t) (some (h, s)) (some d) = refl
