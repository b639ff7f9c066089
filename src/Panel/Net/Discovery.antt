-- ===== src/Panel/Net/Discovery.antt =====
-- hmi_node/main/net/ws_client.c: the endpoint that is made of an answer of mDNS. Texts have no zero byte; an address
-- is what lwIP prints of it.
pub mod Laws
mod Tests
use n32r.Prelude.{
  All, Bool, Bool-cases, EspErr, List, Option, Option-cases, Result, Result-cases, Status, [], ap,
  append-nil, append_assoc, ap₂, arith, bit_and, bit_or, bit_xor, choose, drop, err, esp_fail,
  false, get_elem?, get_elem?-set_ne, get_elem?-set_self, get_or, guard, if◌then◌else◌, inl, inr,
  invalid_arg, invalid_crc, invalid_response, invalid_size, invalid_state, invalid_version, leb,
  length, length-append, length-drop, length-map, length-replicate, length-set, length-take, ltb,
  lt→ltb, map, min, no_mem, none, not, not_found, not_supported, ok, ota_validate_failed, refl,
  replicate, set, some, suc, sym, take, take-append-drop, tests, timeout, true, zero, ℕ, ◌%◌, ◌&&◌,
  ◌*◌, ◌++◌, ◌+◌, ◌-◌, ◌/◌, ◌<◌, ◌==◌, ◌>>=◌, ◌>>◌, ◌^◌, ◌||◌, ◌↔◌, ◌∙◌, ◌∷◌, ◌≡◌, ◌≢◌, ◌≤◌, ◌⊎◌,
}
use n32r.Prelude.Bytes.{bytes_eq}
use n32r.Prelude.Bytes.{codes}
use n32r.Proto.Printf.{decimal}

-- `service_metadata_t`
pub record Metadata : Type 0 where
  pub proto : List ℕ
  pub path : List ℕ
  pub host : List ℕ

pub data Address : Type 0 where
  v4 : List ℕ → Address
  v6 : List ℕ → Address
  any_other : Address

-- `mdns_txt_item_t`; a key or a value may be missing.
pub record Item : Type 0 where
  pub key : Option (List ℕ)
  pub value : Option (List ℕ)

-- `mdns_result_t`
pub record MdnsResult : Type 0 where
  pub hostname : Option (List ℕ)
  pub port : ℕ
  pub txt : List Item
  pub addr : List Address

-- `strlcpy` to a buffer of the given size.
abbrev pub strlcpy : ℕ → List ℕ → List ℕ
strlcpy size value = take (size - 1) value

unfoldable pub service_metadata_init : Metadata
service_metadata_init = record { proto = codes "wss"; path = codes "/ws"; host = [] }

unfoldable pub is_token_char : ℕ → Bool
is_token_char c =
    c == b'-'
    || (c == b'+' || (c == b'.' || ((leb b'a' c && leb c b'z') || (leb b'0' c && leb c b'9'))))

unfoldable pub all_token_chars : List ℕ → Bool
all_token_chars [] = true
all_token_chars (c ∷ value) = is_token_char c && all_token_chars value

unfoldable pub is_token_valid : List ℕ → Bool
is_token_valid value =
    if length value == 0 || leb 32 (length value) then false else all_token_chars value

-- The text that is left in `dest`.
unfoldable pub sanitize_path : ℕ → List ℕ → List ℕ
sanitize_path dest_len [] = strlcpy dest_len (codes "/ws")
sanitize_path dest_len (c ∷ value) =
    if c == b'/'
    then strlcpy dest_len (c ∷ value)
    else strlcpy dest_len (strlcpy 64 (b'/' ∷ (c ∷ value)))

-- `strstr(value, "://")`: what stands before the separator and behind it.
unfoldable pub split_scheme : List ℕ → Option (List ℕ × List ℕ)
split_scheme [] = none
split_scheme (c ∷ value) =
    let later = split_scheme value in
    if bytes_eq (take 3 (c ∷ value)) (codes "://")
    then some ([], drop 3 (c ∷ value))
    else (elim later [ none ↦ none | some (before, behind) ↦ some (c ∷ before, behind) ])

-- `strchr(value, '/')`
unfoldable pub from_slash : List ℕ → Option (List ℕ)
from_slash [] = none
from_slash (c ∷ value) =
    let later = from_slash value in if c == b'/' then some (c ∷ value) else later

unfoldable pub apply_proto : List ℕ → Metadata → Metadata
apply_proto value meta =
    if is_token_valid value then record meta { proto = strlcpy 8 value } else meta

unfoldable pub apply_uri : List ℕ → Metadata → Metadata
apply_uri value meta = elim (split_scheme value) [
  | none ↦ meta
  | some (proto, behind) ↦
      if ltb (length proto) 8
      then (let meta' = apply_proto proto meta in
          elim (from_slash behind) [
            | none ↦ meta'
            | some path ↦ record meta' { path = sanitize_path 64 path }
          ])
      else meta
]

-- An item with a key and a value.
unfoldable pub apply_item : List ℕ → List ℕ → Metadata → Metadata
apply_item key value meta =
    if bytes_eq key (codes "proto")
    then apply_proto value meta
    else (if bytes_eq key (codes "path")
        then record meta { path = sanitize_path 64 value }
        else (if bytes_eq key (codes "uri")
            then apply_uri value meta
            else (if bytes_eq key (codes "host") || bytes_eq key (codes "sni")
                then (if ltb (length value) 64
                    then record meta { host = strlcpy 64 value }
                    else meta)
                else meta)))

unfoldable pub apply_txt_metadata : List Item → Metadata → Metadata
apply_txt_metadata [] meta = meta
apply_txt_metadata (item ∷ items) meta = apply_txt_metadata items (elim item.key [
  | none ↦ meta
  | some key ↦ elim item.value [ none ↦ meta | some value ↦ apply_item key value meta ]
])

-- The text for the URI, unless the address is passed over.
unfoldable pub host_text : Address → Option (List ℕ)
host_text (v4 ip) = some (strlcpy 49 ip)
host_text (v6 ip) = if leb 49 (length ip + 2) then none else some (b'[' ∷ (ip ++ (b']' ∷ [])))
host_text any_other = none

abbrev pub endpoint : Metadata → ℕ → List ℕ → List ℕ
endpoint meta port host =
    meta.proto ++ (codes "://" ++ (host ++ (b':' ∷ (decimal port ++ meta.path))))

-- The first address whose URI fits into the buffer.
unfoldable pub first_fitting : Metadata → ℕ → ℕ → List Address → Option (List ℕ)
first_fitting meta port uri_len [] = none
first_fitting meta port uri_len (address ∷ addresses) =
    let later = first_fitting meta port uri_len addresses in
    elim (host_text address) [
      | none ↦ later
      | some host ↦
          if ltb (length (endpoint meta port host)) uri_len
          then some (endpoint meta port host)
          else later
    ]

-- The name that `set_discovered_server_name` keeps; one that is missing is the empty text.
unfoldable pub server_name : Metadata → MdnsResult → List ℕ
server_name meta result =
    if ltb 0 (length meta.host)
    then strlcpy 64 meta.host
    else (elim result.hostname [ none ↦ [] | some hostname ↦ strlcpy 64 hostname ])

-- The URI and the name of the server.
unfoldable pub build_uri_from_result : MdnsResult → ℕ → Option (List ℕ × List ℕ)
build_uri_from_result result uri_len =
    let meta = apply_txt_metadata result.txt service_metadata_init in
    if bytes_eq meta.proto (codes "wss") || bytes_eq meta.proto (codes "ws")
    then (elim (first_fitting meta result.port uri_len result.addr) [
      | none ↦ none
      | some uri ↦ some (uri, server_name meta result)
    ])
    else none
