-- ===== src/Panel/Net/Cache.antt =====
-- hmi_node/main/net/ws_client.c: the endpoint that is kept in flash memory, and the loop that looks for one. What
-- the flash library answers and the clock are arguments.
pub mod Laws
use n32r.Prelude.{
  All, Bool, Bool-cases, EspErr, List, Option, Option-cases, Result, Result-cases, Status, [], ap,
  append-nil, append_assoc, ap₂, arith, bit_and, bit_or, bit_xor, choose, drop, err, esp_fail,
  false, get_elem?, get_elem?-set_ne, get_elem?-set_self, get_or, guard, if◌then◌else◌, inl, inr,
  invalid_arg, invalid_crc, invalid_response, invalid_size, invalid_state, invalid_version, leb,
  length, length-append, length-drop, length-map, length-replicate, length-set, length-take, ltb,
  lt→ltb, map, min, no_mem, none, not, not_found, not_supported, ok, ota_validate_failed, refl,
  replicate, set, some, suc, sym, take, take-append-drop, tests, timeout, true, zero, ℕ, ◌%◌, ◌&&◌,
  ◌*◌, ◌++◌, ◌+◌, ◌-◌, ◌/◌, ◌<◌, ◌==◌, ◌>>=◌, ◌>>◌, ◌^◌, ◌||◌, ◌↔◌, ◌∙◌, ◌∷◌, ◌≡◌, ◌≢◌, ◌≤◌, ◌⊎◌,
}
use n32r.Prelude.Words.{sub32}
use n32r.Prelude.Words.{u32_mod}
use n32r.Panel.Net.Discovery.{MdnsResult, build_uri_from_result}

-- The entries of the namespace.
pub record Store : Type 0 where
  pub last_uri : Option (List ℕ)
  pub last_sni : Option (List ℕ)
  pub last_ts : Option ℕ

-- Whether `hmi_prefs_store_init` and the opening of the namespace succeed, and each of the writes.
pub record Grants : Type 0 where
  pub opened : Bool
  pub uri_written : Bool
  pub sni_written : Bool
  pub ts_written : Bool

unfoldable pub invalidate_cached_service : Bool → Store → Store
invalidate_cached_service opened store =
    if opened then record { last_uri = none; last_sni = none; last_ts = none } else store

-- What is left in flash memory; the name is `s_discovered_server_name`. Values are written as they are set.
unfoldable pub store_cached_service : Grants → ℕ → List ℕ → List ℕ → Store → Store
store_cached_service grants now uri name store =
    if length uri == 0 || not grants.opened
    then store
    else (if not grants.uri_written
        then store
        else (let store' : Store = record store { last_uri = some uri } in
            if not grants.sni_written
            then store'
            else (let store'' : Store = record store' { last_sni = some name } in
                if not grants.ts_written then store'' else record store'' { last_ts = some now })))

-- `nvs_get_str` to a buffer of the given size.
unfoldable pub get_str : ℕ → Option (List ℕ) → Result (List ℕ)
get_str size none = err not_found
get_str size (some text) = if ltb (length text) size then ok text else err invalid_size

-- The name that is read to the static buffer; an entry that is missing is the empty text.
unfoldable pub read_name : Option (List ℕ) → Result (List ℕ)
read_name none = ok []
read_name (some name) = get_str 64 (some name)

-- Whether the age, in milliseconds of a counter of 32 bits, is past the limit; a limit of 0 is none.
unfoldable pub is_expired : ℕ → ℕ → ℕ → Bool
is_expired ttl_minutes now last_seen =
    ltb 0 (ttl_minutes * 60000) && ltb (ttl_minutes * 60000) (sub32 now last_seen)

-- The URI, the name of the server, and the store.
unfoldable pub load_cached_service :
    Bool → Bool → ℕ → ℕ → ℕ → List ℕ → Store → Option (List ℕ) × (List ℕ × Store)
load_cached_service opened reopened ttl_minutes now uri_len name store =
    if uri_len == 0 || not opened
    then (none, (name, store))
    else (elim (get_str uri_len store.last_uri) [
      | err e ↦ (none, (name, store))
      | ok uri ↦ elim (read_name store.last_sni) [
        | err e ↦ (none, (name, store))
        | ok name' ↦ elim store.last_ts [
          | none ↦ (none, (name', store))
          | some last_seen ↦
              if is_expired ttl_minutes now last_seen
              then (none, (name', invalidate_cached_service reopened store))
              else (some uri, (name', store))
        ]
      ]
    ])

-- One round of the search: the time in milliseconds since its start before and after it, and the answers.
pub record Round : Type 0 where
  pub elapsed : ℕ
  pub results : List MdnsResult
  pub elapsed_after : ℕ

-- The first answer that gives a URI.
unfoldable pub first_usable : ℕ → List MdnsResult → Option (List ℕ × List ℕ)
first_usable uri_len [] = none
first_usable uri_len (result ∷ results) =
    let later = first_usable uri_len results in
    elim (build_uri_from_result result uri_len) [ none ↦ later | some found ↦ some found ]

-- What the rounds find; the outer `none` stands for a search that goes on after them.
unfoldable pub search_rounds : ℕ → ℕ → List Round → Option (Option (List ℕ × List ℕ))
search_rounds timeout_ms uri_len [] = none
search_rounds timeout_ms uri_len (round ∷ rounds) =
    let later = search_rounds timeout_ms uri_len rounds in
    if timeout_ms == 0 || ltb (round.elapsed % u32_mod) timeout_ms
    then (elim (first_usable uri_len round.results) [
      | some found ↦ some (some found)
      | none ↦
          if not (timeout_ms == 0) && leb timeout_ms round.elapsed_after then some none else later
    ])
    else some none

-- `mdns_init` is only logged. The URI, the name of the server, and the store.
unfoldable pub discover_service :
    Grants
    → Bool
    → Bool
    → ℕ
    → ℕ
    → ℕ
    → ℕ
    → List Round
    → Store
    → Option (Option (List ℕ) × (List ℕ × Store))
discover_service grants opened reopened ttl_minutes timeout_ms now uri_len rounds store =
    elim (search_rounds timeout_ms uri_len rounds) [
      | none ↦ none
      | some found ↦ some (elim found [
        | some (uri, name) ↦ (some uri, (name, store_cached_service grants now uri name store))
        | none ↦ load_cached_service opened reopened ttl_minutes now uri_len [] store
      ])
    ]
