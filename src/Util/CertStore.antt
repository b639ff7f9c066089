-- ===== src/Util/CertStore.antt =====
-- components/cert_store/cert_store.c: the certificates and the key, embedded or overridden from flash memory.
-- The two switches of the configuration and what the flash libraries answer are arguments.
mod Tests
use n32r.Prelude.{
  not_supported, Bool, Bool-cases, EspErr, List, Option, Option-cases, Result, Result-cases, Status,
  [], ap, append-nil, append_assoc, ap₂, arith, bit_and, bit_or, bit_xor, choose, drop, err,
  esp_fail, false, get_elem?, get_elem?-set_ne, get_elem?-set_self, get_or, guard, if◌then◌else◌,
  inl, inr, invalid_arg, invalid_crc, invalid_response, invalid_size, invalid_state,
  invalid_version, leb, length, length-append, length-drop, length-replicate, length-set,
  length-take, ltb, lt→ltb, map, min, no_mem, none, not, not_found, not_supported, ok,
  ota_validate_failed, refl, replicate, set, some, suc, sym, take, take-append-drop, tests, timeout,
  true, zero, ℕ, ◌%◌, ◌&&◌, ◌*◌, ◌++◌, ◌+◌, ◌-◌, ◌/◌, ◌<◌, ◌==◌, ◌>>=◌, ◌>>◌, ◌^◌, ◌||◌, ◌↔◌, ◌∙◌,
  ◌∷◌, ◌≡◌, ◌≢◌, ◌≤◌, ◌⊎◌,
}

-- `cert_store_blob_t`; its lengths are those of the lists.
pub record Blob : Type 0 where
  pub embedded : List ℕ
  pub override : Option (List ℕ)

-- What the NVS partition answers for one key, and whether the buffer is granted.
pub record Nvs : Type 0 where
  pub partition : Status
  pub handle : Status
  pub size : Result ℕ
  pub allocated : Bool
  pub bytes : Result (List ℕ)

-- What the file system answers for one name. `none` is a file that is missing or whose size is not known;
-- `bytes` is what the read gives.
pub record File : Type 0 where
  pub path_fits : Bool
  pub size : Option ℕ
  pub allocated : Bool
  pub bytes : List ℕ

pub record Sources : Type 0 where
  pub from_nvs : Bool
  pub from_spiffs : Bool
  pub mount : Status
  pub nvs_cert : Nvs
  pub nvs_key : Nvs
  pub nvs_ca : Nvs
  pub file_cert : File
  pub file_key : File
  pub file_ca : File

-- The static variables.
pub record Store : Type 0 where
  pub server_cert : Blob
  pub server_key : Blob
  pub ca_cert : Blob
  pub initialized : Bool
  pub mounted : Bool

unfoldable pub nvs_bytes : Nvs → Option (List ℕ)
nvs_bytes nvs = elim nvs.partition [
  | err e ↦ none
  | ok _ ↦ elim nvs.handle [
    | err e ↦ none
    | ok _ ↦ elim nvs.size [
      | err e ↦ none
      | ok required ↦
          if required == 0 || not nvs.allocated
          then none
          else (elim nvs.bytes [ err e ↦ none | ok bytes ↦ some bytes ])
    ]
  ]
]

unfoldable pub load_from_nvs : Bool → Nvs → Blob → Blob
load_from_nvs enabled nvs blob =
    if not enabled
    then blob
    else (elim blob.override [ some _ ↦ blob | none ↦ record blob { override = nvs_bytes nvs } ])

-- The status, and whether the partition is mounted after it.
unfoldable pub mount_spiffs : Bool → Status → Bool → Status × Bool
mount_spiffs enabled mount mounted =
    if not enabled
    then (err not_supported, mounted)
    else (if mounted
        then (ok tt, true)
        else (elim mount [ ok _ ↦ (ok tt, true) | err e ↦ (err e, false) ]))

unfoldable pub file_bytes : File → Option (List ℕ)
file_bytes file = if not file.path_fits then none else (elim file.size [
  | none ↦ none
  | some size ↦
      if size == 0 || (not file.allocated || not (length file.bytes == size))
      then none
      else some file.bytes
])

unfoldable pub load_from_spiffs : Bool → Status → File → Blob × Bool → Blob × Bool
load_from_spiffs enabled mount file (blob, mounted) =
    if not enabled then (blob, mounted) else (elim blob.override [
      | some _ ↦ (blob, mounted)
      | none ↦
          let (status, mounted') = mount_spiffs enabled mount mounted in
          (
            elim status [ err e ↦ blob | ok _ ↦ record blob { override = file_bytes file } ],
            mounted',
          )
    ])

unfoldable pub init_once : Sources → Store → Store
init_once s store =
    if store.initialized
    then store
    else (let (cert, m1) =
          load_from_spiffs s.from_spiffs s.mount s.file_cert
            (load_from_nvs s.from_nvs s.nvs_cert store.server_cert, store.mounted) in
        let (key, m2) =
          load_from_spiffs s.from_spiffs s.mount s.file_key
            (load_from_nvs s.from_nvs s.nvs_key store.server_key, m1) in
        let (ca, m3) =
          load_from_spiffs s.from_spiffs s.mount s.file_ca
            (load_from_nvs s.from_nvs s.nvs_ca store.ca_cert, m2) in
        record {
          server_cert = cert;
          server_key = key;
          ca_cert = ca;
          initialized = true;
          mounted = m3;
        })

-- An override that is empty does not count.
unfoldable pub chosen : Blob → List ℕ
chosen blob = elim blob.override [
  | none ↦ blob.embedded
  | some bytes ↦ if ltb 0 (length bytes) then bytes else blob.embedded
]

unfoldable pub cert_store_server_cert : Sources → Store → List ℕ × Store
cert_store_server_cert s store =
    (let store' = init_once s store in (chosen store'.server_cert, store'))

unfoldable pub cert_store_server_key : Sources → Store → List ℕ × Store
cert_store_server_key s store =
    (let store' = init_once s store in (chosen store'.server_key, store'))

unfoldable pub cert_store_ca_cert : Sources → Store → List ℕ × Store
cert_store_ca_cert s store = (let store' = init_once s store in (chosen store'.ca_cert, store'))

once_initialized : (s : Sources) (store : Store) → (init_once s store).initialized ≡ true
unfolding init_once
once_initialized s store = elim (Bool-cases store.initialized) [
  | inl e ↦ simp (e) refl
  | inr e ↦ simp (e) refl
]

stays : (s : Sources) (store : Store) → store.initialized ≡ true → init_once s store ≡ store
unfolding init_once
stays s store e = simp (e) refl

init_twice : (s s' : Sources) (store : Store) → init_once s' (init_once s store) ≡ init_once s store
init_twice s s' store = stays s' (init_once s store) (once_initialized s store)

-- A call of one of the three functions, and what it gives.
pub data Call : Type 0 where
  server_cert_call server_key_call ca_cert_call : Call

unfoldable pub answer : Call → Sources → Store → List ℕ × Store
answer server_cert_call s store = cert_store_server_cert s store
answer server_key_call s store = cert_store_server_key s store
answer ca_cert_call s store = cert_store_ca_cert s store

-- Calls one after the other, each with what the flash memory answers then.
unfoldable pub answer_all : List (Call × Sources) → Store → Store
answer_all [] store = store
answer_all ((call, s) ∷ calls) store = answer_all calls (answer call s store).1

answer-init_once :
    (call : Call) (s : Sources) (store : Store) → (answer call s store).1 ≡ init_once s store
unfolding answer cert_store_server_cert cert_store_server_key cert_store_ca_cert
answer-init_once server_cert_call s store = refl
answer-init_once server_key_call s store = refl
answer-init_once ca_cert_call s store = refl

answer_all-stays :
    (calls : List (Call × Sources)) (store : Store)
    → store.initialized ≡ true
    → answer_all calls store ≡ store
unfolding answer_all
answer_all-stays [] store e = refl
answer_all-stays ((call, s) ∷ calls) store e =
    let same : (answer call s store).1 ≡ store = answer-init_once call s store ∙ stays s store e in
    ap (answer_all calls) same ∙ answer_all-stays calls store e

answer_settled :
    (call : Call) (s s' : Sources) (store : Store)
    → (answer call s' (init_once s store)).0 ≡ (answer call s store).0
unfolding answer cert_store_server_cert cert_store_server_key cert_store_ca_cert
answer_settled server_cert_call s s' store = ap (λ t. chosen t.server_cert) (init_twice s s' store)
answer_settled server_key_call s s' store = ap (λ t. chosen t.server_key) (init_twice s s' store)
answer_settled ca_cert_call s s' store = ap (λ t. chosen t.ca_cert) (init_twice s s' store)

-- What the certificates and the key are is settled by the first call of any of the three functions: after it and any
-- calls that follow, whatever the flash memory answers each time, each of the three gives the bytes that it would have
-- given as the first call.
pub certificates_settled :
    (first next : Call) (s s' : Sources) (later : List (Call × Sources)) (store : Store)
    → (answer next s' (answer_all later (answer first s store).1)).0 ≡ (answer next s store).0
certificates_settled first next s s' later store =
    let settled : answer_all later (answer first s store).1 ≡ init_once s store =
      ap (answer_all later) (answer-init_once first s store)
      ∙ answer_all-stays later (init_once s store) (once_initialized s store) in
    ap (λ t. (answer next s' t).0) settled ∙ answer_settled next s s' store
