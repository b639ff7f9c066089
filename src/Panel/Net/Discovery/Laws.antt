-- ===== src/Panel/Net/Discovery/Laws.antt =====
-- The endpoint that an answer of mDNS gives, whatever its records hold.
use mathlib.Core.Path.{subst}
use mathlib.Core.List.{Memᴰ}
use n32r.Prelude.{
  Bool-cases, List, [], ap, arith, choose, inl, inr, length, length-append, length-take, ltb, refl,
  some, sym, take, true, ℕ, ◌++◌, ◌<◌, ◌==◌, ◌||◌, ◌∙◌, ◌∷◌, ◌≡◌, ◌⊎◌, choose_option, ltb→lt,
}
use n32r.Panel.Net.Discovery.{sanitize_path}
use n32r.Panel.Net.Discovery.{
  strlcpy, apply_item, Metadata, apply_txt_metadata, apply_proto, apply_uri, first_fitting,
  service_metadata_init, bytes_eq, Item, split_scheme, Address, is_token_valid, from_slash,
  build_uri_from_result, host_text, server_name, MdnsResult, endpoint, decimal,
}
use n32r.Prelude.Bytes.{codes, bytes_eq, bytes_eq→≡}
use n32r.Proto.Printf.{decimal}

-- The path begins with a slash.
unfoldable pub IsPath : List ℕ → Type 0
IsPath path = (rest : List ℕ) × (path ≡ b'/' ∷ rest)

unfoldable pub IsSupported : List ℕ → Type 0
IsSupported scheme = (scheme ≡ codes "wss") ⊎ (scheme ≡ codes "ws")

strlcpy-IsPath : (rest : List ℕ) → IsPath (strlcpy 64 (b'/' ∷ rest))
unfolding IsPath
strlcpy-IsPath rest = (take 62 rest, refl)

sanitize_path-IsPath : (value : List ℕ) → IsPath (sanitize_path 64 value)
unfolding sanitize_path IsPath
sanitize_path-IsPath [] = (codes "ws", refl)
sanitize_path-IsPath (c ∷ value) =
    choose IsPath (c == b'/') (λ same. (take 62 value, ap (λ x. x ∷ take 62 value) (ground arith)))
      (λ differ. (c ∷ take 61 (take 61 value), refl))

-- What the records can never break.
record IsMetadata (meta : Metadata) : Type 0 where
  is_path : IsPath meta.path
  short_host : length meta.host < 64

length-strlcpy : (value : List ℕ) → length (strlcpy 64 value) < 64
length-strlcpy value = omega (arith, length-take 63 value)

service_metadata_init-IsMetadata : IsMetadata service_metadata_init
unfolding service_metadata_init IsPath
service_metadata_init-IsMetadata = record { is_path = (codes "ws", refl); short_host = omega arith }

apply_proto-IsMetadata :
    (value : List ℕ) (meta : Metadata) → IsMetadata meta → IsMetadata (apply_proto value meta)
unfolding apply_proto
apply_proto-IsMetadata value meta valid =
    choose IsMetadata (is_token_valid value)
      (λ _. record { is_path = valid.is_path; short_host = valid.short_host }) (λ _. valid)

apply_uri-IsMetadata :
    (value : List ℕ) (meta : Metadata) → IsMetadata meta → IsMetadata (apply_uri value meta)
unfolding apply_uri
apply_uri-IsMetadata value meta valid =
    choose_option IsMetadata (split_scheme value) (λ _. valid)
      (λ (proto, behind) _.
        choose IsMetadata (ltb (length proto) 8)
          (λ _.
            choose_option IsMetadata (from_slash behind)
              (λ _. apply_proto-IsMetadata proto meta valid)
              (λ path _. record {
                is_path = sanitize_path-IsPath path;
                short_host = (apply_proto-IsMetadata proto meta valid).short_host;
              }))
          (λ _. valid))

apply_item-IsMetadata :
    (key value : List ℕ) (meta : Metadata)
    → IsMetadata meta
    → IsMetadata (apply_item key value meta)
unfolding apply_item
apply_item-IsMetadata key value meta valid =
    choose IsMetadata (bytes_eq key (codes "proto")) (λ _. apply_proto-IsMetadata value meta valid)
      (λ _.
        choose IsMetadata (bytes_eq key (codes "path"))
          (λ _. record { is_path = sanitize_path-IsPath value; short_host = valid.short_host })
          (λ _.
            choose IsMetadata (bytes_eq key (codes "uri"))
              (λ _. apply_uri-IsMetadata value meta valid)
              (λ _.
                choose IsMetadata (bytes_eq key (codes "host") || bytes_eq key (codes "sni"))
                  (λ _.
                    choose IsMetadata (ltb (length value) 64)
                      (λ _. record { is_path = valid.is_path; short_host = length-strlcpy value })
                      (λ _. valid))
                  (λ _. valid))))

apply_txt_metadata-IsMetadata :
    (items : List Item) (meta : Metadata)
    → IsMetadata meta
    → IsMetadata (apply_txt_metadata items meta)
unfolding apply_txt_metadata
apply_txt_metadata-IsMetadata [] meta valid = valid
apply_txt_metadata-IsMetadata (item ∷ items) meta valid = apply_txt_metadata-IsMetadata items _ (
    choose_option IsMetadata item.key (λ _. valid)
      (λ key _.
        choose_option IsMetadata item.value (λ _. valid)
          (λ value _. apply_item-IsMetadata key value meta valid)))

-- The URI is one of an address of the list, and fits.
unfoldable pub IsFitting : Metadata → ℕ → ℕ → List Address → List ℕ → Type 0
IsFitting meta port uri_len addresses uri =
    (address : Address) × (host : List ℕ) × Memᴰ address addresses
    × (host_text address ≡ some host)
    × (uri ≡ endpoint meta port host)
    × (length uri < uri_len)

first_fitting-IsFitting :
    (meta : Metadata) (port uri_len : ℕ) (addresses : List Address) (uri : List ℕ)
    → first_fitting meta port uri_len addresses ≡ some uri
    → IsFitting meta port uri_len addresses uri
unfolding first_fitting IsFitting
first_fitting-IsFitting meta port uri_len [] uri = λ found. ground arith
first_fitting-IsFitting meta port uri_len (address ∷ addresses) uri =
    let later : first_fitting meta port uri_len addresses ≡ some uri
        → IsFitting meta port uri_len (address ∷ addresses) uri =
      λ h.
        let (a, host, among, shown, same, short) =
          first_fitting-IsFitting meta port uri_len addresses uri h in
        (a, host, Memᴰ.tail among, shown, same, short) in
    choose_option (λ o. o ≡ some uri → IsFitting meta port uri_len (address ∷ addresses) uri)
      (host_text address) (λ _. later)
      (λ host shown.
        choose (λ o. o ≡ some uri → IsFitting meta port uri_len (address ∷ addresses) uri)
          (ltb (length (endpoint meta port host)) uri_len)
          (λ fits found.
            let same : endpoint meta port host ≡ uri = cc in
            (
              address,
              host,
              Memᴰ.head refl,
              shown,
              sym same,
              subst (λ (text : List ℕ). length text < uri_len) same (ltb→lt _ _ fits),
            ))
          (λ _. later))

-- The endpoint that an answer gives: a supported scheme, an address of the answer, its port and a path; a name that
-- fits into its buffer.
unfoldable pub IsEndpoint : MdnsResult → ℕ → List ℕ → List ℕ → Type 0
IsEndpoint result uri_len uri name =
    (meta : Metadata) × IsSupported meta.proto
    × IsPath meta.path
    × IsFitting meta result.port uri_len result.addr uri
    × (length name < 64)

length-server_name : (meta : Metadata) (result : MdnsResult) → length (server_name meta result) < 64
unfolding server_name
length-server_name meta result =
    choose (λ (name : List ℕ). length name < 64) (ltb 0 (length meta.host))
      (λ _. length-strlcpy meta.host)
      (λ _.
        choose_option (λ (name : List ℕ). length name < 64) result.hostname (λ _. omega arith)
          (λ hostname _. length-strlcpy hostname))

supported_lem :
    (proto : List ℕ)
    → bytes_eq proto (codes "wss") || bytes_eq proto (codes "ws") ≡ true
    → IsSupported proto
unfolding IsSupported
supported_lem proto supported = elim (Bool-cases (bytes_eq proto (codes "wss"))) [
  | inl secure ↦ inl (bytes_eq→≡ proto (codes "wss") secure)
  | inr plain ↦ inr (bytes_eq→≡ proto (codes "ws") (ground arith))
]

-- Whatever records an answer has, the URI that is made of it has the scheme wss or ws, an address of the answer
-- that is of version 4 or 6, the port of the answer and a path that begins with a slash, and is shorter than the
-- buffer; the name of the server is shorter than 64 characters.
pub build_uri-IsEndpoint :
    (result : MdnsResult) (uri_len : ℕ) (uri name : List ℕ)
    → build_uri_from_result result uri_len ≡ some (uri, name)
    → IsEndpoint result uri_len uri name
unfolding build_uri_from_result IsEndpoint
build_uri-IsEndpoint result uri_len uri name =
    let meta = apply_txt_metadata result.txt service_metadata_init in
    let valid =
      apply_txt_metadata-IsMetadata result.txt service_metadata_init
        service_metadata_init-IsMetadata in
    choose (λ o. o ≡ some (uri, name) → IsEndpoint result uri_len uri name)
      (bytes_eq meta.proto (codes "wss") || bytes_eq meta.proto (codes "ws"))
      (λ supported.
        choose_option (λ o. o ≡ some (uri, name) → IsEndpoint result uri_len uri name)
          (first_fitting meta result.port uri_len result.addr) (λ _ missing. ground arith)
          (λ fitting found same.
            let same_uri : fitting ≡ uri = cc in
            let same_name : server_name meta result ≡ name = cc in
            (
              meta,
              supported_lem meta.proto supported,
              valid.is_path,
              first_fitting-IsFitting meta result.port uri_len result.addr uri
                  (found ∙ ap some same_uri),
              subst (λ (text : List ℕ). length text < 64) same_name
                  (length-server_name meta result),
            )))
      (λ _ missing. ground arith)

-- An endpoint that is found is not empty, and fits into the buffers.
pub build_uri-IsShort :
    (result : MdnsResult) (uri_len : ℕ) (uri name : List ℕ)
    → build_uri_from_result result uri_len ≡ some (uri, name)
    → (0 < length uri) × (length uri < uri_len) × (length name < 64)
unfolding IsEndpoint IsFitting
build_uri-IsShort result uri_len uri name built =
    let (meta, _, _, (_, host, _, _, same, short), short') =
      build_uri-IsEndpoint result uri_len uri name built in
    (
      omega (
        arith,
        ap length same,
        length-append meta.proto
            (codes "://" ++ (host ++ (b':' ∷ (decimal result.port ++ meta.path)))),
      ),
      short,
      short',
    )
