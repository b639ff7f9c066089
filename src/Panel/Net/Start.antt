-- ===== src/Panel/Net/Start.antt =====
-- hmi_node/main/net/ws_client.c, `hmi_ws_client_start`: the network, the search, the secrets and the connection. The
-- options of the build are an argument, and so is what the platform answers. The certificate is not modelled.
pub mod Laws
mod Tests
use n32r.Prelude.{
  All, Bool, Bool-cases, EspErr, List, Option, Option-cases, Result, Result-cases, Status, [], ap,
  append-nil, append_assoc, ap₂, arith, bit_and, bit_or, bit_xor, choose, choose_option, drop, err,
  esp_fail, false, get_elem?, get_elem?-set_ne, get_elem?-set_self, get_or, guard, if◌then◌else◌,
  inl, inr, invalid_arg, invalid_crc, invalid_response, invalid_size, invalid_state,
  invalid_version, leb, length, length-append, length-drop, length-map, length-replicate,
  length-set, length-take, ltb, ltb→lt, lt→ltb, map, min, no_mem, none, not, not_found,
  not_supported, ok, ota_validate_failed, refl, replicate, set, some, suc, sym, take,
  take-append-drop, tests, timeout, true, zero, ℕ, ◌%◌, ◌&&◌, ◌*◌, ◌++◌, ◌+◌, ◌-◌, ◌/◌, ◌<◌, ◌==◌,
  ◌>>=◌, ◌>>◌, ◌^◌, ◌||◌, ◌↔◌, ◌∙◌, ◌∷◌, ◌≡◌, ◌≢◌, ◌≤◌, ◌⊎◌,
}
use n32r.Util.Base32
use n32r.Util.Base64
use n32r.Util.Base64.{Codec}
use n32r.Wifi
use n32r.Wifi.{Event, Action}
use n32r.Wifi.Start.{Calls, Ending, wifi_manager_start}
use n32r.WsClient
use n32r.WsClient.State as ClientState
use n32r.WsClient.State.{Config}
use n32r.WsClient.Lifecycle.{Grants, ws_client_start}
use n32r.Panel.Net.Discovery.{strlcpy}
use n32r.Proto.Printf.{decimal}
use n32r.Panel.Net.Cache
use n32r.Panel.Net.Cache.{Store, Round, discover_service, invalidate_cached_service}
use n32r.Prelude.Bytes.{codes}
use n32r.Crypto.{Crypto}

-- The options CONFIG_HMI_* that are read.
pub record Options : Type 0 where
  pub prov_sec2_salt_base64 : List ℕ
  pub prov_sec2_verifier_base64 : List ℕ
  pub prov_sec2_username : List ℕ
  pub prov_prefer_ble : Bool
  pub prov_max_attempts : ℕ
  pub discovery_timeout_ms : ℕ
  pub discovery_cache_ttl_minutes : ℕ
  pub sensor_hostname : List ℕ
  pub sensor_port : ℕ
  pub ws_tls_sni_override : List ℕ
  pub ws_crypto_secret_base64 : List ℕ
  pub ws_totp_secret_base32 : List ℕ
  pub ws_enable_encryption : Bool
  pub ws_enable_handshake : Bool
  pub ws_enable_totp : Bool
  pub ws_auth_token : List ℕ
  pub ws_totp_period_s : ℕ
  pub ws_totp_digits : ℕ
  pub ws_totp_window : ℕ

-- The static variables of the network: the decoded parameters, where they are loaded, and the flag.
pub record Network : Type 0 where
  pub sec2_params : Option (List ℕ × List ℕ)
  pub s_wifi_ready : Bool

-- The answers of the platform to the search and to the flash library.
pub record Surroundings : Type 0 where
  pub granted : Cache.Grants
  pub load_opened : Bool
  pub erase_opened : Bool
  pub now : ℕ
  pub rounds : List Round

-- What a start comes to: it still waits, the device stops in ESP_ERROR_CHECK, or a status is returned.
pub data Outcome : Type 0 where
  unfinished aborted : Outcome
  returned : Status → Outcome

unfoldable pub ensure_sec2_params : Codec → Options → Network → Result (List ℕ × List ℕ)
ensure_sec2_params b options network = elim network.sec2_params [
  | some loaded ↦ ok loaded
  | none ↦ do
    salt ← Base64.decode b options.prov_sec2_salt_base64 32
    verifier ← Base64.decode b options.prov_sec2_verifier_base64 384
    ok (salt, verifier)
]

unfoldable pub wifi_config : Options → List ℕ → List ℕ → Wifi.Config
wifi_config options salt verifier = record {
  salt = salt;
  verifier = verifier;
  sec2_username = options.prov_sec2_username;
  prefer_ble = options.prov_prefer_ble;
  force_provisioning = false;
  max_connect_attempts = options.prov_max_attempts;
}

-- `ESP_OK` or `ESP_ERR_INVALID_STATE`
abbrev pub is_ready : Status → Bool
is_ready (ok _) = true
is_ready (err invalid_state) = true
is_ready (err e) = false

-- The outcome, the static variables, and what `wifi_manager_start` leaves.
unfoldable pub ensure_wifi_ready :
    Codec
    → Calls
    → List (List Event)
    → Options
    → Network
    → Wifi.State
    → Outcome × (Network × (Wifi.State × List Action))
ensure_wifi_ready b calls events options network wifi =
    if network.s_wifi_ready
    then (returned (ok tt), (network, (wifi, [])))
    else (elim (ensure_sec2_params b options network) [
      | err e ↦ (returned (err e), (network, (wifi, [])))
      | ok (salt, verifier) ↦
          let loaded : Network = record network { sec2_params = some (salt, verifier) } in
          let (ending, left) =
            wifi_manager_start calls (wifi_config options salt verifier) events wifi in
          elim ending [
            | Ending.waits ↦ (unfinished, (loaded, left))
            | Ending.aborted ↦ (aborted, (loaded, left))
            | Ending.returned status ↦
                if is_ready status
                then (returned (ok tt), (record loaded { s_wifi_ready = true }, left))
                else (returned status, (loaded, left))
          ]
    ])

-- An empty text stands for a null pointer.
unfoldable pub select_tls_server_name : Options → List ℕ → List ℕ → List ℕ
select_tls_server_name options server_name fallback_host =
    if ltb 0 (length options.ws_tls_sni_override)
    then options.ws_tls_sni_override
    else (if ltb 0 (length server_name) then server_name else fallback_host)

-- The URI for a search that found nothing, in a buffer of 128 characters.
unfoldable pub fallback_uri : Options → List ℕ
fallback_uri options = strlcpy 128 (
    codes "wss://"
    ++ (options.sensor_hostname ++ (b':' ∷ (decimal options.sensor_port ++ codes "/ws"))))

-- The URI, the name for TLS, and the store.
unfoldable pub choose_endpoint : Surroundings → Options → Store → Option (List ℕ × (List ℕ × Store))
choose_endpoint around options store =
    elim (discover_service around.granted around.load_opened around.erase_opened
      options.discovery_cache_ttl_minutes options.discovery_timeout_ms around.now 128 around.rounds
      store) [
        | none ↦ none
        | some (found, (name, store')) ↦ some (elim found [
          | some uri ↦ (uri, (select_tls_server_name options name [], store'))
          | none ↦ (
            fallback_uri options,
            (
              select_tls_server_name options (strlcpy 64 options.sensor_hostname)
                  options.sensor_hostname,
              store',
            ),
          )
        ])
      ]

-- A secret of at most 64 bytes; an option that is empty gives none. A text that cannot be decoded ends in
-- ESP_ERROR_CHECK.
unfoldable pub optional_secret : (List ℕ → ℕ → Result (List ℕ)) → List ℕ → Option (List ℕ)
optional_secret decode [] = some []
optional_secret decode (c ∷ encoded) = elim (decode (c ∷ encoded) 64) [
  | ok secret ↦ some secret
  | err e ↦ none
]

pub data Secrets : Type 0 where
  undecoded missing : Secrets
  secrets : List ℕ → List ℕ → Secrets

unfoldable pub read_secrets : Codec → Options → Secrets
read_secrets b options = elim (optional_secret (Base64.decode b) options.ws_crypto_secret_base64) [
  | none ↦ undecoded
  | some crypto_secret ↦
      if (options.ws_enable_encryption || options.ws_enable_handshake) && length crypto_secret == 0
      then missing
      else (elim (optional_secret Base32.decode options.ws_totp_secret_base32) [
        | none ↦ undecoded
        | some totp_secret ↦
            if options.ws_enable_totp && length totp_secret == 0
            then missing
            else secrets crypto_secret totp_secret
      ])
]

unfoldable pub client_config : Options → List ℕ → List ℕ → Config
client_config options crypto_secret totp_secret = record {
  has_uri = true;
  auth_token = options.ws_auth_token;
  reconnect_min_delay_ms = 2000;
  reconnect_max_delay_ms = 60000;
  has_error_cb = true;
  crypto_secret = crypto_secret;
  enable_frame_encryption = options.ws_enable_encryption;
  enable_handshake_token = options.ws_enable_handshake;
  enable_totp = options.ws_enable_totp;
  totp_secret = totp_secret;
  totp_period_s = options.ws_totp_period_s;
  totp_digits = options.ws_totp_digits;
  totp_window = options.ws_totp_window;
  has_time_fn = false;
}

-- What a start changes. The settings of the transport are the URI and the name for TLS.
pub record Left : Type 0 where
  pub network : Network
  pub wifi : Wifi.State
  pub store : Store
  pub s_next_command_seq : ℕ
  pub settings : Option (List ℕ × List ℕ)
  pub client : ClientState.State

module _ (c : Crypto) (b : Codec) (grants : Grants) (nonce : List ℕ) (unix_time : ℕ)
    (around : Surroundings) (options : Options) where
  -- A client that runs already is no error; after any other one the endpoint is forgotten.
  unfoldable pub report : Status → Left → Outcome × Left
  report (ok _) left = (returned (ok tt), left)
  report (err invalid_state) left = (returned (ok tt), left)
  report (err e) left = (
    returned (err e),
    record left { store = invalidate_cached_service around.erase_opened left.store },
  )

  unfoldable pub connect : List ℕ → List ℕ → List ℕ → List ℕ → Left → Outcome × Left
  connect crypto_secret totp_secret uri tls_name left =
      let (status, client') =
        ws_client_start grants (client_config options crypto_secret totp_secret) true c b nonce
          unix_time left.client in
      report status (record left { settings = some (uri, tls_name); client = client' })

  unfoldable pub with_endpoint : List ℕ → List ℕ → Left → Outcome × Left
  with_endpoint uri tls_name left = elim (read_secrets b options) [
    | undecoded ↦ (aborted, left)
    | missing ↦ (returned (err invalid_state), left)
    | secrets crypto_secret totp_secret ↦ connect crypto_secret totp_secret uri tls_name left
  ]

  unfoldable pub with_network : Left → Outcome × Left
  with_network left = elim (choose_endpoint around options left.store) [
    | none ↦ (unfinished, left)
    | some (uri, (tls_name, store')) ↦ with_endpoint uri tls_name (record left { store = store' })
  ]

  unfoldable pub hmi_ws_client_start : Calls → List (List Event) → Left → Outcome × Left
  hmi_ws_client_start calls events left =
      let (outcome, (network', (wifi', _))) =
        ensure_wifi_ready b calls events options left.network left.wifi in
      let left' : Left = record left { network = network'; wifi = wifi'; s_next_command_seq = 0 } in
      elim outcome [
        | returned (ok _) ↦ with_network left'
        | returned (err e) ↦ (returned (err e), left')
        | unfinished ↦ (unfinished, left')
        | aborted ↦ (aborted, left')
      ]
