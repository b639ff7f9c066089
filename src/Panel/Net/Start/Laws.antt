-- ===== src/Panel/Net/Start/Laws.antt =====
-- What a start of the panel's link leaves behind, whatever the platform answers.
use n32r.Prelude.{
  List, Status, arith, choose, choose_option, err, inl, inr, invalid_state, length, ok, refl, true,
  ℕ, ◌&&◌, ◌<◌, ◌==◌, ◌||◌, ◌≡◌,
}
use mathlib.Core.Path.{subst}
use n32r.Crypto.{Crypto}
use n32r.Util.Base32
use n32r.Util.Base64
use n32r.Util.Base64.{Codec}
use n32r.Wifi
use n32r.Wifi.{Event}
use n32r.Wifi.Start.{Calls}
use n32r.WsClient.Lifecycle.{Grants}
use n32r.WsClient.Lifecycle.Laws.{Stopped, Running, ws_client_start-Settled}
use n32r.Panel.Net.Start.{
  Options, Surroundings, Outcome, returned, Left, Secrets, secrets, read_secrets, optional_secret,
  client_config, connect, report, with_endpoint, with_network, hmi_ws_client_start, undecoded,
  missing, aborted, unfinished, choose_endpoint, ensure_wifi_ready, Network,
}

-- The secrets that the options ask for are there.
pub record IsSecured (b : Codec) (options : Options) : Type 0 where
  pub crypto_secret : List ℕ
  pub totp_secret : List ℕ
  pub read : read_secrets b options ≡ secrets crypto_secret totp_secret
  pub has_crypto :
      options.ws_enable_encryption || options.ws_enable_handshake ≡ true → 0 < length crypto_secret
  pub has_totp : options.ws_enable_totp ≡ true → 0 < length totp_secret

-- The client holds nothing, or the start has succeeded with the network ready and the secrets there.
pub data IsStarted (b : Codec) (options : Options) : Outcome × Left → Type 0 where
  stopped :
      {outcome : Outcome} {left : Left} → Stopped left.client → IsStarted b options (outcome, left)
  started :
      {left : Left}
      → Running left.client
      → left.network.s_wifi_ready ≡ true
      → IsSecured b options
      → IsStarted b options (returned (ok tt), left)

read_secrets-IsSecured :
    (b : Codec) (options : Options) (crypto_secret totp_secret : List ℕ)
    → read_secrets b options ≡ secrets crypto_secret totp_secret
    → (options.ws_enable_encryption || options.ws_enable_handshake ≡ true
        → 0 < length crypto_secret)
      × (options.ws_enable_totp ≡ true → 0 < length totp_secret)
unfolding read_secrets
read_secrets-IsSecured b options crypto_secret totp_secret =
    let Here : Secrets → Type 0 = λ read.
      read ≡ secrets crypto_secret totp_secret
      → (options.ws_enable_encryption || options.ws_enable_handshake ≡ true
          → 0 < length crypto_secret)
        × (options.ws_enable_totp ≡ true → 0 < length totp_secret) in
    choose_option Here (optional_secret (Base64.decode b) options.ws_crypto_secret_base64)
      (λ _ absent. ground arith)
      (λ first _.
        choose Here
          ((options.ws_enable_encryption || options.ws_enable_handshake) && length first == 0)
          (λ _ absent. ground arith)
          (λ has_first.
            choose_option Here (optional_secret Base32.decode options.ws_totp_secret_base32)
              (λ _ absent. ground arith)
              (λ second _.
                choose Here (options.ws_enable_totp && length second == 0)
                  (λ _ absent. ground arith)
                  (λ has_second same.
                    let same_first : first ≡ crypto_secret = cc in
                    let same_second : second ≡ totp_secret = cc in
                    (
                      λ needed.
                          subst (λ (text : List ℕ). 0 < length text) same_first (ground arith),
                      λ needed.
                          subst (λ (text : List ℕ). 0 < length text) same_second (ground arith),
                    )))))

module _ (c : Crypto) (b : Codec) (grants : Grants) (nonce : List ℕ) (unix_time : ℕ)
    (around : Surroundings) (options : Options) where
  report-IsStarted :
      (status : Status) (left : Left)
      → Stopped left.client
      → IsStarted b options (report c b grants nonce unix_time around options status left)
  unfolding report
  report-IsStarted (ok _) left held = stopped held
  report-IsStarted (err invalid_state) left held = stopped held
  report-IsStarted (err e) left held = stopped held

  connect-IsStarted :
      (crypto_secret totp_secret uri tls_name : List ℕ) (left : Left)
      → Stopped left.client
      → left.network.s_wifi_ready ≡ true
      → IsSecured b options
      → IsStarted b options (
          connect c b grants nonce unix_time around options crypto_secret totp_secret uri tls_name
            left)
  unfolding connect client_config report
  connect-IsStarted crypto_secret totp_secret uri tls_name left held ready secured =
      elim (ws_client_start-Settled grants (client_config options crypto_secret totp_secret) true c
        b nonce unix_time left.client (omega arith) (omega arith) held) [
          | inl (e, failed, held') ↦ report-IsStarted _ _ held'
          | inr (succeeded, running) ↦ simp (succeeded, report) (started running ready secured)
        ]

  with_endpoint-IsStarted :
      (uri tls_name : List ℕ) (left : Left)
      → Stopped left.client
      → left.network.s_wifi_ready ≡ true
      → IsStarted b options
          (with_endpoint c b grants nonce unix_time around options uri tls_name left)
  unfolding with_endpoint
  with_endpoint-IsStarted uri tls_name left held ready = go (read_secrets b options) refl
    where
      go :
          (read : Secrets)
          → read_secrets b options ≡ read
          → IsStarted b options (elim read [
            | undecoded ↦ (aborted, left)
            | missing ↦ (returned (err invalid_state), left)
            | secrets crypto_secret totp_secret ↦
                connect c b grants nonce unix_time around options crypto_secret totp_secret uri
                  tls_name left
          ])
      go undecoded same = stopped held
      go missing same = stopped held
      go (secrets crypto_secret totp_secret) same =
          let (has_crypto, has_totp) =
            read_secrets-IsSecured b options crypto_secret totp_secret same in
          connect-IsStarted crypto_secret totp_secret uri tls_name left held ready (record {
            crypto_secret = crypto_secret;
            totp_secret = totp_secret;
            read = same;
            has_crypto = has_crypto;
            has_totp = has_totp;
          })

  with_network-IsStarted :
      (left : Left)
      → Stopped left.client
      → left.network.s_wifi_ready ≡ true
      → IsStarted b options (with_network c b grants nonce unix_time around options left)
  unfolding with_network
  with_network-IsStarted left held ready =
      choose_option (IsStarted b options) (choose_endpoint around options left.store)
        (λ _. stopped held)
        (λ (uri, (tls_name, store')) _.
          with_endpoint-IsStarted uri tls_name (record left { store = store' }) held ready)

-- Where the network is reported as ready, the flag is set.
ensure_wifi_ready-flag :
    (b : Codec) (calls : Calls) (events : List (List Event)) (options : Options) (network : Network)
    (wifi : Wifi.State)
    → (ensure_wifi_ready b calls events options network wifi).0 ≡ returned (ok tt)
    → (ensure_wifi_ready b calls events options network wifi).1.0.s_wifi_ready ≡ true
unfolding ensure_wifi_ready
ensure_wifi_ready-flag b calls events options network wifi = ground arith

-- From a client that holds nothing, whatever the network, the search, the flash memory and the connection answer: a
-- start leaves the client as one that holds nothing, or it returns success, and then the client runs, the network
-- is marked as ready, and the secrets are there that encryption, the handshake and the one-time password need.
pub hmi_ws_client_start-IsStarted :
    (c : Crypto) (b : Codec) (grants : Grants) (nonce : List ℕ) (unix_time : ℕ)
    (around : Surroundings) (options : Options) (calls : Calls) (events : List (List Event))
    (left : Left)
    → Stopped left.client
    → IsStarted b options
        (hmi_ws_client_start c b grants nonce unix_time around options calls events left)
unfolding hmi_ws_client_start
hmi_ws_client_start-IsStarted c b grants nonce unix_time around options calls events left held =
    let network' = (ensure_wifi_ready b calls events options left.network left.wifi).1.0 in
    let wifi' = (ensure_wifi_ready b calls events options left.network left.wifi).1.1.0 in
    go (ensure_wifi_ready b calls events options left.network left.wifi).0
      (record left { network = network'; wifi = wifi'; s_next_command_seq = 0 })
      (ensure_wifi_ready-flag b calls events options left.network left.wifi) held
  where
    go :
        (outcome : Outcome) (left' : Left)
        → (outcome ≡ returned (ok tt) → left'.network.s_wifi_ready ≡ true)
        → Stopped left'.client
        → IsStarted b options (elim outcome [
          | returned (ok _) ↦ with_network c b grants nonce unix_time around options left'
          | returned (err e) ↦ (returned (err e), left')
          | unfinished ↦ (unfinished, left')
          | aborted ↦ (aborted, left')
        ])
    go (returned (ok _)) left' flag held' =
        with_network-IsStarted c b grants nonce unix_time around options left' held' (flag refl)
    go (returned (err e)) left' flag held' = stopped held'
    go unfinished left' flag held' = stopped held'
    go aborted left' flag held' = stopped held'
