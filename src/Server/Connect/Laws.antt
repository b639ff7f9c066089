-- ===== src/Server/Connect/Laws.antt =====
-- Who gets a place in the client table.
use n32r.Prelude.{
  ℕ, ◌+◌, ◌≡◌, ◌<◌, refl, ◌∙◌, inl, inr, Bool-cases, Bool, true, false, Option, some, List, [], ◌∷◌,
  arith, Status, ok, err, esp_fail, length,
}
use n32r.Crypto.{Crypto}
use n32r.Util.Base64.{Codec}
use n32r.Server.Types.{Client, Action, NonceEntry, responded}
use n32r.Server.Clients.{
  active_from, update_client, mark_client_verified, add_client, active_client_count,
}
use n32r.Server.Clients.Laws.{add_client_lem}
use n32r.Server.Authorize.{Headers, authorize_request}
use n32r.Server.State.{Server}
use n32r.Server.Connect.{entries, with_entries, accept, connect}

active-update :
    (fd : Option ℕ) (clients : List Client)
    → active_from
        (update_client fd (λ c. record c { handshake_verified = true; last_counter = 0 }) clients)
      ≡ active_from clients
unfolding active_from update_client
active-update fd [] = refl
active-update fd (c ∷ clients) = ground (arith, active-update fd clients)

active-accept :
    (hs : Bool) (fd : Option ℕ) (clients : List Client)
    → active_client_count (accept hs fd (some clients)) ≡ active_from clients
unfolding active_client_count mark_client_verified
active-accept true fd clients = active-update fd clients
active-accept false fd clients = refl

module _ (c : Crypto) (b : Codec) (now unix_time : ℕ) (headers : Headers) (fd : ℕ)
    (server : Server) where
  -- What authorization says and what it leaves in the cache.
  abbrev pub authorized : Bool × List NonceEntry
  authorized =
      authorize_request c b server.security server.cfg.auth_token server.nonce_ttl_ticks now
        unix_time headers (entries server)

  -- The connection is accepted, refused for its headers, or refused for want of room.
  pub data Outcome (clients : List Client) : Status × (Server × List Action) → Type 0 where
    accepted :
        (server' : Server)
        → authorized.0 ≡ true
        → active_from clients < length clients
        → active_client_count server'.clients ≡ active_from clients + 1
        → Outcome clients (ok tt, (server', []))
    unauthorized :
        (server' : Server)
        → authorized.0 ≡ false
        → server'.clients ≡ some clients
        → Outcome clients (err esp_fail, (server', responded 401 ∷ []))
    full :
        (server' : Server)
        → authorized.0 ≡ true
        → active_from clients ≡ length clients
        → server'.clients ≡ some clients
        → Outcome clients (err esp_fail, (server', responded 503 ∷ []))

  refused_eq :
      authorized.0 ≡ false
      → connect c b now unix_time headers (some fd) server
        ≡ (err esp_fail, (with_entries authorized.1 server, responded 401 ∷ []))
  unfolding connect
  refused_eq no_pass = simp (no_pass, connect) refl

  full_eq :
      (clients : List Client)
      → server.clients ≡ some clients
      → authorized.0 ≡ true
      → add_client server.security.handshake_enabled (some fd) now (some clients)
        ≡ (err esp_fail, some clients)
      → connect c b now unix_time headers (some fd) server ≡ (
        err esp_fail,
        (record (with_entries authorized.1 server) { clients = some clients }, responded 503 ∷ []),
      )
  unfolding connect
  full_eq clients at pass e = simp (pass, at, e, connect) refl

  accepted_eq :
      (clients clients' : List Client)
      → server.clients ≡ some clients
      → authorized.0 ≡ true
      → add_client server.security.handshake_enabled (some fd) now (some clients)
        ≡ (ok tt, some clients')
      → connect c b now unix_time headers (some fd) server ≡ (
        ok tt,
        (
          record (with_entries authorized.1 server) {
            clients = accept server.security.handshake_enabled (some fd) (some clients');
          },
          [],
        ),
      )
  unfolding connect
  accepted_eq clients clients' at pass e = simp (pass, at, e, connect) refl

  -- With a client table and a valid descriptor, a GET gets a place in the table exactly if it is
  -- authorized and a slot is free; it then takes one slot. Otherwise it is answered with 401 or
  -- 503, and the table stays as it is.
  pub connect_lem :
      (clients : List Client)
      → server.clients ≡ some clients
      → Outcome clients (connect c b now unix_time headers (some fd) server)
  connect_lem clients at = elim (Bool-cases authorized.0) [
    | inr no_pass ↦ rw (refused_eq no_pass) (unauthorized _ no_pass at)
    | inl pass ↦ elim (add_client_lem server.security.handshake_enabled fd now clients) [
      | inl (room, clients', e, more, _) ↦ rw (accepted_eq clients clients' at pass e) (
          accepted _ pass room
            (active-accept server.security.handshake_enabled (some fd) clients' ∙ more))
      | inr (no_room, e) ↦ rw (full_eq clients at pass e) (full _ pass no_room refl)
    ]
  ]
