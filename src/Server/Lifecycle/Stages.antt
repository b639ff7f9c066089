-- ===== src/Server/Lifecycle/Stages.antt =====
-- Each stage of `ws_server_start` gives back what the earlier ones took, or goes on with all of it.
use n32r.Prelude.{
  if◌then◌else◌, ℕ, zero, suc, ◌≡◌, refl, ◌⊎◌, inl, inr, Bool-cases, Result-cases, Bool, true,
  false, not, some, none, List, Status, ok, err, EspErr, length, replicate, length-replicate, arith,
  no_mem,
}
use n32r.Server.Types.{Client}
use n32r.Server.Clients.{active_client_count, active_from, free_slot}
use n32r.Server.State.{Config, Server}
use n32r.Server.Lifecycle.{
  Grants, start_https, start_timer, start_lock, start_buffer, start_clients, start_cache,
  or_default, unused,
}

-- No resource is held.
pub record Stopped (server : Server) : Type 0 where
  pub not_started : server.started ≡ false
  pub no_timer : server.has_timer ≡ false
  pub no_lock : server.has_lock ≡ false
  pub no_buffer : server.has_rx_buffer ≡ false
  pub no_clients : server.clients ≡ none
  pub no_cache : server.nonce_cache ≡ none

-- With the handshake there is a cache of so many unused entries, and without it none.
abbrev pub HasCache : Bool → ℕ → Server → Type 0
HasCache handshake nonces server =
    (handshake ≡ true
      → (server.nonce_cache ≡ some (replicate nonces unused)) × (server.nonce_capacity ≡ nonces))
    × (handshake ≡ false → server.nonce_cache ≡ none)

-- All resources are held: the table has so many places and no client.
pub record Running (handshake : Bool) (places nonces : ℕ) (server : Server) : Type 0 where
  pub started : server.started ≡ true
  pub timer : server.has_timer ≡ true
  pub lock : server.has_lock ≡ true
  pub buffer : server.has_rx_buffer ≡ true
  pub table : List Client
  pub clients : server.clients ≡ some table
  pub capacity : length table ≡ places
  pub counted : server.client_capacity ≡ places
  pub idle : active_client_count server.clients ≡ 0
  pub cache : HasCache handshake nonces server

abbrev pub Settled : Bool → ℕ → ℕ → Status × Server → Type 0
Settled handshake places nonces (status, server) =
    ((e : EspErr) × (status ≡ err e) × Stopped server)
    ⊎ ((status ≡ ok tt) × Running handshake places nonces server)

-- The entries of the cache for a configuration with its defaults.
abbrev pub cache_entries : Config → ℕ
cache_entries cfg = or_default cfg.handshake_cache_size 16

-- Settled, by the settings that a stage finds.
abbrev pub SettledFrom : Server → Status × Server → Type 0
SettledFrom server =
    Settled server.security.handshake_enabled server.cfg.max_clients (cache_entries server.cfg)

pub choose :
    (P : Status × Server → Type 0) (test : Bool) {x y : Status × Server}
    → (test ≡ true → P x)
    → (test ≡ false → P y)
    → P (if test then x else y)
choose P true f g = f refl
choose P false f g = g refl

idle_table : (pass : Bool) (n : ℕ) → active_from (replicate n (free_slot pass)) ≡ 0
unfolding active_from free_slot
idle_table pass zero = refl
idle_table pass (suc n) = idle_table pass n

module _ (grants : Grants) (has_cb : Bool) where
  -- The table that the stages after the client table find.
  record Tabled (server : Server) : Type 0 where
    table : List Client
    clients : server.clients ≡ some table
    capacity : length table ≡ server.cfg.max_clients
    counted : server.client_capacity ≡ server.cfg.max_clients
    idle : active_client_count server.clients ≡ 0
    cache : HasCache server.security.handshake_enabled (cache_entries server.cfg) server
    off : server.started ≡ false

  https-Settled :
      (server : Server)
      → Tabled server
      → server.has_timer ≡ true
      → server.has_lock ≡ true
      → server.has_rx_buffer ≡ true
      → SettledFrom server (start_https grants has_cb server)
  unfolding start_https
  https-Settled server d t l b = elim (Result-cases grants.https) [
    | inl (_, e) ↦
        simp (e, start_https)
          (inr (
            refl,
            record {
              started = refl;
              timer = t;
              lock = l;
              buffer = b;
              table = d.table;
              clients = d.clients;
              capacity = d.capacity;
              counted = d.counted;
              cache = d.cache;
              idle = d.idle;
            },
          ))
    | inr (code, e) ↦
        simp (e, start_https)
          (inl (
            code,
            refl,
            record {
              not_started = d.off;
              no_timer = refl;
              no_lock = refl;
              no_buffer = refl;
              no_clients = refl;
              no_cache = refl;
            },
          ))
  ]

  timer-Settled :
      (server : Server)
      → Tabled server
      → server.has_lock ≡ true
      → server.has_rx_buffer ≡ true
      → SettledFrom server (start_timer grants has_cb server)
  unfolding start_timer
  timer-Settled server d l b = elim (Bool-cases grants.timer) [
    | inl granted ↦
        simp (granted, start_timer)
          (https-Settled (record server { has_timer = true })
            (record {
              table = d.table;
              clients = d.clients;
              capacity = d.capacity;
              counted = d.counted;
              cache = d.cache;
              idle = d.idle;
              off = d.off;
            })
            refl l b)
    | inr refused ↦
        simp (refused, start_timer)
          (inl (
            _,
            refl,
            record {
              not_started = d.off;
              no_timer = refl;
              no_lock = refl;
              no_buffer = refl;
              no_clients = refl;
              no_cache = refl;
            },
          ))
  ]

  lock-Settled :
      (server : Server)
      → Tabled server
      → server.has_timer ≡ false
      → server.has_rx_buffer ≡ true
      → SettledFrom server (start_lock grants has_cb server)
  unfolding start_lock
  lock-Settled server d t b = elim (Bool-cases grants.lock) [
    | inl granted ↦
        simp (granted, start_lock)
          (timer-Settled (record server { has_lock = true })
            (record {
              table = d.table;
              clients = d.clients;
              capacity = d.capacity;
              counted = d.counted;
              cache = d.cache;
              idle = d.idle;
              off = d.off;
            })
            refl b)
    | inr refused ↦
        simp (refused, start_lock)
          (inl (
            _,
            refl,
            record {
              not_started = d.off;
              no_timer = t;
              no_lock = refl;
              no_buffer = refl;
              no_clients = refl;
              no_cache = refl;
            },
          ))
  ]

  buffer-Settled :
      (server : Server)
      → Tabled server
      → server.has_timer ≡ false
      → server.has_lock ≡ false
      → SettledFrom server (start_buffer grants has_cb server)
  unfolding start_buffer
  buffer-Settled server d t l = elim (Bool-cases grants.rx_buffer) [
    | inl granted ↦
        simp (granted, start_buffer)
          (lock-Settled (record server { has_rx_buffer = true })
            (record {
              table = d.table;
              clients = d.clients;
              capacity = d.capacity;
              counted = d.counted;
              cache = d.cache;
              idle = d.idle;
              off = d.off;
            })
            t refl)
    | inr refused ↦
        simp (refused, start_buffer)
          (inl (
            _,
            refl,
            record {
              not_started = d.off;
              no_timer = t;
              no_lock = l;
              no_buffer = refl;
              no_clients = refl;
              no_cache = refl;
            },
          ))
  ]

  -- Whatever the first stages have put into the cache.
  clients-Settled :
      (server : Server)
      → server.started ≡ false
      → server.has_timer ≡ false
      → server.has_lock ≡ false
      → server.has_rx_buffer ≡ false
      → HasCache server.security.handshake_enabled (cache_entries server.cfg) server
      → SettledFrom server (start_clients grants has_cb server)
  unfolding start_clients active_client_count
  clients-Settled server off t l b cached = elim (Bool-cases grants.clients) [
    | inl granted ↦
        let n = server.cfg.max_clients in
        let pass = not server.security.handshake_enabled in
        simp (granted, start_clients)
          (buffer-Settled
            (record server { client_capacity = n; clients = some (replicate n (free_slot pass)) })
            (record {
              table = replicate n (free_slot pass);
              clients = refl;
              capacity = length-replicate n (free_slot pass);
              counted = refl;
              cache = cached;
              idle = idle_table pass n;
              off = off;
            })
            t l)
    | inr refused ↦
        simp (refused, start_clients)
          (inl (
            _,
            refl,
            record {
              not_started = off;
              no_timer = t;
              no_lock = l;
              no_buffer = b;
              no_clients = refl;
              no_cache = refl;
            },
          ))
  ]

  pub cache-Settled :
      (server : Server) → Stopped server → SettledFrom server (start_cache grants has_cb server)
  unfolding start_cache
  cache-Settled server s =
      let n = cache_entries server.cfg in
      choose (SettledFrom server) (not server.security.handshake_enabled)
        (λ off.
          clients-Settled (record server { nonce_cache = none; nonce_capacity = 0 }) s.not_started
            s.no_timer s.no_lock s.no_buffer (λ on. ground arith, λ _. refl))
        (λ on.
          choose (SettledFrom server) (not grants.nonce_cache)
            (λ refused. inl (
              no_mem,
              refl,
              record {
                not_started = s.not_started;
                no_timer = s.no_timer;
                no_lock = s.no_lock;
                no_buffer = s.no_buffer;
                no_clients = s.no_clients;
                no_cache = refl;
              },
            ))
            (λ granted.
              clients-Settled
                (record server { nonce_capacity = n; nonce_cache = some (replicate n unused) })
                s.not_started s.no_timer s.no_lock s.no_buffer
                (λ _. (refl, refl), λ off. ground arith)))
