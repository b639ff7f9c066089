-- ===== src/Server/Clients/Laws.antt =====
-- The client table as a bounded set of connections.
use n32r.Prelude.{
  ℕ, suc, ◌+◌, ◌≤◌, ◌<◌, ◌≡◌, ◌≢◌, refl, ap, ◌⊎◌, inl, inr, Bool, true, false, not, Option, none,
  some, List, [], ◌∷◌, arith, length, esp_fail, ok, err, Bool-cases, Option-cases,
}
use native.Mathlib.Decide.{dec_lt}
use n32r.Server.Types.{Client, fd_eq}
use n32r.Server.Clients.{is_free, find_client, drop_client_locked, occupy, add_client, active_from}

pub fd_eq_refl : (fd : Option ℕ) → fd_eq fd fd ≡ true
unfolding fd_eq
fd_eq_refl none = refl
fd_eq_refl (some n) = ground arith

pub fd_eq→≡ : (a b : Option ℕ) → fd_eq a b ≡ true → a ≡ b
unfolding fd_eq
fd_eq→≡ none none h = refl
fd_eq→≡ none (some b) h = cc
fd_eq→≡ (some a) none h = cc
fd_eq→≡ (some a) (some b) h = ground arith

pub active-le : (clients : List Client) → active_from clients ≤ length clients
unfolding active_from
active-le [] = omega arith
active-le (client ∷ clients) = ground (arith, active-le clients)

-- The entry of a client that has just been registered.
abbrev pub fresh : Bool → Option ℕ → ℕ → Client
fresh handshake_enabled fd now = record {
  fd = fd;
  last_seen = now;
  awaiting_pong = false;
  handshake_verified = not handshake_enabled;
  last_counter = 0;
}

module _ (hs : Bool) (fd now : ℕ) where
  occupy_free :
      (clients : List Client)
      → active_from clients < length clients
      → (clients' : List Client) × (occupy hs (some fd) now clients ≡ some clients')
        × (active_from clients' ≡ active_from clients + 1)
        × (length clients' ≡ length clients)
  unfolding occupy active_from
  occupy_free [] h = elim h [ ]
  occupy_free (client ∷ clients) h = elim (Bool-cases (is_free client)) [
    | inl free ↦ (fresh hs (some fd) now ∷ clients, ground arith, ground arith, refl)
    | inr busy ↦
        let (rest, e, n, l) = occupy_free clients (ground arith) in
        (client ∷ rest, ground arith, ground arith, ap suc l)
  ]

  occupy_full :
      (clients : List Client)
      → active_from clients ≡ length clients
      → occupy hs (some fd) now clients ≡ none
  unfolding occupy active_from
  occupy_full [] h = refl
  occupy_full (client ∷ clients) h = ground (arith, occupy_full clients, active-le clients)

  -- `add_client` registers a descriptor exactly if fewer than the capacity are registered: then one
  -- more is, and otherwise it reports the failure and leaves the table alone. The capacity never
  -- changes.
  pub add_client_lem :
      (clients : List Client)
      → ((active_from clients < length clients)
          × (clients' : List Client) × (add_client hs (some fd) now (some clients)
              ≡ (ok tt, some clients'))
          × (active_from clients' ≡ active_from clients + 1)
          × (length clients' ≡ length clients))
        ⊎ ((active_from clients ≡ length clients)
            × (add_client hs (some fd) now (some clients) ≡ (err esp_fail, some clients)))
  unfolding add_client
  add_client_lem clients = elim (dec_lt (active_from clients) (length clients)) [
    | yes room ↦
        let (rest, e, n, l) = occupy_free clients room in inl (room, rest, rw (e, add_client), n, l)
    | no full ↦
        let n : active_from clients ≡ length clients = omega (arith, active-le clients) in
        inr (n, rw (occupy_full clients n, add_client))
  ]

module _ (hs : Bool) (fd : ℕ) where
  -- `drop_client_locked` frees one slot of the descriptor, if it is registered at all.
  pub drop_client_lem :
      (clients : List Client)
      → (length (drop_client_locked hs (some fd) clients) ≡ length clients)
        × (((find_client (some fd) clients ≡ none)
              × (drop_client_locked hs (some fd) clients ≡ clients))
            ⊎ ((client : Client) × (find_client (some fd) clients ≡ some client)
                × (active_from (drop_client_locked hs (some fd) clients) + 1
                    ≡ active_from clients)))
  unfolding drop_client_locked find_client active_from
  drop_client_lem [] = (refl, inl (refl, refl))
  drop_client_lem (client ∷ clients) = elim (Bool-cases (fd_eq client.fd (some fd))) [
    | inl hit ↦
        let e : client.fd ≡ some fd = fd_eq→≡ client.fd (some fd) hit in
        (ground arith, inr (client, ground arith, ground arith))
    | inr miss ↦
        let (l, rest) = drop_client_lem clients in
        (
          ground arith,
          elim rest [
            | inl (a, b) ↦ inl (ground arith, ground arith)
            | inr (x, a, b) ↦ inr (x, ground arith, ground arith)
          ],
        )
  ]

  -- Whoever has another descriptor is found as before.
  pub find-drop_ne :
      (other : ℕ) (clients : List Client)
      → other ≢ fd
      → find_client (some other) (drop_client_locked hs (some fd) clients)
        ≡ find_client (some other) clients
  unfolding drop_client_locked find_client fd_eq
  find-drop_ne other [] ne = refl
  find-drop_ne other (client ∷ clients) ne = elim (Option-cases client.fd) [
    | inl e ↦ ground (arith, find-drop_ne other clients ne)
    | inr (n, e) ↦ ground (arith, find-drop_ne other clients ne)
  ]
