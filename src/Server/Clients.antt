-- ===== src/Server/Clients.antt =====
-- The client table of ws_server.c. `none` is a table that is not allocated; a table's length is its
-- capacity.
pub mod Laws
use n32r.Prelude.{
  ℕ, suc, ◌+◌, Bool, true, false, not, Option, none, some, List, [], ◌∷◌, map, if◌then◌else◌,
  esp_fail, invalid_state, Status, ok, err,
}
use n32r.Server.Types.{Client, fd_eq}

abbrev pub Table : Type 0
Table = Option (List Client)

abbrev pub is_free : Client → Bool
is_free client = elim client.fd [ none ↦ true | some fd ↦ false ]

-- A slot without a client; the argument says that no handshake is required.
unfoldable pub free_slot : Bool → Client
free_slot unverified = record {
  fd = none;
  last_seen = 0;
  awaiting_pong = false;
  handshake_verified = unverified;
  last_counter = 0;
}

-- The first entry with the descriptor.
unfoldable pub find_client : Option ℕ → List Client → Option Client
find_client fd [] = none
find_client fd (client ∷ clients) =
    if fd_eq client.fd fd then some client else find_client fd clients

-- A write through the pointer that `find_client` returns.
unfoldable pub update_client : Option ℕ → (Client → Client) → List Client → List Client
update_client fd f [] = []
update_client fd f (client ∷ clients) =
    if fd_eq client.fd fd then f client ∷ clients else client ∷ update_client fd f clients

module _ (handshake_enabled : Bool) where
  unfoldable pub drop_client_locked : Option ℕ → List Client → List Client
  unfolding free_slot
  drop_client_locked fd [] = []
  drop_client_locked fd (client ∷ clients) =
      if fd_eq client.fd fd
      then free_slot (not handshake_enabled) ∷ clients
      else client ∷ drop_client_locked fd clients

  unfoldable pub drop_client : Option ℕ → Table → Table
  unfolding drop_client_locked
  drop_client fd none = none
  drop_client fd (some clients) = some (drop_client_locked fd clients)

  -- The loop of `add_client`: the table with the client in its first free slot.
  unfoldable pub occupy : Option ℕ → ℕ → List Client → Option (List Client)
  occupy fd now [] = none
  occupy fd now (client ∷ clients) =
      if is_free client
      then some (
          record {
            fd = fd;
            last_seen = now;
            awaiting_pong = false;
            handshake_verified = not handshake_enabled;
            last_counter = 0;
          }
          ∷ clients)
      else (elim (occupy fd now clients) [ none ↦ none | some clients' ↦ some (client ∷ clients') ])

  unfoldable pub add_client : Option ℕ → ℕ → Table → Status × Table
  unfolding occupy
  add_client fd now none = (err invalid_state, none)
  add_client fd now (some clients) = elim (occupy fd now clients) [
    | none ↦ (err esp_fail, some clients)
    | some clients' ↦ (ok tt, some clients')
  ]

  unfoldable pub clear_clients_for_test : Table → Table
  unfolding free_slot
  clear_clients_for_test none = none
  clear_clients_for_test (some clients) =
      some (map (λ client. free_slot (not handshake_enabled)) clients)

unfoldable pub mark_client_verified : Option ℕ → Table → Table
unfolding update_client
mark_client_verified fd none = none
mark_client_verified fd (some clients) = some (
    update_client fd (λ client. record client { handshake_verified = true; last_counter = 0 })
      clients)

unfoldable pub active_from : List Client → ℕ
active_from [] = 0
active_from (client ∷ clients) =
    let rest = active_from clients in if is_free client then rest else rest + 1

unfoldable pub active_client_count : Table → ℕ
unfolding active_from
active_client_count none = 0
active_client_count (some clients) = active_from clients
