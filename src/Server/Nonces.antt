-- ===== src/Server/Nonces.antt =====
-- The cache of handshake nonces of ws_server.c. No cache is the empty one.
pub mod Laws
mod Tests
use n32r.Prelude.{
  ℕ, ◌+◌, ◌<◌, Bool, true, false, not, ◌&&◌, ◌||◌, Option, none, some, List, [], ◌∷◌, set, ltb,
  if◌then◌else◌,
}
use n32r.Prelude.Words.{sub32}
use n32r.Prelude.Bytes.{bytes_eq}
use n32r.Server.Types.{NonceEntry}

-- An entry that has outlived the replay window.
unfoldable pub is_expired : ℕ → ℕ → NonceEntry → Bool
is_expired ttl now entry = ltb 0 ttl && ltb ttl (sub32 now entry.timestamp)

-- Whether the nonce is known, and the cache without the expired entries that the search has met.
unfoldable pub nonce_is_duplicate : ℕ → List ℕ → ℕ → List NonceEntry → Bool × List NonceEntry
nonce_is_duplicate ttl nonce now [] = (false, [])
nonce_is_duplicate ttl nonce now (entry ∷ cache) =
    let (found, cache') = nonce_is_duplicate ttl nonce now cache in
    if not entry.valid
    then (found, entry ∷ cache')
    else (if is_expired ttl now entry
        then (found, record entry { valid = false } ∷ cache')
        else (if bytes_eq entry.nonce nonce
            then (true, entry ∷ cache)
            else (found, entry ∷ cache')))

-- The slot to overwrite, from index `i` on: a free one, or the oldest met so far.
unfoldable pub find_slot : ℕ → List NonceEntry → ℕ → Option ℕ → ℕ → Option ℕ
find_slot now [] i slot oldest_age = slot
find_slot now (entry ∷ cache) i slot oldest_age =
    let age = sub32 now entry.timestamp in
    let older : Bool = elim slot [ none ↦ true | some s ↦ ltb oldest_age age ] in
    let rest =
      find_slot now cache (i + 1) (if older then some i else slot)
        (if older then age else oldest_age) in
    if not entry.valid then some i else rest

unfoldable pub nonce_store : List ℕ → ℕ → List NonceEntry → List NonceEntry
nonce_store nonce now [] = []
nonce_store nonce now (entry ∷ cache) =
    set (entry ∷ cache)
      (elim (find_slot now (entry ∷ cache) 0 none 0) [ none ↦ 0 | some slot ↦ slot ])
      (record { valid = true; timestamp = now; nonce = nonce })
