-- ===== src/Server/Nonces/Tests.antt =====
-- Tests of the nonce cache.
use n32r.Prelude.{◌≡◌, refl, List, [], ◌∷◌, true, set, ◌^◌, ◌-◌}
use n32r.Server.Types.{NonceEntry}
use n32r.Server.Nonces.{nonce_store, find_slot}
use n32r.Server.Nonces.Laws.{stored}

-- Two entries in use; the clock has wrapped since the first.
abbrev cache : List NonceEntry
cache =
    record { valid = true; timestamp = 2 ^ 32 - 5; nonce = 1 ∷ [] }
    ∷ (record { valid = true; timestamp = 3; nonce = 2 ∷ [] } ∷ [])

oldest_goes : nonce_store (9 ∷ []) 10 cache ≡ set cache 0 (stored (9 ∷ []) 10)
unfolding nonce_store find_slot
oldest_goes = refl
