-- ===== src/Server/Nonces/Laws.antt =====
-- What the nonce cache remembers, and what it forgets.
use n32r.Prelude.{
  ℕ, zero, suc, ◌+◌, ◌≤◌, ◌<◌, ◌≡◌, refl, inl, inr, true, false, some, List, [], ◌∷◌, arith, length,
  get_elem?, Bool-cases, ◌⊎◌, set, length-set, get_elem?-set_self,
}
use native.Mathlib.Decide.{dec_lt}
use n32r.Prelude.Words.{sub32, u32_mod, add32, sub32-add32}
use n32r.Prelude.Bytes.{bytes_eq, bytes_eq_refl}
use n32r.Server.Types.{NonceEntry}
use n32r.Server.Nonces.{is_expired, nonce_is_duplicate, find_slot, nonce_store}

-- Slot `i` holds a live record of the nonce.
pub record Holds (ttl now : ℕ) (nonce : List ℕ) (cache : List NonceEntry) (i : ℕ)
    (entry : NonceEntry) : Type 0 where
  pub at : get_elem? cache i ≡ some entry
  pub valid : entry.valid ≡ true
  pub live : is_expired ttl now entry ≡ false
  pub same : entry.nonce ≡ nonce

module _ (ttl now : ℕ) (nonce : List ℕ) where
  duplicate_found :
      (cache : List NonceEntry) (i : ℕ) (entry : NonceEntry)
      → get_elem? cache i ≡ some entry
      → entry.valid ≡ true
      → is_expired ttl now entry ≡ false
      → bytes_eq entry.nonce nonce ≡ true
      → (nonce_is_duplicate ttl nonce now cache).0 ≡ true
  unfolding nonce_is_duplicate
  duplicate_found [] i entry at valid live same = cc at
  duplicate_found (e ∷ cache) zero entry at valid live same = ground arith
  duplicate_found (e ∷ cache) (suc i) entry at valid live same =
      ground (arith, duplicate_found cache i entry at valid live same)

  -- A live record is found.
  pub duplicate_of_Holds :
      (cache : List NonceEntry) (i : ℕ) {entry : NonceEntry}
      → Holds ttl now nonce cache i entry
      → (nonce_is_duplicate ttl nonce now cache).0 ≡ true
  duplicate_of_Holds cache i {entry} h =
      duplicate_found cache i entry h.at h.valid h.live (rw h.same (bytes_eq_refl nonce))

  -- A search of any nonce leaves the live records as they are.
  pub duplicate_keeps :
      (cache : List NonceEntry) (i : ℕ) {entry : NonceEntry}
      → get_elem? cache i ≡ some entry
      → is_expired ttl now entry ≡ false
      → get_elem? (nonce_is_duplicate ttl nonce now cache).1 i ≡ some entry
  unfolding nonce_is_duplicate
  duplicate_keeps [] i at live = cc at
  duplicate_keeps (e ∷ cache) zero at live = ground arith
  duplicate_keeps (e ∷ cache) (suc i) at live = ground (arith, duplicate_keeps cache i at live)

  pub length-duplicate :
      (cache : List NonceEntry) → length (nonce_is_duplicate ttl nonce now cache).1 ≡ length cache
  unfolding nonce_is_duplicate
  length-duplicate [] = refl
  length-duplicate (e ∷ cache) = ground (arith, length-duplicate cache)

abbrev pub age : ℕ → NonceEntry → ℕ
age now entry = sub32 now entry.timestamp

-- All entries are in use and none is older than `m` ticks.
abbrev pub UpTo : ℕ → ℕ → List NonceEntry → Type 0
UpTo now m [] = Unit
UpTo now m (entry ∷ cache) = (entry.valid ≡ true) × (age now entry ≤ m) × UpTo now m cache

-- What `find_slot` chooses, with slot `k` of age `oldest` as the best before index `i`.
data Chosen (now : ℕ) (cache : List NonceEntry) (i k oldest s : ℕ) : Type 0 where
  free :
      (j : ℕ) (entry : NonceEntry)
      → s ≡ i + j
      → get_elem? cache j ≡ some entry
      → entry.valid ≡ false
      → Chosen now cache i k oldest s
  kept : s ≡ k → UpTo now oldest cache → Chosen now cache i k oldest s
  oldest_at :
      (j : ℕ) (entry : NonceEntry)
      → s ≡ i + j
      → get_elem? cache j ≡ some entry
      → oldest ≤ age now entry
      → UpTo now (age now entry) cache
      → Chosen now cache i k oldest s

module _ (now : ℕ) where
  Chosen-older :
      (entry : NonceEntry) (cache : List NonceEntry) (i k oldest s : ℕ)
      → entry.valid ≡ true
      → oldest < age now entry
      → Chosen now cache (i + 1) i (age now entry) s
      → Chosen now (entry ∷ cache) i k oldest s
  Chosen-older entry cache i k oldest s v lt (free j e at el fr) =
      free (suc j) e (omega arith) el fr
  Chosen-older entry cache i k oldest s v lt (kept at up) =
      oldest_at 0 entry (omega arith) refl (omega arith) (v, omega arith, up)
  Chosen-older entry cache i k oldest s v lt (oldest_at j e at el le up) =
      oldest_at (suc j) e (omega arith) el (omega arith) (v, omega arith, up)

  Chosen-younger :
      (entry : NonceEntry) (cache : List NonceEntry) (i k oldest s : ℕ)
      → entry.valid ≡ true
      → age now entry ≤ oldest
      → Chosen now cache (i + 1) k oldest s
      → Chosen now (entry ∷ cache) i k oldest s
  Chosen-younger entry cache i k oldest s v le (free j e at el fr) =
      free (suc j) e (omega arith) el fr
  Chosen-younger entry cache i k oldest s v le (kept at up) = kept at (v, omega arith, up)
  Chosen-younger entry cache i k oldest s v le (oldest_at j e at el le' up) =
      oldest_at (suc j) e (omega arith) el (omega arith) (v, omega arith, up)

  find_slot-Chosen :
      (cache : List NonceEntry) (i k oldest : ℕ)
      → (s : ℕ) × (find_slot now cache i (some k) oldest ≡ some s) × Chosen now cache i k oldest s
  unfolding find_slot
  find_slot-Chosen [] i k oldest = (k, refl, kept refl tt)
  find_slot-Chosen (entry ∷ cache) i k oldest = elim (Bool-cases entry.valid) [
    | inr fr ↦ (i, rw fr, free 0 entry (omega arith) refl fr)
    | inl v ↦ elim (dec_lt oldest (age now entry)) [
      | yes lt ↦
          let (s, e, ch) = find_slot-Chosen cache (i + 1) i (age now entry) in
          (s, ground arith, Chosen-older entry cache i k oldest s v lt ch)
      | no ge ↦
          let (s, e, ch) = find_slot-Chosen cache (i + 1) k oldest in
          (s, ground arith, Chosen-younger entry cache i k oldest s v (omega arith) ch)
    ]
  ]

-- The record that `nonce_store` writes.
abbrev pub stored : List ℕ → ℕ → NonceEntry
stored nonce now = record { valid = true; timestamp = now; nonce = nonce }

-- The entry that gives way was free, or all entries are in use and it is one of the oldest.
abbrev pub Evicts : ℕ → List NonceEntry → ℕ → Type 0
Evicts now cache slot =
    (entry : NonceEntry) × (get_elem? cache slot ≡ some entry)
    × ((entry.valid ≡ false) ⊎ UpTo now (age now entry) cache)

evicts :
    (now : ℕ) (entry : NonceEntry) (cache : List NonceEntry) (s : ℕ)
    → entry.valid ≡ true
    → Chosen now cache 1 0 (age now entry) s
    → Evicts now (entry ∷ cache) s
evicts now entry cache s v (free j e at el fr) =
    let p : s ≡ suc j = omega arith in rw p (e, el, inl fr)
evicts now entry cache s v (kept at up) = rw at (entry, refl, inr (v, omega arith, up))
evicts now entry cache s v (oldest_at j e at el le up) =
    let p : s ≡ suc j = omega arith in rw p (e, el, inr (v, le, up))

-- `nonce_store` overwrites one slot of a cache: a free one if there is any, else one that holds an
-- entry of the greatest age. All other slots stay as they are.
pub nonce_store_lem :
    (nonce : List ℕ) (now : ℕ) (cache : List NonceEntry)
    → 0 < length cache
    → (slot : ℕ) × (nonce_store nonce now cache ≡ set cache slot (stored nonce now))
      × Evicts now cache slot
unfolding nonce_store find_slot
nonce_store_lem nonce now [] h = elim h [ ]
nonce_store_lem nonce now (entry ∷ cache) h = elim (Bool-cases entry.valid) [
  | inr fr ↦ (0, rw fr, (entry, refl, inl fr))
  | inl v ↦
      let (s, e, ch) = find_slot-Chosen now cache 1 0 (age now entry) in
      (s, rw (v, e), evicts now entry cache s v ch)
]

get_elem?-in :
    (cache : List NonceEntry) (i : ℕ) {entry : NonceEntry}
    → get_elem? cache i ≡ some entry
    → i < length cache
get_elem?-in [] i e = cc e
get_elem?-in (x ∷ cache) zero e = omega arith
get_elem?-in (x ∷ cache) (suc i) e = omega (arith, get_elem?-in cache i e)

-- A stored nonce is a duplicate as long as the replay window has not passed since, whatever the
-- cache held before; a window of 0 ticks never passes. The cache is not empty, and ticks are 32-bit.
pub duplicate-store :
    (ttl : ℕ) (nonce : List ℕ) (now passed : ℕ) (cache : List NonceEntry)
    → 0 < length cache
    → now < u32_mod
    → passed < u32_mod
    → (ttl ≡ 0) ⊎ (passed ≤ ttl)
    → (nonce_is_duplicate ttl nonce (add32 now passed) (nonce_store nonce now cache)).0 ≡ true
unfolding is_expired
duplicate-store ttl nonce now passed cache room now_ok passed_ok window =
    let (slot, e, (old, at, _)) = nonce_store_lem nonce now cache room in
    let gone : sub32 (add32 now passed) now ≡ passed = sub32-add32 now passed now_ok passed_ok in
    rw e (
      duplicate_of_Holds ttl (add32 now passed) nonce (set cache slot (stored nonce now)) slot
        (record {
          at = get_elem?-set_self cache slot (stored nonce now) (get_elem?-in cache slot at);
          valid = refl;
          live = ground (arith, gone);
          same = refl;
        }))

pub length-store :
    (nonce : List ℕ) (now : ℕ) (cache : List NonceEntry)
    → length (nonce_store nonce now cache) ≡ length cache
unfolding nonce_store
length-store nonce now [] = refl
length-store nonce now (entry ∷ cache) = length-set (entry ∷ cache) _ _
