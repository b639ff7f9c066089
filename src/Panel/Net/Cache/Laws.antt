-- ===== src/Panel/Net/Cache/Laws.antt =====
-- An endpoint that was kept is loaded again, until its age passes the limit.
use n32r.Prelude.{
  List, Option, [], arith, choose, choose_option, if◌then◌else◌, leb, length, ltb, none, not, refl,
  some, true, ℕ, ◌%◌, ◌&&◌, ◌*◌, ◌+◌, ◌<◌, ◌==◌, ◌||◌, ◌∷◌, ◌≡◌, ◌≤◌,
}
use n32r.Panel.Net.Cache.{Store}
use n32r.Panel.Net.Cache.{load_cached_service}
use n32r.Panel.Net.Discovery.{MdnsResult, build_uri_from_result}
use n32r.Panel.Net.Cache.{store_cached_service}
use n32r.Panel.Net.Cache.{
  Grants, get_str, is_expired, read_name, invalidate_cached_service, u32_mod, search_rounds, Round,
  first_usable,
}
use n32r.Panel.Net.Discovery.Laws.{build_uri-IsShort}
use n32r.Prelude.Words.{u32_mod}

-- Every write of `store_cached_service` succeeds.
abbrev pub granted : Grants
granted = record { opened = true; uri_written = true; sni_written = true; ts_written = true }

-- The store that holds an endpoint, and the one that holds none.
abbrev pub kept : List ℕ → List ℕ → ℕ → Store
kept uri name now = record { last_uri = some uri; last_sni = some name; last_ts = some now }

abbrev pub emptied : Store
emptied = record { last_uri = none; last_sni = none; last_ts = none }

store_lem :
    (now : ℕ) (uri name : List ℕ) (store : Store)
    → 0 < length uri
    → store_cached_service granted now uri name store ≡ kept uri name now
unfolding store_cached_service
store_lem now uri name store positive = ground arith

load_kept :
    (ttl_minutes now last_seen uri_len : ℕ) (uri name name' : List ℕ)
    → length uri < uri_len
    → length name < 64
    → load_cached_service true true ttl_minutes now uri_len name' (kept uri name last_seen) ≡ (
        if is_expired ttl_minutes now last_seen
        then (none, (name, emptied))
        else (some uri, (name, kept uri name last_seen)))
unfolding load_cached_service get_str read_name invalidate_cached_service
load_kept ttl_minutes now last_seen uri_len uri name name' short short' = ground arith

-- Where mDNS answers with a usable service and the flash library takes the endpoint, the panel later loads the same
-- URI and the same name from a store that was in any state, unless the age of the entry is past the limit; then it
-- loads nothing and the entry is erased.
pub load-store_discovered :
    (result : MdnsResult) (ttl_minutes now later uri_len : ℕ) (uri name name' : List ℕ)
    (store : Store)
    → build_uri_from_result result uri_len ≡ some (uri, name)
    → load_cached_service true true ttl_minutes later uri_len name'
        (store_cached_service granted now uri name store)
      ≡ (if is_expired ttl_minutes later now
          then (none, (name, emptied))
          else (some uri, (name, kept uri name now)))
load-store_discovered result ttl_minutes now later uri_len uri name name' store built =
    let (positive, short, short') = build_uri-IsShort result uri_len uri name built in
    rw (store_lem now uri name store positive)
      (load_kept ttl_minutes later now uri_len uri name name' short short')

is_expired_restarted :
    (ttl_minutes now later : ℕ)
    → 0 < ttl_minutes
    → later < now
    → now < u32_mod
    → now + ttl_minutes * 60000 < later + u32_mod
    → is_expired ttl_minutes later now ≡ true
unfolding is_expired
is_expired_restarted ttl_minutes now later positive before word small = ground arith

-- Where an endpoint of mDNS was written in full and the clock is later behind the time of the entry, as it is after a
-- restart of the device, the entry counts as expired: nothing is loaded and the entry is erased. The limit is
-- positive and below the difference of the two times on 32 bits.
pub load_restarted :
    (result : MdnsResult) (ttl_minutes now later uri_len : ℕ) (uri name name' : List ℕ)
    (store : Store)
    → build_uri_from_result result uri_len ≡ some (uri, name)
    → 0 < ttl_minutes
    → later < now
    → now < u32_mod
    → now + ttl_minutes * 60000 < later + u32_mod
    → load_cached_service true true ttl_minutes later uri_len name'
        (store_cached_service granted now uri name store)
      ≡ (none, (name, emptied))
load_restarted result ttl_minutes now later uri_len uri name name' store built positive before word
      small =
    rw
      (
        load-store_discovered result ttl_minutes now later uri_len uri name name' store built,
        is_expired_restarted ttl_minutes now later positive before word small,
      )
      refl

-- Each round starts after a time and ends with a delay of 2000 milliseconds.
unfoldable pub Paced : ℕ → List Round → Type 0
Paced start [] = Unit {0}
Paced start (round ∷ rounds) =
    (start ≤ round.elapsed)
    × (round.elapsed + 2000 ≤ round.elapsed_after)
    × Paced round.elapsed_after rounds

abbrev pub HasEnded : Option (Option (List ℕ × List ℕ)) → Type 0
HasEnded o = (found : Option (List ℕ × List ℕ)) × (o ≡ some found)

-- A search with a limit of time, that is paced from some time below the limit on, has come to an end after as many
-- rounds as there are delays in the time that is left: it has found an endpoint or given up.
pub search_rounds-Ends :
    (timeout_ms uri_len start : ℕ) (rounds : List Round)
    → Paced start rounds
    → start < timeout_ms
    → timeout_ms ≤ start + 2000 * length rounds
    → HasEnded (search_rounds timeout_ms uri_len rounds)
unfolding search_rounds Paced
search_rounds-Ends timeout_ms uri_len start [] paced early enough = ground arith
search_rounds-Ends timeout_ms uri_len start (round ∷ rounds) (after, delayed, paced) early enough =
    choose HasEnded (timeout_ms == 0 || ltb (round.elapsed % u32_mod) timeout_ms)
      (λ _.
        choose_option HasEnded (first_usable uri_len round.results)
          (λ _.
            choose HasEnded (not (timeout_ms == 0) && leb timeout_ms round.elapsed_after)
              (λ _. (none, refl))
              (λ goes_on.
                search_rounds-Ends timeout_ms uri_len round.elapsed_after rounds paced
                  (ground arith) (ground arith)))
          (λ found _. (some found, refl)))
      (λ _. (none, refl))
