-- ===== src/Panel/Net/Discovery/Tests.antt =====
-- Tests of the search for the sensor node.
use n32r.Prelude.{List, [], arith, if◌then◌else◌, none, refl, some, true, ℕ, ◌∷◌, ◌≡◌}
use n32r.Panel.Net.Cache.{Round}
use n32r.Panel.Net.Discovery.Laws.{IsEndpoint, build_uri-IsEndpoint}
use n32r.Panel.Net.Discovery.{build_uri_from_result}
use n32r.Panel.Net.Discovery.{Item}
use n32r.Panel.Net.Cache.{load_cached_service}
use n32r.Panel.Net.Cache.{search_rounds}
use n32r.Prelude.Bytes.{codes, bytes_eq}
use n32r.Panel.Net.Discovery.{
  MdnsResult, apply_txt_metadata, any_other, apply_item, v4, apply_proto, apply_uri, is_token_valid,
  all_token_chars, is_token_char, sanitize_path, first_fitting, host_text, server_name,
  service_metadata_init, decimal, bytes_eq,
}
use n32r.Panel.Net.Cache.{Store, store_cached_service, is_expired}
use n32r.Panel.Net.Cache.Laws.{
  search_rounds-Ends, granted, emptied, load_restarted, kept, load-store_discovered, Paced,
  HasEnded,
}
use n32r.Proto.Printf.{digits_from, decimal}

abbrev item : List ℕ → List ℕ → Item
item name text = record { key = some name; value = some text }

-- A node with an address of version 4; the records hold a path without its slash and a name.
abbrev answer : MdnsResult
answer = record {
  hostname = none;
  port = 8443;
  txt =
      item (codes "proto") (codes "ftp!")
      ∷ (item (codes "path") (codes "sock") ∷ (item (codes "host") (codes "node") ∷ []));
  addr = any_other ∷ (v4 (codes "10.0.0.7") ∷ []);
}

abbrev uri : List ℕ
uri = codes "wss://10.0.0.7:8443/sock"

answer_built : build_uri_from_result answer 128 ≡ some (uri, codes "node")
unfolding build_uri_from_result apply_txt_metadata apply_item apply_proto apply_uri is_token_valid
    all_token_chars is_token_char sanitize_path first_fitting host_text server_name
    service_metadata_init decimal digits_from bytes_eq
answer_built = refl

abbrev empty_store : Store
empty_store = record { last_uri = none; last_sni = none; last_ts = none }

build_uri-IsEndpoint_example : IsEndpoint answer 128 uri (codes "node")
build_uri-IsEndpoint_example = build_uri-IsEndpoint answer 128 uri (codes "node") answer_built

load-store_discovered_example :
    load_cached_service true true 120 9000 128 []
      (store_cached_service granted 5000 uri (codes "node") empty_store)
    ≡ (if is_expired 120 9000 5000
        then (none, (codes "node", emptied))
        else (some uri, (codes "node", kept uri (codes "node") 5000)))
load-store_discovered_example =
    load-store_discovered answer 120 5000 9000 128 uri (codes "node") [] empty_store answer_built

-- Kept an hour after the start, loaded ten seconds after the next one.
load_restarted_example :
    load_cached_service true true 120 10000 128 []
      (store_cached_service granted 3600000 uri (codes "node") empty_store)
    ≡ (none, (codes "node", emptied))
load_restarted_example =
    load_restarted answer 120 3600000 10000 128 uri (codes "node") [] empty_store answer_built
      (omega arith) (omega arith) (omega arith) (omega arith)

-- The second round is the last that the limit allows.
abbrev rounds : List Round
rounds =
    record { elapsed = 0; results = []; elapsed_after = 2100 }
    ∷ (record { elapsed = 2100; results = []; elapsed_after = 4200 } ∷ [])

search_rounds-Ends_example : HasEnded (search_rounds 4000 128 rounds)
unfolding Paced
search_rounds-Ends_example =
    search_rounds-Ends 4000 128 0 rounds (omega arith, omega arith, (omega arith, omega arith, tt))
      (omega arith) (omega arith)
