-- ===== src/Util/CertStore/Tests.antt =====
-- Tests of the certificate store.
use n32r.Prelude.{List, [], false, length, none, ok, refl, some, true, ℕ, ◌∷◌, ◌≡◌}
use n32r.Util.CertStore.{
  Nvs, File, Sources, Store, nvs_bytes, file_bytes, load_from_nvs, mount_spiffs, load_from_spiffs,
  init_once, chosen, cert_store_server_key, certificates_settled, answer, server_cert_call,
  answer_all, ca_cert_call, server_key_call,
}

abbrev nvs : List ℕ → Nvs
nvs bytes = record {
  partition = ok tt;
  handle = ok tt;
  size = ok (length bytes);
  allocated = true;
  bytes = ok bytes;
}

abbrev file : List ℕ → File
file bytes = record {
  path_fits = true;
  size = some (length bytes);
  allocated = true;
  bytes = bytes;
}

-- The certificate is in both places, the key in the file system, and the other certificate nowhere.
abbrev sources : ℕ → Sources
sources n = record {
  from_nvs = true;
  from_spiffs = true;
  mount = ok tt;
  nvs_cert = nvs (n ∷ []);
  nvs_key = nvs [];
  nvs_ca = nvs [];
  file_cert = file (50 ∷ []);
  file_key = file (n ∷ (60 ∷ []));
  file_ca = file [];
}

abbrev store : Store
store = record {
  server_cert = record { embedded = 1 ∷ []; override = none };
  server_key = record { embedded = 2 ∷ []; override = none };
  ca_cert = record { embedded = 3 ∷ []; override = none };
  initialized = false;
  mounted = false;
}

key_from_file : (cert_store_server_key (sources 7) store).0 ≡ 7 ∷ (60 ∷ [])
unfolding cert_store_server_key init_once load_from_spiffs load_from_nvs nvs_bytes file_bytes
    mount_spiffs chosen
key_from_file = refl

certificates_settled_example :
    (answer server_cert_call
      (sources 9)
      (answer_all ((ca_cert_call, sources 8) ∷ []) (answer server_key_call (sources 7) store).1)).0
    ≡ (answer server_cert_call (sources 7) store).0
certificates_settled_example =
    certificates_settled server_key_call server_cert_call (sources 7) (sources 9)
      ((ca_cert_call, sources 8) ∷ []) store
