-- ===== src/Panel.antt =====
-- hmi_node/main: the state of the panel. data_model.c is here; prefs_store.c is in Store.
pub mod Prefs
pub mod Store
pub mod Laws
pub mod Net
mod Tests
use n32r.Prelude.{
  Bool, Bool-cases, EspErr, List, Option, Option-cases, Result, Result-cases, Status, [], ap,
  append-nil, append_assoc, ap₂, arith, choose, drop, err, esp_fail, false, get_elem?,
  get_elem?-set_ne, get_elem?-set_self, get_or, guard, if◌then◌else◌, inl, inr, invalid_arg,
  invalid_crc, invalid_response, invalid_size, invalid_state, invalid_version, leb, length,
  length-append, length-drop, length-replicate, length-set, length-take, ltb, lt→ltb, map, min,
  no_mem, none, not, not_found, not_supported, ok, ota_validate_failed, refl, replicate, set, some,
  suc, sym, take, take-append-drop, tests, timeout, true, zero, ℕ, ◌%◌, ◌&&◌, ◌*◌, ◌++◌, ◌+◌, ◌-◌,
  ◌/◌, ◌<◌, ◌==◌, ◌>>=◌, ◌>>◌, ◌^◌, ◌||◌, ◌↔◌, ◌∙◌, ◌∷◌, ◌≡◌, ◌≢◌, ◌≤◌, ◌⊎◌,
}
use n32r.Node.DataModel.{Update}
use n32r.Panel.Prefs.{Preferences, sanitize_preferences, default_preferences, copied}
use n32r.Panel.Store.{Answers, store_init, store_load}

-- `hmi_data_model_t` without its mutex.
pub record Model (F : Type 0) : Type 0 where
  pub last_update : Update F
  pub has_update : Bool
  pub connected : Bool
  pub last_crc_ok : Bool
  pub preferences : Preferences

module _ {F : Type 0} where
  -- The update and the preferences whose bytes are all zero come from `memset`.
  unfoldable pub init : Update F → Preferences → Answers → Model F
  init blank_update blank answers =
      let model : Model F = record {
        last_update = blank_update;
        has_update = false;
        connected = false;
        last_crc_ok = true;
        preferences = default_preferences blank;
      } in
      elim (store_init answers) [
        | err e ↦ model
        | ok _ ↦ elim (store_load answers) [
          | err e ↦ model
          | ok stored ↦ record model { preferences = sanitize_preferences stored }
        ]
      ]

  -- Each operation is told whether the mutex was taken in time.
  unfoldable pub set_update : Bool → Update F → Model F → Model F
  set_update locked update model =
      if not locked then model else record model { last_update = update; has_update = true }

  unfoldable pub get_update : Bool → Model F → Option (Update F) × Model F
  get_update locked model =
      if not locked || not model.has_update
      then (none, model)
      else (some model.last_update, record model { has_update = false })

  -- What is written, and whether it is valid.
  unfoldable pub peek_update : Bool → Model F → Option (Update F) × Bool
  peek_update locked model =
      if not locked
      then (none, false)
      else (some model.last_update, not (model.last_update.sequence_id == 0))

  unfoldable pub set_connected : Bool → Bool → Model F → Model F
  set_connected locked connected model =
      if not locked then model else record model { connected = connected }

  unfoldable pub is_connected : Bool → Model F → Bool
  is_connected locked model = locked && model.connected

  unfoldable pub set_crc_status : Bool → Bool → Model F → Model F
  set_crc_status locked good model =
      if not locked then model else record model { last_crc_ok = good }

  unfoldable pub get_crc_status : Bool → Model F → Bool
  get_crc_status locked model = locked && model.last_crc_ok

  unfoldable pub get_preferences : Bool → Model F → Option Preferences
  get_preferences locked model = if not locked then none else some model.preferences

  unfoldable pub set_preferences : Bool → Preferences → Model F → Model F
  set_preferences locked prefs model = if not locked then model else record model {
    preferences = record prefs {
      ssid = copied 32 prefs.ssid;
      password = copied 64 prefs.password;
      mdns_target = copied 63 prefs.mdns_target;
      language = if ltb prefs.language 2 then prefs.language else 0;
    };
  }

  unfoldable pub reset_preferences : Bool → Model F → Model F
  reset_preferences locked model =
      if not locked
      then model
      else record model { preferences = default_preferences model.preferences }
