-- ===== src/Panel/Tests.antt =====
-- Tests of the panel's state.
use n32r.Prelude.{List, [], arith, false, ok, refl, replicate, true, ℕ, ◌∷◌, ◌≡◌}
use n32r.Node.DataModel.{Update}
use n32r.Panel.{init}
use n32r.Panel.Prefs.{Preferences, sanitize_preferences, IsValid, Sized}
use n32r.Panel.Store.{Answers, gone, blob_size, store_load, store_save}
use n32r.Panel.Laws.{Op, checks, prefers, resets, run_all, run_all-init-IsValid, load-save}

abbrev update : ℕ → Update ℕ
update n = record {
  timestamp_ms = 0;
  sequence_id = n;
  sht20_count = 0;
  sht20 = [];
  ds18b20_count = 0;
  ds18b20 = [];
  mcp = [];
  frequency_hz = 0;
  duty_cycle = [];
}

abbrev blank : Preferences
blank = record {
  ssid = replicate 33 0;
  password = replicate 65 0;
  mdns_target = replicate 64 0;
  dark_theme = false;
  use_fahrenheit = false;
  high_contrast = false;
  large_touch_targets = false;
  text_scale_percent = 0;
  language = 0;
}

blank-Sized : Sized blank
blank-Sized = record { ssid_size = refl; password_size = refl; mdns_target_size = refl }

abbrev answers : ℕ → Preferences → Answers
answers size prefs = record {
  secure = ok tt;
  opened = ok tt;
  get = ok (size, prefs);
  set = ok tt;
  erase = gone;
  commit = ok tt;
}

abbrev wide : Preferences
wide = record blank { text_scale_percent = 120; ssid = replicate 33 65 }

abbrev ops : List (Op ℕ)
ops = prefers true wide ∷ (resets false ∷ (checks true false ∷ []))

get_lem : (size : ℕ) (prefs : Preferences) → (answers 3 blank).get ≡ ok (size, prefs) → Sized prefs
get_lem size prefs e = let same : blank ≡ prefs = ground arith in rw (← same) blank-Sized

run_all-init-IsValid_example :
    IsValid (run_all ops (init (update 0) blank (answers 3 blank))).preferences
run_all-init-IsValid_example =
    run_all-init-IsValid (update 0) blank (answers 3 blank) ops blank-Sized get_lem
      ((omega arith, omega arith), tt)

saved : store_save (answers 3 blank) wide ≡ ok (sanitize_preferences wide)
unfolding store_save
saved = refl

load-save_example :
    (store_load (answers blob_size (sanitize_preferences wide)) ≡ ok (sanitize_preferences wide))
    × IsValid (sanitize_preferences wide)
    × (IsValid wide → sanitize_preferences wide ≡ wide)
load-save_example =
    load-save (answers 3 blank) (answers blob_size (sanitize_preferences wide)) wide
      (sanitize_preferences wide)
      (record { ssid_size = refl; password_size = refl; mdns_target_size = refl }) saved refl refl
      refl
