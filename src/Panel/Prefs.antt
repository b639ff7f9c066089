-- ===== src/Panel/Prefs.antt =====
-- `hmi_user_preferences_t` with the functions on it that data_model.c and prefs_store.c share. A character
-- array is the list of its bytes.
use n32r.Prelude.Bytes.{codes}
use n32r.Prelude.{
  Bool, List, [], ap, arith, false, get_elem?, get_elem?-set_self, if◌then◌else◌, leb, length,
  length-append, length-replicate, length-set, length-take, ltb, refl, replicate, set, some, suc,
  sym, take, true, zero, ℕ, ◌++◌, ◌-◌, ◌<◌, ◌==◌, ◌||◌, ◌∙◌, ◌∷◌, ◌≡◌, ◌≤◌,
}
use n32r.Prelude.Bytes.{codes}

pub record Preferences : Type 0 where
  pub ssid : List ℕ
  pub password : List ℕ
  pub mdns_target : List ℕ
  pub dark_theme : Bool
  pub use_fahrenheit : Bool
  pub high_contrast : Bool
  pub large_touch_targets : Bool
  pub text_scale_percent : ℕ
  pub language : ℕ

-- The characters before the terminator.
unfoldable pub c_string : List ℕ → List ℕ
c_string [] = []
c_string (x ∷ xs) = (let rest = c_string xs in if x == 0 then [] else x ∷ rest)

-- `strncpy` of `n` bytes into an array of one more, whose last byte is then set to 0.
unfoldable pub copied : ℕ → List ℕ → List ℕ
copied n src =
    let text = take n (c_string src) in (text ++ replicate (n - length text) 0) ++ (0 ∷ [])

unfoldable pub sanitize_preferences : Preferences → Preferences
sanitize_preferences prefs = record prefs {
  ssid = set prefs.ssid 32 0;
  password = set prefs.password 64 0;
  mdns_target = set prefs.mdns_target 63 0;
  text_scale_percent =
      if ltb prefs.text_scale_percent 80 || ltb 140 prefs.text_scale_percent
      then 100
      else prefs.text_scale_percent;
  language = if leb 2 prefs.language then 0 else prefs.language;
}

-- What `hmi_data_model_set_default_preferences` makes of the preferences before.
unfoldable pub default_preferences : Preferences → Preferences
default_preferences prefs = sanitize_preferences (record {
  ssid = set prefs.ssid 0 0;
  password = set prefs.password 0 0;
  mdns_target = copied 63 (codes "sensor-node.local");
  dark_theme = true;
  use_fahrenheit = false;
  high_contrast = false;
  large_touch_targets = false;
  text_scale_percent = 100;
  language = 0;
})

-- An array of its size whose last byte is a terminator.
pub record Terminated (size : ℕ) (text : List ℕ) : Type 0 where
  pub long : length text ≡ suc size
  pub end : get_elem? text size ≡ some 0

pub record IsValid (prefs : Preferences) : Type 0 where
  pub ssid_ok : Terminated 32 prefs.ssid
  pub password_ok : Terminated 64 prefs.password
  pub mdns_target_ok : Terminated 63 prefs.mdns_target
  pub scale_least : 80 ≤ prefs.text_scale_percent
  pub scale_most : prefs.text_scale_percent ≤ 140
  pub language_ok : prefs.language < 2

-- The arrays have their sizes.
pub record Sized (prefs : Preferences) : Type 0 where
  pub ssid_size : length prefs.ssid ≡ 33
  pub password_size : length prefs.password ≡ 65
  pub mdns_target_size : length prefs.mdns_target ≡ 64

set-Terminated : (text : List ℕ) (n : ℕ) → length text ≡ suc n → Terminated n (set text n 0)
set-Terminated text n e = record {
  long = length-set text n 0 ∙ e;
  end = get_elem?-set_self text n 0 (omega arith);
}

get_elem?-snoc : (xs : List ℕ) (v : ℕ) → get_elem? (xs ++ (v ∷ [])) (length xs) ≡ some v
get_elem?-snoc [] v = refl
get_elem?-snoc (x ∷ xs) v = get_elem?-snoc xs v

pub copied-Terminated : (n : ℕ) (src : List ℕ) → Terminated n (copied n src)
unfolding copied
copied-Terminated n src =
    let text = take n (c_string src) in
    let body = text ++ replicate (n - length text) 0 in
    let size : length body ≡ n = omega (
      arith,
      length-append text (replicate (n - length text) 0),
      length-replicate {A = ℕ} (n - length text) 0,
      length-take n (c_string src),
    ) in
    record {
      long = omega (arith, length-append body (0 ∷ []));
      end = ap (get_elem? (body ++ (0 ∷ []))) (sym size) ∙ get_elem?-snoc body 0;
    }

-- What is repaired is valid.
pub sanitize-IsValid : (prefs : Preferences) → Sized prefs → IsValid (sanitize_preferences prefs)
unfolding sanitize_preferences
sanitize-IsValid prefs s = record {
  ssid_ok = set-Terminated prefs.ssid 32 s.ssid_size;
  password_ok = set-Terminated prefs.password 64 s.password_size;
  mdns_target_ok = set-Terminated prefs.mdns_target 63 s.mdns_target_size;
  scale_least = ground arith;
  scale_most = ground arith;
  language_ok = ground arith;
}

set_same : (xs : List ℕ) (i v : ℕ) → get_elem? xs i ≡ some v → set xs i v ≡ xs
set_same [] i v e = refl
set_same (x ∷ xs) zero v e = ground arith
set_same (x ∷ xs) (suc i) v e = ap (λ ys. x ∷ ys) (set_same xs i v e)

-- What is valid needs no repair.
pub sanitize_valid : (prefs : Preferences) → IsValid prefs → sanitize_preferences prefs ≡ prefs
unfolding sanitize_preferences
sanitize_valid prefs v =
    let scale : (ltb prefs.text_scale_percent 80 || ltb 140 prefs.text_scale_percent) ≡ false =
      (let lo = v.scale_least in let hi = v.scale_most in ground arith) in
    let language : leb 2 prefs.language ≡ false = (let lt = v.language_ok in ground arith) in
    rw
      (
        set_same prefs.ssid 32 0 v.ssid_ok.end,
        set_same prefs.password 64 0 v.password_ok.end,
        set_same prefs.mdns_target 63 0 v.mdns_target_ok.end,
        scale,
        language,
      )
      refl

pub default-IsValid : (prefs : Preferences) → Sized prefs → IsValid (default_preferences prefs)
unfolding default_preferences
default-IsValid prefs s = sanitize-IsValid _ (record {
  ssid_size = length-set prefs.ssid 0 0 ∙ s.ssid_size;
  password_size = length-set prefs.password 0 0 ∙ s.password_size;
  mdns_target_size = (copied-Terminated 63 (codes "sensor-node.local")).long;
})
