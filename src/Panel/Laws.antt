-- ===== src/Panel/Laws.antt =====
-- What the panel keeps, what it hands out once, and what survives a restart.
use n32r.Prelude.{
  choose, Bool, List, Option, Result-cases, [], ap, arith, choose, false, inl, inr, none, not, ok,
  refl, some, true, ℕ, ◌||◌, ◌∙◌, ◌∷◌, ◌≡◌, ◌≤◌,
}
use mathlib.Core.Bool.{false≢true}
use n32r.Node.DataModel.{Update}
use n32r.Panel.{
  Model, init, set_update, get_update, set_connected, set_crc_status, set_preferences,
  reset_preferences,
}
use n32r.Panel.Prefs.{
  Preferences, sanitize_preferences, IsValid, Sized, sanitize-IsValid, sanitize_valid,
  default-IsValid, copied-Terminated,
}
use n32r.Panel.Store.{Answers, blob_size, store_init, store_load, store_save}

-- The operations that change the state; the mutex is taken in time or not.
pub data Op (F : Type 0) : Type 0 where
  updates : Bool → Update F → Op F
  reads : Bool → Op F
  connects : Bool → Bool → Op F
  checks : Bool → Bool → Op F
  prefers : Bool → Preferences → Op F
  resets : Bool → Op F

valid_Sized : (prefs : Preferences) → IsValid prefs → Sized prefs
valid_Sized prefs v = record {
  ssid_size = v.ssid_ok.long;
  password_size = v.password_ok.long;
  mdns_target_size = v.mdns_target_ok.long;
}

load-IsValid :
    (answers : Answers) (stored : Preferences)
    → ((size : ℕ) (prefs : Preferences) → answers.get ≡ ok (size, prefs) → Sized prefs)
    → store_load answers ≡ ok stored
    → IsValid stored
unfolding store_load
load-IsValid answers stored s h = elim (Result-cases answers.secure) [
  | inr (e, f) ↦ absurd (false≢true (ground arith))
  | inl (_, f) ↦ elim (Result-cases answers.opened) [
    | inr (e, g) ↦ absurd (false≢true (ground arith))
    | inl (_, g) ↦ elim (Result-cases answers.get) [
      | inr (e, k) ↦ absurd (false≢true (ground arith))
      | inl ((size, prefs), k) ↦
          (let e : sanitize_preferences prefs ≡ stored = ground arith in
            rw (← e) (sanitize-IsValid prefs (s size prefs k)))
    ]
  ]
]

module _ {F : Type 0} where
  abbrev pub run : Op F → Model F → Model F
  run (updates locked update) model = set_update locked update model
  run (reads locked) model = (get_update locked model).1
  run (connects locked connected) model = set_connected locked connected model
  run (checks locked good) model = set_crc_status locked good model
  run (prefers locked prefs) model = set_preferences locked prefs model
  run (resets locked) model = reset_preferences locked model

  abbrev pub run_all : List (Op F) → Model F → Model F
  run_all [] model = model
  run_all (op ∷ ops) model = run_all ops (run op model)

  -- Preferences are only set with a text scale that the panel supports.
  abbrev pub InRange : List (Op F) → Type 0
  InRange [] = Unit
  InRange (updates locked update ∷ ops) = InRange ops
  InRange (reads locked ∷ ops) = InRange ops
  InRange (connects locked connected ∷ ops) = InRange ops
  InRange (checks locked good ∷ ops) = InRange ops
  InRange (prefers locked prefs ∷ ops) =
      ((80 ≤ prefs.text_scale_percent) × (prefs.text_scale_percent ≤ 140)) × InRange ops
  InRange (resets locked ∷ ops) = InRange ops

  set-IsValid :
      (locked : Bool) (prefs : Preferences) (model : Model F)
      → 80 ≤ prefs.text_scale_percent
      → prefs.text_scale_percent ≤ 140
      → IsValid model.preferences
      → IsValid (set_preferences locked prefs model).preferences
  unfolding set_preferences
  set-IsValid false prefs model lo hi v = v
  set-IsValid true prefs model lo hi v = record {
    ssid_ok = copied-Terminated 32 prefs.ssid;
    password_ok = copied-Terminated 64 prefs.password;
    mdns_target_ok = copied-Terminated 63 prefs.mdns_target;
    scale_least = lo;
    scale_most = hi;
    language_ok = ground arith;
  }

  run-IsValid :
      (op : Op F) (ops : List (Op F)) (model : Model F)
      → InRange (op ∷ ops)
      → IsValid model.preferences
      → IsValid (run op model).preferences × InRange ops
  unfolding set_update get_update set_connected set_crc_status reset_preferences
  run-IsValid (updates true update) ops model r v = (v, r)
  run-IsValid (updates false update) ops model r v = (v, r)
  run-IsValid (reads locked) ops model r v = (
    choose (λ (x : Option (Update F) × Model F). IsValid x.1.preferences)
        (not locked || not model.has_update) (λ _. v) (λ _. v),
    r,
  )
  run-IsValid (connects true connected) ops model r v = (v, r)
  run-IsValid (connects false connected) ops model r v = (v, r)
  run-IsValid (checks true good) ops model r v = (v, r)
  run-IsValid (checks false good) ops model r v = (v, r)
  run-IsValid (prefers locked prefs) ops model ((lo, hi), r) v =
      (set-IsValid locked prefs model lo hi v, r)
  run-IsValid (resets true) ops model r v =
      (default-IsValid model.preferences (valid_Sized model.preferences v), r)
  run-IsValid (resets false) ops model r v = (v, r)

  all-IsValid :
      (ops : List (Op F)) (model : Model F)
      → InRange ops
      → IsValid model.preferences
      → IsValid (run_all ops model).preferences
  all-IsValid [] model r v = v
  all-IsValid (op ∷ ops) model r v =
      (let (v', r') = run-IsValid op ops model r v in all-IsValid ops (run op model) r' v')

  init-IsValid :
      (blank_update : Update F) (blank : Preferences) (answers : Answers)
      → Sized blank
      → ((size : ℕ) (prefs : Preferences) → answers.get ≡ ok (size, prefs) → Sized prefs)
      → IsValid (init blank_update blank answers).preferences
  unfolding init
  init-IsValid blank_update blank answers s t = elim (Result-cases (store_init answers)) [
    | inr (e, f) ↦ simp (f, init) (default-IsValid blank s)
    | inl (_, f) ↦ elim (Result-cases (store_load answers)) [
      | inr (e, g) ↦ simp (f, g, init) (default-IsValid blank s)
      | inl (stored, g) ↦
          simp (f, g, init)
            (sanitize-IsValid stored (valid_Sized stored (load-IsValid answers stored t g)))
    ]
  ]

  -- Whatever the flash memory holds, the preferences of the panel are valid after its start and after any
  -- operations: the strings have their sizes and a terminator, the text scale lies between 80 and 140, and
  -- the language is known. The preferences that are set have a text scale in that range.
  pub run_all-init-IsValid :
      (blank_update : Update F) (blank : Preferences) (answers : Answers) (ops : List (Op F))
      → Sized blank
      → ((size : ℕ) (prefs : Preferences) → answers.get ≡ ok (size, prefs) → Sized prefs)
      → InRange ops
      → IsValid (run_all ops (init blank_update blank answers)).preferences
  run_all-init-IsValid blank_update blank answers ops s t r =
      all-IsValid ops (init blank_update blank answers) r
        (init-IsValid blank_update blank answers s t)

  -- Operations that neither bring nor fetch an update.
  abbrev pub Apart : List (Op F) → Type 0
  Apart [] = Unit
  Apart (updates locked update ∷ ops) = ⊥
  Apart (reads locked ∷ ops) = ⊥
  Apart (connects locked connected ∷ ops) = Apart ops
  Apart (checks locked good ∷ ops) = Apart ops
  Apart (prefers locked prefs ∷ ops) = Apart ops
  Apart (resets locked ∷ ops) = Apart ops

  -- An update that waits.
  abbrev Waiting : Update F → Model F → Type 0
  Waiting update model = (model.has_update ≡ true) × (model.last_update ≡ update)

  all-Waiting :
      (ops : List (Op F)) (update : Update F) (model : Model F)
      → Apart ops
      → Waiting update model
      → Waiting update (run_all ops model)
  unfolding set_connected set_crc_status set_preferences reset_preferences
  all-Waiting [] update model a w = w
  all-Waiting (updates locked new ∷ ops) update model a w = elim a [ ]
  all-Waiting (reads locked ∷ ops) update model a w = elim a [ ]
  all-Waiting (connects true connected ∷ ops) update model a w = all-Waiting ops update _ a w
  all-Waiting (connects false connected ∷ ops) update model a w = all-Waiting ops update model a w
  all-Waiting (checks true good ∷ ops) update model a w = all-Waiting ops update _ a w
  all-Waiting (checks false good ∷ ops) update model a w = all-Waiting ops update model a w
  all-Waiting (prefers true prefs ∷ ops) update model a w = all-Waiting ops update _ a w
  all-Waiting (prefers false prefs ∷ ops) update model a w = all-Waiting ops update model a w
  all-Waiting (resets true ∷ ops) update model a w = all-Waiting ops update _ a w
  all-Waiting (resets false ∷ ops) update model a w = all-Waiting ops update model a w

  fetched :
      (update : Update F) (model : Model F)
      → Waiting update model
      → ((get_update true model).0 ≡ some update)
        × ((get_update true (get_update true model).1).0 ≡ none)
  unfolding get_update
  fetched update model (has, last) = simp (has) (ap some last, refl)

  -- An update that was stored is fetched once: after any operations that neither bring nor fetch one, the
  -- first fetch gives it, and the next one nothing. The mutex is taken in time by both and by the store.
  pub get-set_update :
      (ops : List (Op F)) (update : Update F) (model : Model F)
      → Apart ops
      → ((get_update true (run_all ops (set_update true update model))).0 ≡ some update)
        × ((get_update true (get_update true (run_all ops (set_update true update model))).1).0
            ≡ none)
  unfolding get_update set_update
  get-set_update ops update model a =
      fetched update (run_all ops (set_update true update model))
        (all-Waiting ops update (set_update true update model) a (refl, refl))

saved :
    (before : Answers) (prefs blob : Preferences)
    → store_save before prefs ≡ ok blob
    → blob ≡ sanitize_preferences prefs
unfolding store_save
saved before prefs blob h = elim (Result-cases before.secure) [
  | inr (e, f) ↦ absurd (false≢true (ground arith))
  | inl (_, f) ↦ elim (Result-cases before.opened) [
    | inr (e, g) ↦ absurd (false≢true (ground arith))
    | inl (_, g) ↦ elim (Result-cases before.set) [
      | inr (e, k) ↦ absurd (false≢true (ground arith))
      | inl (_, k) ↦ elim (Result-cases before.commit) [
        | inr (e, l) ↦ absurd (false≢true (ground arith))
        | inl (_, l) ↦ ground arith
      ]
    ]
  ]
]

-- What was saved is loaded again after a restart, when no call fails: it is valid, and it is what was to be
-- saved where that was valid. The arrays of the preferences have their sizes.
pub load-save :
    (before after : Answers) (prefs blob : Preferences)
    → Sized prefs
    → store_save before prefs ≡ ok blob
    → after.secure ≡ ok tt
    → after.opened ≡ ok tt
    → after.get ≡ ok (blob_size, blob)
    → (store_load after ≡ ok blob) × IsValid blob × (IsValid prefs → blob ≡ prefs)
unfolding store_save store_load
load-save before after prefs blob sized h secure opened get =
    let e : blob ≡ sanitize_preferences prefs = saved before prefs blob h in
    let valid : IsValid blob = rw e (sanitize-IsValid prefs sized) in
    (
      simp (secure, opened, get) (ap ok (sanitize_valid blob valid)),
      valid,
      λ v. e ∙ sanitize_valid prefs v,
    )
