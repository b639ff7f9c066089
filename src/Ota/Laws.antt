-- ===== src/Ota/Laws.antt =====
-- What an update has passed, and how often it is tried.
use n32r.Prelude.{
  Bool-cases, List, Option, Result-cases, [], arith, choose, err, if◌then◌else◌, inl, inr, ltb,
  none, not, ok, refl, some, suc, zero, ℕ, ◌++◌, ◌+◌, ◌<◌, ◌==◌, ◌||◌, ◌∙◌, ◌∷◌, ◌≡◌, ◌≤◌,
}
use n32r.Prelude.{choose}
use n32r.Ota.{
  Desc, Config, Answers, Action, delayed, marked_valid, ota_store_last_version, ota_perform_update,
  next_backoff, on_applied, update_loop, Setting, ota_task, or_default, version_of, prologue,
  ota_load_last_version,
}
use n32r.Ota.Counts.{opened}
use n32r.Ota.Counts.{restarts}
use n32r.Ota.Counts.{Quiet, counts-append, closed, Quiet-append, wait_counts, delays-Quiet}
use n32r.Ota.Attempt.{perform-Tidy, Good}

-- What comes after an update touches no handle.
applied_counts :
    (cfg : Config) (answers : Answers) (desc : Desc) (version : Option (List ℕ))
    → (opened (on_applied cfg answers desc version).1 ≡ 0)
      × (closed (on_applied cfg answers desc version).1 ≡ 0)
unfolding on_applied
applied_counts cfg answers desc version = elim (Bool-cases cfg.auto_reboot) [
  | inl r ↦ elim (Result-cases (ota_store_last_version answers)) [
    | inl (_, f) ↦ simp (r, f, on_applied) (refl, refl)
    | inr (e, f) ↦ simp (r, f, on_applied) (refl, refl)
  ]
  | inr r ↦ elim (Result-cases (ota_store_last_version answers)) [
    | inl (_, f) ↦ simp (r, f, on_applied) (refl, refl)
    | inr (e, f) ↦ simp (r, f, on_applied) (refl, refl)
  ]
]

module _ (cfg : Config) (running : Option Desc) (answers : ℕ → Answers) where
  -- A restart and a new version come with an image that an attempt of the range found good.
  abbrev pub Applied :
      ℕ → ℕ → Option (List ℕ) → Option Desc × (Option (List ℕ) × List Action) → Type 0
  Applied left attempt version (none, (version', actions)) =
      (restarts actions ≡ 0) × (version' ≡ version)
  Applied left attempt version (some desc, (version', actions)) =
      (i : ℕ) × (attempt ≤ i) × (i < attempt + left) × Good cfg running version (answers i) desc

module _ (cfg : Config) (running : Option Desc) (answers : ℕ → Answers) (max_backoff_ms : ℕ) where
  Applied-later :
      (left attempt ms : ℕ) (version : Option (List ℕ)) (before : List Action)
      (r : Option Desc × (Option (List ℕ) × List Action))
      → restarts before ≡ 0
      → Applied cfg running answers left (attempt + 1) version r
      → Applied cfg running answers
          (suc left)
          attempt
          version
          (r.0, (r.1.0, before ++ ((if ltb 0 ms then delayed ms ∷ [] else []) ++ r.1.1)))
  Applied-later left attempt ms version before (none, (version', actions)) z (a, b) = (
    let (_, _, n) = counts-append before ((if ltb 0 ms then delayed ms ∷ [] else []) ++ actions) in
        let (_, _, m) = wait_counts ms actions in omega arith,
    b,
  )
  Applied-later left attempt ms version before (some desc, (version', actions)) z (i, lo, hi, g) =
      (i, omega arith, omega arith, g)

  loop-Applied :
      (left attempt backoff_ms : ℕ) (version : Option (List ℕ))
      → Applied cfg running answers left attempt version
          (update_loop cfg running answers max_backoff_ms left attempt backoff_ms version)
  unfolding update_loop
  loop-Applied zero attempt backoff_ms version = (refl, refl)
  loop-Applied (suc left) attempt backoff_ms version =
      let tidy = perform-Tidy cfg running version (answers attempt) in
      let actions = (ota_perform_update cfg running version (answers attempt)).1.1 in
      let rest =
        update_loop cfg running answers max_backoff_ms left (attempt + 1)
          (next_backoff max_backoff_ms backoff_ms) version in
      elim (Result-cases (ota_perform_update cfg running version (answers attempt)).0) [
        | inl (desc, f) ↦
            simp (f, update_loop) (attempt, omega arith, omega arith, tidy.good desc f)
        | inr (e, f) ↦
            simp (f, update_loop)
              (choose (Applied cfg running answers (suc left) attempt version)
                (not (ota_perform_update cfg running version (answers attempt)).1.0 || (left == 0))
                (λ _. (tidy.no_restart, refl))
                (λ _. Applied-later left attempt backoff_ms version actions rest tidy.no_restart (
                  loop-Applied left (attempt + 1) (next_backoff max_backoff_ms backoff_ms)
                    version)))
      ]

  -- Every handle is closed, and no more are opened than attempts are left.
  abbrev pub Balanced : ℕ → Option Desc × (Option (List ℕ) × List Action) → Type 0
  Balanced left r = (opened r.1.1 ≡ closed r.1.1) × (opened r.1.1 ≤ left)

  loop-Balanced :
      (left attempt backoff_ms : ℕ) (version : Option (List ℕ))
      → Balanced left
          (update_loop cfg running answers max_backoff_ms left attempt backoff_ms version)
  unfolding update_loop
  loop-Balanced zero attempt backoff_ms version = (refl, omega arith)
  loop-Balanced (suc left) attempt backoff_ms version =
      let tidy = perform-Tidy cfg running version (answers attempt) in
      let actions = (ota_perform_update cfg running version (answers attempt)).1.1 in
      let balanced = tidy.balanced in
      let once = tidy.once in
      let rest =
        update_loop cfg running answers max_backoff_ms left (attempt + 1)
          (next_backoff max_backoff_ms backoff_ms) version in
      let pause : List Action = if ltb 0 backoff_ms then delayed backoff_ms ∷ [] else [] in
      elim (Result-cases (ota_perform_update cfg running version (answers attempt)).0) [
        | inl (desc, f) ↦
            (let (p, q) = applied_counts cfg (answers attempt) desc version in
              let (a, b, _) =
                counts-append actions (on_applied cfg (answers attempt) desc version).1 in
              simp (f, update_loop) (omega arith, omega arith))
        | inr (e, f) ↦
            (let (p, q) =
                loop-Balanced left (attempt + 1) (next_backoff max_backoff_ms backoff_ms) version in
              let (a, b, _) = counts-append actions (pause ++ rest.1.1) in
              let (a', b', _) = wait_counts backoff_ms rest.1.1 in
              simp (f, update_loop)
                (choose (Balanced (suc left))
                  (not (ota_perform_update cfg running version (answers attempt)).1.0
                    || (left == 0))
                  (λ _. (balanced, omega arith)) (λ _. (omega arith, omega arith))))
      ]

-- How many attempts the task makes at most.
abbrev pub limit : Config → ℕ
limit cfg = or_default cfg.max_retries 5

prologue-Quiet : (cfg : Config) (setting : Setting) → Quiet (prologue cfg setting)
unfolding prologue
prologue-Quiet cfg setting =
    Quiet-append (if ltb 0 cfg.check_delay_ms then delayed cfg.check_delay_ms ∷ [] else []) _
      (choose Quiet (ltb 0 cfg.check_delay_ms) (λ _. (refl, refl, refl)) (λ _. (refl, refl, refl)))
      (Quiet-append (elim setting.mark_valid [ ok _ ↦ marked_valid ∷ [] | err e ↦ [] ]) _
        (elim (Result-cases setting.mark_valid) [
          | inl (_, f) ↦ simp (f) (refl, refl, refl)
          | inr (e, f) ↦ simp (f) (refl, refl, refl)
        ])
        (choose Quiet cfg.waits_for_connectivity (λ _. delays-Quiet setting.offline 2000)
          (λ _. (refl, refl, refl))))

prologue_counts :
    (cfg : Config) (setting : Setting) (xs : List Action)
    → (opened (prologue cfg setting ++ xs) ≡ opened xs)
      × (closed (prologue cfg setting ++ xs) ≡ closed xs)
      × (restarts (prologue cfg setting ++ xs) ≡ restarts xs)
prologue_counts cfg setting xs =
    (let (a, b, c) = prologue-Quiet cfg setting in
      let (k, l, m) = counts-append (prologue cfg setting) xs in
      (omega arith, omega arith, omega arith))

Applied-after :
    (cfg : Config) (setting : Setting) (answers : ℕ → Answers) (left : ℕ)
    (version : Option (List ℕ)) (r : Option Desc × (Option (List ℕ) × List Action))
    → Applied cfg setting.running answers left 1 version r
    → Applied cfg setting.running answers left 1 version
        (r.0, (r.1.0, prologue cfg setting ++ r.1.1))
Applied-after cfg setting answers left version (none, (version', actions)) (a, b) =
    ((prologue_counts cfg setting actions).2 ∙ a, b)
Applied-after cfg setting answers left version (some desc, (version', actions)) good = good

-- The task closes every update handle that it begins, and it begins at most as many as the configured
-- number of retries, or five where that is 0.
pub ota_task-Balanced :
    (cfg : Config) (setting : Setting) (answers : ℕ → Answers)
    → (opened (ota_task cfg setting answers).1.1 ≡ closed (ota_task cfg setting answers).1.1)
      × (opened (ota_task cfg setting answers).1.1 ≤ limit cfg)
unfolding ota_task
ota_task-Balanced cfg setting answers =
    let version = version_of (ota_load_last_version setting.nvs_open setting.nvs_get) in
    let longest = or_default cfg.max_backoff_ms 60000 in
    let first = or_default cfg.initial_backoff_ms 5000 in
    let r = update_loop cfg setting.running answers longest (limit cfg) 1 first version in
    let (p, q) = loop-Balanced cfg setting.running answers longest (limit cfg) 1 first version in
    let (a, b, _) = prologue_counts cfg setting r.1.1 in (omega arith, omega arith)

-- The device restarts, and another version is stored, only where one of the allowed attempts has met a
-- good image: the connection, the descriptor, the callback's check, the transfer and the end of the update
-- all succeeded, with all data received.
pub ota_task-Applied :
    (cfg : Config) (setting : Setting) (answers : ℕ → Answers)
    → Applied cfg setting.running answers
        (limit cfg)
        1
        (version_of (ota_load_last_version setting.nvs_open setting.nvs_get))
        (ota_task cfg setting answers)
unfolding ota_task
ota_task-Applied cfg setting answers =
    let version = version_of (ota_load_last_version setting.nvs_open setting.nvs_get) in
    let longest = or_default cfg.max_backoff_ms 60000 in
    let first = or_default cfg.initial_backoff_ms 5000 in
    Applied-after cfg setting answers (limit cfg) version _
      (loop-Applied cfg setting.running answers longest (limit cfg) 1 first version)
