-- ===== src/Ota.antt =====
-- common/ota/ota_update.c: the update task. What ESP-IDF and the flash memory answer is an argument; log
-- messages are not modelled. Configuration and buffers are not null.
pub mod Counts
pub mod Attempt
pub mod Laws
mod Tests
use n32r.Prelude.{
  ota_validate_failed, Bool, Bool-cases, EspErr, List, Option, Option-cases, Result, Result-cases,
  Status, [], ap, append-nil, append_assoc, ap₂, arith, choose, drop, err, esp_fail, false,
  get_elem?, get_elem?-set_ne, get_elem?-set_self, get_or, guard, if◌then◌else◌, inl, inr,
  invalid_arg, invalid_crc, invalid_response, invalid_size, invalid_state, invalid_version, leb,
  length, length-append, length-drop, length-replicate, length-set, length-take, ltb, lt→ltb, map,
  min, no_mem, none, not, not_found, not_supported, ok, refl, replicate, set, some, suc, sym, take,
  take-append-drop, tests, timeout, true, zero, ℕ, ◌%◌, ◌&&◌, ◌*◌, ◌++◌, ◌+◌, ◌-◌, ◌/◌, ◌<◌, ◌==◌,
  ◌>>=◌, ◌>>◌, ◌^◌, ◌||◌, ◌↔◌, ◌∙◌, ◌∷◌, ◌≡◌, ◌≢◌, ◌≤◌, ◌⊎◌,
}
use n32r.Prelude.Words.{u32_mod}

-- `esp_app_desc_t`, as far as it is read.
pub record Desc : Type 0 where
  pub version : List ℕ
  pub app_elf_sha256 : List ℕ

-- `ota_update_config_t`. The callback takes the new image, the running one and the stored version.
pub record Config : Type 0 where
  pub has_url : Bool
  pub auto_reboot : Bool
  pub check_delay_ms : ℕ
  pub waits_for_connectivity : Bool
  pub validate : Option (Desc → Option Desc → Option (List ℕ) → Status)
  pub initial_backoff_ms : ℕ
  pub max_backoff_ms : ℕ
  pub max_retries : ℕ

-- What a read of the flash memory answers.
pub data Lookup {ℓ} (A : Type ℓ) : Type ℓ where
  found : A → Lookup A
  absent : Lookup A
  failed : EspErr → Lookup A

-- What `esp_https_ota_finish` answers.
pub data Finish : Type 0 where
  finished validate_failed : Finish
  finish_failed : EspErr → Finish

-- What one attempt meets. The transfer is in progress for so many calls before its last answer.
pub record Answers : Type 0 where
  pub begin : Status
  pub descriptor : Result Desc
  pub in_progress : ℕ
  pub transfer : Status
  pub complete : Bool
  pub finish : Finish
  pub nvs_open : Status
  pub nvs_set : Status
  pub nvs_commit : Status

-- An update handle is begun, and aborted or finished.
pub data Action : Type 0 where
  begun aborted ended : Action
  delayed : ℕ → Action
  stored : List ℕ → Action
  marked_valid restarted : Action

unfoldable pub ota_load_last_version :
    Lookup (Unit {0}) → Lookup (List ℕ) → Result (Option (List ℕ))
ota_load_last_version absent get = ok none
ota_load_last_version (failed e) get = err e
ota_load_last_version (found _) (found version) = ok (some version)
ota_load_last_version (found _) absent = ok none
ota_load_last_version (found _) (failed e) = err e

unfoldable pub ota_store_last_version : Answers → Status
ota_store_last_version answers = do answers.nvs_open; answers.nvs_set; answers.nvs_commit

unfoldable pub validated : Config → Desc → Option Desc → Option (List ℕ) → Status
validated cfg desc running version = elim cfg.validate [
  | none ↦ ok tt
  | some validate ↦ validate desc running version
]

-- The result, whether another attempt makes sense, and what was done.
unfoldable pub ota_perform_update :
    Config → Option Desc → Option (List ℕ) → Answers → Result Desc × (Bool × List Action)
ota_perform_update cfg running version answers =
    let polls : List Action = replicate answers.in_progress (delayed 50) in
    elim answers.begin [
      | err e ↦ (err e, (true, []))
      | ok _ ↦ elim answers.descriptor [
        | err e ↦ (err e, (true, begun ∷ (aborted ∷ [])))
        | ok desc ↦ elim (validated cfg desc running version) [
          | err e ↦ (err e, (false, begun ∷ (aborted ∷ [])))
          | ok _ ↦ elim answers.transfer [
            | err e ↦ (err e, (true, begun ∷ (polls ++ (aborted ∷ []))))
            | ok _ ↦
                if not answers.complete
                then (err invalid_response, (true, begun ∷ (polls ++ (aborted ∷ []))))
                else (elim answers.finish [
                  | finished ↦ (ok desc, (false, begun ∷ (polls ++ (ended ∷ []))))
                  | validate_failed ↦
                      (err ota_validate_failed, (false, begun ∷ (polls ++ (ended ∷ []))))
                  | finish_failed e ↦ (err e, (true, begun ∷ (polls ++ (ended ∷ []))))
                ])
          ]
        ]
      ]
    ]

unfoldable pub next_backoff : ℕ → ℕ → ℕ
next_backoff max_backoff_ms backoff_ms =
    let next = backoff_ms * 2 in
    if ltb max_backoff_ms next
    then max_backoff_ms
    else (if next == 0 then max_backoff_ms else next % u32_mod)

-- After an update: the version is stored, and the device restarts where that is configured.
unfoldable pub on_applied :
    Config → Answers → Desc → Option (List ℕ) → Option (List ℕ) × List Action
on_applied cfg answers desc version =
    let reboot : List Action = if cfg.auto_reboot then delayed 1000 ∷ (restarted ∷ []) else [] in
    elim (ota_store_last_version answers) [
      | ok _ ↦ (some desc.version, stored desc.version ∷ reboot)
      | err e ↦ (version, reboot)
    ]

-- The attempts that are left, from the number of the next one: the image that was applied, the stored
-- version, and what was done.
unfoldable pub update_loop :
    Config
    → Option Desc
    → (ℕ → Answers)
    → ℕ
    → ℕ
    → ℕ
    → ℕ
    → Option (List ℕ)
    → Option Desc × (Option (List ℕ) × List Action)
update_loop cfg running answers max_backoff_ms zero attempt backoff_ms version =
    (none, (version, []))
update_loop cfg running answers max_backoff_ms (suc left) attempt backoff_ms version =
    let (result, (should_retry, actions)) =
      ota_perform_update cfg running version (answers attempt) in
    let (applied, (version', actions')) =
      update_loop cfg running answers max_backoff_ms left (attempt + 1)
        (next_backoff max_backoff_ms backoff_ms) version in
    elim result [
      | ok desc ↦
          let (version'', reboot) = on_applied cfg (answers attempt) desc version in
          (some desc, (version'', actions ++ reboot))
      | err e ↦ if not should_retry || (left == 0) then (none, (version, actions)) else (
        applied,
        (
          version',
          actions ++ ((if ltb 0 backoff_ms then delayed backoff_ms ∷ [] else []) ++ actions'),
        ),
      )
    ]

abbrev or_default : ℕ → ℕ → ℕ
or_default value fallback = if value == 0 then fallback else value

-- What the task meets before its first attempt: whether the running image could be marked valid, how often
-- there was no connection, the running image and the stored version.
pub record Setting : Type 0 where
  pub mark_valid : Status
  pub offline : ℕ
  pub running : Option Desc
  pub nvs_open : Lookup (Unit {0})
  pub nvs_get : Lookup (List ℕ)

unfoldable pub version_of : Result (Option (List ℕ)) → Option (List ℕ)
version_of (ok version) = version
version_of (err e) = none

unfoldable pub prologue : Config → Setting → List Action
prologue cfg setting =
    (if ltb 0 cfg.check_delay_ms then delayed cfg.check_delay_ms ∷ [] else [])
    ++ ((elim setting.mark_valid [ ok _ ↦ marked_valid ∷ [] | err e ↦ [] ])
        ++ (if cfg.waits_for_connectivity then replicate setting.offline (delayed 2000) else []))

unfoldable pub ota_task :
    Config → Setting → (ℕ → Answers) → Option Desc × (Option (List ℕ) × List Action)
ota_task cfg setting answers =
    let version = version_of (ota_load_last_version setting.nvs_open setting.nvs_get) in
    let (applied, (version', actions)) =
      update_loop cfg setting.running answers (or_default cfg.max_backoff_ms 60000)
        (or_default cfg.max_retries 5) 1 (or_default cfg.initial_backoff_ms 5000) version in
    (applied, (version', prologue cfg setting ++ actions))

-- The configuration that the task gets, which is `none` where none is created.
unfoldable pub ota_update_schedule : Config → Bool → Bool → Status × Option Config
ota_update_schedule config allocated created =
    if not config.has_url
    then (err invalid_arg, none)
    else (if not allocated || not created then (err no_mem, none) else (
      ok tt,
      some (record config {
        check_delay_ms = or_default config.check_delay_ms 1000;
        initial_backoff_ms = or_default config.initial_backoff_ms 5000;
        max_backoff_ms = or_default config.max_backoff_ms 60000;
        max_retries = or_default config.max_retries 5;
      }),
    ))
