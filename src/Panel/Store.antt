-- ===== src/Panel/Store.antt =====
-- hmi_node/main/prefs_store.c. What the flash library answers is an argument.
use n32r.Prelude.{EspErr, Result, Status, err, guard, invalid_size, ok, ℕ, ◌==◌, ◌>>=◌, ◌>>◌}
use n32r.Panel.Prefs.{Preferences, sanitize_preferences}

-- What `nvs_erase_key` answers.
pub data Erased : Type 0 where
  gone missing : Erased
  failed : EspErr → Erased

-- `secure` is the outcome of `ensure_secure_nvs`. A blob is its length and, where the length is that of the
-- struct, the preferences that it holds.
pub record Answers : Type 0 where
  pub secure : Status
  pub opened : Status
  pub get : Result (ℕ × Preferences)
  pub set : Status
  pub erase : Erased
  pub commit : Status

-- `sizeof(hmi_user_preferences_t)` on the target.
abbrev pub blob_size : ℕ
blob_size = 172

unfoldable pub store_init : Answers → Status
store_init answers = answers.secure

unfoldable pub store_load : Answers → Result Preferences
store_load answers = do
  answers.secure
  answers.opened
  (size, prefs) ← answers.get
  guard (size == blob_size) invalid_size
  ok (sanitize_preferences prefs)

-- The status and the blob that was written.
unfoldable pub store_save : Answers → Preferences → Result Preferences
store_save answers prefs = do
  answers.secure
  answers.opened
  answers.set
  answers.commit
  ok (sanitize_preferences prefs)

unfoldable pub store_erase : Answers → Status
store_erase answers = do
  answers.secure
  answers.opened
  (elim answers.erase [ gone ↦ ok tt | missing ↦ ok tt | failed e ↦ err e ])
  answers.commit
