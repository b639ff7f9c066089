-- ===== src/Ota/Tests.antt =====
-- Tests of the update task.
use n32r.Prelude.{[], err, if◌then◌else◌, none, ok, some, timeout, true, ℕ, ◌==◌, ◌∷◌}
use n32r.Ota.{
  Desc, Config, Answers, Setting, absent, finished, ota_task, ota_load_last_version, version_of,
}
use n32r.Ota.Laws.{Applied, ota_task-Applied}

abbrev image : Desc
image = record { version = 49 ∷ []; app_elf_sha256 = [] }

abbrev cfg : Config
cfg = record {
  has_url = true;
  auto_reboot = true;
  check_delay_ms = 1000;
  waits_for_connectivity = true;
  validate = some (λ desc running version. ok tt);
  initial_backoff_ms = 0;
  max_backoff_ms = 0;
  max_retries = 3;
}

abbrev setting : Setting
setting = record {
  mark_valid = ok tt;
  offline = 2;
  running = none;
  nvs_open = absent;
  nvs_get = absent;
}

-- The first attempt loses the connection, the others go well.
abbrev answers : ℕ → Answers
answers attempt = record {
  begin = if attempt == 1 then err timeout else ok tt;
  descriptor = ok image;
  in_progress = 4;
  transfer = ok tt;
  complete = true;
  finish = finished;
  nvs_open = ok tt;
  nvs_set = ok tt;
  nvs_commit = ok tt;
}

ota_task-Applied_example : Applied cfg none answers 3 1 none (ota_task cfg setting answers)
unfolding ota_load_last_version version_of
ota_task-Applied_example = ota_task-Applied cfg setting answers
