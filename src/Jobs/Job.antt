-- ===== src/Jobs/Job.antt =====
-- A job and its methods: src/jobs/manager.rs. A method of `&mut self` returns the new job. What a
-- method reads from outside is an argument: the clock `now`, the fresh `Uuid` and the boot id. The
-- clock reads within one method are taken to be one instant.
use linux_patch_api.Prelude.{
  ℕ, String, Bool, false, List, [], ◌∷◌, ◌++◌, Option, none, some, any, if◌then◌else◌,
}
use linux_patch_api.Prelude.Int.{ℤ}
use linux_patch_api.Prelude.Text.{concat, is_sentinel, is_empty}
use linux_patch_api.Jobs.Status.{
  JobStatus, JobOperation, pending, running, rebooting, completed, failed,
}

-- `Job`. `progress` is a `u8`, a time is a number.
pub record Job : Type 0 where
  pub id : ℕ
  pub status : JobStatus
  pub operation : JobOperation
  pub created_at : ℕ
  pub updated_at : ℕ
  pub completed_at : Option ℕ
  pub packages : List String
  pub progress : ℕ
  pub message : String
  pub logs : List String
  pub error : Option String
  pub error_code : Option String
  pub exit_code : Option ℤ
  pub command_stdout : Option String
  pub command_stderr : Option String
  pub rollback_job_id : Option ℕ
  pub exclusive_mode : Bool
  pub boot_id : Option String

-- `current_boot_id`, given what reading the file yields and `str::trim`.
unfoldable pub current_boot_id : (String → String) → Option String → Option String
current_boot_id trim none = none
current_boot_id trim (some s) = if is_empty (trim s) then none else some (trim s)

-- What `Job::new` and the methods below read from outside.
pub record Env : Type 0 where
  pub now : ℕ
  pub new_id : ℕ
  pub boot : Option String

-- `Job::new`.
unfoldable pub new : Env → JobOperation → List String → Job
new env op packages = record {
  id = env.new_id;
  status = pending;
  operation = op;
  created_at = env.now;
  updated_at = env.now;
  completed_at = none;
  packages = packages;
  progress = 0;
  message = "Job created";
  logs = [];
  error = none;
  error_code = none;
  exit_code = none;
  command_stdout = none;
  command_stderr = none;
  rollback_job_id = none;
  exclusive_mode = false;
  boot_id = env.boot;
}

-- `Job::is_internal`.
unfoldable pub is_internal : Job → Bool
is_internal j = any is_sentinel j.packages

-- `Job::add_log`.
unfoldable pub add_log : ℕ → String → Job → Job
add_log now m j = record j { logs = j.logs ++ (m ∷ []); updated_at = now }

-- `Job::update_progress`.
unfoldable pub update_progress : ℕ → ℕ → String → Job → Job
update_progress now p m j = record j { progress = p; message = m; updated_at = now }

-- `Job::start`.
unfoldable pub start : ℕ → Job → Job
unfolding add_log
start now j = add_log now "Job started" (record j { status = running; updated_at = now })

-- `Job::complete`.
unfoldable pub complete : ℕ → Job → Job
unfolding add_log
complete now j =
    add_log now "Job completed successfully"
      (record j { status = completed; progress = 100; completed_at = some now; updated_at = now })

-- `Job::set_rebooting`.
unfoldable pub set_rebooting : ℕ → String → Job → Job
unfolding add_log
set_rebooting now m j =
    add_log now "Patches applied; awaiting reboot"
      (record j { status = rebooting; message = m; updated_at = now })

-- `Job::fail`.
unfoldable pub fail : ℕ → String → Job → Job
unfolding add_log
fail now e j =
    add_log now (concat "Job failed: " e)
      (record j { status = failed; error = some e; completed_at = some now; updated_at = now })

-- What error_utils reads off an error.
pub record Diagnosis : Type 0 where
  pub error_chain : String
  pub short_error : String
  pub code : String
  pub exit_status : Option ℤ
  pub stdout : Option String
  pub stderr : Option String
  pub log_lines : List String

-- The loop of `fail_with_diagnostics` over the diagnostic lines.
unfoldable pub add_logs : ℕ → List String → Job → Job
unfolding add_log
add_logs now [] j = j
add_logs now (m ∷ ms) j = add_logs now ms (add_log now m j)

-- `Job::fail_with_diagnostics`.
unfoldable pub fail_with_diagnostics : ℕ → Diagnosis → Job → Job
unfolding add_log add_logs
fail_with_diagnostics now d j = add_logs now d.log_lines (
    add_log now (concat "Job failed: " d.error_chain) (record j {
      error = some d.error_chain;
      error_code = some d.code;
      exit_code = d.exit_status;
      command_stdout = d.stdout;
      command_stderr = d.stderr;
      status = failed;
      completed_at = some now;
      updated_at = now;
    }))
