-- ===== src/Scheduler/Recovery.antt =====
-- What a restarted agent does with the jobs of its last life: src/jobs/scheduler.rs.
use text.Mathlib.Text.{◌==◌ as str_eq}
use linux_patch_api.Prelude.{
  ℕ, String, Bool, false, List, [], ◌∷◌, ◌++◌, Option, none, some, if◌then◌else◌,
}
use linux_patch_api.Prelude.Text.{concat}
use linux_patch_api.Prelude.Table.{insert}
use linux_patch_api.Jobs.Status.{
  completed, failed, cancelled, rebooting, is_self_update, status_eq, JobStatus,
}
use linux_patch_api.Jobs.Job.{Job, is_internal}
use linux_patch_api.Scheduler.State.{SchedulerState}

-- The record that every branch builds: the fields that differ are arguments.
resolve :
    ℕ
    → JobStatus
    → ℕ
    → String
    → List String
    → Option String
    → Option String
    → Option ℕ
    → Bool
    → Job
    → Job
resolve now status progress message logs error code rollback exclusive j = record {
  id = j.id;
  status = status;
  operation = j.operation;
  created_at = j.created_at;
  updated_at = now;
  completed_at = some now;
  packages = j.packages;
  progress = progress;
  message = message;
  logs = logs;
  error = error;
  error_code = code;
  exit_code = none;
  command_stdout = none;
  command_stderr = none;
  rollback_job_id = rollback;
  exclusive_mode = exclusive;
  boot_id = j.boot_id;
}

-- `a.zip(b).is_some_and(|(a, b)| a == b)`.
abbrev pub same_boot : Option String → Option String → Bool
same_boot (some a) (some b) = str_eq a b
same_boot (some a) none = false
same_boot none _ = false

-- The terminal job that an orphan becomes. The boot id is the current one.
unfoldable pub recover : ℕ → Option String → Job → Job
unfolding resolve
recover now boot j =
    if is_self_update j.operation
    then resolve now completed 100 "Self-update completed — agent restarted into new version"
        ("Agent restarted during self-update (expected postinst restart)"
          ∷ "New binary is running — upgrade succeeded" ∷ [])
        none none none false j
    else if status_eq j.status rebooting
    then resolve now completed 100 "Reboot completed — agent restarted after patching"
        (j.logs ++ ("Agent restarted after reboot — marking completed" ∷ [])) none none
        j.rollback_job_id j.exclusive_mode j
    else if is_internal j
    then resolve now cancelled 0 "Internal tracking job dropped after agent restart"
        ("Internal bookkeeping job (cache refresh) — discarded after restart" ∷ []) none none none
        false j
    else if same_boot j.boot_id boot
    then resolve now failed 0
        (concat "Job failed: " "Job interrupted by agent process restart (not a system reboot)")
        ("Agent process restarted (same boot) — in-memory job state was lost" ∷ [])
        (some "Agent process restarted during job execution (not a reboot)")
        (some "AGENT_RESTARTED") none false j
    else resolve now failed 0 (concat "Job failed: " "Job failed: agent rebooted during execution")
        ("Agent rebooted — in-memory job state was lost" ∷ [])
        (some "Agent rebooted during job execution") (some "AGENT_REBOOTED") none false j

-- `Scheduler::recover_orphaned_jobs`.
unfoldable pub recover_orphaned_jobs :
    ℕ → Option String → List Job → SchedulerState → SchedulerState
unfolding recover
recover_orphaned_jobs now boot [] s = s
recover_orphaned_jobs now boot (j ∷ js) s =
    recover_orphaned_jobs now boot js (record s { jobs = insert j.id (recover now boot j) s.jobs })

-- `Scheduler::load_history`.
unfoldable pub load_history : List Job → SchedulerState → SchedulerState
load_history [] s = s
load_history (j ∷ js) s = load_history js (record s { jobs = insert j.id j s.jobs })
