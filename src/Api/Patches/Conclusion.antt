-- ===== src/Api/Patches/Conclusion.antt =====
-- What the handler of `apply_patches` in src/api/handlers/patches.rs makes of the transaction's result:
-- the end of the patch job, and the reboot. The calls are made one after another; each reads the clock.
use linux_patch_api.Prelude.{ℕ, String, Bool, true, false, some}
use linux_patch_api.Prelude.Result.{Result, ok, err}
use linux_patch_api.Prelude.Text.{concat, show_ℕ}
use linux_patch_api.Jobs.Job.{Env, Diagnosis}
use linux_patch_api.Scheduler.State.{SchedulerState}
use linux_patch_api.Scheduler.Reboot.{
  RebootAdmissionError, self_update_in_progress, package_mutation_in_progress, queue_full,
  admission_closed, jobs_in_progress, reserve_reboot, begin_reboot_execution, set_job_rebooting,
  rollback_reboot, drop_reboot_guard,
}
use linux_patch_api.Scheduler.Lifecycle.{add_job_log, complete_job, fail_job_with_diagnostics}

-- `RebootAdmissionError::fmt`.
abbrev pub show_admission_error : RebootAdmissionError → String
show_admission_error self_update_in_progress = "A self-update is in progress"
show_admission_error package_mutation_in_progress = "A package-database mutation is in progress"
show_admission_error (jobs_in_progress n) =
    concat "Cannot reboot while " (concat (show_ℕ n) " jobs are in progress")
show_admission_error queue_full = "Job queue is at capacity"
show_admission_error admission_closed = "Admission is closed (shutdown or recovery in progress)"

-- The result of the transaction, as `fail_job_with_diagnostics` reads its error; the permission and the
-- need of a reboot; its delay; what the reboot command answers.
pub record Conclusion : Type 0 where
  pub transaction : Result Diagnosis (Unit {0})
  pub allow_reboot : Bool
  pub should_reboot : Bool
  pub reboot_delay : ℕ
  pub reboot_command : Result String (Unit {0})

-- `others` is what other tasks do to the scheduler between the reservation and its execution: there the
-- reservation may be lost.
module _ (clock : ℕ → ℕ) (others : SchedulerState → SchedulerState) (env : Env) (id : ℕ) where
  abbrev pub log_then_complete : ℕ → String → SchedulerState → SchedulerState
  log_then_complete n text s = complete_job (clock n) id (add_job_log (clock n) id text s)

  -- `match` on the result of the reboot command; the guard is dropped at the end, unless committed.
  unfoldable pub after_command : ℕ → Result String (Unit {0}) → SchedulerState → SchedulerState
  unfolding add_job_log complete_job rollback_reboot drop_reboot_guard
  after_command reboot_id (ok u) s = add_job_log (clock 5) id "Reboot command executed" s
  after_command reboot_id (err e) s = drop_reboot_guard (clock 7) reboot_id (
      log_then_complete 6 (concat "Reboot failed: " (concat e " — patches remain applied"))
        (rollback_reboot (clock 5) reboot_id (some (concat "Reboot failed: " e)) s).0)

  -- What follows `begin_reboot_execution`.
  unfoldable pub after_begin : ℕ → Result String (Unit {0}) → SchedulerState × Bool → SchedulerState
  unfolding after_command add_job_log complete_job drop_reboot_guard
  after_begin reboot_id command (s, true) = after_command reboot_id command s
  after_begin reboot_id command (s, false) = drop_reboot_guard (clock 6) reboot_id (
      log_then_complete 5 "Reboot reservation lost before command; patches applied without reboot"
        s)

  -- What follows `reserve_reboot`.
  unfoldable pub after_reserve :
      Result String (Unit {0}) → SchedulerState × Result RebootAdmissionError ℕ → SchedulerState
  unfolding after_begin set_job_rebooting add_job_log begin_reboot_execution complete_job
  after_reserve command (s, ok reboot_id) = after_begin reboot_id command (
      begin_reboot_execution (clock 4) reboot_id (
        others (
          add_job_log (clock 3) id "Reboot reservation acquired by scheduler"
            (set_job_rebooting (clock 2) id "Patches applied; awaiting reboot" s).0)))
  after_reserve command (s, err e) =
      log_then_complete 2 (concat "Reboot reservation rejected: " (show_admission_error e)) s

  abbrev pub scheduled : ℕ → String
  scheduled delay =
      concat "Reboot scheduled in "
        (concat (show_ℕ delay) " seconds (reboot required after patching)")

  abbrev pub no_reboot : Bool → SchedulerState → SchedulerState
  no_reboot true s =
      add_job_log (clock 1) id
        "No reboot required after patching (allow_reboot=true but no reboot-triggering packages applied)"
        s
  no_reboot false s = s

  abbrev pub after_success :
      Bool → Bool → ℕ → Result String (Unit {0}) → SchedulerState → SchedulerState
  after_success allow true delay command s =
      after_reserve command
        (reserve_reboot env true false (add_job_log (clock 1) id (scheduled delay) s))
  after_success allow false delay command s = complete_job (clock 2) id (no_reboot allow s)

  abbrev pub on_result : Result Diagnosis (Unit {0}) → Conclusion → SchedulerState → SchedulerState
  on_result (err d) c s = fail_job_with_diagnostics (clock 1) id d s
  on_result (ok u) c s =
      after_success c.allow_reboot c.should_reboot c.reboot_delay c.reboot_command s

  -- `match patch_result`.
  unfoldable pub conclude : Conclusion → SchedulerState → SchedulerState
  unfolding after_reserve reserve_reboot add_job_log complete_job fail_job_with_diagnostics
  conclude c s = on_result c.transaction c s
