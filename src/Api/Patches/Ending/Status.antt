-- ===== src/Api/Patches/Ending/Status.antt =====
-- What single calls of the scheduler do to the status of a job, for src/api/handlers/patches.rs.

use linux_patch_api.Prelude.{
  ℕ, String, false, ◌==◌, List, [], ◌∷◌, Option, none, some, ◌≡◌, refl, ◌∙◌, inl, inr, arith,
  Option-cases,
}
use linux_patch_api.Prelude.Table.{get, get-modify}
use linux_patch_api.Jobs.Status.{JobStatus, running, rebooting, completed, failed}
use linux_patch_api.Jobs.Job.{
  Job, Env, Diagnosis, add_log, add_logs, complete, fail_with_diagnostics, set_rebooting,
}
use linux_patch_api.Scheduler.State.{SchedulerState, notify_one, emit_event_detailed}
use linux_patch_api.Scheduler.Reboot.{
  begin_reboot_execution, set_job_rebooting, rollback_reboot, drop_reboot_guard, roll_back_job,
  start_rebooting,
}
use linux_patch_api.Scheduler.Reboot.Cancel.{get-change_job}
use linux_patch_api.Scheduler.System.Frame.{change_job-Keeps}
use linux_patch_api.Scheduler.Lifecycle.{add_job_log, complete_job, fail_job_with_diagnostics}
use linux_patch_api.Api.Patches.Conclusion.{log_then_complete}

abbrev pub status_opt : Option Job → Option JobStatus
status_opt none = none
status_opt (some j) = some j.status

-- The status of a job, if there is one.
abbrev pub status_of : ℕ → SchedulerState → Option JobStatus
status_of k s = status_opt (get k s.jobs)

pub status-add_job_log :
    (now id k : ℕ) (text : String) (s : SchedulerState)
    → status_of k (add_job_log now id text s) ≡ status_of k s
unfolding add_job_log add_log
status-add_job_log now id k text s = ground (arith, get-modify id k (add_log now text) s.jobs)

pub pending-add_job_log :
    (now id : ℕ) (text : String) (s : SchedulerState)
    → (add_job_log now id text s).reboot_pending ≡ s.reboot_pending
unfolding add_job_log
pending-add_job_log now id text s = refl

pub status-complete_job :
    (now id : ℕ) (x : JobStatus) (s : SchedulerState)
    → status_of id s ≡ some x
    → status_of id (complete_job now id s) ≡ some completed
unfolding complete_job complete notify_one add_log
status-complete_job now id x s h = ground (arith, get-change_job now id id (complete now) s)

pub status-log_then_complete :
    (clock : ℕ → ℕ) (others : SchedulerState → SchedulerState) (env : Env) (n id : ℕ)
    (text : String) (x : JobStatus) (s : SchedulerState)
    → status_of id s ≡ some x
    → status_of id (log_then_complete clock others env id n text s) ≡ some completed
status-log_then_complete clock others env n id text x s h =
    status-complete_job (clock n) id x (add_job_log (clock n) id text s)
      (status-add_job_log (clock n) id id text s ∙ h)

pub status-rollback :
    (now rid k : ℕ) (error : Option String) (s : SchedulerState)
    → (rid == k) ≡ false
    → status_of k (rollback_reboot now rid error s).0 ≡ status_of k s
unfolding rollback_reboot notify_one
status-rollback now rid k error s h =
    let s0 = record s { reboot_pending = none } in
    ground (arith, get-change_job now rid k (roll_back_job now error) s0)

pub status-drop :
    (now rid k : ℕ) (s : SchedulerState)
    → (rid == k) ≡ false
    → status_of k (drop_reboot_guard now rid s) ≡ status_of k s
unfolding drop_reboot_guard
status-drop now rid k s h =
    status-rollback now rid k (some "Reservation dropped without commit (cancelled)") s h

pub status-begin :
    (now rid k : ℕ) (s : SchedulerState)
    → (rid == k) ≡ false
    → status_of k (begin_reboot_execution now rid s).0 ≡ status_of k s
unfolding begin_reboot_execution notify_one
status-begin now rid k s h = ground (arith, get-change_job now rid k (start_rebooting now) s)

pub pending-begin :
    (now rid : ℕ) (s : SchedulerState)
    → (begin_reboot_execution now rid s).0.reboot_pending ≡ s.reboot_pending
unfolding begin_reboot_execution notify_one
pending-begin now rid s = ground (arith, change_job-Keeps now rid (start_rebooting now) s)

pub status-set :
    (now id : ℕ) (text : String) (s : SchedulerState)
    → status_of id s ≡ some running
    → status_of id (set_job_rebooting now id text s).0 ≡ some rebooting
unfolding set_job_rebooting notify_one set_rebooting add_log
status-set now id text s h = ground (arith, get-change_job now id id (set_rebooting now text) s)

pub pending-set :
    (now id : ℕ) (text : String) (s : SchedulerState)
    → (set_job_rebooting now id text s).0.reboot_pending ≡ s.reboot_pending
unfolding set_job_rebooting notify_one
pending-set now id text s = ground (arith, change_job-Keeps now id (set_rebooting now text) s)

status-add_logs : (now : ℕ) (ms : List String) (j : Job) → (add_logs now ms j).status ≡ j.status
unfolding add_logs add_log
status-add_logs now [] j = refl
status-add_logs now (m ∷ ms) j = status-add_logs now ms (add_log now m j)

status-diagnosed :
    (now : ℕ) (d : Diagnosis) (j : Job) → (fail_with_diagnostics now d j).status ≡ failed
unfolding fail_with_diagnostics add_log
status-diagnosed now d j = status-add_logs now d.log_lines _

pub status-fail :
    (now id : ℕ) (d : Diagnosis) (x : JobStatus) (s : SchedulerState)
    → status_of id s ≡ some x
    → status_of id (fail_job_with_diagnostics now id d s) ≡ some failed
unfolding fail_job_with_diagnostics notify_one emit_event_detailed
status-fail now id d x s h = elim (Option-cases (get id s.jobs)) [
  | inl e ↦ ground arith
  | inr (j, e) ↦
      ground
        (arith, get-modify id id (fail_with_diagnostics now d) s.jobs, status-diagnosed now d j)
]
