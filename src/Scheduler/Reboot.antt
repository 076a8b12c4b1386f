-- ===== src/Scheduler/Reboot.antt =====
-- The reservation of a reboot, its roll-back and its execution: src/jobs/scheduler.rs.
pub mod Cancel
use linux_patch_api.Prelude.{
  ℕ, String, Bool, true, false, ◌&&◌, not, ltb, leb, ◌==◌, List, [], ◌∷◌, Option, none, some,
  if◌then◌else◌, is_some, is_some_of,
}
use linux_patch_api.Prelude.Result.{Result, ok, err}
use linux_patch_api.Prelude.Table.{get}
use linux_patch_api.Jobs.Status.{
  reboot, pending, rebooting, failed, cancelled, running, status_eq, JobStatus,
}
use linux_patch_api.Jobs.Job.{Job, Env, add_log, fail, set_rebooting}
use linux_patch_api.Jobs.Job
use linux_patch_api.Scheduler.State.{
  SchedulerState, is_open, notify_one, active_user_count, change_job,
}
use linux_patch_api.Scheduler.Admission.{create_job}

-- `RebootAdmissionError`.
pub data RebootAdmissionError : Type 0 where
  self_update_in_progress package_mutation_in_progress queue_full admission_closed :
      RebootAdmissionError
  jobs_in_progress : ℕ → RebootAdmissionError

-- The body of the loop that cancels a pending job.
unfoldable pub cancel_by_reboot : ℕ → Job → Job
unfolding add_log
cancel_by_reboot now j = add_log now "Job cancelled by reboot reservation" (record j {
  status = failed;
  error = some "Cancelled: reboot reservation in progress";
  completed_at = some now;
  updated_at = now;
})

-- The first loop: the ids of the pending jobs, but the owner's.
unfoldable pub to_fail : ℕ → List (ℕ × Job) → List ℕ
to_fail owner [] = []
to_fail owner ((id, j) ∷ m) =
    let rest = to_fail owner m in
    if not (id == owner) && status_eq j.status pending then id ∷ rest else rest

-- The second loop.
unfoldable pub cancel_all : ℕ → List ℕ → SchedulerState → SchedulerState
cancel_all now [] s = s
cancel_all now (id ∷ ids) s = cancel_all now ids (change_job now id (cancel_by_reboot now) s)

-- The reboot job is created and owns the reservation.
unfoldable pub create_reboot_job : Env → SchedulerState → SchedulerState
unfolding create_job
create_reboot_job env s =
    create_job env (Job.new env reboot []) (record s { reboot_pending = some env.new_id })

-- The part of `reserve_reboot` behind its guards.
unfoldable pub reserve : Env → SchedulerState → SchedulerState
unfolding notify_one
reserve env s =
    let s' = create_reboot_job env s in
    notify_one (cancel_all env.now (to_fail env.new_id s'.jobs) s')

-- `Scheduler::reserve_reboot` up to the persisting of the jobs. The guard is its job id.
unfoldable pub reserve_reboot :
    Env → Bool → Bool → SchedulerState → SchedulerState × Result RebootAdmissionError ℕ
reserve_reboot env force ack s =
    if is_open s.admission
    then if is_some s.reboot_pending
      then (s, err (jobs_in_progress 1))
      else if not force && is_some s.self_update
      then (s, err self_update_in_progress)
      else if not force && ltb 0 (active_user_count s)
      then (s, err (jobs_in_progress (active_user_count s)))
      else if (force && not ack) && is_some s.self_update
      then (s, err self_update_in_progress)
      else if (force && not ack) && is_some s.active_mutation
      then (s, err package_mutation_in_progress)
      else if leb s.max_queue_depth (active_user_count s)
      then (s, err queue_full)
      else (reserve env s, ok env.new_id)
    else (s, err admission_closed)

-- The job's part of `rollback_reboot`.
unfoldable pub roll_back_job : ℕ → Option String → Job → Job
unfolding fail
roll_back_job now (some e) j = fail now e j
roll_back_job now none j = record j {
  status = cancelled;
  message = "Reboot reservation rolled back";
  completed_at = some now;
  updated_at = now;
}

-- `Scheduler::rollback_reboot`, and with `some` error the task that dropping an uncommitted
-- `RebootReservationGuard` spawns.
unfoldable pub rollback_reboot : ℕ → ℕ → Option String → SchedulerState → SchedulerState × Bool
unfolding notify_one change_job roll_back_job
rollback_reboot now id error s =
    if is_some_of s.reboot_pending id
    then (
      notify_one (change_job now id (roll_back_job now error) (record s { reboot_pending = none })),
      true,
    )
    else (s, false)

unfoldable pub drop_reboot_guard : ℕ → ℕ → SchedulerState → SchedulerState
unfolding rollback_reboot
drop_reboot_guard now id s =
    (rollback_reboot now id (some "Reservation dropped without commit (cancelled)") s).0

abbrev pub start_rebooting : ℕ → Job → Job
start_rebooting now j =
    add_log now "Reboot command starting" (record j { status = rebooting; updated_at = now })

-- `Scheduler::begin_reboot_execution`.
unfoldable pub begin_reboot_execution : ℕ → ℕ → SchedulerState → SchedulerState × Bool
unfolding notify_one change_job add_log
begin_reboot_execution now id s =
    if is_some_of s.reboot_pending id
    then elim (get id s.jobs) [
      | none ↦ (s, false)
      | some j ↦
          if status_eq j.status pending
          then (notify_one (change_job now id (start_rebooting now) s), true)
          else (s, false)
    ]
    else (s, false)

-- The errors of `set_job_rebooting`.
pub data RebootingError : Type 0 where
  not_found : ℕ → RebootingError
  not_running : ℕ → JobStatus → RebootingError

-- `Scheduler::set_job_rebooting`.
unfoldable pub set_job_rebooting :
    ℕ → ℕ → String → SchedulerState → SchedulerState × Result RebootingError (Unit {0})
unfolding notify_one change_job set_rebooting
set_job_rebooting now id message s = elim (get id s.jobs) [
  | none ↦ (s, err (not_found id))
  | some j ↦
      if status_eq j.status running
      then (notify_one (change_job now id (set_rebooting now message) s), ok tt)
      else (s, err (not_running id j.status))
]
