-- ===== src/Scheduler/Admission.antt =====
-- Admission of ordinary and rollback jobs, and the freeze: src/jobs/scheduler.rs. An operation
-- yields the state that it leaves behind and what it returns.
use linux_patch_api.Prelude.{
  ℕ, String, Bool, true, false, List, Option, none, some, leb, if◌then◌else◌, is_some,
}
use linux_patch_api.Prelude.Result.{Result, ok, err}
use linux_patch_api.Prelude.Table.{get, insert, modify}
use linux_patch_api.Jobs.Status.{JobStatus, JobOperation, rollback, pending, completed, failed}
use linux_patch_api.Jobs.Job.{Job, Env}
use linux_patch_api.Jobs.Job
use linux_patch_api.Scheduler.State.{
  SchedulerState, is_open, frozen, emit_event, notify_one, active_user_count,
}

-- `JobAdmissionError`.
pub data JobAdmissionError : Type 0 where
  self_update_in_progress queue_full admission_frozen : JobAdmissionError

-- `state.jobs.insert(job_id, job)` and the event "Job created".
unfoldable pub create_job : Env → Job → SchedulerState → SchedulerState
unfolding emit_event
create_job env job s =
    emit_event env.now job.id pending 0 "Job created" (record s { jobs = insert job.id job s.jobs })

-- `admit_job_inner`.
unfoldable pub admit_job_inner :
    Env → JobOperation → List String → SchedulerState → SchedulerState × Result JobAdmissionError ℕ
unfolding create_job
admit_job_inner env op packages s =
    if is_open s.admission
    then if is_some s.self_update
      then (s, err self_update_in_progress)
      else if is_some s.reboot_pending
      then (s, err admission_frozen)
      else if leb s.max_queue_depth (active_user_count s)
      then (s, err queue_full)
      else (create_job env (Job.new env op packages) s, ok env.new_id)
    else (s, err admission_frozen)

-- A wake-up after success; an error returns before it.
abbrev pub notify_on_ok :
    SchedulerState × Result JobAdmissionError ℕ → SchedulerState × Result JobAdmissionError ℕ
notify_on_ok (s, ok id) = (notify_one s, ok id)
notify_on_ok (s, err e) = (s, err e)

-- `Scheduler::admit_job`.
unfoldable pub admit_job :
    Env → JobOperation → List String → SchedulerState → SchedulerState × Result JobAdmissionError ℕ
unfolding admit_job_inner notify_one
admit_job env op packages s = notify_on_ok (admit_job_inner env op packages s)

-- `matches!(status, Failed | Completed)`.
abbrev pub can_roll_back : JobStatus → Bool
can_roll_back failed = true
can_roll_back completed = true
can_roll_back _ = false

abbrev pub mark_rollback : ℕ → Job → Job
mark_rollback original j = record j { exclusive_mode = true; rollback_job_id = some original }

unfoldable pub finish_rollback :
    ℕ
    → SchedulerState × Result JobAdmissionError ℕ
    → SchedulerState × Result JobAdmissionError (Option ℕ)
unfolding notify_one
finish_rollback original (s, ok id) =
    (notify_one (record s { jobs = modify id (mark_rollback original) s.jobs }), ok (some id))
finish_rollback original (s, err e) = (s, err e)

-- `Scheduler::create_rollback_job`.
unfoldable pub create_rollback_job :
    Env → ℕ → SchedulerState → SchedulerState × Result JobAdmissionError (Option ℕ)
unfolding admit_job_inner finish_rollback
create_rollback_job env original s = elim (get original s.jobs) [
  | none ↦ (s, ok none)
  | some j ↦
      if can_roll_back j.status
      then finish_rollback original (admit_job_inner env rollback j.packages s)
      else (s, ok none)
]

-- `Scheduler::freeze_admission`.
unfoldable pub freeze_admission : SchedulerState → SchedulerState
unfolding notify_one
freeze_admission s = notify_one (record s { admission = frozen })
