-- ===== src/Scheduler/SelfUpdate.antt =====
-- The reservation of a self-update, its release and its guard: src/jobs/scheduler.rs.
use linux_patch_api.Prelude.{
  ℕ, String, Bool, true, false, not, ltb, ◌==◌, List, Option, none, some, if◌then◌else◌, is_some,
}
use linux_patch_api.Prelude.Result.{Result, ok, err}
use linux_patch_api.Prelude.Table.{get, remove}
use linux_patch_api.Jobs.Status.{self_update}
use linux_patch_api.Jobs.Job.{Job, Env, is_internal}
use linux_patch_api.Jobs.Job
use linux_patch_api.Scheduler.State.{
  SchedulerState, UpgradeOperation, is_open, notify_one, active_user_count, next_generation,
}
use linux_patch_api.Scheduler.Admission.{create_job}

-- `SelfUpdateAdmissionError`.
pub data SelfUpdateAdmissionError : Type 0 where
  already_in_progress queue_full : SelfUpdateAdmissionError
  jobs_in_progress : ℕ → SelfUpdateAdmissionError

-- `get(&mid).map(is_internal).unwrap_or(false)`.
abbrev pub is_internal_job : Option Job → Bool
is_internal_job none = false
is_internal_job (some j) = is_internal j

-- The mutation slot is held, and not by an internal tracking job.
abbrev pub slot_blocks : SchedulerState → Bool
slot_blocks s = elim s.active_mutation [
  | none ↦ false
  | some mid ↦ not (is_internal_job (get mid s.jobs))
]

-- The part of `try_reserve_self_update` behind its guards.
unfoldable pub reserve : Env → List String → String → String → SchedulerState → SchedulerState
unfolding next_generation create_job notify_one
reserve env packages from target s =
    let (generation, s') = next_generation s in
    notify_one (
      create_job env (Job.new env self_update packages) (record s' {
        self_update = some (record {
          job_id = env.new_id;
          from_version = from;
          target_version = target;
          generation = generation;
        });
      }))

-- `Scheduler::try_reserve_self_update`. The guard that it returns is its job id.
unfoldable pub try_reserve_self_update :
    Env
    → List String
    → String
    → String
    → SchedulerState
    → SchedulerState × Result SelfUpdateAdmissionError ℕ
unfolding reserve
try_reserve_self_update env packages from target s =
    if is_open s.admission
    then if is_some s.self_update
      then (s, err already_in_progress)
      else if is_some s.reboot_pending
      then (s, err already_in_progress)
      else if slot_blocks s
      then (s, err (jobs_in_progress 1))
      else if ltb 0 (active_user_count s)
      then (s, err (jobs_in_progress (active_user_count s)))
      else if s.max_queue_depth == 0
      then (s, err queue_full)
      else (reserve env packages from target s, ok env.new_id)
    else (s, err already_in_progress)

-- The self-update is owned by this job.
abbrev pub owns_self_update : Option UpgradeOperation → ℕ → Bool
owns_self_update none id = false
owns_self_update (some su) id = su.job_id == id

-- `Scheduler::release_self_update`.
unfoldable pub release_self_update : ℕ → SchedulerState → SchedulerState × Bool
unfolding notify_one
release_self_update id s =
    if owns_self_update s.self_update id
    then (notify_one (record s { self_update = none }), true)
    else (s, false)

-- The task that dropping an uncommitted `SelfUpdateReservationGuard` spawns.
unfoldable pub drop_self_update_guard : ℕ → SchedulerState → SchedulerState
unfolding notify_one
drop_self_update_guard id s = notify_one (record s {
  self_update = if owns_self_update s.self_update id then none else s.self_update;
  jobs = remove id s.jobs;
})
