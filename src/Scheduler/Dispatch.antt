-- ===== src/Scheduler/Dispatch.antt =====
-- The mutation slot: one pass of the wait loop of `dispatch_mutation`, and the watchdog that ends a
-- mutation: src/jobs/scheduler.rs.
pub mod Entry
pub mod Finish
use linux_patch_api.Prelude.{
  ℕ, ◌+◌, ◌%◌, String, Bool, true, false, ◌&&◌, not, leb, ◌==◌, Option, none, some, if◌then◌else◌,
  is_some, is_some_of,
}
use linux_patch_api.Prelude.Text.{concat, show_ℕ}
use linux_patch_api.Prelude.Table.{get}
use linux_patch_api.Packages.Runner.{cache_refresh_timeout, package_op_timeout}
use linux_patch_api.Jobs.Status.{JobStatus, running, pending, failed}
use linux_patch_api.Jobs.Job.{Job, add_log, is_internal}
use linux_patch_api.Scheduler.State.{
  SchedulerState, opened, frozen, recovery, notify_one, change_job, running_count, is_running,
  u64_mod,
}
use linux_patch_api.Scheduler.SelfUpdate.{owns_self_update}

-- The errors that the loop returns with.
pub data DispatchError : Type 0 where
  admission_frozen in_recovery reboot_reserved self_update_conflict : DispatchError

-- One pass of the loop returns, waits for a notification, or acquires the slot under a generation,
-- with a watchdog's backstop in seconds.
pub data Attempt : Type 0 where
  rejected : DispatchError → Attempt
  waits : Attempt
  acquired : ℕ → ℕ → Attempt

-- `watchdog_backstop_for`.
unfoldable pub watchdog_backstop_for : Job → ℕ
watchdog_backstop_for j =
    if is_internal j
    then cache_refresh_timeout + 60
    else package_op_timeout + cache_refresh_timeout + 300

-- `get(&job_id).map(watchdog_backstop_for).unwrap_or(…)`.
abbrev backstop_of : Option Job → ℕ
backstop_of none = package_op_timeout + cache_refresh_timeout + 300
backstop_of (some j) = watchdog_backstop_for j

-- `get(&job_id).map(|j| j.status == Running).unwrap_or(false)`.
abbrev pub is_running_job : Option Job → Bool
is_running_job none = false
is_running_job (some j) = is_running j

-- What acquiring the slot does to the job.
unfoldable pub begin_job : ℕ → Bool → Job → Job
unfolding add_log
begin_job now already j =
    if already
    then record j { updated_at = now }
    else record (add_log now "Job started" (record j { status = running })) { updated_at = now }

-- The reasons to return at once, in the order of the code.
unfoldable pub refusal : ℕ → SchedulerState → Option DispatchError
refusal id s = elim s.admission [
  | frozen ↦ some admission_frozen
  | recovery ↦ some in_recovery
  | opened ↦
      if is_some s.reboot_pending
      then some reboot_reserved
      else if is_some s.self_update && not (owns_self_update s.self_update id)
      then some self_update_conflict
      else none
]

-- The reasons to wait.
unfoldable pub must_wait : ℕ → SchedulerState → Bool
must_wait id s =
    if not (is_running_job (get id s.jobs)) && leb s.max_concurrent (running_count s)
    then true
    else is_some s.active_mutation

-- "All slots acquired atomically."
unfoldable pub acquire : ℕ → ℕ → SchedulerState → SchedulerState × Attempt
unfolding change_job begin_job watchdog_backstop_for
acquire now id s =
    let generation = (s.mutation_generation + 1) % u64_mod in
    let s' =
      change_job now id (begin_job now (is_running_job (get id s.jobs)))
        (record s { active_mutation = some id; mutation_generation = generation }) in
    (s', acquired generation (backstop_of (get id s'.jobs)))

-- One pass of the loop of `Scheduler::dispatch_mutation`, up to the persisting of the jobs.
unfoldable pub try_dispatch : ℕ → ℕ → SchedulerState → SchedulerState × Attempt
try_dispatch now id s = elim (refusal id s) [
  | some e ↦ (s, rejected e)
  | none ↦ if must_wait id s then (s, waits) else acquire now id s
]

-- How the blocking task ended for the watchdog. The first two carry what the closure returned.
pub data TaskOutcome : Type 0 where
  closure_ok : TaskOutcome
  closure_err panicked : String → TaskOutcome
  backstop_elapsed : ℕ → TaskOutcome

-- The `result` that the watchdog sends, as the error's text; `none` for `Ok`.
unfoldable pub error_text : TaskOutcome → Option String
error_text closure_ok = none
error_text (closure_err e) = some e
error_text (panicked e) = some (concat "Mutation task panicked: " e)
error_text (backstop_elapsed secs) =
    some (concat "Mutation timed out after " (concat (show_ℕ secs) " seconds (watchdog backstop)"))

-- The job that no caller will finish.
unfoldable pub abandon : ℕ → Option String → Job → Job
unfolding add_log
abandon now none j =
    record (add_log now "Watchdog: caller dropped, operation succeeded but result undeliverable"
      (record j {
        status = failed;
        error = some "Caller cancelled after mutation completed — result could not be delivered";
      })) { completed_at = some now; updated_at = now }
abandon now (some e) j =
    record (add_log now "Watchdog: caller dropped, operation failed" (record j {
      status = failed;
      error = some (concat "Caller cancelled with underlying error: " e);
    })) { completed_at = some now; updated_at = now }

-- `matches!(status, Running | Pending)`.
abbrev pub is_unfinished : JobStatus → Bool
is_unfinished running = true
is_unfinished pending = true
is_unfinished _ = false

-- The watchdog of this job and generation still owns the slot.
abbrev pub still_owns : ℕ → ℕ → SchedulerState → Bool
still_owns id generation s = is_some_of s.active_mutation id && s.mutation_generation == generation

unfoldable pub finalize : ℕ → ℕ → TaskOutcome → SchedulerState → SchedulerState
unfolding change_job abandon error_text
finalize now id outcome s = elim (get id s.jobs) [
  | none ↦ s
  | some j ↦
      if is_unfinished j.status then change_job now id (abandon now (error_text outcome)) s else s
]

-- What the watchdog does under the lock once the task has ended. `caller_alive` says whether the
-- caller still holds the receiver.
unfoldable pub watchdog_finish : ℕ → ℕ → ℕ → TaskOutcome → Bool → SchedulerState → SchedulerState
unfolding finalize notify_one
watchdog_finish now id generation outcome caller_alive s =
    let released = record s { active_mutation = none } in
    if still_owns id generation s
    then notify_one (if caller_alive then released else finalize now id outcome released)
    else notify_one s
