-- ===== src/Scheduler/System.antt =====
-- The scheduler as a system: every operation on its state as one step under the lock, and the
-- watchdogs that are in flight beside it. Waiting callers need no state of their own: a pass of
-- their loop may be made at any time, as after any wake-up.
pub mod Frame
pub mod Slot
pub mod Counts
pub mod Capacity
pub mod Closed
pub mod Barriers
use linux_patch_api.Prelude.{ℕ, String, Bool, List, [], ◌∷◌, Option}
use linux_patch_api.Jobs.Status.{JobStatus, JobOperation}
use linux_patch_api.Jobs.Job.{Job, Env, Diagnosis}
use linux_patch_api.Scheduler.State.{SchedulerState, new}
use linux_patch_api.Scheduler.Admission.{admit_job, create_rollback_job, freeze_admission}
use linux_patch_api.Scheduler.SelfUpdate.{
  try_reserve_self_update, release_self_update, drop_self_update_guard,
}
use linux_patch_api.Scheduler.Reboot.{
  reserve_reboot, rollback_reboot, begin_reboot_execution, set_job_rebooting,
}
use linux_patch_api.Scheduler.Dispatch.{
  Attempt, rejected, waits, acquired, TaskOutcome, try_dispatch, watchdog_finish,
}
use linux_patch_api.Scheduler.Lifecycle.{
  update_job, add_job_log, complete_job, fail_job, fail_job_with_diagnostics, delete_job,
}

-- The calls that change the state, but for the mutation slot. Dropping a reboot guard is a
-- `roll_back_reboot`. The calls at start-up stand apart.
pub data Op : Type 0 where
  admit : Env → JobOperation → List String → Op
  create_rollback : Env → ℕ → Op
  freeze : Op
  reserve_update : Env → List String → String → String → Op
  release_update : ℕ → Op
  drop_update_guard : ℕ → Op
  reserve_restart : Env → Bool → Bool → Op
  roll_back_reboot : ℕ → ℕ → Option String → Op
  begin_reboot : ℕ → ℕ → Op
  set_rebooting : ℕ → ℕ → String → Op
  update : ℕ → ℕ → JobStatus → Option ℕ → Option String → Op
  log : ℕ → ℕ → String → Op
  complete : ℕ → ℕ → Op
  fail : ℕ → ℕ → String → Op
  fail_detailed : ℕ → ℕ → Diagnosis → Op
  delete : ℕ → Op

-- The state that a call leaves behind.
unfoldable pub apply : Op → SchedulerState → SchedulerState
apply (admit env op packages) s = (admit_job env op packages s).0
apply (create_rollback env id) s = (create_rollback_job env id s).0
apply freeze s = freeze_admission s
apply (reserve_update env packages from target) s =
    (try_reserve_self_update env packages from target s).0
apply (release_update id) s = (release_self_update id s).0
apply (drop_update_guard id) s = drop_self_update_guard id s
apply (reserve_restart env force ack) s = (reserve_reboot env force ack s).0
apply (roll_back_reboot now id error) s = (rollback_reboot now id error s).0
apply (begin_reboot now id) s = (begin_reboot_execution now id s).0
apply (set_rebooting now id message) s = (set_job_rebooting now id message s).0
apply (update now id status progress message) s = (update_job now id status progress message s).0
apply (log now id message) s = add_job_log now id message s
apply (complete now id) s = complete_job now id s
apply (fail now id error) s = fail_job now id error s
apply (fail_detailed now id d) s = fail_job_with_diagnostics now id d s
apply (delete id) s = (delete_job id s).0

-- A watchdog in flight: the job and the generation that it was spawned with.
pub record Watchdog : Type 0 where
  pub job_id : ℕ
  pub generation : ℕ

pub record System : Type 0 where
  pub state : SchedulerState
  pub watchdogs : List Watchdog

-- `Scheduler::new`: no watchdog is in flight.
unfoldable pub start : ℕ → ℕ → ℕ → System
unfolding new
start max_concurrent max_queue_depth counter = record {
  state = new max_concurrent max_queue_depth counter;
  watchdogs = [];
}

-- A watchdog is spawned if the pass acquired the slot.
abbrev pub spawned : ℕ → Attempt → List Watchdog → List Watchdog
spawned id (acquired generation backstop) ws = record { job_id = id; generation = generation } ∷ ws
spawned id _ ws = ws

-- One watchdog out of those in flight, and the rest.
pub data Picks (w : Watchdog) : List Watchdog → List Watchdog → Type 0 where
  first : {ws : List Watchdog} → Picks w (w ∷ ws) ws
  later : {v : Watchdog} {ws rest : List Watchdog} → Picks w ws rest → Picks w (v ∷ ws) (v ∷ rest)

pub data Step : System → System → Type 0 where
  call : (t : System) (op : Op) → Step t (record t { state = apply op t.state })
  dispatch :
      (t : System) (now id : ℕ)
      → Step t (record {
        state = (try_dispatch now id t.state).0;
        watchdogs = spawned id (try_dispatch now id t.state).1 t.watchdogs;
      })
  finish :
      (t : System) (w : Watchdog) (rest : List Watchdog) (now : ℕ) (outcome : TaskOutcome)
      (caller_alive : Bool)
      → Picks w t.watchdogs rest
      → Step t (record {
        state = watchdog_finish now w.job_id w.generation outcome caller_alive t.state;
        watchdogs = rest;
      })

pub data Reach (s : System) : System → Type 0 where
  here : Reach s s
  next : {t u : System} → Reach s t → Step t u → Reach s u
