-- ===== src/Scheduler/Examples.antt =====
-- The theorems on the scheduler at concrete states.
use linux_patch_api.Prelude.{
  suc, ◌≤◌, true, false, List, [], ◌∷◌, none, some, ◌≡◌, refl, arith, inl, inr, String,
}
use linux_patch_api.Prelude.Text.{is_sentinel}
use linux_patch_api.Prelude.Table.{get, count, insert}
use linux_patch_api.Jobs.Status.{install, patch_apply}
use linux_patch_api.Jobs.Job.{Job, Env, is_internal}
use linux_patch_api.Jobs.Job
use linux_patch_api.Scheduler.State.{SchedulerState, running_count, is_open}
use linux_patch_api.Scheduler.State
use linux_patch_api.Scheduler.Admission.{admit_job, freeze_admission}
use linux_patch_api.Scheduler.Reboot.{
  reserve_reboot, rollback_reboot, cancel_by_reboot, roll_back_job, create_reboot_job, to_fail,
  cancel_all,
}
use linux_patch_api.Scheduler.Reboot
use linux_patch_api.Scheduler.Dispatch.{
  closure_err, try_dispatch, watchdog_finish, still_owns, refusal, must_wait, acquire,
}
use linux_patch_api.Scheduler.Dispatch.Entry.{MayEnter}
use linux_patch_api.Scheduler.Lifecycle.{complete_job}
use linux_patch_api.Scheduler.Reservations.{reserve_reboot-cancels}
use linux_patch_api.Scheduler.System.{
  System, Watchdog, spawned, first, call, dispatch, Reach, here, next, admit, apply, start,
  reserve_restart, log,
}
use linux_patch_api.Scheduler.System.Slot.{IsOwned, Reach-IsOwned, watchdog_finish-frees}
use linux_patch_api.Scheduler.System.Capacity.{Reach-IsWithin}
use linux_patch_api.Scheduler.System.Barriers.{
  NothingNew, rest, more, reboot_barrier, freeze_barrier,
}

-- Job 7 is admitted at time 100.
abbrev env : Env
env = record { now = 100; new_id = 7; boot = none }

abbrev later_env : Env
later_env = record { now = 200; new_id = 8; boot = none }

abbrev curl : List String
curl = "curl" ∷ []

abbrev idle : SchedulerState
idle = State.new 2 5 1

abbrev admitted : System
admitted = record {
  state = apply (admit env install curl) (start 2 5 1).state;
  watchdogs = (start 2 5 1).watchdogs;
}

abbrev dispatched : System
dispatched = record {
  state = (try_dispatch 110 7 admitted.state).0;
  watchdogs = spawned 7 (try_dispatch 110 7 admitted.state).1 admitted.watchdogs;
}

dispatched-Reach : Reach (start 2 5 1) dispatched
dispatched-Reach =
    next (next here (call (start 2 5 1) (admit env install curl))) (dispatch admitted 110 7)

Reach-IsOwned_example : IsOwned dispatched
Reach-IsOwned_example = Reach-IsOwned 2 5 1 dispatched-Reach

Reach-IsWithin_example : running_count dispatched.state ≤ dispatched.state.max_concurrent
Reach-IsWithin_example = Reach-IsWithin 2 5 1 dispatched-Reach

abbrev one_watchdog : Watchdog
one_watchdog = record { job_id = 7; generation = 1 }

watchdog_finish-frees_example :
    let s' = watchdog_finish 300 7 1 (closure_err "boom") false dispatched.state in
    (still_owns 7 1 dispatched.state ≡ true)
    × (s'.active_mutation ≡ none)
    × (◌≡◌ {A = List Watchdog} [] [])
    × (s'.wakes ≡ suc dispatched.state.wakes)
unfolding apply start State.new admit_job try_dispatch refusal must_wait acquire get count insert
    Job.new
watchdog_finish-frees_example =
    watchdog_finish-frees 2 5 1 {w = one_watchdog} 300 (closure_err "boom") false dispatched-Reach
      first

-- A reboot is reserved while nothing goes on; then a log line is added and a mutation tried.
abbrev rebooting_system : System
rebooting_system = record {
  state = apply (reserve_restart later_env false false) idle;
  watchdogs = [];
}

abbrev logged : System
logged = record { state = apply (log 250 8 "going down") rebooting_system.state; watchdogs = [] }

reboot_barrier_example :
    (logged.state.reboot_pending ≡ some 8) × NothingNew 9 rebooting_system logged
unfolding apply State.new reserve_reboot Reboot.reserve create_reboot_job to_fail cancel_all get
    count insert Job.new
reboot_barrier_example =
    reboot_barrier 8 9 {t = rebooting_system}
      (more rest (call rebooting_system (log 250 8 "going down")) refl) refl refl

abbrev frozen_system : System
frozen_system = record { state = freeze_admission idle; watchdogs = [] }

freeze_barrier_example :
    (is_open (apply (admit env install curl) frozen_system.state).admission ≡ false)
    × NothingNew 7 frozen_system
        (record frozen_system { state = apply (admit env install curl) frozen_system.state })
unfolding freeze_admission State.new get
freeze_barrier_example =
    freeze_barrier 7 {t = frozen_system} (next here (call frozen_system (admit env install curl)))
      refl refl

-- Job 7 is pending when the reboot is forced.
reserve_reboot-cancels_example :
    let s' = (reserve_reboot later_env true false admitted.state).0 in
    (s'.reboot_pending ≡ some 8)
    × (get 7 s'.jobs ≡ some (cancel_by_reboot 200 (Job.new env install curl)))
unfolding apply start State.new admit_job reserve_reboot get count insert Job.new is_internal
    is_sentinel
reserve_reboot-cancels_example =
    reserve_reboot-cancels later_env true false admitted.state 7 (refl, tt) refl

admitted-MayEnter : MayEnter 7 admitted.state
unfolding apply start State.new admit_job get count insert Job.new
admitted-MayEnter = record {
  open_admission = refl;
  no_reboot = refl;
  update = inl refl;
  slot = refl;
  room = inr (omega arith);
}

-- Job 7 is completed before it was ever dispatched.
abbrev completed_state : SchedulerState
completed_state = complete_job 150 7 admitted.state

abbrev completed_job : Job
completed_job = Job.complete 150 (Job.new env install curl)

-- A finished and a waiting job in the history file.
abbrev waiting_job : Job
waiting_job = Job.new later_env patch_apply curl
