-- ===== src/Scheduler/System/Capacity.antt =====
-- The limit on running jobs, kept by every step of the system.

use linux_patch_api.Prelude.{
  ℕ, ◌+◌, ◌%◌, ◌≤◌, String, Bool, false, Option, none, some, ◌≡◌, arith, to_nat, Option-cases, inl,
  inr,
}
use linux_patch_api.Prelude.Table.{get, count, count-remove-le}
use linux_patch_api.Jobs.Status.{rollback, JobStatus}
use linux_patch_api.Jobs.Job.{Job, Env, Diagnosis, add_log, add_logs, fail_with_diagnostics}
use linux_patch_api.Jobs.Job
use linux_patch_api.Scheduler.State.{SchedulerState, is_running, running_count, u64_mod}
use linux_patch_api.Scheduler.Admission.{
  admit_job_inner, admit_job, create_rollback_job, freeze_admission,
}
use linux_patch_api.Scheduler.SelfUpdate.{
  try_reserve_self_update, release_self_update, drop_self_update_guard,
}
use linux_patch_api.Scheduler.Reboot.{
  reserve_reboot, rollback_reboot, roll_back_job, start_rebooting, begin_reboot_execution,
  set_job_rebooting,
}
use linux_patch_api.Scheduler.Lifecycle.{
  update_job, apply_update, add_job_log, complete_job, fail_job, delete_job,
}
use linux_patch_api.Scheduler.Dispatch.{
  acquire, begin_job, is_running_job, must_wait, try_dispatch, watchdog_finish, finalize, abandon,
  TaskOutcome, error_text,
}
use linux_patch_api.Scheduler.System.Counts.{
  count-change_job, change_job-running-le, modify-running-le, admit_job_inner-running-le,
  reserve-running-le, fail_detailed-running-le, finish_rollback-running-le,
  reserve_update-running-le,
}
use linux_patch_api.Scheduler.System.Frame.{change_job-Frame, apply-Frame}
use linux_patch_api.Scheduler.System.Slot.{refused, parked, entered, try_dispatch-Pass}
use linux_patch_api.Scheduler.System.{
  System, Step, call, dispatch, finish, Reach, here, next, start, Op, admit, create_rollback,
  freeze, reserve_update, release_update, drop_update_guard, reserve_restart, roll_back_reboot,
  begin_reboot, set_rebooting, update, log, complete, fail, fail_detailed, delete, apply,
}

create_rollback-running-le :
    (env : Env) (original : ℕ) (s : SchedulerState)
    → running_count (create_rollback_job env original s).0 ≤ running_count s
unfolding create_rollback_job
create_rollback-running-le env original s = elim (Option-cases (get original s.jobs)) [
  | inl e ↦ rw (e, create_rollback_job) (omega arith)
  | inr (j, e) ↦
      rw (e, create_rollback_job)
        (ground (
          arith,
          finish_rollback-running-le original (admit_job_inner env rollback j.packages s),
          admit_job_inner-running-le env rollback j.packages s,
        ))
]

-- The limit holds.
abbrev pub IsWithin : SchedulerState → Type 0
IsWithin s = running_count s ≤ s.max_concurrent

update-IsWithin :
    (now id : ℕ) (status : JobStatus) (progress : Option ℕ) (message : Option String)
    (s : SchedulerState)
    → IsWithin s
    → running_count (update_job now id status progress message s).0 ≤ s.max_concurrent
unfolding update_job apply_update
update-IsWithin now id status progress message s h =
    ground (arith, count-change_job is_running now id (apply_update now status progress message) s)

roll_back_job-running-le :
    (now : ℕ) (error : Option String) (j : Job)
    → to_nat (is_running (roll_back_job now error j)) ≤ to_nat (is_running j)
unfolding roll_back_job
roll_back_job-running-le now none j = omega arith
roll_back_job-running-le now (some e) j = omega arith

-- Every call but `update_job` leaves no more jobs running than before.
call-running-le :
    (op : Op) (s : SchedulerState) → IsWithin s → running_count (apply op s) ≤ s.max_concurrent
unfolding apply
call-running-le (admit env op packages) s h =
    unfold admit_job in ground (arith, admit_job_inner-running-le env op packages s)
call-running-le (create_rollback env id) s h = omega (arith, create_rollback-running-le env id s)
call-running-le freeze s h = unfold freeze_admission in h
call-running-le (reserve_update env packages from target) s h =
    unfold try_reserve_self_update in
    ground (arith, reserve_update-running-le env packages from target s)
call-running-le (release_update id) s h = unfold release_self_update in ground arith
call-running-le (drop_update_guard id) s h =
    unfold drop_self_update_guard in omega (arith, count-remove-le is_running id s.jobs)
call-running-le (reserve_restart env force ack) s h =
    unfold reserve_reboot in ground (arith, reserve-running-le env s)
call-running-le (roll_back_reboot now id error) s h =
    let s0 = record s { reboot_pending = none } in
    unfold rollback_reboot in
    ground (
      arith,
      change_job-running-le now id (roll_back_job now error) s0
          (roll_back_job-running-le now error),
    )
call-running-le (begin_reboot now id) s h =
    unfold begin_reboot_execution in
    ground (arith, change_job-running-le now id (start_rebooting now) s (λ j. omega arith))
call-running-le (set_rebooting now id message) s h =
    unfold set_job_rebooting in
    ground
      (arith, change_job-running-le now id (Job.set_rebooting now message) s (λ j. omega arith))
call-running-le (update now id status progress message) s h =
    update-IsWithin now id status progress message s h
call-running-le (log now id message) s h =
    unfold add_job_log in
    omega (arith, modify-running-le id (add_log now message) s.jobs (λ j. omega arith))
call-running-le (complete now id) s h =
    unfold complete_job in
    omega (arith, change_job-running-le now id (Job.complete now) s (λ j. omega arith))
call-running-le (fail now id error) s h =
    unfold fail_job in
    omega (arith, change_job-running-le now id (Job.fail now error) s (λ j. omega arith))
call-running-le (fail_detailed now id d) s h = omega (arith, fail_detailed-running-le now id d s)
call-running-le (delete id) s h =
    unfold delete_job in ground (arith, count-remove-le is_running id s.jobs)

acquire-IsWithin :
    (now id : ℕ) (s : SchedulerState)
    → IsWithin s
    → must_wait id s ≡ false
    → IsWithin (acquire now id s).0
unfolding acquire must_wait begin_job
acquire-IsWithin now id s h w =
    let s0 = record s {
      active_mutation = some id;
      mutation_generation = (s.mutation_generation + 1) % u64_mod;
    } in
    let f = begin_job now (is_running_job (get id s.jobs)) in
    ground (arith, count-change_job is_running now id f s0, change_job-Frame now id f s0)

abandon-running-le :
    (now : ℕ) (error : Option String) (j : Job)
    → to_nat (is_running (abandon now error j)) ≤ to_nat (is_running j)
unfolding abandon
abandon-running-le now none j = omega arith
abandon-running-le now (some e) j = omega arith

finalize-IsWithin :
    (now id : ℕ) (outcome : TaskOutcome) (s : SchedulerState)
    → IsWithin s
    → IsWithin (finalize now id outcome s)
unfolding finalize
finalize-IsWithin now id outcome s h =
    let f = abandon now (error_text outcome) in
    ground (
      arith,
      change_job-running-le now id f s (abandon-running-le now (error_text outcome)),
      change_job-Frame now id f s,
    )

watchdog_finish-IsWithin :
    (now id g : ℕ) (outcome : TaskOutcome) (alive : Bool) (s : SchedulerState)
    → IsWithin s
    → IsWithin (watchdog_finish now id g outcome alive s)
unfolding watchdog_finish
watchdog_finish-IsWithin now id g outcome alive s h =
    let released = record s { active_mutation = none } in
    ground (arith, finalize-IsWithin now id outcome released h)

dispatch-IsWithin :
    (now id : ℕ) (s : SchedulerState) → IsWithin s → IsWithin (try_dispatch now id s).0
dispatch-IsWithin now id s h = elim (try_dispatch-Pass now id s) [
  | refused e _ p ↦ rw p h
  | parked _ _ p ↦ rw p h
  | entered _ w p ↦ rw p (acquire-IsWithin now id s h w)
]

-- Every step of the system keeps the limit.
pub Step-IsWithin : {t u : System} → Step t u → IsWithin t.state → IsWithin u.state
Step-IsWithin (call t op) h = rw (apply-Frame op t.state).concurrent (call-running-le op t.state h)
Step-IsWithin (dispatch t now id) h = dispatch-IsWithin now id t.state h
Step-IsWithin (finish t w rest now outcome alive p) h =
    watchdog_finish-IsWithin now w.job_id w.generation outcome alive t.state h

start-IsWithin : (concurrent depth counter : ℕ) → IsWithin (start concurrent depth counter).state
unfolding start count
start-IsWithin concurrent depth counter = omega arith

-- In every system that the scheduler can reach from its start, by any calls, passes of wait loops
-- and ends of mutations in any order, no more jobs are running than `max_concurrent` allows.
pub Reach-IsWithin :
    (concurrent depth counter : ℕ) {t : System}
    → Reach (start concurrent depth counter) t
    → running_count t.state ≤ t.state.max_concurrent
Reach-IsWithin concurrent depth counter here = start-IsWithin concurrent depth counter
Reach-IsWithin concurrent depth counter (next r st) =
    Step-IsWithin st (Reach-IsWithin concurrent depth counter r)
