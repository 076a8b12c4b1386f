-- ===== src/Scheduler/System/Frame.antt =====
-- What the calls leave alone.
use linux_patch_api.Prelude.{ℕ, Bool, List, [], ◌∷◌, ◌≡◌, arith}
use linux_patch_api.Jobs.Job.{Job, Env}
use linux_patch_api.Scheduler.State.{SchedulerState, change_job}
use linux_patch_api.Scheduler.Admission.{admit_job, create_rollback_job, freeze_admission}
use linux_patch_api.Scheduler.SelfUpdate.{
  try_reserve_self_update, release_self_update, drop_self_update_guard,
}
use linux_patch_api.Scheduler.Reboot
use linux_patch_api.Scheduler.Reboot.{
  cancel_by_reboot, to_fail, cancel_all, create_reboot_job, reserve_reboot, rollback_reboot,
  begin_reboot_execution, set_job_rebooting,
}
use linux_patch_api.Scheduler.Dispatch.{TaskOutcome, finalize, watchdog_finish}
use linux_patch_api.Scheduler.Lifecycle.{
  update_job, add_job_log, complete_job, fail_job, fail_job_with_diagnostics, delete_job,
}
use linux_patch_api.Scheduler.System.{
  Op, admit, create_rollback, freeze, reserve_update, release_update, drop_update_guard,
  reserve_restart, roll_back_reboot, begin_reboot, set_rebooting, update, log, complete, fail,
  fail_detailed, delete, apply,
}

-- The mutation slot, its generation and the limits of a state.
pub record Frame (s t : SchedulerState) : Type 0 where
  pub slot : t.active_mutation ≡ s.active_mutation
  pub generation : t.mutation_generation ≡ s.mutation_generation
  pub concurrent : t.max_concurrent ≡ s.max_concurrent
  pub depth : t.max_queue_depth ≡ s.max_queue_depth

pub change_job-Frame :
    (now id : ℕ) (f : Job → Job) (s : SchedulerState) → Frame s (change_job now id f s)
unfolding change_job
change_job-Frame now id f s = ground arith

pub Frame-trans : {s t u : SchedulerState} → Frame s t → Frame t u → Frame s u
Frame-trans f g = ground arith

pub cancel_all-Frame :
    (now : ℕ) (ids : List ℕ) (s : SchedulerState) → Frame s (cancel_all now ids s)
unfolding cancel_all
cancel_all-Frame now [] s = ground arith
cancel_all-Frame now (id ∷ ids) s =
    Frame-trans (change_job-Frame now id (cancel_by_reboot now) s) (cancel_all-Frame now ids _)

-- The admission mode and the two reservations of a state.
pub record Keeps (s t : SchedulerState) : Type 0 where
  pub admission : t.admission ≡ s.admission
  pub self_update : t.self_update ≡ s.self_update
  pub reboot : t.reboot_pending ≡ s.reboot_pending

pub change_job-Keeps :
    (now id : ℕ) (f : Job → Job) (s : SchedulerState) → Keeps s (change_job now id f s)
unfolding change_job
change_job-Keeps now id f s = ground arith

Keeps-trans : {s t u : SchedulerState} → Keeps s t → Keeps t u → Keeps s u
Keeps-trans f g = ground arith

pub cancel_all-Keeps :
    (now : ℕ) (ids : List ℕ) (s : SchedulerState) → Keeps s (cancel_all now ids s)
unfolding cancel_all
cancel_all-Keeps now [] s = ground arith
cancel_all-Keeps now (id ∷ ids) s =
    Keeps-trans (change_job-Keeps now id (cancel_by_reboot now) s) (cancel_all-Keeps now ids _)

pub watchdog_finish-Keeps :
    (now id g : ℕ) (outcome : TaskOutcome) (alive : Bool) (s : SchedulerState)
    → Keeps s (watchdog_finish now id g outcome alive s)
unfolding watchdog_finish finalize
watchdog_finish-Keeps now id g outcome alive s = ground arith

reserve-Frame : (env : Env) (s : SchedulerState) → Frame s (Reboot.reserve env s)
unfolding Reboot.reserve create_reboot_job
reserve-Frame env s =
    let s' = create_reboot_job env s in
    ground (arith, cancel_all-Frame env.now (to_fail env.new_id s'.jobs) s')

pub apply-Frame : (op : Op) (s : SchedulerState) → Frame s (apply op s)
unfolding apply
apply-Frame (admit env op packages) s = unfold admit_job in ground arith
apply-Frame (create_rollback env id) s = unfold create_rollback_job in ground arith
apply-Frame freeze s = unfold freeze_admission in ground arith
apply-Frame (reserve_update env packages from target) s =
    unfold try_reserve_self_update in ground arith
apply-Frame (release_update id) s = unfold release_self_update in ground arith
apply-Frame (drop_update_guard id) s = unfold drop_self_update_guard in ground arith
apply-Frame (reserve_restart env force ack) s =
    unfold reserve_reboot in ground (arith, reserve-Frame env s)
apply-Frame (roll_back_reboot now id error) s = unfold rollback_reboot in ground arith
apply-Frame (begin_reboot now id) s = unfold begin_reboot_execution in ground arith
apply-Frame (set_rebooting now id message) s = unfold set_job_rebooting in ground arith
apply-Frame (update now id status progress message) s = unfold update_job in ground arith
apply-Frame (log now id message) s = unfold add_job_log in ground arith
apply-Frame (complete now id) s = unfold complete_job in ground arith
apply-Frame (fail now id error) s = unfold fail_job in ground arith
apply-Frame (fail_detailed now id d) s = unfold fail_job_with_diagnostics in ground arith
apply-Frame (delete id) s = unfold delete_job in ground arith
