-- ===== src/Scheduler/Reservations.antt =====
-- Which reservations are granted, what a granted one does, and how it is undone.
use mathlib.Core.Option
use linux_patch_api.Prelude.{
  ℕ, ◌<◌, Bool, true, false, ◌==◌, String, List, [], Option, none, some, ◌≡◌, ◌≢◌, arith, ◌↔◌,
  if◌then◌else◌,
}
use linux_patch_api.Prelude.Result.{is_ok}
use linux_patch_api.Prelude.Table.{get, remove-insert, Distinct}
use linux_patch_api.Jobs.Status.{reboot, self_update}
use linux_patch_api.Jobs.Job.{Job, Env}
use linux_patch_api.Jobs.Job
use linux_patch_api.Scheduler.State.{SchedulerState, opened, active_user_count, next_generation}
use linux_patch_api.Scheduler.Admission.{create_job}
use linux_patch_api.Scheduler.SelfUpdate.{
  try_reserve_self_update, drop_self_update_guard, slot_blocks,
}
use linux_patch_api.Scheduler.SelfUpdate
use linux_patch_api.Scheduler.Reboot.{
  reserve_reboot, cancel_by_reboot, to_fail, cancel_all, create_reboot_job, rollback_reboot,
  roll_back_job,
}
use linux_patch_api.Scheduler.Reboot
use linux_patch_api.Scheduler.Reboot.Cancel.{cancel_if_pending, get-change_job, get-reserve}
use linux_patch_api.Scheduler.System.Frame.{change_job-Keeps, cancel_all-Keeps}

-- What a self-update needs.
pub record MayUpdate (s : SchedulerState) : Type 0 where
  pub open_admission : s.admission ≡ opened
  pub no_update : s.self_update ≡ none
  pub no_reboot : s.reboot_pending ≡ none
  pub slot : slot_blocks s ≡ false
  pub no_jobs : active_user_count s ≡ 0
  pub queue : s.max_queue_depth ≢ 0

module _ (env : Env) (packages : List String) (from target : String) (s : SchedulerState) where
  -- A self-update is reserved exactly if admission is open, no self-update and no reboot is
  -- reserved, the mutation slot is free or held by an internal job, no active job but internal ones
  -- is there and the queue limit is not 0.
  pub try_reserve_self_update-granted :
      (is_ok (try_reserve_self_update env packages from target s).1 ≡ true) ↔ MayUpdate s
  unfolding try_reserve_self_update
  try_reserve_self_update-granted = (λ h. ground arith, λ h. ground arith)

  -- A refusal leaves the state as it was.
  pub try_reserve_self_update-refused :
      is_ok (try_reserve_self_update env packages from target s).1 ≡ false
      → (try_reserve_self_update env packages from target s).0 ≡ s
  unfolding try_reserve_self_update
  try_reserve_self_update-refused h = ground arith

-- What a reboot needs: with neither flag, no self-update and no active job; with `force` alone, no
-- self-update and no mutation; with both, neither is asked. The queue must have room in all cases.
pub record MayReboot (force ack : Bool) (s : SchedulerState) : Type 0 where
  pub open_admission : s.admission ≡ opened
  pub no_reboot : s.reboot_pending ≡ none
  pub idle : force ≡ false → (s.self_update ≡ none) × (active_user_count s ≡ 0)
  pub safe : force ≡ true → ack ≡ false → (s.self_update ≡ none) × (s.active_mutation ≡ none)
  pub room : active_user_count s < s.max_queue_depth

reserve-reboot_pending :
    (env : Env) (s : SchedulerState) → (Reboot.reserve env s).reboot_pending ≡ some env.new_id
unfolding Reboot.reserve create_reboot_job
reserve-reboot_pending env s =
    let s' = create_reboot_job env s in
    ground (arith, cancel_all-Keeps env.now (to_fail env.new_id s'.jobs) s')

module _ (env : Env) (force ack : Bool) (s : SchedulerState) where
  -- A reboot is reserved exactly if admission is open, no reboot is reserved, fewer active jobs than
  -- the queue limit are there, and: without `force`, no self-update and no active job; with `force`
  -- alone, no self-update and no mutation. Internal jobs do not count as active.
  pub reserve_reboot-granted :
      (is_ok (reserve_reboot env force ack s).1 ≡ true) ↔ MayReboot force ack s
  unfolding reserve_reboot
  reserve_reboot-granted = (λ h. ground arith, λ h. ground arith)

  -- A refusal leaves the state as it was.
  pub reserve_reboot-refused :
      is_ok (reserve_reboot env force ack s).1 ≡ false → (reserve_reboot env force ack s).0 ≡ s
  unfolding reserve_reboot
  reserve_reboot-refused h = ground arith

  reserve_of_granted :
      is_ok (reserve_reboot env force ack s).1 ≡ true
      → (reserve_reboot env force ack s).0 ≡ Reboot.reserve env s
  unfolding reserve_reboot
  reserve_of_granted h = ground arith

  -- A granted reboot reservation makes the new job the owner of the reservation, still pending, and
  -- cancels the jobs that were pending; every other job is as it was. So no other pending job is
  -- left.
  pub reserve_reboot-cancels :
      (k : ℕ)
      → Distinct s.jobs
      → is_ok (reserve_reboot env force ack s).1 ≡ true
      → let s' = (reserve_reboot env force ack s).0 in
        (s'.reboot_pending ≡ some env.new_id)
        × (get k s'.jobs ≡ (
            if env.new_id == k
            then some (Job.new env reboot [])
            else Option.map (cancel_if_pending env.now) (get k s.jobs)))
  reserve_reboot-cancels k d h =
      rw (reserve_of_granted h) (reserve-reboot_pending env s, get-reserve env k s d)

reserve_of_granted_update :
    (env : Env) (packages : List String) (from target : String) (s : SchedulerState)
    → is_ok (try_reserve_self_update env packages from target s).1 ≡ true
    → (try_reserve_self_update env packages from target s).0
      ≡ SelfUpdate.reserve env packages from target s
unfolding try_reserve_self_update
reserve_of_granted_update env packages from target s h = ground arith

drop-reserve :
    (env : Env) (packages : List String) (from target : String) (s : SchedulerState)
    → get env.new_id s.jobs ≡ none
    → s.self_update ≡ none
    → let t = drop_self_update_guard env.new_id (SelfUpdate.reserve env packages from target s) in
      (t.jobs ≡ s.jobs)
      × (t.self_update ≡ s.self_update)
      × (t.reboot_pending ≡ s.reboot_pending)
      × (t.active_mutation ≡ s.active_mutation)
      × (t.admission ≡ s.admission)
unfolding drop_self_update_guard SelfUpdate.reserve create_job next_generation Job.new
drop-reserve env packages from target s fresh h =
    let job = Job.new env self_update packages in
    ground (arith, remove-insert env.new_id job s.jobs fresh)

-- A granted self-update whose guard is dropped without a commit leaves no trace in the jobs, the
-- reservations, the slot and the admission, if its job id was fresh.
drop-try_reserve :
    (env : Env) (packages : List String) (from target : String) (s : SchedulerState)
    → get env.new_id s.jobs ≡ none
    → is_ok (try_reserve_self_update env packages from target s).1 ≡ true
    → let s' = (try_reserve_self_update env packages from target s).0 in
      let t = drop_self_update_guard env.new_id s' in
      (t.jobs ≡ s.jobs)
      × (t.self_update ≡ s.self_update)
      × (t.reboot_pending ≡ s.reboot_pending)
      × (t.active_mutation ≡ s.active_mutation)
      × (t.admission ≡ s.admission)
drop-try_reserve env packages from target s fresh h =
    let may = (try_reserve_self_update-granted env packages from target s).0 h in
    rw (reserve_of_granted_update env packages from target s h)
      (drop-reserve env packages from target s fresh may.no_update)

rollback_of_owner :
    (now id k : ℕ) (error : Option String) (s : SchedulerState)
    → s.reboot_pending ≡ some id
    → let (t, done) = rollback_reboot now id error s in
      (done ≡ true)
      × (t.reboot_pending ≡ none)
      × (get k t.jobs
          ≡ (if id == k then Option.map (roll_back_job now error) (get k s.jobs) else get k s.jobs))
unfolding rollback_reboot
rollback_of_owner now id k error s h =
    let s0 = record s { reboot_pending = none } in
    ground (
      arith,
      get-change_job now id k (roll_back_job now error) s0,
      change_job-Keeps now id (roll_back_job now error) s0,
    )

rollback_of_other :
    (now id : ℕ) (error : Option String) (s : SchedulerState)
    → s.reboot_pending ≢ some id
    → rollback_reboot now id error s ≡ (s, false)
unfolding rollback_reboot
rollback_of_other now id error s h = ground arith

-- Only the owner of the reservation rolls it back. For the owner the reservation ends and its job
-- becomes failed with the given error, or cancelled without one, and no other job changes; for
-- anybody else nothing changes.
pub rollback_reboot-owner :
    (now id k : ℕ) (error : Option String) (s : SchedulerState)
    → ((s.reboot_pending ≡ some id)
        → let (t, done) = rollback_reboot now id error s in
          (done ≡ true)
          × (t.reboot_pending ≡ none)
          × (get k t.jobs ≡ (
              if id == k
              then Option.map (roll_back_job now error) (get k s.jobs)
              else get k s.jobs)))
      × ((s.reboot_pending ≢ some id) → rollback_reboot now id error s ≡ (s, false))
rollback_reboot-owner now id k error s =
    (rollback_of_owner now id k error s, rollback_of_other now id error s)
