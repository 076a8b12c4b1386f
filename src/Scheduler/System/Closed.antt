-- ===== src/Scheduler/System/Closed.antt =====
-- What single calls do while admission is closed or a reboot is reserved.
use linux_patch_api.Prelude.{
  ℕ, Bool, true, false, not, ◌==◌, String, List, none, some, ◌≡◌, ◌≢◌, refl, arith, is_some, inl,
  inr, Option-cases, ◌||◌,
}
use linux_patch_api.Prelude.Result.{err, is_ok}
use linux_patch_api.Prelude.Table.{get, modify, remove, get-modify, get-remove}
use linux_patch_api.Jobs.Status.{JobOperation}
use linux_patch_api.Jobs.Job.{Job, Env, Diagnosis, add_log, fail_with_diagnostics}
use linux_patch_api.Jobs.Job
use linux_patch_api.Scheduler.State.{SchedulerState, is_open, change_job}
use linux_patch_api.Scheduler.Admission.{admit_job, create_rollback_job, freeze_admission}
use linux_patch_api.Scheduler.SelfUpdate.{
  already_in_progress, try_reserve_self_update, release_self_update, drop_self_update_guard,
}
use linux_patch_api.Scheduler.Reboot.{
  roll_back_job, start_rebooting, reserve_reboot, rollback_reboot, begin_reboot_execution,
  set_job_rebooting,
}
use linux_patch_api.Scheduler.Dispatch.{DispatchError, rejected, refusal, try_dispatch}
use linux_patch_api.Scheduler.Lifecycle.{
  update_job, apply_update, add_job_log, complete_job, fail_job, fail_job_with_diagnostics,
  delete_job,
}
use linux_patch_api.Scheduler.System.{
  Op, admit, create_rollback, freeze, reserve_update, release_update, drop_update_guard,
  reserve_restart, roll_back_reboot, begin_reboot, set_rebooting, update, log, complete, fail,
  fail_detailed, delete, apply,
}

-- Admission is closed, or a reboot is reserved.
abbrev pub is_closed : SchedulerState → Bool
is_closed s = not (is_open s.admission) || is_some s.reboot_pending

pub closed_of_reboot : (r : ℕ) (s : SchedulerState) → s.reboot_pending ≡ some r → is_closed s ≡ true
closed_of_reboot r s h = ground arith

pub closed_of_mode : (s : SchedulerState) → is_open s.admission ≡ false → is_closed s ≡ true
closed_of_mode s h = ground arith

not_refused : (id : ℕ) (s : SchedulerState) → is_closed s ≡ true → refusal id s ≢ none
unfolding refusal
not_refused id s h = ground arith

refusal_of_closed :
    (id : ℕ) (s : SchedulerState)
    → is_closed s ≡ true
    → (e : DispatchError) × (refusal id s ≡ some e)
refusal_of_closed id s h = elim (Option-cases (refusal id s)) [
  | inl e ↦ absurd (not_refused id s h e)
  | inr (e, r) ↦ (e, r)
]

pub try_dispatch_closed :
    (now id : ℕ) (s : SchedulerState)
    → is_closed s ≡ true
    → (e : DispatchError) × (try_dispatch now id s ≡ (s, rejected e))
unfolding try_dispatch
try_dispatch_closed now id s h = let (e, r) = refusal_of_closed id s h in (e, rw (r, try_dispatch))

-- While admission is closed or a reboot is reserved, every request for new work is refused and
-- changes nothing: a job, a roll-back job, a self-update, a reboot, and a pass for the slot.
closed_refuses :
    (env : Env) (op : JobOperation) (packages : List String) (from target : String)
    (force ack : Bool) (original now id : ℕ) (s : SchedulerState)
    → is_closed s ≡ true
    → (((admit_job env op packages s).0 ≡ s) × (is_ok (admit_job env op packages s).1 ≡ false))
      × ((create_rollback_job env original s).0 ≡ s)
      × (try_reserve_self_update env packages from target s ≡ (s, err already_in_progress))
      × (((reserve_reboot env force ack s).0 ≡ s)
          × (is_ok (reserve_reboot env force ack s).1 ≡ false))
      × ((e : DispatchError) × (try_dispatch now id s ≡ (s, rejected e)))
closed_refuses env op packages from target force ack original now id s h = (
  unfold admit_job in ground arith,
  unfold create_rollback_job in ground arith,
  unfold try_reserve_self_update in ground arith,
  unfold reserve_reboot in ground arith,
  try_dispatch_closed now id s h,
)

pub change_job-get-none :
    (now id k : ℕ) (f : Job → Job) (s : SchedulerState)
    → get k s.jobs ≡ none
    → get k (change_job now id f s).jobs ≡ none
unfolding change_job
change_job-get-none now id k f s h = ground (arith, get-modify id k f s.jobs)

modify-get-none :
    (id k : ℕ) (f : Job → Job) (m : List (ℕ × Job)) → get k m ≡ none → get k (modify id f m) ≡ none
modify-get-none id k f m h = ground (arith, get-modify id k f m)

remove-get-none : (id k : ℕ) (m : List (ℕ × Job)) → get k m ≡ none → get k (remove id m) ≡ none
remove-get-none id k m h = ground (arith, get-remove id k m)

fail_detailed-get-none :
    (now id k : ℕ) (d : Diagnosis) (s : SchedulerState)
    → get k s.jobs ≡ none
    → get k (fail_job_with_diagnostics now id d s).jobs ≡ none
unfolding fail_job_with_diagnostics
fail_detailed-get-none now id k d s h = elim (Option-cases (get id s.jobs)) [
  | inl e ↦ rw e h
  | inr (j, e) ↦ rw e (modify-get-none id k (fail_with_diagnostics now d) s.jobs h)
]

-- While closed, no call makes a job.
pub apply-get-none :
    (op : Op) (k : ℕ) (s : SchedulerState)
    → is_closed s ≡ true
    → get k s.jobs ≡ none
    → get k (apply op s).jobs ≡ none
unfolding apply
apply-get-none (admit env op packages) k s c h = unfold admit_job in ground arith
apply-get-none (create_rollback env id) k s c h = unfold create_rollback_job in ground arith
apply-get-none freeze k s c h = unfold freeze_admission in h
apply-get-none (reserve_update env packages from target) k s c h =
    unfold try_reserve_self_update in ground arith
apply-get-none (release_update id) k s c h = unfold release_self_update in ground arith
apply-get-none (drop_update_guard id) k s c h =
    unfold drop_self_update_guard in remove-get-none id k s.jobs h
apply-get-none (reserve_restart env force ack) k s c h = unfold reserve_reboot in ground arith
apply-get-none (roll_back_reboot now id error) k s c h =
    let s0 = record s { reboot_pending = none } in
    unfold rollback_reboot in
    ground (arith, change_job-get-none now id k (roll_back_job now error) s0 h)
apply-get-none (begin_reboot now id) k s c h =
    unfold begin_reboot_execution in
    ground (arith, change_job-get-none now id k (start_rebooting now) s h)
apply-get-none (set_rebooting now id message) k s c h =
    unfold set_job_rebooting in
    ground (arith, change_job-get-none now id k (Job.set_rebooting now message) s h)
apply-get-none (update now id status progress message) k s c h =
    unfold update_job in
    ground (arith, change_job-get-none now id k (apply_update now status progress message) s h)
apply-get-none (log now id message) k s c h =
    unfold add_job_log in modify-get-none id k (add_log now message) s.jobs h
apply-get-none (complete now id) k s c h =
    unfold complete_job in change_job-get-none now id k (Job.complete now) s h
apply-get-none (fail now id error) k s c h =
    unfold fail_job in change_job-get-none now id k (Job.fail now error) s h
apply-get-none (fail_detailed now id d) k s c h = fail_detailed-get-none now id k d s h
apply-get-none (delete id) k s c h =
    unfold delete_job in ground (arith, remove-get-none id k s.jobs h)

-- The call rolls this reboot back.
abbrev pub rolls_back : ℕ → Op → Bool
rolls_back r (roll_back_reboot now id error) = id == r
rolls_back r _ = false

pub apply-reboot_pending :
    (r : ℕ) (op : Op) (s : SchedulerState)
    → rolls_back r op ≡ false
    → s.reboot_pending ≡ some r
    → (apply op s).reboot_pending ≡ some r
unfolding apply
apply-reboot_pending r (admit env op packages) s n h = unfold admit_job in ground arith
apply-reboot_pending r (create_rollback env id) s n h = unfold create_rollback_job in ground arith
apply-reboot_pending r freeze s n h = unfold freeze_admission in h
apply-reboot_pending r (reserve_update env packages from target) s n h =
    unfold try_reserve_self_update in ground arith
apply-reboot_pending r (release_update id) s n h = unfold release_self_update in ground arith
apply-reboot_pending r (drop_update_guard id) s n h = unfold drop_self_update_guard in h
apply-reboot_pending r (reserve_restart env force ack) s n h = unfold reserve_reboot in ground arith
apply-reboot_pending r (roll_back_reboot now id error) s n h =
    unfold rollback_reboot in ground arith
apply-reboot_pending r (begin_reboot now id) s n h = unfold begin_reboot_execution in ground arith
apply-reboot_pending r (set_rebooting now id message) s n h =
    unfold set_job_rebooting in ground arith
apply-reboot_pending r (update now id status progress message) s n h =
    unfold update_job in ground arith
apply-reboot_pending r (log now id message) s n h = unfold add_job_log in h
apply-reboot_pending r (complete now id) s n h = unfold complete_job in ground arith
apply-reboot_pending r (fail now id error) s n h = unfold fail_job in ground arith
apply-reboot_pending r (fail_detailed now id d) s n h =
    unfold fail_job_with_diagnostics in ground arith
apply-reboot_pending r (delete id) s n h = unfold delete_job in ground arith

-- No call opens the admission again.
pub apply-closed :
    (op : Op) (s : SchedulerState)
    → is_open s.admission ≡ false
    → is_open (apply op s).admission ≡ false
unfolding apply
apply-closed (admit env op packages) s h = unfold admit_job in ground arith
apply-closed (create_rollback env id) s h = unfold create_rollback_job in ground arith
apply-closed freeze s h = unfold freeze_admission in refl
apply-closed (reserve_update env packages from target) s h =
    unfold try_reserve_self_update in ground arith
apply-closed (release_update id) s h = unfold release_self_update in ground arith
apply-closed (drop_update_guard id) s h = unfold drop_self_update_guard in h
apply-closed (reserve_restart env force ack) s h = unfold reserve_reboot in ground arith
apply-closed (roll_back_reboot now id error) s h = unfold rollback_reboot in ground arith
apply-closed (begin_reboot now id) s h = unfold begin_reboot_execution in ground arith
apply-closed (set_rebooting now id message) s h = unfold set_job_rebooting in ground arith
apply-closed (update now id status progress message) s h = unfold update_job in ground arith
apply-closed (log now id message) s h = unfold add_job_log in h
apply-closed (complete now id) s h = unfold complete_job in ground arith
apply-closed (fail now id error) s h = unfold fail_job in ground arith
apply-closed (fail_detailed now id d) s h = unfold fail_job_with_diagnostics in ground arith
apply-closed (delete id) s h = unfold delete_job in ground arith
