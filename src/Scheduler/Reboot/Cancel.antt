-- ===== src/Scheduler/Reboot/Cancel.antt =====
-- The cancelling of pending jobs by a reboot reservation.
use mathlib.Core.Option
use linux_patch_api.Prelude.{
  ℕ, Bool, true, false, not, ◌&&◌, ◌==◌, List, [], ◌∷◌, Option, none, some, ◌≡◌, refl, arith,
  if◌then◌else◌,
}
use linux_patch_api.Prelude.Table.{get, Distinct, get-insert, get-modify, insert-Distinct}
use linux_patch_api.Jobs.Status.{pending, status_eq, reboot}
use linux_patch_api.Jobs.Job.{Job, Env}
use linux_patch_api.Jobs.Job
use linux_patch_api.Scheduler.State.{SchedulerState, change_job}
use linux_patch_api.Scheduler.Reboot.{cancel_by_reboot, to_fail, cancel_all, create_reboot_job}
use linux_patch_api.Scheduler.Reboot

abbrev elem : ℕ → List ℕ → Bool
elem k [] = false
elem k (i ∷ is) = let rest = elem k is in if i == k then true else rest

abbrev Once : List ℕ → Type 0
Once [] = Unit {0}
Once (i ∷ is) = (elem i is ≡ false) × Once is

pub get-change_job :
    (now id k : ℕ) (f : Job → Job) (s : SchedulerState)
    → get k (change_job now id f s).jobs
      ≡ (if id == k then Option.map f (get k s.jobs) else get k s.jobs)
unfolding change_job
get-change_job now id k f s = ground (arith, get-modify id k f s.jobs)

get-cancel_all :
    (now k : ℕ) (ids : List ℕ) (s : SchedulerState)
    → Once ids
    → get k (cancel_all now ids s).jobs
      ≡ (if elem k ids then Option.map (cancel_by_reboot now) (get k s.jobs) else get k s.jobs)
unfolding cancel_all
get-cancel_all now k [] s o = refl
get-cancel_all now k (id ∷ ids) s o =
    let s' = change_job now id (cancel_by_reboot now) s in
    ground
      (arith, get-change_job now id k (cancel_by_reboot now) s, get-cancel_all now k ids s' o.1)

-- The job is pending.
abbrev pub is_pending_job : Option Job → Bool
is_pending_job none = false
is_pending_job (some j) = status_eq j.status pending

elem-to_fail :
    (owner k : ℕ) (m : List (ℕ × Job))
    → Distinct m
    → elem k (to_fail owner m) ≡ (not (k == owner) && is_pending_job (get k m))
unfolding to_fail get
elem-to_fail owner k [] d = ground arith
elem-to_fail owner k ((i, j) ∷ m) d = ground (arith, elem-to_fail owner k m d.1)

to_fail-Once : (owner : ℕ) (m : List (ℕ × Job)) → Distinct m → Once (to_fail owner m)
unfolding to_fail
to_fail-Once owner [] d = tt
to_fail-Once owner ((i, j) ∷ m) d =
    ground (arith, to_fail-Once owner m d.1, elem-to_fail owner i m d.1)

abbrev pub cancel_if_pending : ℕ → Job → Job
cancel_if_pending now j = if status_eq j.status pending then cancel_by_reboot now j else j

pub get-reserve :
    (env : Env) (k : ℕ) (s : SchedulerState)
    → Distinct s.jobs
    → get k (Reboot.reserve env s).jobs ≡ (
        if env.new_id == k
        then some (Job.new env reboot [])
        else Option.map (cancel_if_pending env.now) (get k s.jobs))
unfolding Reboot.reserve create_reboot_job Job.new
get-reserve env k s d =
    let job = Job.new env reboot [] in
    let s' = create_reboot_job env s in
    let d' = insert-Distinct env.new_id job s.jobs d in
    ground (
      arith,
      get-insert env.new_id k job s.jobs,
      get-cancel_all env.now k (to_fail env.new_id s'.jobs) s' (to_fail-Once env.new_id s'.jobs d'),
      elem-to_fail env.new_id k s'.jobs d',
    )
