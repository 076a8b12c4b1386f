-- ===== src/Scheduler/Dispatch/Entry.antt =====
-- When a pass of the wait loop enters, and what it then does.
use mathlib.Core.Option
use linux_patch_api.Prelude.{
  ℕ, ◌+◌, ◌%◌, ◌<◌, Bool, true, false, none, some, ◌≡◌, ◌⊎◌, ◌↔◌, arith, ◌==◌, if◌then◌else◌,
  ==_refl,
}
use linux_patch_api.Prelude.Table.{get}
use linux_patch_api.Jobs.Status.{is_terminal}
use linux_patch_api.Jobs.Job.{Job}
use linux_patch_api.Scheduler.State.{SchedulerState, opened, running_count, u64_mod}
use linux_patch_api.Scheduler.SelfUpdate.{owns_self_update}
use linux_patch_api.Scheduler.Reboot.Cancel.{get-change_job}
use linux_patch_api.Scheduler.Dispatch.{
  Attempt, acquired, is_running_job, begin_job, refusal, must_wait, acquire, try_dispatch,
}

abbrev pub is_acquired : Attempt → Bool
is_acquired (acquired generation backstop) = true
is_acquired _ = false

-- What a mutation needs to start.
pub record MayEnter (id : ℕ) (s : SchedulerState) : Type 0 where
  pub open_admission : s.admission ≡ opened
  pub no_reboot : s.reboot_pending ≡ none
  pub update : (s.self_update ≡ none) ⊎ (owns_self_update s.self_update id ≡ true)
  pub slot : s.active_mutation ≡ none
  pub room : (is_running_job (get id s.jobs) ≡ true) ⊎ (running_count s < s.max_concurrent)

-- A pass acquires the slot exactly if admission is open, no reboot is reserved, no self-update but
-- one of this job is, the slot is free, and the job is running already or fewer jobs are running
-- than allowed.
try_dispatch-enters :
    (now id : ℕ) (s : SchedulerState)
    → (is_acquired (try_dispatch now id s).1 ≡ true) ↔ MayEnter id s
unfolding try_dispatch refusal must_wait acquire
try_dispatch-enters now id s = (λ h. ground arith, λ h. ground arith)

acquire_of_enters :
    (now id : ℕ) (s : SchedulerState) → MayEnter id s → try_dispatch now id s ≡ acquire now id s
unfolding try_dispatch refusal must_wait
acquire_of_enters now id s h = ground arith

acquire-effect :
    (now id k : ℕ) (s : SchedulerState)
    → let s' = (acquire now id s).0 in
      (s'.active_mutation ≡ some id)
      × (s'.mutation_generation ≡ (s.mutation_generation + 1) % u64_mod)
      × (get k s'.jobs ≡ (
          if id == k
          then Option.map (begin_job now (is_running_job (get id s.jobs))) (get k s.jobs)
          else get k s.jobs))
unfolding acquire
acquire-effect now id k s =
    let s0 = record s {
      active_mutation = some id;
      mutation_generation = (s.mutation_generation + 1) % u64_mod;
    } in
    let f = begin_job now (is_running_job (get id s.jobs)) in
    ground (arith, get-change_job now id k f s0)

-- A pass that may enter takes the slot for its job under the next generation, begins the job if
-- there is one under this id, and changes no other job.
pub try_dispatch-effect :
    (now id k : ℕ) (s : SchedulerState)
    → MayEnter id s
    → let s' = (try_dispatch now id s).0 in
      (s'.active_mutation ≡ some id)
      × (s'.mutation_generation ≡ (s.mutation_generation + 1) % u64_mod)
      × (get k s'.jobs ≡ (
          if id == k
          then Option.map (begin_job now (is_running_job (get id s.jobs))) (get k s.jobs)
          else get k s.jobs))
try_dispatch-effect now id k s h = rw (acquire_of_enters now id s h) (acquire-effect now id k s)

begin_job_of_terminal :
    (now : ℕ) (j : Job)
    → is_terminal j.status ≡ true
    → is_running_job (some (begin_job now (is_running_job (some j)) j)) ≡ true
unfolding begin_job
begin_job_of_terminal now j h = ground arith

-- The job's status is not asked: a pass that may enter for a job that is completed, failed,
-- cancelled or timed out takes the slot and sets the job running again.
pub try_dispatch-revives :
    (now id : ℕ) (j : Job) (s : SchedulerState)
    → MayEnter id s
    → get id s.jobs ≡ some j
    → is_terminal j.status ≡ true
    → let s' = (try_dispatch now id s).0 in
      (s'.active_mutation ≡ some id) × (is_running_job (get id s'.jobs) ≡ true)
try_dispatch-revives now id j s h e t =
    let (slot, _, job) = try_dispatch-effect now id id s h in
    (slot, rw (job, ==_refl id, e) (begin_job_of_terminal now j t))
