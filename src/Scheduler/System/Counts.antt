-- ===== src/Scheduler/System/Counts.antt =====
-- How the building blocks of the calls change the number of running jobs.
use mathlib.Core.Option
use linux_patch_api.Prelude.{
  ℕ, ◌+◌, ◌≤◌, String, Bool, List, [], ◌∷◌, some, ◌≡◌, refl, arith, to_nat, Option-cases, inl, inr,
}
use linux_patch_api.Prelude.Table.{get, modify, count, hit, count-insert, count-modify, hit-map-le}
use linux_patch_api.Jobs.Status.{JobOperation, reboot, self_update, failed}
use linux_patch_api.Jobs.Job.{Job, Env, Diagnosis, add_log, add_logs, fail_with_diagnostics}
use linux_patch_api.Jobs.Job
use linux_patch_api.Scheduler.State.{
  SchedulerState, change_job, is_running, running_count, next_generation,
}
use linux_patch_api.Scheduler.Admission.{
  JobAdmissionError, mark_rollback, finish_rollback, create_job, admit_job_inner,
}
use linux_patch_api.Prelude.Result.{Result, ok, err}
use linux_patch_api.Scheduler.SelfUpdate
use linux_patch_api.Scheduler.SelfUpdate.{
  try_reserve_self_update, release_self_update, drop_self_update_guard,
}
use linux_patch_api.Scheduler.Reboot.{
  cancel_by_reboot, to_fail, cancel_all, create_reboot_job, reserve_reboot, rollback_reboot,
  roll_back_job, begin_reboot_execution, set_job_rebooting,
}
use linux_patch_api.Scheduler.Reboot
use linux_patch_api.Scheduler.Lifecycle.{fail_job_with_diagnostics}

pub count-change_job :
    (p : Job → Bool) (now id : ℕ) (f : Job → Job) (s : SchedulerState)
    → count p (change_job now id f s).jobs + hit p (get id s.jobs)
      ≡ count p s.jobs + hit p (Option.map f (get id s.jobs))
unfolding change_job
count-change_job p now id f s = ground (arith, count-modify p id f s.jobs)

-- An update that makes no job running cannot raise the count.
pub change_job-running-le :
    (now id : ℕ) (f : Job → Job) (s : SchedulerState)
    → ((j : Job) → to_nat (is_running (f j)) ≤ to_nat (is_running j))
    → running_count (change_job now id f s) ≤ running_count s
change_job-running-le now id f s h =
    omega (arith, count-change_job is_running now id f s, hit-map-le is_running f (get id s.jobs) h)

pub modify-running-le :
    (id : ℕ) (f : Job → Job) (m : List (ℕ × Job))
    → ((j : Job) → to_nat (is_running (f j)) ≤ to_nat (is_running j))
    → count is_running (modify id f m) ≤ count is_running m
modify-running-le id f m h =
    omega (arith, count-modify is_running id f m, hit-map-le is_running f (get id m) h)

pub create_job-running-le :
    (env : Env) (op : JobOperation) (packages : List String) (s : SchedulerState)
    → running_count (create_job env (Job.new env op packages) s) ≤ running_count s
unfolding create_job Job.new
create_job-running-le env op packages s =
    omega (arith, count-insert is_running env.new_id (Job.new env op packages) s.jobs)

pub admit_job_inner-running-le :
    (env : Env) (op : JobOperation) (packages : List String) (s : SchedulerState)
    → running_count (admit_job_inner env op packages s).0 ≤ running_count s
unfolding admit_job_inner
admit_job_inner-running-le env op packages s =
    ground (arith, create_job-running-le env op packages s)

pub cancel_all-running-le :
    (now : ℕ) (ids : List ℕ) (s : SchedulerState)
    → running_count (cancel_all now ids s) ≤ running_count s
unfolding cancel_all cancel_by_reboot
cancel_all-running-le now [] s = omega arith
cancel_all-running-le now (id ∷ ids) s = omega (
  arith,
  change_job-running-le now id (cancel_by_reboot now) s (λ j. omega arith),
  cancel_all-running-le now ids (change_job now id (cancel_by_reboot now) s),
)

pub reserve-running-le :
    (env : Env) (s : SchedulerState) → running_count (Reboot.reserve env s) ≤ running_count s
unfolding Reboot.reserve create_reboot_job
reserve-running-le env s =
    let s' = create_reboot_job env s in
    let s0 = record s { reboot_pending = some env.new_id } in
    omega (
      arith,
      create_job-running-le env reboot [] s0,
      cancel_all-running-le env.now (to_fail env.new_id s'.jobs) s',
    )

pub add_logs-status : (now : ℕ) (ms : List String) (j : Job) → (add_logs now ms j).status ≡ j.status
unfolding add_logs
add_logs-status now [] j = refl
add_logs-status now (m ∷ ms) j = add_logs-status now ms (add_log now m j)

pub fail_with_diagnostics-status :
    (now : ℕ) (d : Diagnosis) (j : Job) → (fail_with_diagnostics now d j).status ≡ failed
unfolding fail_with_diagnostics
fail_with_diagnostics-status now d j = add_logs-status now d.log_lines _

pub fail_detailed-running-le :
    (now id : ℕ) (d : Diagnosis) (s : SchedulerState)
    → running_count (fail_job_with_diagnostics now id d s) ≤ running_count s
unfolding fail_job_with_diagnostics
fail_detailed-running-le now id d s = elim (Option-cases (get id s.jobs)) [
  | inl e ↦ rw e (omega arith)
  | inr (j, e) ↦ rw e (
      modify-running-le id (fail_with_diagnostics now d) s.jobs
        (λ k. rw (fail_with_diagnostics-status now d k) (omega arith)))
]

pub finish_rollback-running-le :
    (original : ℕ) (r : SchedulerState × Result JobAdmissionError ℕ)
    → running_count (finish_rollback original r).0 ≤ running_count r.0
unfolding finish_rollback
finish_rollback-running-le original (s, ok id) =
    modify-running-le id (mark_rollback original) s.jobs (λ j. omega arith)
finish_rollback-running-le original (s, err e) = omega arith

pub reserve_update-running-le :
    (env : Env) (packages : List String) (from target : String) (s : SchedulerState)
    → running_count (SelfUpdate.reserve env packages from target s) ≤ running_count s
unfolding SelfUpdate.reserve next_generation
reserve_update-running-le env packages from target s =
    create_job-running-le env self_update packages s
