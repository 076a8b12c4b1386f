-- ===== src/Api/Patches/Ending.antt =====
-- How a patch job ends: the conclusion of `apply_patches` in src/api/handlers/patches.rs on the state of
-- the scheduler.
pub mod Status
use mathlib.Core.Option
use mathlib.Core.Path.{subst}
use linux_patch_api.Prelude.{
  ℕ, String, Bool, true, false, ◌==◌, List, [], ◌∷◌, Option, none, some, ◌≡◌, refl, sym, ◌∙◌, ◌⊎◌,
  inl, inr, arith, if◌then◌else◌, is_some, is_some_of, Option-cases, Bool-cases,
}
use linux_patch_api.Prelude.Result.{Result, ok, err, is_ok}
use linux_patch_api.Prelude.Text.{concat}
use linux_patch_api.Prelude.Table.{get, get-modify, Distinct, modify-Distinct}
use linux_patch_api.Jobs.Status.{
  JobStatus, running, rebooting, completed, failed, pending, status_eq, reboot,
}
use linux_patch_api.Jobs.Job.{
  Job, Env, Diagnosis, add_log, add_logs, complete, fail_with_diagnostics, set_rebooting,
}
use linux_patch_api.Scheduler.State.{SchedulerState, change_job, notify_one, emit_event_detailed}
use linux_patch_api.Scheduler.Reboot.{
  RebootAdmissionError, reserve_reboot, begin_reboot_execution, set_job_rebooting, rollback_reboot,
  drop_reboot_guard, roll_back_job, start_rebooting, cancel_by_reboot,
}
use linux_patch_api.Scheduler.Reboot.Cancel.{get-change_job, cancel_if_pending}
use linux_patch_api.Scheduler.System.Frame.{change_job-Keeps}
use linux_patch_api.Scheduler.Reservations.{reserve_reboot-cancels, reserve_reboot-refused}
use linux_patch_api.Scheduler.Lifecycle.{add_job_log, complete_job, fail_job_with_diagnostics}
use linux_patch_api.Api.Patches.Conclusion.{
  Conclusion, conclude, after_command, after_begin, after_reserve, after_success, on_result,
  log_then_complete, scheduled, no_reboot, show_admission_error,
}
use linux_patch_api.Api.Patches.Ending.Status.{
  status_of, status-add_job_log, pending-add_job_log, status-complete_job, status-log_then_complete,
  status-rollback, status-drop, status-begin, pending-begin, status-set, pending-set, status-fail,
}

module _ (clock : ℕ → ℕ) (others : SchedulerState → SchedulerState) (env : Env) (id : ℕ) where
  -- The patch job is completed, or it waits for the reboot that this job has reserved.
  abbrev pub Settled : SchedulerState → Type 0
  Settled t =
      (status_of id t ≡ some completed)
      ⊎ ((status_of id t ≡ some rebooting) × (t.reboot_pending ≡ some env.new_id))

  command-Settled :
      (command : Result String (Unit {0})) (s : SchedulerState)
      → (env.new_id == id) ≡ false
      → status_of id s ≡ some rebooting
      → s.reboot_pending ≡ some env.new_id
      → Settled (after_command clock others env id env.new_id command s)
  unfolding after_command
  command-Settled (ok u) s n h r = inr (
    status-add_job_log (clock 5) id id _ s ∙ h,
    pending-add_job_log (clock 5) id "Reboot command executed" s ∙ r,
  )
  command-Settled (err e) s n h r =
      let s1 = (rollback_reboot (clock 5) env.new_id (some (concat "Reboot failed: " e)) s).0 in
      inl (
        status-drop (clock 7) env.new_id id _ n
        ∙ status-log_then_complete clock others env 6 id _ rebooting s1
            (status-rollback (clock 5) env.new_id id (some (concat "Reboot failed: " e)) s n ∙ h))

  -- The execution begins only while the reservation is the job's own.
  begin-owned :
      (now : ℕ) (s : SchedulerState)
      → (begin_reboot_execution now env.new_id s).1 ≡ true
      → s.reboot_pending ≡ some env.new_id
  unfolding begin_reboot_execution
  begin-owned now s h = ground (arith, h)

  begin-Settled :
      (command : Result String (Unit {0})) (r : SchedulerState × Bool)
      → (env.new_id == id) ≡ false
      → status_of id r.0 ≡ some rebooting
      → (r.1 ≡ true → r.0.reboot_pending ≡ some env.new_id)
      → Settled (after_begin clock others env id env.new_id command r)
  unfolding after_begin
  begin-Settled command (s, true) n h r = command-Settled command s n h (r refl)
  begin-Settled command (s, false) n h r = inl (
      status-drop (clock 6) env.new_id id _ n
      ∙ status-log_then_complete clock others env 5 id _ rebooting s h)

  log-Distinct :
      (now : ℕ) (text : String) (s : SchedulerState)
      → Distinct s.jobs
      → Distinct (add_job_log now id text s).jobs
  unfolding add_job_log
  log-Distinct now text s d = modify-Distinct id (add_log now text) s.jobs d

  abbrev owner_in : Result RebootAdmissionError ℕ → ℕ
  owner_in (ok rid) = rid
  owner_in (err e) = env.new_id

  owner-reserve :
      (force ack : Bool) (s : SchedulerState)
      → owner_in (reserve_reboot env force ack s).1 ≡ env.new_id
  unfolding reserve_reboot
  owner-reserve force ack s = ground arith

  status-reserve :
      (s : SchedulerState)
      → Distinct s.jobs
      → (env.new_id == id) ≡ false
      → status_of id s ≡ some running
      → is_ok (reserve_reboot env true false s).1 ≡ true
      → status_of id (reserve_reboot env true false s).0 ≡ some running
  status-reserve s d n h k = ground (arith, (reserve_reboot-cancels env true false s id d k).1)

  -- The reservation, if it is granted, leaves the patch job running.
  abbrev Reserved : SchedulerState × Result RebootAdmissionError ℕ → Type 0
  Reserved r = (status_of id r.0 ≡ some running) × (owner_in r.1 ≡ env.new_id)

  reserve-Reserved :
      (s : SchedulerState)
      → Distinct s.jobs
      → (env.new_id == id) ≡ false
      → status_of id s ≡ some running
      → Reserved (reserve_reboot env true false s)
  reserve-Reserved s d n h =
      let o = owner-reserve true false s in
      elim (Bool-cases (is_ok (reserve_reboot env true false s).1)) [
        | inl k ↦ (status-reserve s d n h k, o)
        | inr k ↦ (rw (reserve_reboot-refused env true false s k) h, o)
      ]

  -- What the other tasks do to the scheduler leaves the status of this job.
  abbrev pub LeavesJob : Type 0
  LeavesJob = (s : SchedulerState) → status_of id (others s) ≡ status_of id s

  reserve-Settled :
      LeavesJob
      → (command : Result String (Unit {0})) (r : SchedulerState × Result RebootAdmissionError ℕ)
      → (env.new_id == id) ≡ false
      → Reserved r
      → Settled (after_reserve clock others env id command r)
  unfolding after_reserve
  reserve-Settled l command (s, err e) n (h, o) =
      inl (status-log_then_complete clock others env 2 id _ running s h)
  reserve-Settled l command (s, ok rid) n (h, o) =
      let s1 = (set_job_rebooting (clock 2) id "Patches applied; awaiting reboot" s).0 in
      let s2 = add_job_log (clock 3) id "Reboot reservation acquired by scheduler" s1 in
      let s3 = others s2 in
      subst
        (λ i.
          Settled
            (after_begin clock others env id i command (begin_reboot_execution (clock 4) i s3)))
        (sym o)
        (begin-Settled command (begin_reboot_execution (clock 4) env.new_id s3) n
          (status-begin (clock 4) env.new_id id s3 n
            ∙ l s2
            ∙ status-add_job_log (clock 3) id id _ s1
            ∙ status-set (clock 2) id _ s h)
          (λ b. pending-begin (clock 4) env.new_id s3 ∙ begin-owned (clock 4) s3 b))

  status-no_reboot :
      (allow : Bool) (s : SchedulerState)
      → status_of id (no_reboot clock others env id allow s) ≡ status_of id s
  status-no_reboot true s = status-add_job_log (clock 1) id id _ s
  status-no_reboot false s = refl

  success-Settled :
      LeavesJob
      → (allow should : Bool) (delay : ℕ) (command : Result String (Unit {0})) (s : SchedulerState)
      → Distinct s.jobs
      → (env.new_id == id) ≡ false
      → status_of id s ≡ some running
      → Settled (after_success clock others env id allow should delay command s)
  success-Settled l allow true delay command s d n h =
      let s1 = add_job_log (clock 1) id (scheduled clock others env id delay) s in
      reserve-Settled l command (reserve_reboot env true false s1) n (
        reserve-Reserved s1 (log-Distinct (clock 1) (scheduled clock others env id delay) s d) n
          (status-add_job_log (clock 1) id id _ s ∙ h))
  success-Settled l allow false delay command s d n h = inl (
      status-complete_job (clock 2) id running (no_reboot clock others env id allow s)
        (status-no_reboot allow s ∙ h))

  on_result-Settled :
      LeavesJob
      → (r : Result Diagnosis (Unit {0})) (c : Conclusion) (s : SchedulerState) → Distinct s.jobs
      → (env.new_id == id) ≡ false
      → status_of id s ≡ some running
      → (is_ok r ≡ false → status_of id (on_result clock others env id r c s) ≡ some failed)
        × (is_ok r ≡ true → Settled (on_result clock others env id r c s))
  on_result-Settled l (err d) c s w n h =
      (λ e. status-fail (clock 1) id d running s h, λ e. ground arith)
  on_result-Settled l (ok u) c s w n h = (
    λ e. ground arith,
    λ e. success-Settled l c.allow_reboot c.should_reboot c.reboot_delay c.reboot_command s w n h,
  )

  -- The handler leaves no patch job behind that is still running. If the transaction failed, then the
  -- job is failed. If it succeeded, then the job is completed, or it is rebooting and the reboot is
  -- reserved: also when the reservation is refused, when other tasks lose it before the command, or when
  -- the command fails. The job is running at first, the ids in the job map are distinct, the new job's id
  -- is not its own, and the other tasks leave its status; what else they change is arbitrary.
  pub conclude-Settled :
      LeavesJob
      → (c : Conclusion) (s : SchedulerState) → Distinct s.jobs
      → (env.new_id == id) ≡ false
      → status_of id s ≡ some running
      → (is_ok c.transaction ≡ false
          → status_of id (conclude clock others env id c s) ≡ some failed)
        × (is_ok c.transaction ≡ true → Settled (conclude clock others env id c s))
  unfolding conclude
  conclude-Settled l c s d n h = on_result-Settled l c.transaction c s d n h
