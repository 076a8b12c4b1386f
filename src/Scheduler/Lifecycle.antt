-- ===== src/Scheduler/Lifecycle.antt =====
-- Transitions that handlers ask for, and the queries: src/jobs/scheduler.rs.
use linux_patch_api.Prelude.{
  ℕ, String, Bool, true, false, ◌&&◌, ◌||◌, not, leb, List, Option, none, some, filter, take,
  if◌then◌else◌,
}
use linux_patch_api.Prelude.Result.{Result, ok, err}
use linux_patch_api.Prelude.Table.{get, modify, remove, values}
use linux_patch_api.Jobs.Order.{sort_newest}
use linux_patch_api.Jobs.Status.{JobStatus, running, rebooting, pending, is_terminal, status_eq}
use linux_patch_api.Jobs.Job.{Job, Diagnosis, add_log, complete, fail, fail_with_diagnostics}
use linux_patch_api.Scheduler.State.{
  SchedulerState, notify_one, change_job, emit_event_detailed, running_count, is_running,
}
use linux_patch_api.Scheduler.Dispatch.{is_running_job}

-- The error of `update_job`, with the limit that it names.
pub data UpdateError : Type 0 where
  limit_reached : ℕ → UpdateError

-- The guard of `update_job`.
abbrev pub over_limit : ℕ → JobStatus → SchedulerState → Bool
over_limit id status s =
    (status_eq status running || status_eq status rebooting)
    && not (is_running_job (get id s.jobs))
    && leb s.max_concurrent (running_count s)

abbrev or_keep {ℓ} : {A : Type ℓ} → Option A → A → A
or_keep none a = a
or_keep (some b) a = b

unfoldable pub apply_update : ℕ → JobStatus → Option ℕ → Option String → Job → Job
apply_update now status progress message j = record j {
  status = status;
  progress = or_keep progress j.progress;
  message = or_keep message j.message;
  updated_at = now;
}

-- `Scheduler::update_job`.
unfoldable pub update_job :
    ℕ
    → ℕ
    → JobStatus
    → Option ℕ
    → Option String
    → SchedulerState
    → SchedulerState × Result UpdateError (Unit {0})
unfolding change_job apply_update
update_job now id status progress message s =
    if over_limit id status s
    then (s, err (limit_reached s.max_concurrent))
    else (change_job now id (apply_update now status progress message) s, ok tt)

-- `Scheduler::add_job_log`.
unfoldable pub add_job_log : ℕ → ℕ → String → SchedulerState → SchedulerState
unfolding add_log
add_job_log now id message s = record s { jobs = modify id (add_log now message) s.jobs }

-- `Scheduler::complete_job` up to the persisting of the jobs; so too the next two.
unfoldable pub complete_job : ℕ → ℕ → SchedulerState → SchedulerState
unfolding notify_one change_job complete
complete_job now id s = notify_one (change_job now id (complete now) s)

-- `Scheduler::fail_job`.
unfoldable pub fail_job : ℕ → ℕ → String → SchedulerState → SchedulerState
unfolding notify_one change_job fail
fail_job now id error s = notify_one (change_job now id (fail now error) s)

abbrev fail_detailed : ℕ → ℕ → Diagnosis → Option Job → SchedulerState → SchedulerState
fail_detailed now id d none s = s
fail_detailed now id d (some j) s =
    let j' = fail_with_diagnostics now d j in
    emit_event_detailed now id j'.status j'.progress j'.message (some d.short_error) (some d.code)
      (record s { jobs = modify id (fail_with_diagnostics now d) s.jobs })

-- `Scheduler::fail_job_with_diagnostics`.
unfoldable pub fail_job_with_diagnostics : ℕ → ℕ → Diagnosis → SchedulerState → SchedulerState
unfolding notify_one emit_event_detailed fail_with_diagnostics
fail_job_with_diagnostics now id d s = notify_one (fail_detailed now id d (get id s.jobs) s)

-- `Scheduler::delete_job` up to the persisting of the jobs.
unfoldable pub delete_job : ℕ → SchedulerState → SchedulerState × Bool
delete_job id s = elim (get id s.jobs) [
  | none ↦ (s, false)
  | some j ↦
      if is_terminal j.status then (record s { jobs = remove id s.jobs }, true) else (s, false)
]

-- `Scheduler::get_job`.
unfoldable pub get_job : ℕ → SchedulerState → Option Job
get_job id s = get id s.jobs

-- `Scheduler::get_active_jobs`.
unfoldable pub get_active_jobs : SchedulerState → List Job
get_active_jobs s = filter (λ j. is_running j || status_eq j.status pending) (values s.jobs)

-- `Scheduler::get_all_jobs`.
unfoldable pub get_all_jobs : SchedulerState → List Job
get_all_jobs s = values s.jobs

abbrev retain_status : Option JobStatus → List Job → List Job
retain_status none js = js
retain_status (some status) js = filter (λ j. status_eq j.status status) js

-- `Scheduler::list_jobs`.
unfoldable pub list_jobs : Option JobStatus → ℕ → SchedulerState → List Job
unfolding sort_newest
list_jobs status limit s = take limit (sort_newest (retain_status status (values s.jobs)))
