-- ===== src/Api/Jobs/Examples.antt =====
-- The theorems on src/api/handlers/jobs.rs at concrete inputs.
use linux_patch_api.Prelude.{false, [], ◌∷◌, none, some, ◌≡◌, refl}
use linux_patch_api.Prelude.Table.{get, count}
use linux_patch_api.Prelude.Text.{codes, is_sentinel}
use linux_patch_api.Jobs.Status.{install, completed}
use linux_patch_api.Jobs.Job.{Job, Env, is_internal}
use linux_patch_api.Jobs.Job
use linux_patch_api.Scheduler.State.{SchedulerState}
use linux_patch_api.Scheduler.State
use linux_patch_api.Scheduler.Admission.{create_rollback_job}
use linux_patch_api.Api.Jobs.{rollback_job, list_jobs, parse_job_status}
use linux_patch_api.Api.Jobs.Answers.{Blocked, rollback_of, rollback_job-blocks}

abbrev env : Env
env = record { now = 100; new_id = 8; boot = none }

abbrev installed : Job
installed = record (Job.new (record { now = 90; new_id = 7; boot = none }) install ("curl" ∷ [])) {
  status = completed;
}

abbrev idle : SchedulerState
idle = record (State.new 1 10 0) { jobs = (7, installed) ∷ [] }

-- A status that is not known filters nothing.
no_filter : list_jobs (some (codes "timeout")) none idle ≡ list_jobs none none idle
unfolding list_jobs parse_job_status
no_filter = refl

there : get 7 idle.jobs ≡ some installed
unfolding State.new get
there = refl

rollback_job-blocks_example :
    (get 8 (rollback_job env (some 7) idle).0.jobs ≡ some (rollback_of env 7 installed))
    × Blocked env ("linux-patch-api" ∷ []) "" "" false 8 (rollback_job env (some 7) idle).0
unfolding State.new rollback_job create_rollback_job Job.new is_internal get count is_sentinel
rollback_job-blocks_example =
    rollback_job-blocks env env 7 ("linux-patch-api" ∷ []) "" "" false installed idle
      (rollback_job env (some 7) idle).0 there refl refl refl
