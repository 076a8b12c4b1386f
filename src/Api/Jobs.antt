-- ===== src/Api/Jobs.antt =====
-- The handlers of jobs: src/api/handlers/jobs.rs. The id in a path is given as `Uuid::parse_str` reads
-- it, if it can; times stay numbers.
pub mod Answers
mod Examples
use linux_patch_api.Prelude.{
  ℕ, String, Bool, true, false, List, map, Option, none, some, list_eq, if◌then◌else◌,
}
use linux_patch_api.Prelude.Result.{Result, ok, err}
use linux_patch_api.Prelude.Lines.{to_lowercase}
use linux_patch_api.Prelude.Text.{codes}
use linux_patch_api.Jobs.Status.{
  JobStatus, pending, running, rebooting, completed, failed, cancelled, timed_out, JobOperation,
  install, update, remove, patch_apply, reboot, self_update, rollback,
}
use linux_patch_api.Jobs.Job.{Job, Env}
use linux_patch_api.Scheduler.State.{SchedulerState}
use linux_patch_api.Scheduler.Admission.{JobAdmissionError, create_rollback_job}
use linux_patch_api.Scheduler.Lifecycle
use linux_patch_api.Api.Packages.{ErrorResponse, admission_error_response}

-- `format!("{:?}", ..).to_lowercase()` of a status and of an operation.
unfoldable pub show_status : JobStatus → List ℕ
show_status pending = codes "pending"
show_status running = codes "running"
show_status rebooting = codes "rebooting"
show_status completed = codes "completed"
show_status failed = codes "failed"
show_status cancelled = codes "cancelled"
show_status timed_out = codes "timedout"

unfoldable pub show_operation : JobOperation → List ℕ
show_operation install = codes "install"
show_operation update = codes "update"
show_operation remove = codes "remove"
show_operation patch_apply = codes "patchapply"
show_operation reboot = codes "reboot"
show_operation self_update = codes "selfupdate"
show_operation rollback = codes "rollback"

abbrev pub status_named : List ℕ → Option JobStatus
status_named t =
    if list_eq t (codes "pending")
    then some pending
    else if list_eq t (codes "running")
    then some running
    else if list_eq t (codes "rebooting")
    then some rebooting
    else if list_eq t (codes "completed")
    then some completed
    else if list_eq t (codes "failed")
    then some failed
    else if list_eq t (codes "cancelled")
    then some cancelled
    else if list_eq t (codes "timedout")
    then some timed_out
    else none

unfoldable pub parse_job_status : List ℕ → Option JobStatus
unfolding to_lowercase
parse_job_status t = status_named (to_lowercase t)

-- `JobSummary`.
pub record JobSummary : Type 0 where
  pub job_id : ℕ
  pub operation : List ℕ
  pub status : List ℕ
  pub created_at : ℕ
  pub completed_at : Option ℕ
  pub packages : List String
  pub error_code : Option String

unfoldable pub from_job : Job → JobSummary
unfolding show_operation show_status
from_job j = record {
  job_id = j.id;
  operation = show_operation j.operation;
  status = show_status j.status;
  created_at = j.created_at;
  completed_at = j.completed_at;
  packages = j.packages;
  error_code = j.error_code;
}

abbrev pub status_filter : Option (List ℕ) → Option JobStatus
status_filter none = none
status_filter (some t) = parse_job_status t

abbrev pub limit_of : Option ℕ → ℕ
limit_of none = 50
limit_of (some n) = n

-- The jobs that `list_jobs` answers with, for the status and the limit of the query.
unfoldable pub list_jobs : Option (List ℕ) → Option ℕ → SchedulerState → List JobSummary
unfolding Lifecycle.list_jobs parse_job_status from_job
list_jobs status limit s =
    map from_job (Lifecycle.list_jobs (status_filter status) (limit_of limit) s)

-- What `rollback_job` and `delete_job` answer: 202 or 200, 400 for a text that is no id and for a job
-- that cannot be rolled back, 404, 409, or the answer to a refused admission.
pub data JobReply : Type 0 where
  invalid_job_id job_not_found rollback_not_allowed delete_not_allowed deleted : JobReply
  rolling_back : ℕ → JobReply
  not_admitted : ErrorResponse → JobReply

abbrev pub on_rollback :
    SchedulerState × Result JobAdmissionError (Option ℕ) → SchedulerState × JobReply
on_rollback (s, ok (some id)) = (s, rolling_back id)
on_rollback (s, ok none) = (s, rollback_not_allowed)
on_rollback (s, err e) = (s, not_admitted (admission_error_response e))

-- The handler, which starts no task.
unfoldable pub rollback_job : Env → Option ℕ → SchedulerState → SchedulerState × JobReply
unfolding create_rollback_job admission_error_response
rollback_job env none s = (s, invalid_job_id)
rollback_job env (some id) s = on_rollback (create_rollback_job env id s)

abbrev pub if_there : Option Job → JobReply
if_there none = job_not_found
if_there (some j) = delete_not_allowed

-- `Scheduler::delete_job` never fails.
abbrev pub on_delete : ℕ → SchedulerState × Bool → SchedulerState × JobReply
on_delete id (s, true) = (s, deleted)
on_delete id (s, false) = (s, if_there (Lifecycle.get_job id s))

unfoldable pub delete_job : Option ℕ → SchedulerState → SchedulerState × JobReply
unfolding Lifecycle.delete_job Lifecycle.get_job
delete_job none s = (s, invalid_job_id)
delete_job (some id) s = on_delete id (Lifecycle.delete_job id s)
