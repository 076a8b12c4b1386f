-- ===== src/Api/Packages.antt =====
-- The handlers that change packages: src/api/handlers/packages.rs. A name is read by code points: the
-- validation refuses every one that is not ASCII.
pub mod Query
pub mod Sorting
pub mod Listed
pub mod Ending
mod Examples
use mathlib.Core.Option
use linux_patch_api.Prelude.{
  ℕ, String, List, [], ◌∷◌, map, list_eq, Option, none, some, if◌then◌else◌,
}
use linux_patch_api.Prelude.Result.{Result, ok, err}
use linux_patch_api.Prelude.Text.{codes, concat, show_ℕ}
use linux_patch_api.Jobs.Status.{install, update, remove}
use linux_patch_api.Jobs.Job.{Env, Diagnosis}
use linux_patch_api.Scheduler.State.{SchedulerState}
use linux_patch_api.Scheduler.Admission.{
  JobAdmissionError, self_update_in_progress, queue_full, admission_frozen, admit_job,
}
use linux_patch_api.Scheduler.SelfUpdate.{
  SelfUpdateAdmissionError, already_in_progress, jobs_in_progress, try_reserve_self_update,
  release_self_update,
}
use linux_patch_api.Scheduler.SelfUpdate
use linux_patch_api.Scheduler.Lifecycle.{complete_job, fail_job_with_diagnostics}
use linux_patch_api.Packages.Error.Report.{Error}
use linux_patch_api.Packages.Request.{
  PackageSpec, NameError, validate_package_name, validate_package_names,
}

-- An answer that is an error: its status, code and message, the count of running jobs in its details,
-- and its header `Retry-After`.
pub record ErrorResponse : Type 0 where
  pub status : ℕ
  pub code : String
  pub message : String
  pub running_jobs : Option ℕ
  pub retry_after : Option ℕ

abbrev retry_later : ℕ → String → String → ErrorResponse
retry_later status code message = record {
  status = status;
  code = code;
  message = message;
  running_jobs = none;
  retry_after = some 60;
}

unfoldable pub admission_error_response : JobAdmissionError → ErrorResponse
admission_error_response self_update_in_progress =
    retry_later 409 "SELF_UPDATE_IN_PROGRESS"
      "Cannot accept new jobs while a self-update is in progress. Retry after it completes."
admission_error_response queue_full =
    retry_later 429 "QUEUE_FULL" "Job queue is at capacity. Please retry later."
admission_error_response admission_frozen =
    retry_later 409 "ADMISSION_FROZEN" "Admission frozen — shutdown in progress."

-- The answer of `update_package` to a self-update that was not admitted.
unfoldable pub self_update_error_response : SelfUpdateAdmissionError → ErrorResponse
unfolding show_ℕ
self_update_error_response already_in_progress =
    retry_later 409 "SELF_UPDATE_IN_PROGRESS"
      "A self-update is already in progress. Retry after it completes."
self_update_error_response (jobs_in_progress count) =
    let message =
      concat "Cannot self-update while "
        (concat (show_ℕ count) " jobs are in progress. Retry after jobs complete.") in
    record (retry_later 409 "SELF_UPDATE_BLOCKED" message) { running_jobs = some count }
self_update_error_response SelfUpdate.queue_full =
    retry_later 409 "QUEUE_FULL" "Job queue is at capacity. Please retry later."

-- What a request that changes packages is answered with.
pub data Reply : Type 0 where
  bad_request : NameError → Reply
  accepted : ℕ → Reply
  refused : ErrorResponse → Reply

-- `match` on what the scheduler answers, by the response to its error.
abbrev pub on_admission :
    {X : Type 0} → (X → ErrorResponse) → SchedulerState × Result X ℕ → SchedulerState × Reply
on_admission response (s, ok id) = (s, accepted id)
on_admission response (s, err e) = (s, refused (response e))

-- The first step of each handler: nothing is done with a name that is not valid.
abbrev pub when_valid :
    Result NameError (Unit {0}) → SchedulerState → SchedulerState × Reply → SchedulerState × Reply
when_valid (ok u) s answer = answer
when_valid (err e) s answer = (s, bad_request e)

-- `SELF_PACKAGE_NAME`.
abbrev pub self_package_name : String
self_package_name = "linux-patch-api"

-- `InstallRequest` and the paths of the other two requests, with the texts that a job keeps.
abbrev pub spec_of : String × Option String → PackageSpec
spec_of (name, version) = record { name = codes name; version = Option.map codes version }

abbrev pub requested_name : String × Option String → String
requested_name (name, version) = name

-- `install_packages`, `update_package` and `remove_package`, up to the task that they spawn.
unfoldable pub install_packages :
    Env → List (String × Option String) → SchedulerState → SchedulerState × Reply
unfolding validate_package_names admit_job admission_error_response
install_packages env packages s =
    when_valid (validate_package_names (map spec_of packages)) s (
      on_admission admission_error_response (admit_job env install (map requested_name packages) s))

unfoldable pub update_package : Env → String → SchedulerState → SchedulerState × Reply
unfolding validate_package_name admit_job try_reserve_self_update admission_error_response
    self_update_error_response
update_package env name s = when_valid (validate_package_name (codes name)) s (
    if list_eq (codes name) (codes self_package_name)
    then on_admission self_update_error_response (try_reserve_self_update env (name ∷ []) "" "" s)
    else on_admission admission_error_response (admit_job env update (name ∷ []) s))

unfoldable pub remove_package : Env → String → SchedulerState → SchedulerState × Reply
unfolding validate_package_name admit_job admission_error_response
remove_package env name s =
    when_valid (validate_package_name (codes name)) s
      (on_admission admission_error_response (admit_job env remove (name ∷ []) s))

-- What the spawned tasks do with the result of `dispatch_mutation`, each call at its time.
module _ (clock : ℕ → ℕ) (id : ℕ) where
  unfoldable pub end_job : Result Diagnosis (Unit {0}) → SchedulerState → SchedulerState
  unfolding complete_job fail_job_with_diagnostics
  end_job (ok u) s = complete_job (clock 1) id s
  end_job (err d) s = fail_job_with_diagnostics (clock 1) id d s

  -- That of `update_package` for the agent's own package, which also releases the self-update.
  unfoldable pub end_self_update : Result Diagnosis (Unit {0}) → SchedulerState → SchedulerState
  unfolding end_job release_self_update
  end_self_update result s = (release_self_update id (end_job result s)).0

-- The closure of the self-update: an update, also behind a refresh that failed.
unfoldable pub self_update_mutation :
    {S : Type 0}
    → (S → S × Result Error (Unit {0}))
    → (S → S × Result Error (Unit {0}))
    → S
    → S × Result Error (Unit {0})
self_update_mutation refresh upgrade s = upgrade (refresh s).0
