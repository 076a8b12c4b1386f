-- ===== src/Api/Packages/Ending.antt =====
-- What the requests that change packages come to, and how their jobs end: the handlers of
-- src/api/handlers/packages.rs on the state of the scheduler.
use linux_patch_api.Prelude.{
  ℕ, String, Bool, true, false, List, [], ◌∷◌, map, list_eq, Option, none, some, ◌≡◌, refl, ap,
  arith, inl, inr, Bool-cases, if◌then◌else◌,
}
use linux_patch_api.Prelude.Result.{Result, ok, err, is_ok}
use linux_patch_api.Prelude.Table.{get, get-insert}
use linux_patch_api.Prelude.Text.{codes}
use linux_patch_api.Jobs.Status.{
  JobStatus, JobOperation, install, update, remove, self_update, completed, failed,
}
use linux_patch_api.Jobs.Job.{Job, Env, Diagnosis, fail_with_diagnostics}
use linux_patch_api.Jobs.Job
use linux_patch_api.Scheduler.State.{
  SchedulerState, next_generation, notify_one, emit_event_detailed,
}
use linux_patch_api.Scheduler.Admission.{JobAdmissionError, create_job, admit_job}
use linux_patch_api.Scheduler.SelfUpdate
use linux_patch_api.Scheduler.SelfUpdate.{
  SelfUpdateAdmissionError, already_in_progress, jobs_in_progress, try_reserve_self_update,
  release_self_update, owns_self_update,
}
use linux_patch_api.Scheduler.Reservations.{try_reserve_self_update-refused}
use linux_patch_api.Scheduler.System.Frame.{Keeps}
use linux_patch_api.Scheduler.System.Closed.{is_closed}
use linux_patch_api.Scheduler.Lifecycle.{complete_job, fail_job_with_diagnostics}
use linux_patch_api.Packages.Request.{NameError, validate_package_name, validate_package_names}
use linux_patch_api.Api.Patches.Ending.Status.{status_of, status-complete_job, status-fail}
use linux_patch_api.Api.Packages.{
  Reply, ErrorResponse, bad_request, accepted, refused, on_admission, when_valid, spec_of,
  requested_name, self_package_name, admission_error_response, self_update_error_response,
  install_packages, update_package, remove_package, end_job, end_self_update,
}

module _ (env : Env) (op : JobOperation) (packages : List String) (valid : Bool)
    (s : SchedulerState) where
  -- What a request for new work comes to.
  abbrev pub Answers : SchedulerState × Reply → Type 0
  Answers (t, bad_request e) = (valid ≡ false) × (t ≡ s)
  Answers (t, refused e) = (valid ≡ true) × (t ≡ s) × (e.retry_after ≡ some 60)
  Answers (t, accepted id) =
      (valid ≡ true)
      × (is_closed s ≡ false)
      × (s.self_update ≡ none)
      × (id ≡ env.new_id)
      × (get id t.jobs ≡ some (Job.new env op packages))

  -- What an admission that was granted means.
  abbrev Admitted : {X : Type 0} → SchedulerState × Result X ℕ → Type 0
  Admitted r =
      (is_closed s ≡ false)
      × (s.self_update ≡ none)
      × (r.1 ≡ ok env.new_id)
      × (get env.new_id r.0.jobs ≡ some (Job.new env op packages))

pub get-create_job :
    (env : Env) (op : JobOperation) (packages : List String) (s : SchedulerState)
    → get env.new_id (create_job env (Job.new env op packages) s).jobs
      ≡ some (Job.new env op packages)
unfolding create_job Job.new
get-create_job env op packages s =
    ground (arith, get-insert env.new_id env.new_id (Job.new env op packages) s.jobs)

get-reserve :
    (env : Env) (packages : List String) (s : SchedulerState)
    → get env.new_id (SelfUpdate.reserve env packages "" "" s).jobs
      ≡ some (Job.new env self_update packages)
unfolding SelfUpdate.reserve next_generation create_job
get-reserve env packages s = get-create_job env self_update packages s

when_valid-Answers :
    (env : Env) (op : JobOperation) (packages : List String) (s : SchedulerState)
    (valid : Result NameError (Unit {0})) (answer : SchedulerState × Reply)
    → Answers env op packages true s answer
    → Answers env op packages (is_ok valid) s (when_valid valid s answer)
when_valid-Answers env op packages s (ok u) answer a = a
when_valid-Answers env op packages s (err e) answer a = (refl, refl)

admission_error_response-retry :
    (e : JobAdmissionError) → (admission_error_response e).retry_after ≡ some 60
unfolding admission_error_response
admission_error_response-retry e = ground arith

self_update_error_response-retry :
    (e : SelfUpdateAdmissionError) → (self_update_error_response e).retry_after ≡ some 60
unfolding self_update_error_response
self_update_error_response-retry e = ground arith

abbrev owner_of : {X : Type 0} → ℕ → Result X ℕ → ℕ
owner_of d (ok id) = id
owner_of d (err e) = d

module _ (env : Env) (op : JobOperation) (packages : List String) (s : SchedulerState) where
  on_admission-Answers :
      {X : Type 0} (response : X → ErrorResponse) (r : SchedulerState × Result X ℕ)
      → ((e : X) → (response e).retry_after ≡ some 60)
      → (is_ok r.1 ≡ false → r.0 ≡ s)
      → (is_ok r.1 ≡ true → Admitted env op packages true s r)
      → Answers env op packages true s (on_admission response r)
  on_admission-Answers response (t, err e) later f g = (refl, f refl, later e)
  on_admission-Answers response (t, ok id) later f g =
      let (c, u, e, j) = g refl in let same = ap (owner_of id) e in (refl, c, u, same, rw same j)

  admit_job-Admitted :
      is_ok (admit_job env op packages s).1 ≡ true
      → Admitted env op packages true s (admit_job env op packages s)
  unfolding admit_job
  admit_job-Admitted h =
      (ground arith, ground arith, ground arith, ground (arith, get-create_job env op packages s))

  admit-Answers :
      Answers env op packages true s
        (on_admission admission_error_response (admit_job env op packages s))
  admit-Answers =
      on_admission-Answers admission_error_response (admit_job env op packages s)
        admission_error_response-retry (λ h. unfold admit_job in ground arith) admit_job-Admitted

module _ (env : Env) (packages : List String) (s : SchedulerState) where
  try_reserve_self_update-Admitted :
      is_ok (try_reserve_self_update env packages "" "" s).1 ≡ true
      → Admitted env self_update packages true s (try_reserve_self_update env packages "" "" s)
  unfolding try_reserve_self_update
  try_reserve_self_update-Admitted h =
      (ground arith, ground arith, ground arith, ground (arith, get-reserve env packages s))

  reserve-Answers :
      Answers env self_update packages true s
        (on_admission self_update_error_response (try_reserve_self_update env packages "" "" s))
  reserve-Answers =
      on_admission-Answers env self_update packages s self_update_error_response
        (try_reserve_self_update env packages "" "" s) self_update_error_response-retry
        (try_reserve_self_update-refused env packages "" "" s) try_reserve_self_update-Admitted

-- The answer to each of the three requests. A name that is not valid, and every refusal, leaves the
-- scheduler as it was; a refusal tells the client to retry after 60 seconds. A request is accepted only
-- while admission is open and neither a self-update nor a reboot is reserved, and then its job is there,
-- pending, with the names of the request: for the agent's own package as a self-update.
pub change_requests-Answers :
    (env : Env) (packages : List (String × Option String)) (name : String) (s : SchedulerState)
    → Answers env install
        (map requested_name packages)
        (is_ok (validate_package_names (map spec_of packages)))
        s
        (install_packages env packages s)
      × Answers env
          (if list_eq (codes name) (codes self_package_name) then self_update else update)
          (name ∷ [])
          (is_ok (validate_package_name (codes name)))
          s
          (update_package env name s)
      × Answers env remove
          (name ∷ [])
          (is_ok (validate_package_name (codes name)))
          s
          (remove_package env name s)
unfolding install_packages update_package remove_package
change_requests-Answers env packages name s = (
  when_valid-Answers env install (map requested_name packages) s
      (validate_package_names (map spec_of packages))
      (on_admission admission_error_response
        (admit_job env install (map requested_name packages) s))
      (admit-Answers env install (map requested_name packages) s),
  when_valid-Answers env _ (name ∷ []) s (validate_package_name (codes name)) _
      (elim (Bool-cases (list_eq (codes name) (codes self_package_name))) [
        | inl e ↦ rw e (reserve-Answers env (name ∷ []) s)
        | inr e ↦ rw e (admit-Answers env update (name ∷ []) s)
      ]),
  when_valid-Answers env remove (name ∷ []) s (validate_package_name (codes name))
      (on_admission admission_error_response (admit_job env remove (name ∷ []) s))
      (admit-Answers env remove (name ∷ []) s),
)

end_job-status :
    (clock : ℕ → ℕ) (id : ℕ) (r : Result Diagnosis (Unit {0})) (x : JobStatus)
    → (s : SchedulerState) → status_of id s ≡ some x
    → status_of id (end_job clock id r s) ≡ some (if is_ok r then completed else failed)
unfolding end_job
end_job-status clock id (ok u) x s h = status-complete_job (clock 1) id x s h
end_job-status clock id (err d) x s h = status-fail (clock 1) id d x s h

end_job-Keeps :
    (clock : ℕ → ℕ) (id : ℕ) (r : Result Diagnosis (Unit {0})) (s : SchedulerState)
    → Keeps s (end_job clock id r s)
unfolding end_job complete_job fail_job_with_diagnostics notify_one emit_event_detailed
end_job-Keeps clock id (ok u) s = ground arith
end_job-Keeps clock id (err d) s = ground arith

-- However the update of the agent's own package ended, as its task ends the job is completed or failed
-- by the result, the self-update that the job owns is released, and neither the admission nor a reserved
-- reboot is touched.
pub end_self_update-Releases :
    (clock : ℕ → ℕ) (id : ℕ) (r : Result Diagnosis (Unit {0})) (x : JobStatus) (s : SchedulerState)
    → status_of id s ≡ some x
    → owns_self_update s.self_update id ≡ true
    → let t = end_self_update clock id r s in
      (status_of id t ≡ some (if is_ok r then completed else failed))
      × (t.self_update ≡ none)
      × (t.admission ≡ s.admission)
      × (t.reboot_pending ≡ s.reboot_pending)
unfolding end_self_update
end_self_update-Releases clock id r x s h o =
    let k = end_job-Keeps clock id r s in
    unfold release_self_update in
    ground (arith, k.admission, k.self_update, k.reboot, end_job-status clock id r x s h)
