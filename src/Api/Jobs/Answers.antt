-- ===== src/Api/Jobs/Answers.antt =====
-- What the handlers of src/api/handlers/jobs.rs answer, and what an accepted rollback stands in the way of.
use linux_patch_api.Prelude.{
  ℕ, ◌≤◌, Bool, true, false, String, List, [], ◌∷◌, Option, none, some, ◌≡◌, refl, ap, ◌∙◌, arith,
  ◌==◌, Bool-cases, inl, inr, if◌then◌else◌,
}
use linux_patch_api.Prelude.Result.{Result, ok, err, is_ok}
use linux_patch_api.Prelude.Table.{get, count, get-modify, get-remove}
use linux_patch_api.Jobs.Status.{JobStatus, pending, is_terminal, rollback}
use linux_patch_api.Jobs.Job.{Job, Env, is_internal}
use linux_patch_api.Jobs.Job
use linux_patch_api.Scheduler.State.{SchedulerState, counts_active}
use linux_patch_api.Scheduler.Admission.{
  JobAdmissionError, create_job, create_rollback_job, finish_rollback, admit_job_inner,
  can_roll_back, mark_rollback,
}
use linux_patch_api.Scheduler.SelfUpdate.{try_reserve_self_update}
use linux_patch_api.Scheduler.Reboot.{reserve_reboot}
use linux_patch_api.Scheduler.Lifecycle
use linux_patch_api.Api.Packages.{admission_error_response}
use linux_patch_api.Api.Packages.Ending.{get-create_job}
use linux_patch_api.Api.Jobs.{
  JobReply, deleted, delete_not_allowed, job_not_found, rolling_back, rollback_job, delete_job,
  show_status, parse_job_status, on_rollback,
}

-- The status that a summary shows is read back as the same status, as a filter of the list.
pub parse_job_status-show_status : (x : JobStatus) → parse_job_status (show_status x) ≡ some x
unfolding parse_job_status show_status
parse_job_status-show_status x = ground arith

-- An active job that is not internal is counted.
count-get :
    (p : Job → Bool) (k : ℕ) (j : Job) (m : List (ℕ × Job))
    → get k m ≡ some j
    → p j ≡ true
    → 1 ≤ count p m
unfolding get count
count-get p k j [] h a = ground arith
count-get p k j ((i, w) ∷ m) h a = ground (arith, h, a, count-get p k j m)

-- A deletion answers that the job is deleted exactly if it is there and terminal, and then it is gone
-- and every other job is as it was; otherwise nothing changes, and the answer says whether it is there.
abbrev pub Deletion : ℕ → ℕ → SchedulerState → Option Job → Type 0
Deletion id k s none = delete_job (some id) s ≡ (s, job_not_found)
Deletion id k s (some j) =
    (is_terminal j.status ≡ true
      → ((delete_job (some id) s).1 ≡ deleted)
        × (get k (delete_job (some id) s).0.jobs ≡ (if id == k then none else get k s.jobs)))
    × (is_terminal j.status ≡ false → delete_job (some id) s ≡ (s, delete_not_allowed))

pub delete_job-Deletion :
    (id k : ℕ) (s : SchedulerState) (o : Option Job) → get id s.jobs ≡ o → Deletion id k s o
unfolding delete_job Lifecycle.delete_job Lifecycle.get_job
delete_job-Deletion id k s none h = ground (arith, h)
delete_job-Deletion id k s (some j) h = (
  λ t. (ground (arith, h, t), ground (arith, h, t, get-remove id k s.jobs)),
  λ t. ground (arith, h, t),
)

abbrev is_rolling : JobReply → Bool
is_rolling (rolling_back id) = true
is_rolling _ = false

-- The job that an accepted rollback makes.
abbrev pub rollback_of : Env → ℕ → Job → Job
rollback_of env id j = mark_rollback id (Job.new env rollback j.packages)

admit_job_inner-granted :
    (env : Env) (packages : List String) (s : SchedulerState)
    → is_ok (admit_job_inner env rollback packages s).1 ≡ true
    → admit_job_inner env rollback packages s
      ≡ (create_job env (Job.new env rollback packages) s, ok env.new_id)
unfolding admit_job_inner
admit_job_inner-granted env packages s h = ground arith

on_rollback-err :
    (id : ℕ) (r : SchedulerState × Result JobAdmissionError ℕ)
    → is_ok r.1 ≡ false
    → is_rolling (on_rollback (finish_rollback id r)).1 ≡ false
unfolding finish_rollback admission_error_response
on_rollback-err id (t, ok n) h = ground arith
on_rollback-err id (t, err e) h = refl

rollback_job-eligible :
    (env : Env) (id : ℕ) (j : Job) (s : SchedulerState)
    → get id s.jobs ≡ some j
    → can_roll_back j.status ≡ true
    → rollback_job env (some id) s
      ≡ on_rollback (finish_rollback id (admit_job_inner env rollback j.packages s))
unfolding rollback_job create_rollback_job
rollback_job-eligible env id j s h c = ground (arith, h, c)

finish_rollback-made :
    (env : Env) (id : ℕ) (packages : List String) (s : SchedulerState)
    → let t = create_job env (Job.new env rollback packages) s in
      get env.new_id (on_rollback (finish_rollback id (t, ok env.new_id))).0.jobs
      ≡ some (mark_rollback id (Job.new env rollback packages))
unfolding finish_rollback
finish_rollback-made env id packages s =
    let t = create_job env (Job.new env rollback packages) s in
    ground (
      arith,
      get-modify env.new_id env.new_id (mark_rollback id) t.jobs,
      get-create_job env rollback packages s,
    )

rollback_job-made :
    (env : Env) (id : ℕ) (j : Job) (s : SchedulerState)
    → get id s.jobs ≡ some j
    → is_rolling (rollback_job env (some id) s).1 ≡ true
    → get env.new_id (rollback_job env (some id) s).0.jobs ≡ some (rollback_of env id j)
rollback_job-made env id j s h a = elim (Bool-cases (can_roll_back j.status)) [
  | inr c ↦ unfold rollback_job create_rollback_job in ground (arith, h, c, a)
  | inl c ↦
      let e = rollback_job-eligible env id j s h c in
      let r = admit_job_inner env rollback j.packages s in
      elim (Bool-cases (is_ok r.1)) [
        | inr g ↦ ground (arith, ap (λ x. is_rolling x.1) e, on_rollback-err id r g, a)
        | inl g ↦
            rw (e, admit_job_inner-granted env j.packages s g)
              (finish_rollback-made env id j.packages s)
      ]
]

-- The job is not deleted, and neither a self-update nor a reboot without force is admitted.
abbrev pub Blocked : Env → List String → String → String → Bool → ℕ → SchedulerState → Type 0
Blocked env packages from target ack id s =
    (delete_job (some id) s ≡ (s, delete_not_allowed))
    × (is_ok (try_reserve_self_update env packages from target s).1 ≡ false)
    × (is_ok (reserve_reboot env false ack s).1 ≡ false)

pending-Blocked :
    (env : Env) (packages : List String) (from target : String) (ack : Bool) (id : ℕ) (j : Job)
    (s : SchedulerState)
    → get id s.jobs ≡ some j
    → j.status ≡ pending
    → is_internal j ≡ false
    → Blocked env packages from target ack id s
pending-Blocked env packages from target ack id j s h p i =
    let c = count-get counts_active id j s.jobs h (ground (arith, p, i)) in
    (
      (delete_job-Deletion id id s (some j) h).1 (ground (arith, p)),
      (unfold try_reserve_self_update in ground (arith, c)),
      unfold reserve_reboot in ground (arith, c),
    )

-- A rollback that is accepted, of a job that is no internal one, is a new pending job; in every state
-- in which it still is as the handler left it, it cannot be deleted, and neither a self-update nor a
-- reboot without force is admitted.
pub rollback_job-blocks :
    (env later : Env) (id : ℕ) (packages : List String) (from target : String) (ack : Bool)
    (j : Job) (s u : SchedulerState)
    → get id s.jobs ≡ some j
    → is_internal j ≡ false
    → is_rolling (rollback_job env (some id) s).1 ≡ true
    → get env.new_id u.jobs ≡ get env.new_id (rollback_job env (some id) s).0.jobs
    → (get env.new_id u.jobs ≡ some (rollback_of env id j))
      × Blocked later packages from target ack env.new_id u
rollback_job-blocks env later id packages from target ack j s u h i a same =
    let made = same ∙ rollback_job-made env id j s h a in
    (
      made,
      pending-Blocked later packages from target ack env.new_id (rollback_of env id j) u made
          (unfold Job.new in refl) (unfold Job.new is_internal in i),
    )
