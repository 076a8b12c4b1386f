-- ===== src/Scheduler/Dispatch/Finish.antt =====
-- What the watchdog does to the jobs.
use mathlib.Core.Option
use linux_patch_api.Prelude.{
  ℕ, Bool, true, false, ◌&&◌, not, String, Option, none, some, ◌≡◌, refl, arith, ◌==◌,
  if◌then◌else◌,
}
use linux_patch_api.Prelude.Table.{get}
use linux_patch_api.Jobs.Job.{Job}
use linux_patch_api.Scheduler.State.{SchedulerState, notify_one}
use linux_patch_api.Scheduler.Reboot.Cancel.{get-change_job}
use linux_patch_api.Scheduler.Dispatch.{
  TaskOutcome, is_unfinished, abandon, error_text, finalize, still_owns, watchdog_finish,
}

abbrev pub is_unfinished_job : Option Job → Bool
is_unfinished_job none = false
is_unfinished_job (some j) = is_unfinished j.status

get-finalize :
    (now id k : ℕ) (outcome : TaskOutcome) (s : SchedulerState)
    → get k (finalize now id outcome s).jobs ≡ (
        if is_unfinished_job (get id s.jobs) && id == k
        then Option.map (abandon now (error_text outcome)) (get k s.jobs)
        else get k s.jobs)
unfolding finalize
get-finalize now id k outcome s =
    ground (arith, get-change_job now id k (abandon now (error_text outcome)) s)

-- A watchdog that owns the slot touches one job at most: its own, if the caller is gone and the
-- job is pending or running, and this job is abandoned. All other jobs stay as they are.
pub get-watchdog_finish :
    (now id g k : ℕ) (outcome : TaskOutcome) (alive : Bool) (s : SchedulerState)
    → still_owns id g s ≡ true
    → get k (watchdog_finish now id g outcome alive s).jobs ≡ (
        if (not alive && is_unfinished_job (get id s.jobs)) && id == k
        then Option.map (abandon now (error_text outcome)) (get k s.jobs)
        else get k s.jobs)
unfolding watchdog_finish
get-watchdog_finish now id g k outcome alive s h =
    let released = record s { active_mutation = none } in
    ground (arith, get-finalize now id k outcome released)

abandon-unfinished :
    (now : ℕ) (error : Option String) (j : Job) → is_unfinished (abandon now error j).status ≡ false
unfolding abandon
abandon-unfinished now none j = refl
abandon-unfinished now (some e) j = refl

-- Once the watchdog that owns the slot is done and the caller is gone, the job is neither pending
-- nor running, however the task ended.
pub watchdog_finish-unfinished :
    (now id g : ℕ) (outcome : TaskOutcome) (s : SchedulerState)
    → still_owns id g s ≡ true
    → is_unfinished_job (get id (watchdog_finish now id g outcome false s).jobs) ≡ false
watchdog_finish-unfinished now id g outcome s h =
    go (get id s.jobs) (get-watchdog_finish now id g id outcome false s h)
  where
    go :
        (o : Option Job)
        → get id (watchdog_finish now id g outcome false s).jobs ≡ (
            if is_unfinished_job o && id == id
            then Option.map (abandon now (error_text outcome)) o
            else o)
        → is_unfinished_job (get id (watchdog_finish now id g outcome false s).jobs) ≡ false
    go none e = ground arith
    go (some j) e = ground (arith, abandon-unfinished now (error_text outcome) j)

-- A watchdog that does not own the slot does nothing but wake a waiter.
pub watchdog_finish-stale :
    (now id g : ℕ) (outcome : TaskOutcome) (alive : Bool) (s : SchedulerState)
    → still_owns id g s ≡ false
    → watchdog_finish now id g outcome alive s ≡ notify_one s
unfolding watchdog_finish
watchdog_finish-stale now id g outcome alive s h = rw h
