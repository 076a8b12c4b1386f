-- ===== src/Scheduler/System/Barriers.antt =====
-- What closed admission and the reservations keep out, over whole runs of the system.
use linux_patch_api.Prelude.{ℕ, ◌≤◌, Bool, true, false, List, none, some, ◌≡◌, arith, length}
use linux_patch_api.Prelude.Table.{get}
use linux_patch_api.Scheduler.State.{SchedulerState, is_open}
use linux_patch_api.Scheduler.Dispatch.{TaskOutcome, finalize, abandon, error_text, watchdog_finish}
use linux_patch_api.Scheduler.System.{
  System, Watchdog, Picks, first, later, Step, call, dispatch, finish, Reach, here, next,
}
use linux_patch_api.Scheduler.System.Frame.{watchdog_finish-Keeps}
use linux_patch_api.Scheduler.System.Closed.{
  is_closed, closed_of_reboot, closed_of_mode, change_job-get-none, try_dispatch_closed,
  apply-get-none, rolls_back, apply-reboot_pending, apply-closed,
}

-- The step rolls this reboot back.
abbrev pub step_rolls_back : ℕ → {t u : System} → Step t u → Bool
step_rolls_back r (call t op) = rolls_back r op
step_rolls_back r (dispatch t now id) = false
step_rolls_back r (finish t w ws now outcome alive p) = false

-- A run in which no step rolls this reboot back.
pub data Quiet (r : ℕ) (s : System) : System → Type 0 where
  rest : Quiet r s s
  more : {t u : System} → Quiet r s t → (st : Step t u) → step_rolls_back r st ≡ false → Quiet r s u

-- Neither a new job under this id nor one more mutation in flight, from one system to the other.
pub record NothingNew (k : ℕ) (s t : System) : Type 0 where
  pub no_job : get k t.state.jobs ≡ none
  pub no_mutation : length t.watchdogs ≤ length s.watchdogs

Picks-length : {w : Watchdog} {ws ws' : List Watchdog} → Picks w ws ws' → length ws' ≤ length ws
Picks-length first = omega arith
Picks-length (later p) = omega (arith, Picks-length p)

finalize-get-none :
    (now id k : ℕ) (outcome : TaskOutcome) (s : SchedulerState)
    → get k s.jobs ≡ none
    → get k (finalize now id outcome s).jobs ≡ none
unfolding finalize
finalize-get-none now id k outcome s h =
    ground (arith, change_job-get-none now id k (abandon now (error_text outcome)) s h)

finish-get-none :
    (now id g k : ℕ) (outcome : TaskOutcome) (alive : Bool) (s : SchedulerState)
    → get k s.jobs ≡ none
    → get k (watchdog_finish now id g outcome alive s).jobs ≡ none
unfolding watchdog_finish
finish-get-none now id g k outcome alive s h =
    let released = record s { active_mutation = none } in
    ground (arith, finalize-get-none now id k outcome released h)

-- A step of a closed system brings nothing new.
Step-NothingNew :
    {t u : System} (k : ℕ)
    → Step t u
    → is_closed t.state ≡ true
    → get k t.state.jobs ≡ none
    → NothingNew k t u
Step-NothingNew k (call t op) c h = record {
  no_job = apply-get-none op k t.state c h;
  no_mutation = omega arith;
}
Step-NothingNew k (dispatch t now id) c h =
    let (e, p) = try_dispatch_closed now id t.state c in
    rw p (record { no_job = h; no_mutation = omega arith })
Step-NothingNew k (finish t w ws now outcome alive p) c h = record {
  no_job = finish-get-none now w.job_id w.generation k outcome alive t.state h;
  no_mutation = Picks-length p;
}

Step-reboot_pending :
    {t u : System} (r : ℕ) (st : Step t u)
    → step_rolls_back r st ≡ false
    → t.state.reboot_pending ≡ some r
    → u.state.reboot_pending ≡ some r
Step-reboot_pending r (call t op) n h = apply-reboot_pending r op t.state n h
Step-reboot_pending r (dispatch t now id) n h =
    let (e, p) = try_dispatch_closed now id t.state (closed_of_reboot r t.state h) in rw p h
Step-reboot_pending r (finish t w ws now outcome alive p) n h =
    rw (watchdog_finish-Keeps now w.job_id w.generation outcome alive t.state).reboot h

Step-closed :
    {t u : System}
    → Step t u
    → is_open t.state.admission ≡ false
    → is_open u.state.admission ≡ false
Step-closed (call t op) h = apply-closed op t.state h
Step-closed (dispatch t now id) h =
    let (e, p) = try_dispatch_closed now id t.state (closed_of_mode t.state h) in rw p h
Step-closed (finish t w ws now outcome alive p) h =
    rw (watchdog_finish-Keeps now w.job_id w.generation outcome alive t.state).admission h

-- From a reserved reboot on, as long as nothing rolls it back, whatever else happens: the
-- reservation stays with its owner, no job comes into being and no mutation starts.
pub reboot_barrier :
    (r k : ℕ) {t u : System}
    → Quiet r t u
    → t.state.reboot_pending ≡ some r
    → get k t.state.jobs ≡ none
    → (u.state.reboot_pending ≡ some r) × NothingNew k t u
reboot_barrier r k rest p h = (p, record { no_job = h; no_mutation = omega arith })
reboot_barrier r k (more {t = v} q st n) p h =
    let (p', new) = reboot_barrier r k q p h in
    let step = Step-NothingNew k st (closed_of_reboot r v.state p') new.no_job in
    (Step-reboot_pending r st n p', record { no_job = step.no_job; no_mutation = omega arith })

-- From a freeze on, whatever happens: the admission never opens again, no job comes into being and
-- no mutation starts.
pub freeze_barrier :
    (k : ℕ) {t u : System}
    → Reach t u
    → is_open t.state.admission ≡ false
    → get k t.state.jobs ≡ none
    → (is_open u.state.admission ≡ false) × NothingNew k t u
freeze_barrier k here c h = (c, record { no_job = h; no_mutation = omega arith })
freeze_barrier k (next {t = v} q st) c h =
    let (c', new) = freeze_barrier k q c h in
    let step = Step-NothingNew k st (closed_of_mode v.state c') new.no_job in
    (Step-closed st c', record { no_job = step.no_job; no_mutation = omega arith })
