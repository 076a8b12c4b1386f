-- ===== src/Scheduler/System/Slot.antt =====
-- The mutation slot and the watchdogs: who owns the slot, and that it comes back.
use linux_patch_api.Prelude.{
  ℕ, suc, Bool, true, false, List, [], ◌∷◌, Option, none, some, ◌≡◌, refl, sym, inl, inr, arith,
  Bool-cases, Option-cases,
}
use linux_patch_api.Scheduler.State.{SchedulerState}
use linux_patch_api.Scheduler.Dispatch.{
  DispatchError, rejected, waits, TaskOutcome, try_dispatch, acquire, refusal, must_wait,
  still_owns, finalize, watchdog_finish,
}
use linux_patch_api.Scheduler.System.{
  System, Watchdog, spawned, Picks, first, later, Step, call, dispatch, finish, Reach, here, next,
  start,
}
use linux_patch_api.Scheduler.System.Frame.{apply-Frame}

-- The slot is free and no watchdog is in flight, or one watchdog is, with the slot's job and the
-- current generation.
abbrev pub OwnedBy : Option ℕ → ℕ → List Watchdog → Type 0
OwnedBy none g [] = Unit {0}
OwnedBy none g (w ∷ ws) = ⊥
OwnedBy (some id) g [] = ⊥
OwnedBy (some id) g (w ∷ []) = (w.job_id ≡ id) × (w.generation ≡ g)
OwnedBy (some id) g (w ∷ v ∷ ws) = ⊥

abbrev pub IsOwned : System → Type 0
IsOwned t = OwnedBy t.state.active_mutation t.state.mutation_generation t.watchdogs

-- The three ways that a pass of the wait loop can go.
pub data Pass (now id : ℕ) (s : SchedulerState) : Type 0 where
  refused :
      (e : DispatchError)
      → refusal id s ≡ some e
      → try_dispatch now id s ≡ (s, rejected e)
      → Pass now id s
  parked :
      refusal id s ≡ none
      → must_wait id s ≡ true
      → try_dispatch now id s ≡ (s, waits)
      → Pass now id s
  entered :
      refusal id s ≡ none
      → must_wait id s ≡ false
      → try_dispatch now id s ≡ acquire now id s
      → Pass now id s

pub try_dispatch-Pass : (now id : ℕ) (s : SchedulerState) → Pass now id s
unfolding try_dispatch
try_dispatch-Pass now id s = elim (Option-cases (refusal id s)) [
  | inr (e, r) ↦ refused e r (rw (r, try_dispatch))
  | inl r ↦ elim (Bool-cases (must_wait id s)) [
    | inl w ↦ parked r w (rw (r, w, try_dispatch))
    | inr w ↦ entered r w (rw (r, w, try_dispatch))
  ]
]

-- A pass that need not wait finds the slot free.
pub slot_free_of_must_wait :
    (id : ℕ) (s : SchedulerState) → must_wait id s ≡ false → s.active_mutation ≡ none
unfolding must_wait
slot_free_of_must_wait id s h = ground arith

no_watchdog_of_free :
    (slot : Option ℕ) (g : ℕ) (ws : List Watchdog) → OwnedBy slot g ws → slot ≡ none → ws ≡ []
no_watchdog_of_free none g [] o f = refl
no_watchdog_of_free none g (w ∷ ws) o f = absurd o
no_watchdog_of_free (some id) g ws o f = cc

acquire-IsOwned :
    (now id : ℕ) (s : SchedulerState)
    → IsOwned
        (record { state = (acquire now id s).0; watchdogs = spawned id (acquire now id s).1 [] })
unfolding acquire
acquire-IsOwned now id s = ground arith

dispatch-IsOwned :
    (now id : ℕ) (s : SchedulerState) (ws : List Watchdog)
    → OwnedBy s.active_mutation s.mutation_generation ws
    → IsOwned (record {
      state = (try_dispatch now id s).0;
      watchdogs = spawned id (try_dispatch now id s).1 ws;
    })
dispatch-IsOwned now id s ws o = elim (try_dispatch-Pass now id s) [
  | refused e _ p ↦ rw p o
  | parked _ _ p ↦ rw p o
  | entered _ w p ↦
      rw (p, no_watchdog_of_free _ _ ws o (slot_free_of_must_wait id s w))
        (acquire-IsOwned now id s)
]

-- What is known of a watchdog in flight.
picked :
    {w : Watchdog} {ws rest : List Watchdog} (slot : Option ℕ) (g : ℕ)
    → Picks w ws rest
    → OwnedBy slot g ws
    → (rest ≡ []) × (slot ≡ some w.job_id) × (g ≡ w.generation)
picked none g first o = absurd o
picked none g (later p) o = absurd o
picked (some id) g (first {ws = []}) o = (refl, ground arith, sym o.1)
picked (some id) g (first {ws = v ∷ ws}) o = absurd o
picked (some id) g (later {ws = []} p) o = elim p [ ]
picked (some id) g (later {ws = v ∷ ws} p) o = absurd o

finalize-slot :
    (now id : ℕ) (outcome : TaskOutcome) (s : SchedulerState)
    → (finalize now id outcome s).active_mutation ≡ s.active_mutation
unfolding finalize
finalize-slot now id outcome s = ground arith

finalize-wakes :
    (now id : ℕ) (outcome : TaskOutcome) (s : SchedulerState)
    → (finalize now id outcome s).wakes ≡ s.wakes
unfolding finalize
finalize-wakes now id outcome s = ground arith

still_owns_of_eq :
    (id g : ℕ) (s : SchedulerState)
    → s.active_mutation ≡ some id
    → s.mutation_generation ≡ g
    → still_owns id g s ≡ true
still_owns_of_eq id g s p q = ground arith

watchdog_finish-slot :
    (now id g : ℕ) (outcome : TaskOutcome) (alive : Bool) (s : SchedulerState)
    → still_owns id g s ≡ true
    → (watchdog_finish now id g outcome alive s).active_mutation ≡ none
unfolding watchdog_finish
watchdog_finish-slot now id g outcome alive s h =
    let released = record s { active_mutation = none } in
    ground (arith, finalize-slot now id outcome released)

pub Step-IsOwned : {t u : System} → Step t u → IsOwned t → IsOwned u
Step-IsOwned (call t op) o = let f = apply-Frame op t.state in rw (f.slot, f.generation) o
Step-IsOwned (dispatch t now id) o = dispatch-IsOwned now id t.state t.watchdogs o
Step-IsOwned (finish t w rest now outcome alive p) o =
    let (none_left, slot, generation) = picked t.state.active_mutation _ p o in
    rw
      (
        none_left,
        watchdog_finish-slot now w.job_id w.generation outcome alive t.state
            (still_owns_of_eq w.job_id w.generation t.state slot generation),
      )
      tt

start-IsOwned : (concurrent depth counter : ℕ) → IsOwned (start concurrent depth counter)
unfolding start
start-IsOwned concurrent depth counter = tt

-- In every system that the scheduler can reach from its start, by any calls, passes of wait loops
-- and ends of mutations in any order, either the mutation slot is free and no watchdog is in
-- flight, or exactly one watchdog is, and the slot names its job and the state its generation.
pub Reach-IsOwned :
    (concurrent depth counter : ℕ) {t : System}
    → Reach (start concurrent depth counter) t
    → IsOwned t
Reach-IsOwned concurrent depth counter here = start-IsOwned concurrent depth counter
Reach-IsOwned concurrent depth counter (next r st) =
    Step-IsOwned st (Reach-IsOwned concurrent depth counter r)

watchdog_finish-wakes :
    (now id g : ℕ) (outcome : TaskOutcome) (alive : Bool) (s : SchedulerState)
    → (watchdog_finish now id g outcome alive s).wakes ≡ suc s.wakes
unfolding watchdog_finish
watchdog_finish-wakes now id g outcome alive s =
    let released = record s { active_mutation = none } in
    ground (arith, finalize-wakes now id outcome released)

-- In every reachable system each watchdog in flight passes its ownership check, whatever happened
-- since it was spawned; when it ends, however its task ended and whether or not the caller is
-- there, the slot is free, no other watchdog is in flight and one more waiter is woken.
pub watchdog_finish-frees :
    (concurrent depth counter : ℕ) {t : System} {w : Watchdog} {rest : List Watchdog} (now : ℕ)
    (outcome : TaskOutcome) (alive : Bool)
    → Reach (start concurrent depth counter) t
    → Picks w t.watchdogs rest
    → let s' = watchdog_finish now w.job_id w.generation outcome alive t.state in
      (still_owns w.job_id w.generation t.state ≡ true)
      × (s'.active_mutation ≡ none)
      × (rest ≡ [])
      × (s'.wakes ≡ suc t.state.wakes)
watchdog_finish-frees concurrent depth counter {t} {w} now outcome alive r p =
    let (none_left, slot, generation) =
      picked t.state.active_mutation _ p (Reach-IsOwned concurrent depth counter r) in
    let owns = still_owns_of_eq w.job_id w.generation t.state slot generation in
    (
      owns,
      watchdog_finish-slot now w.job_id w.generation outcome alive t.state owns,
      none_left,
      watchdog_finish-wakes now w.job_id w.generation outcome alive t.state,
    )
