-- ===== src/Scheduler/Restart/Outcome.antt =====
-- What becomes of the jobs of the agent's last life.
use text.Mathlib.Text.{◌==◌ as str_eq}
use linux_patch_api.Prelude.{
  ℕ, ◌≤◌, Bool, true, false, not, ◌==◌, List, [], ◌∷◌, String, Option, none, some, ◌≡◌, refl, arith,
  filter, any, if◌then◌else◌,
}
use linux_patch_api.Prelude.Table.{insert, count, count-insert}
use linux_patch_api.Jobs.Status.{
  completed, cancelled, failed, rebooting, is_terminal, is_self_update, status_eq,
}
use linux_patch_api.Jobs.Job.{Job, is_internal}
use linux_patch_api.Scheduler.State.{SchedulerState}
use linux_patch_api.Scheduler.Recovery.{recover, recover_orphaned_jobs, load_history}
use linux_patch_api.Scheduler.Restart.{restore}

abbrev is_done : Job → Bool
is_done j = is_terminal j.status

-- The job is not terminal.
abbrev pub is_live : Job → Bool
is_live j = not (is_terminal j.status)

-- The restart proves the success of a self-update and of a reboot.
abbrev pub proved_done : Job → Bool
proved_done j = if is_self_update j.operation then true else status_eq j.status rebooting

-- A boot id was recorded, the current one is known, and they are the same text.
abbrev pub in_this_boot : Option String → Option String → Bool
in_this_boot none boot = false
in_this_boot (some a) none = false
in_this_boot (some a) (some b) = str_eq a b

-- What an orphan becomes: completed if it was a self-update or was waiting for its reboot; else
-- cancelled if it is internal; else failed, with the code for a restart of the agent alone if the
-- boot id recorded in it is the current one, and the code for a reboot otherwise.
abbrev pub Recovered : ℕ → Option String → Job → Job → Type 0
Recovered now boot j r =
    (r.status ≡ (if proved_done j then completed else if is_internal j then cancelled else failed))
    × (r.error_code ≡ (
        if proved_done j
        then none
        else if is_internal j
        then none
        else if in_this_boot j.boot_id boot
        then some "AGENT_RESTARTED"
        else some "AGENT_REBOOTED"))
    × (r.id ≡ j.id)
    × (r.operation ≡ j.operation)
    × (r.packages ≡ j.packages)
    × (r.created_at ≡ j.created_at)
    × (r.completed_at ≡ some now)

recover-terminal : (now : ℕ) (boot : Option String) (j : Job) → is_done (recover now boot j) ≡ true
unfolding recover
recover-terminal now boot j = ground arith

recover-id : (now : ℕ) (boot : Option String) (j : Job) → (recover now boot j).id ≡ j.id
unfolding recover
recover-id now boot j = ground arith

abbrev has_id : ℕ → Job → Bool
has_id k j = j.id == k

unfinished_le_load :
    (js : List Job) (s : SchedulerState)
    → any is_live js ≡ false
    → count is_live (load_history js s).jobs ≤ count is_live s.jobs
unfolding load_history
unfinished_le_load [] s h = omega arith
unfinished_le_load (j ∷ js) s h =
    let s' = record s { jobs = insert j.id j s.jobs } in
    ground (arith, unfinished_le_load js s', count-insert is_live j.id j s.jobs)

unfinished_le_recover :
    (now : ℕ) (boot : Option String) (js : List Job) (s : SchedulerState)
    → count is_live (recover_orphaned_jobs now boot js s).jobs ≤ count is_live s.jobs
unfolding recover_orphaned_jobs
unfinished_le_recover now boot [] s = omega arith
unfinished_le_recover now boot (j ∷ js) s =
    let r = recover now boot j in
    let s' = record s { jobs = insert j.id r s.jobs } in
    ground (
      arith,
      unfinished_le_recover now boot js s',
      count-insert is_live j.id r s.jobs,
      recover-terminal now boot j,
    )

no_live_done : (js : List Job) → any is_live (filter is_done js) ≡ false
no_live_done [] = refl
no_live_done (j ∷ js) = ground (arith, no_live_done js)

-- A restart brings back no unfinished job: none that is pending, running or rebooting is added, so
-- that what the file holds cannot block the admission of new work.
pub restore-unfinished-le :
    (now : ℕ) (boot : Option String) (loaded : List Job) (s : SchedulerState)
    → count is_live (restore now boot loaded s).jobs ≤ count is_live s.jobs
unfolding restore
restore-unfinished-le now boot loaded s = omega (
  arith,
  unfinished_le_recover now boot (filter is_live loaded) (load_history (filter is_done loaded) s),
  unfinished_le_load (filter is_done loaded) s (no_live_done loaded),
)
