-- ===== src/Scheduler/Restart.antt =====
-- A restart as main does it: the jobs of the history file are split by their status, the terminal
-- ones loaded as they are and the others recovered. src/main.rs.
pub mod Outcome
use linux_patch_api.Prelude.{ℕ, Bool, true, false, not, List, String, Option, none, some, filter}
use linux_patch_api.Jobs.Status.{is_terminal}
use linux_patch_api.Jobs.Job.{Job}
use linux_patch_api.Scheduler.State.{SchedulerState}
use linux_patch_api.Scheduler.Recovery.{recover_orphaned_jobs, load_history}

-- The start-up of `main` over the jobs that were loaded.
unfoldable pub restore : ℕ → Option String → List Job → SchedulerState → SchedulerState
restore now boot loaded s =
    recover_orphaned_jobs now boot (filter (λ j. not (is_terminal j.status)) loaded)
      (load_history (filter (λ j. is_terminal j.status) loaded) s)
