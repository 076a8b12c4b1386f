-- ===== src/Api/Examples.antt =====
-- The theorems on src/api at concrete inputs.
use linux_patch_api.Prelude.{ℕ, ◌+◌, true, false, List, [], ◌∷◌, none, some, ◌≡◌, refl}
use linux_patch_api.Prelude.Int.{pos}
use linux_patch_api.Prelude.Result.{Result, ok, err, is_ok}
use linux_patch_api.Prelude.Text.{codes, trim}
use linux_patch_api.Packages.Error.Report.{Error}
use linux_patch_api.Packages.Runner.{Machine, CommandOutput, absent, run_with, run_command_timed}
use linux_patch_api.Packages.Apt.Locks.{cleanup_stale_apt_locks, cleanup_locks, is_stale_lock}
use linux_patch_api.Packages.Apt.Safe.{
  run_apt_safe, ensure_dpkg_clean, verify_dpkg_clean, run_dpkg, apt_command, after_apt,
}
use linux_patch_api.Packages.Apt.Operations.{apt_apply_patches, upgrade, after_upgrade}
use linux_patch_api.Packages.Cache.{update_success}
use linux_patch_api.Api.Patches.{
  World, patch_transaction, apt_transaction, apt_refresh_package_cache, apt_apply,
}
use linux_patch_api.Prelude.Table.{get, Distinct}
use linux_patch_api.Jobs.Status.{patch_apply, running, failed}
use linux_patch_api.Jobs.Job.{Env}
use linux_patch_api.Jobs.Job
use linux_patch_api.Scheduler.State.{SchedulerState}
use linux_patch_api.Scheduler.State
use linux_patch_api.Api.Patches.Conclusion.{Conclusion, conclude}
use linux_patch_api.Api.Patches.Ending.Status.{status_of}
use linux_patch_api.Api.Patches.Ending.{Settled, conclude-Settled}
use linux_patch_api.Api.Patches.Upgrade.{IsUpgraded, apt_transaction-upgrades}

abbrev quiet : CommandOutput
quiet = record { status_code = some (pos 0); stdout = []; stderr = []; timed_out = false }

abbrev next : ℕ → ℕ × Result Error CommandOutput
next n = (n + 1, ok quiet)

-- A machine on which every command goes well.
abbrev healthy : Machine
healthy = record {
  State = ℕ;
  run = λ program args limit s. next s;
  lock_file = λ s path. absent;
  proc_exists = λ s pid. false;
  cmdline = λ s pid. none;
  has_apt_process = λ s. false;
  remove_file = λ path s. s;
}

abbrev no_chain : Error → List ℕ
no_chain e = []

abbrev start : World ℕ
start = record {
  host = record { machine = 0; calls = [] };
  cache = record {
    last_update = none;
    last_update_success = false;
    last_update_error = none;
    stale_threshold = 3600;
    jitter = 0;
  };
}

start-succeeds :
    is_ok (apt_transaction healthy no_chain 10 20 (some (codes "bash" ∷ [])) start).1 ≡ true
unfolding apt_transaction patch_transaction apt_refresh_package_cache apt_apply run_apt_safe
    ensure_dpkg_clean run_dpkg run_command_timed run_with apt_command after_apt
    cleanup_stale_apt_locks cleanup_locks is_stale_lock verify_dpkg_clean apt_apply_patches upgrade
    after_upgrade trim update_success
start-succeeds = refl

apt_transaction-upgrades_example :
    IsUpgraded healthy no_chain
      (some (codes "bash" ∷ []))
      (apt_transaction healthy no_chain 10 20 (some (codes "bash" ∷ [])) start).0
apt_transaction-upgrades_example =
    apt_transaction-upgrades healthy no_chain 10 20 (some (codes "bash" ∷ [])) start start-succeeds

-- A patch job that runs, and a reboot whose command fails.
abbrev env : Env
env = record { now = 100; new_id = 8; boot = none }

abbrev patching : SchedulerState
patching = record (State.new 1 10 0) {
  jobs = (7, record (Job.new env patch_apply []) { status = running }) ∷ [];
}

abbrev failed_reboot : Conclusion
failed_reboot = record {
  transaction = ok tt;
  allow_reboot = true;
  should_reboot = true;
  reboot_delay = 5;
  reboot_command = err "no init";
}

abbrev clock : ℕ → ℕ
clock n = 100 + n

patching-runs : status_of 7 patching ≡ some running
unfolding State.new get Job.new
patching-runs = refl

patching-Distinct : Distinct patching.jobs
unfolding State.new get
patching-Distinct = (refl, tt)

-- Another task drops the reservation before the command runs.
abbrev others : SchedulerState → SchedulerState
others s = record s { reboot_pending = none }

conclude-Settled_example :
    (is_ok failed_reboot.transaction ≡ false
      → status_of 7 (conclude clock others env 7 failed_reboot patching) ≡ some failed)
    × (is_ok failed_reboot.transaction ≡ true
        → Settled clock others env 7 (conclude clock others env 7 failed_reboot patching))
conclude-Settled_example =
    conclude-Settled clock others env 7 (λ s. refl) failed_reboot patching patching-Distinct refl
      patching-runs
