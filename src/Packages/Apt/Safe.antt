-- ===== src/Packages/Apt/Safe.antt =====
-- Commands of apt and dpkg: `ensure_dpkg_clean`, `verify_dpkg_clean` and `run_apt_safe` of
-- src/packages/mod.rs. The mutex around `run_apt_safe` keeps other calls of it out.
use linux_patch_api.Prelude.{
  ℕ, Bool, true, false, List, [], ◌∷◌, ◌++◌, list_eq, none, some, if◌then◌else◌,
}
use linux_patch_api.Prelude.Result.{Result, ok, err}
use linux_patch_api.Prelude.Text.{codes, trim}
use linux_patch_api.Packages.Error.Report.{Error, message, command, context}
use linux_patch_api.Packages.Runner.{
  Machine, Host, Action, CommandOutput, ◌>>=◌, handle, pure, fail, success, run_with,
  run_command_timed, cache_refresh_timeout, package_op_timeout, quick_op_timeout,
}
use linux_patch_api.Packages.Apt.Locks.{cleanup_stale_apt_locks}

abbrev pub dpkg : List ℕ
dpkg = codes "dpkg"

abbrev pub apt_get : List ℕ
apt_get = codes "apt-get"

abbrev pub configure_args : List (List ℕ)
configure_args = codes "--configure" ∷ codes "-a" ∷ []

abbrev pub audit_args : List (List ℕ)
audit_args = codes "--audit" ∷ []

-- The timeout of `run_apt_safe`: by the first argument.
abbrev pub apt_timeout : List (List ℕ) → ℕ
apt_timeout [] = package_op_timeout
apt_timeout (a ∷ args) =
    if list_eq a (codes "update") then cache_refresh_timeout else package_op_timeout

abbrev pub is_empty_text : List ℕ → Bool
is_empty_text [] = true
is_empty_text (c ∷ cs) = false

abbrev pub configure_failed : List ℕ
configure_failed =
    codes
      "dpkg --configure -a failed: package manager is in a broken state that requires manual intervention"

abbrev pub map_err : {A : Type 0} → (Error → Error) → Result Error A → Result Error A
map_err f (ok a) = ok a
map_err f (err e) = err (f e)

abbrev pub discard : {A : Type 0} → Result Error A → Result Error (Unit {0})
discard (ok a) = ok tt
discard (err e) = err e

module _ (m : Machine) where
  -- `run_dpkg`.
  unfoldable pub run_dpkg : List (List ℕ) → Action m.State (List ℕ)
  unfolding run_command_timed
  run_dpkg args = run_command_timed m dpkg args quick_op_timeout

  abbrev pub clean_locks : Host m.State → Host m.State
  clean_locks h = record h { machine = cleanup_stale_apt_locks m h.machine }

  -- `ensure_dpkg_clean`.
  unfoldable pub ensure_dpkg_clean : Action m.State (Unit {0})
  unfolding run_dpkg cleanup_stale_apt_locks
  ensure_dpkg_clean h =
      handle (run_dpkg configure_args) (λ r g. (g, discard (map_err (context configure_failed) r)))
        (clean_locks h)

  -- The error of a dirty second audit.
  abbrev pub still_dirty : List ℕ → Error
  still_dirty audit =
      message
        (codes "dpkg --audit shows half-configured packages after operation and cleanup: " ++ audit)

  abbrev pub recheck : List ℕ → Action m.State (Unit {0})
  recheck audit = if is_empty_text (trim audit) then pure tt else fail (still_dirty (trim audit))

  -- `verify_dpkg_clean`.
  unfoldable pub verify_dpkg_clean : Action m.State (Unit {0})
  unfolding run_dpkg ensure_dpkg_clean trim
  verify_dpkg_clean = run_dpkg audit_args >>= λ audit.
      if is_empty_text (trim audit)
      then pure tt
      else ensure_dpkg_clean >>= λ u. run_dpkg audit_args >>= recheck

  -- The cleanup behind a failed command, whose own result is ignored.
  abbrev pub clean_and_fail : Error → Action m.State (List ℕ)
  clean_and_fail e = handle ensure_dpkg_clean (λ r. fail e)

  -- The errors of a command that the runner refused, and of one with another exit code.
  abbrev pub apt_failed : Error → Error
  apt_failed e = context (codes "Failed to execute apt command") e

  abbrev pub apt_exited : List (List ℕ) → CommandOutput → Error
  apt_exited args o = command (record {
    program = apt_get;
    args = args;
    exit_code = o.status_code;
    stdout = o.stdout;
    stderr = o.stderr;
    spawn_error = none;
    timed_out = o.timed_out;
  })

  -- What follows the command in `run_apt_safe`.
  unfoldable pub after_apt : List (List ℕ) → Result Error CommandOutput → Action m.State (List ℕ)
  unfolding ensure_dpkg_clean verify_dpkg_clean
  after_apt args (err e) = clean_and_fail (apt_failed e)
  after_apt args (ok o) =
      if success o
      then (verify_dpkg_clean >>= λ u. pure o.stdout)
      else clean_and_fail (apt_exited args o)

  -- `run_apt_safe` behind the configuration.
  unfoldable pub apt_command : List (List ℕ) → Action m.State (List ℕ)
  unfolding after_apt run_with
  apt_command args = handle (run_with m (some (apt_timeout args)) apt_get args) (after_apt args)

  -- `run_apt_safe`, which is also `run_apt`.
  unfoldable pub run_apt_safe : List (List ℕ) → Action m.State (List ℕ)
  unfolding ensure_dpkg_clean apt_command
  run_apt_safe args = ensure_dpkg_clean >>= λ u. apt_command args
