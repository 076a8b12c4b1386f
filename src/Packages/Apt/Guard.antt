-- ===== src/Packages/Apt/Guard.antt =====
-- The guard and the bound for the operations of `AptBackend`: src/packages/mod.rs.
use linux_patch_api.Prelude.{
  ℕ, ◌+◌, ◌*◌, ◌≤◌, true, List, Option, none, some, ◌≡◌, refl, arith, length, [], ◌∷◌,
}
use linux_patch_api.Prelude.Text.{codes}
use linux_patch_api.Prelude.Result.{Result, ok, err}
use linux_patch_api.Prelude.Lines.{to_lowercase}
use linux_patch_api.Packages.Error.Report.{Error, context, extract_stderr}
use linux_patch_api.Packages.Runner.{
  Machine, Host, pure, fail, handle, run_command_timed, ◌>>=◌, quick_op_timeout,
}
use linux_patch_api.Packages.Apt.Safe.{run_apt_safe, ensure_dpkg_clean, verify_dpkg_clean}
use linux_patch_api.Packages.Request.{Operation, install, update, remove, apply_patches, repair}
use linux_patch_api.Packages.Apt.Operations.{
  apt_install_packages, apt_install_args, apt_update_package, apt_update_args, apt_remove_args,
  apt_remove_package, apt_repair_package_database, apt_apply_patches, held_text, upgrade_args,
  perform, perform_all, fallback_to_hold_respecting_upgrade, report_held, after_retry, after_fix,
  after_upgrade, upgrade, after_first_fix, after_fallback, patch_args, fix_broken_args,
  is_held_block, is_dependency_issue, held_package_partial_failure, fallback_failed,
  retry_fallback_failed, fix_failed, first_fix_failed,
}
use linux_patch_api.Packages.Apt.Trace.{
  is_guarded, Within, Within-pure, Within-fail, Within-handle, Within-bind, Within-if,
  Within-weaken, Within-timed, Within-ensure, Within-verify, Within-run_apt_safe,
}

module _ (m : Machine) where
  -- An operation that is one run of apt.
  Within-one : (args : List (List ℕ)) → Within 5 (run_apt_safe m args >>= λ s. pure tt)
  Within-one args =
      Within-bind (List ℕ) (Unit {0}) 5 0 (run_apt_safe m args) (λ s. pure tt)
        (Within-run_apt_safe m args) (λ s. Within-pure 0 tt)

  Within-fallback : Within 6 (fallback_to_hold_respecting_upgrade m)
  unfolding fallback_to_hold_respecting_upgrade
  Within-fallback =
      Within-handle (List ℕ) (List ℕ) 1 5
        (run_command_timed m (codes "apt-mark") (codes "showhold" ∷ []) quick_op_timeout)
        (λ r. run_apt_safe m upgrade_args >>= λ s. pure (held_text r))
        (Within-timed m (codes "apt-mark") (codes "showhold" ∷ []) quick_op_timeout refl)
        (λ r.
          Within-bind (List ℕ) (List ℕ) 5 0 (run_apt_safe m upgrade_args) (λ s. pure (held_text r))
            (Within-run_apt_safe m upgrade_args) (λ s. Within-pure 0 (held_text r)))

  Within-after_fallback :
      (note : List ℕ) (r : Result Error (List ℕ)) → Within 0 (after_fallback m note r)
  Within-after_fallback note (ok held) =
      Within-fail (Unit {0}) 0 (held_package_partial_failure held)
  Within-after_fallback note (err e) = Within-fail (Unit {0}) 0 (context note e)

  Within-report_held : (note : List ℕ) → Within 6 (report_held m note)
  unfolding report_held
  Within-report_held note =
      Within-handle (List ℕ) (Unit {0}) 6 0 (fallback_to_hold_respecting_upgrade m)
        (after_fallback m note) Within-fallback (Within-after_fallback note)

  module _ (packages : Option (List (List ℕ))) where
    Within-after_retry : (r : Result Error (List ℕ)) → Within 6 (after_retry m packages r)
    unfolding after_retry
    Within-after_retry (ok s) = Within-pure 6 tt
    Within-after_retry (err e) =
        Within-if 6 (is_held_block packages (to_lowercase (extract_stderr e)))
          (report_held m retry_fallback_failed) (fail e) (Within-report_held retry_fallback_failed)
          (Within-fail (Unit {0}) 6 e)

    Within-after_fix : (r : Result Error (List ℕ)) → Within 11 (after_fix m packages r)
    Within-after_fix (ok s) =
        Within-handle (List ℕ) (Unit {0}) 5 6 (run_apt_safe m (patch_args packages))
          (after_retry m packages) (Within-run_apt_safe m (patch_args packages)) Within-after_retry
    Within-after_fix (err e) = Within-fail (Unit {0}) 11 (context fix_failed e)

    Within-after_upgrade : (r : Result Error (List ℕ)) → Within 16 (after_upgrade m packages r)
    unfolding after_upgrade
    Within-after_upgrade (ok s) = Within-pure 16 tt
    Within-after_upgrade (err e) =
        Within-if 16 (is_held_block packages (to_lowercase (extract_stderr e)))
          (report_held m fallback_failed) _
          (Within-weaken {A = Unit {0}} 6 16 (report_held m fallback_failed) (omega arith)
            (Within-report_held fallback_failed))
          (Within-if 16 (is_dependency_issue (to_lowercase (extract_stderr e)))
            (handle (run_apt_safe m fix_broken_args) (after_fix m packages)) (fail e)
            (Within-handle (List ℕ) (Unit {0}) 5 11 (run_apt_safe m fix_broken_args)
              (after_fix m packages) (Within-run_apt_safe m fix_broken_args) Within-after_fix)
            (Within-fail (Unit {0}) 16 e))

    Within-upgrade : Within 21 (upgrade m packages)
    unfolding upgrade
    Within-upgrade =
        Within-handle (List ℕ) (Unit {0}) 5 16 (run_apt_safe m (patch_args packages))
          (after_upgrade m packages) (Within-run_apt_safe m (patch_args packages))
          Within-after_upgrade

  Within-after_first_fix : (r : Result Error (List ℕ)) → Within 21 (after_first_fix m r)
  Within-after_first_fix (ok s) = Within-upgrade none
  Within-after_first_fix (err e) = Within-fail (Unit {0}) 21 (context first_fix_failed e)

  pub Within-apply_patches :
      (packages : Option (List (List ℕ))) → Within 26 (apt_apply_patches m packages)
  unfolding apt_apply_patches
  Within-apply_patches none =
      Within-handle (List ℕ) (Unit {0}) 5 21 (run_apt_safe m fix_broken_args) (after_first_fix m)
        (Within-run_apt_safe m fix_broken_args) Within-after_first_fix
  Within-apply_patches (some pkgs) =
      Within-weaken {A = Unit {0}} 21 26 (upgrade m (some pkgs)) (omega arith)
        (Within-upgrade (some pkgs))

  Within-repair : Within 4 (apt_repair_package_database m)
  unfolding apt_repair_package_database
  Within-repair =
      Within-bind (Unit {0}) (Unit {0}) 1 3 (ensure_dpkg_clean m) (λ u. verify_dpkg_clean m)
        (Within-ensure m) (λ u. Within-verify m)

  -- One operation runs at most 26 commands and keeps the guard.
  pub Within-perform : (op : Operation) → Within 26 (perform m op)
  unfolding perform apt_install_packages apt_update_package apt_remove_package
  Within-perform (install packages options) =
      Within-weaken 5 26 (apt_install_packages m packages options) (omega arith)
        (Within-one (apt_install_args packages options))
  Within-perform (update name) =
      Within-weaken 5 26 (apt_update_package m name) (omega arith)
        (Within-one (apt_update_args name))
  Within-perform (remove name purge) =
      Within-weaken 5 26 (apt_remove_package m name purge) (omega arith)
        (Within-one (apt_remove_args name purge))
  Within-perform (apply_patches packages) = Within-apply_patches packages
  Within-perform repair =
      Within-weaken 4 26 (apt_repair_package_database m) (omega arith) Within-repair

module _ (m : Machine) where
  -- However many methods of the back end run, one after another, from whatever record of commands in
  -- which it holds, and whatever the machine answers: each command of apt-get in the record stands
  -- right behind a `dpkg --configure -a` that succeeded.
  pub perform_all-is_guarded :
      (ops : List Operation) (h : Host m.State)
      → is_guarded h.calls ≡ true
      → is_guarded (perform_all m ops h).calls ≡ true
  unfolding perform_all
  perform_all-is_guarded [] h g = g
  perform_all-is_guarded (op ∷ ops) h g =
      perform_all-is_guarded ops (perform m op h).0 ((Within-perform m op h).0 g)

  -- Whatever the machine answers, methods of the back end that run one after another end after at
  -- most 26 commands each: no answer makes them retry for ever.
  pub length-perform_all :
      (ops : List Operation) (h : Host m.State)
      → length (perform_all m ops h).calls ≤ 26 * length ops + length h.calls
  unfolding perform_all
  length-perform_all [] h = omega arith
  length-perform_all (op ∷ ops) h =
      omega (arith, (Within-perform m op h).1, length-perform_all ops (perform m op h).0)
