-- ===== src/Packages/Apt/Operations.antt =====
-- The operations of `AptBackend` that change packages: src/packages/mod.rs.
use linux_patch_api.Prelude.{
  ℕ, Bool, false, ◌&&◌, List, [], ◌∷◌, ◌++◌, map, Option, none, some, if◌then◌else◌,
}
use linux_patch_api.Prelude.Result.{Result, ok, err}
use linux_patch_api.Prelude.Text.{codes, trim}
use linux_patch_api.Prelude.Lines.{contains, to_lowercase}
use linux_patch_api.Packages.Error.Report.{Error, message, context, extract_stderr}
use linux_patch_api.Packages.Error.Classify.{mentions}
use linux_patch_api.Packages.Runner.{
  Machine, Host, Action, ◌>>=◌, handle, pure, fail, run_command_timed, quick_op_timeout,
}
use linux_patch_api.Packages.Request.{
  PackageSpec, InstallOptions, opt, spec_with, Operation, install, update, remove, apply_patches,
  repair,
}
use linux_patch_api.Packages.Apt.Safe.{
  run_apt_safe, ensure_dpkg_clean, verify_dpkg_clean, run_dpkg, is_empty_text,
}

-- The arguments of `install_packages`.
unfoldable pub apt_install_args : List PackageSpec → InstallOptions → List (List ℕ)
apt_install_args packages options =
    codes "install"
    ∷ codes "-y"
    ∷ (opt options.no_recommends (codes "--no-install-recommends")
        ++ (opt options.force (codes "--allow-unauthenticated")
            ++ codes "--" ∷ map (spec_with b'=') packages))

abbrev pub apt_update_args : List ℕ → List (List ℕ)
apt_update_args name =
    codes "install" ∷ codes "-y" ∷ codes "--only-upgrade" ∷ codes "--" ∷ name ∷ []

abbrev pub apt_remove_args : List ℕ → Bool → List (List ℕ)
apt_remove_args name purge =
    (if purge then codes "purge" else codes "remove") ∷ codes "-y" ∷ codes "--" ∷ name ∷ []

abbrev pub fix_broken_args : List (List ℕ)
fix_broken_args = codes "-f" ∷ codes "install" ∷ codes "-y" ∷ []

abbrev pub dist_upgrade_args : List (List ℕ)
dist_upgrade_args = codes "dist-upgrade" ∷ codes "-y" ∷ []

abbrev pub upgrade_args : List (List ℕ)
upgrade_args = codes "upgrade" ∷ codes "-y" ∷ []

-- The arguments of the upgrade in `apply_patches`.
abbrev pub patch_args : Option (List (List ℕ)) → List (List ℕ)
patch_args none = dist_upgrade_args
patch_args (some pkgs) = codes "install" ∷ codes "-y" ∷ codes "--" ∷ pkgs

-- Whether the error says that held packages blocked an upgrade of everything.
unfoldable pub is_held_block : Option (List (List ℕ)) → List ℕ → Bool
is_held_block none stderr =
    contains stderr (codes "held packages were changed")
    && contains stderr (codes "--allow-change-held-packages")
is_held_block (some pkgs) stderr = false

unfoldable pub is_dependency_issue : List ℕ → Bool
is_dependency_issue stderr =
    mentions stderr (codes "unmet dependencies" ∷ codes "broken" ∷ codes "dependency" ∷ [])

abbrev pub held_text : Result Error (List ℕ) → List ℕ
held_text (ok s) = trim s
held_text (err e) = []

-- `held_package_partial_failure`.
abbrev pub held_package_partial_failure : List ℕ → Error
held_package_partial_failure held = message (
    codes "dist-upgrade blocked by held packages ["
    ++ (held
        ++ codes
            "]; the safe subset was upgraded but the held packages and their entangled dependencies remain unpatched — manual review required (the post-apply patch scan lists what stayed unpatched)"))

-- The contexts of the failures in `apply_patches`.
abbrev pub retry_fallback_failed : List ℕ
retry_fallback_failed =
    codes
      "held-package fallback (apt-get upgrade) failed on dist-upgrade retry — blocked by held packages and the fallback upgrade also failed"

abbrev pub fallback_failed : List ℕ
fallback_failed =
    codes
      "held-package fallback (apt-get upgrade) failed — dist-upgrade was blocked by held packages and the fallback upgrade also failed"

abbrev pub fix_failed : List ℕ
fix_failed = codes "fix-broken failed on retry — dependency issues remain unresolved"

abbrev pub first_fix_failed : List ℕ
first_fix_failed = codes "Pre-upgrade fix-broken failed — resolve dependency issues before retrying"

module _ (m : Machine) where
  -- `install_packages`, `update_package`, `remove_package`.
  unfoldable pub apt_install_packages :
      List PackageSpec → InstallOptions → Action m.State (Unit {0})
  unfolding run_apt_safe apt_install_args
  apt_install_packages packages options =
      run_apt_safe m (apt_install_args packages options) >>= λ s. pure tt

  unfoldable pub apt_update_package : List ℕ → Action m.State (Unit {0})
  unfolding run_apt_safe
  apt_update_package name = run_apt_safe m (apt_update_args name) >>= λ s. pure tt

  unfoldable pub apt_remove_package : List ℕ → Bool → Action m.State (Unit {0})
  unfolding run_apt_safe
  apt_remove_package name purge = run_apt_safe m (apt_remove_args name purge) >>= λ s. pure tt

  -- `fallback_to_hold_respecting_upgrade`: the held packages.
  unfoldable pub fallback_to_hold_respecting_upgrade : Action m.State (List ℕ)
  unfolding run_command_timed run_apt_safe
  fallback_to_hold_respecting_upgrade =
      handle (run_command_timed m (codes "apt-mark") (codes "showhold" ∷ []) quick_op_timeout)
        (λ r. run_apt_safe m upgrade_args >>= λ s. pure (held_text r))

  -- What `apply_patches` makes of the fallback: an error in either case.
  abbrev pub after_fallback : List ℕ → Result Error (List ℕ) → Action m.State (Unit {0})
  after_fallback note (ok held) = fail (held_package_partial_failure held)
  after_fallback note (err e) = fail (context note e)

  -- The fallback, with the context that its failure gets.
  unfoldable pub report_held : List ℕ → Action m.State (Unit {0})
  unfolding fallback_to_hold_respecting_upgrade
  report_held note = handle fallback_to_hold_respecting_upgrade (after_fallback note)

  -- What follows the second upgrade of `apply_patches`.
  unfoldable pub after_retry :
      Option (List (List ℕ)) → Result Error (List ℕ) → Action m.State (Unit {0})
  unfolding report_held is_held_block extract_stderr to_lowercase
  after_retry packages (ok s) = pure tt
  after_retry packages (err e) =
      if is_held_block packages (to_lowercase (extract_stderr e))
      then report_held retry_fallback_failed
      else fail e

  -- What follows the second fix of broken packages.
  abbrev pub after_fix : Option (List (List ℕ)) → Result Error (List ℕ) → Action m.State (Unit {0})
  after_fix packages (ok s) = handle (run_apt_safe m (patch_args packages)) (after_retry packages)
  after_fix packages (err e) = fail (context fix_failed e)

  -- What follows the first upgrade of `apply_patches`.
  unfoldable pub after_upgrade :
      Option (List (List ℕ)) → Result Error (List ℕ) → Action m.State (Unit {0})
  unfolding run_apt_safe after_retry is_dependency_issue
  after_upgrade packages (ok s) = pure tt
  after_upgrade packages (err e) =
      let stderr = to_lowercase (extract_stderr e) in
      if is_held_block packages stderr
      then report_held fallback_failed
      else if is_dependency_issue stderr
      then handle (run_apt_safe m fix_broken_args) (after_fix packages)
      else fail e

  -- The upgrade of `apply_patches` and what follows it.
  unfoldable pub upgrade : Option (List (List ℕ)) → Action m.State (Unit {0})
  unfolding run_apt_safe after_upgrade
  upgrade packages = handle (run_apt_safe m (patch_args packages)) (after_upgrade packages)

  abbrev pub after_first_fix : Result Error (List ℕ) → Action m.State (Unit {0})
  after_first_fix (ok s) = upgrade none
  after_first_fix (err e) = fail (context first_fix_failed e)

  -- `apply_patches`.
  unfoldable pub apt_apply_patches : Option (List (List ℕ)) → Action m.State (Unit {0})
  unfolding run_apt_safe upgrade
  apt_apply_patches none = handle (run_apt_safe m fix_broken_args) after_first_fix
  apt_apply_patches (some pkgs) = upgrade (some pkgs)

  -- `repair_package_database` and `package_database_clean`.
  unfoldable pub apt_repair_package_database : Action m.State (Unit {0})
  unfolding ensure_dpkg_clean verify_dpkg_clean
  apt_repair_package_database = ensure_dpkg_clean m >>= λ u. verify_dpkg_clean m

  unfoldable pub apt_package_database_clean : Action m.State Bool
  unfolding run_dpkg trim
  apt_package_database_clean =
      run_dpkg m (codes "--audit" ∷ []) >>= λ s. pure (is_empty_text (trim s))

-- A method of the back end that changes packages.
unfoldable pub perform : (m : Machine) → Operation → Action m.State (Unit {0})
unfolding apt_install_packages apt_update_package apt_remove_package apt_apply_patches
    apt_repair_package_database
perform m (install packages options) = apt_install_packages m packages options
perform m (update name) = apt_update_package m name
perform m (remove name purge) = apt_remove_package m name purge
perform m (apply_patches packages) = apt_apply_patches m packages
perform m repair = apt_repair_package_database m

-- One method after another, each of them whatever came of the one before.
unfoldable pub perform_all : (m : Machine) → List Operation → Host m.State → Host m.State
unfolding perform
perform_all m [] h = h
perform_all m (op ∷ ops) h = perform_all m ops (perform m op h).0
