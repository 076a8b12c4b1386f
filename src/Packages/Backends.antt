-- ===== src/Packages/Backends.antt =====
-- The back ends besides `AptBackend`, and the arguments of all five: src/packages/mod.rs. The wait of
-- `PacmanBackend` for a lock of the database is left out.
pub mod Arguments
use linux_patch_api.Prelude.{
  ℕ, Bool, true, false, ◌||◌, List, [], ◌∷◌, ◌++◌, map, Option, none, some, list_eq, if◌then◌else◌,
}
use linux_patch_api.Prelude.Result.{Result, ok, err}
use linux_patch_api.Prelude.Text.{codes}
use linux_patch_api.Packages.Runner.{
  Machine, Action, ◌>>=◌, pure, run_command_timed, cache_refresh_timeout, package_op_timeout,
  quick_op_timeout,
}
use linux_patch_api.Packages.Request.{
  PackageSpec, InstallOptions, Operation, install, update, remove, apply_patches, repair, opt,
  spec_with,
}
use linux_patch_api.Packages.Apt.Operations.{
  apt_install_args, apt_update_args, apt_remove_args, patch_args,
}

pub data Backend : Type 0 where
  apt apk dnf yum pacman : Backend

abbrev pub name_of : PackageSpec → List ℕ
name_of p = p.name

-- The arguments of `ApkBackend`.
abbrev pub apk_patch_args : Option (List (List ℕ)) → List (List ℕ)
apk_patch_args (some pkgs) = codes "upgrade" ∷ codes "--" ∷ pkgs
apk_patch_args none = codes "upgrade" ∷ []

unfoldable pub apk_args : Operation → List (List ℕ)
apk_args (install packages options) =
    codes "add"
    ∷ (opt options.force (codes "--force") ++ codes "--" ∷ map (spec_with b'=') packages)
apk_args (update name) = codes "add" ∷ codes "--upgrade" ∷ codes "--" ∷ name ∷ []
apk_args (remove name purge) = codes "del" ∷ codes "--" ∷ name ∷ []
apk_args (apply_patches packages) = apk_patch_args packages
apk_args repair = codes "fix" ∷ []

-- The arguments of `DnfBackend`, which separates names from options by nothing.
abbrev pub dnf_patch_args : Option (List (List ℕ)) → List (List ℕ)
dnf_patch_args (some pkgs) = codes "upgrade" ∷ codes "-y" ∷ pkgs
dnf_patch_args none = codes "upgrade" ∷ codes "-y" ∷ []

unfoldable pub dnf_args : Operation → List (List ℕ)
dnf_args (install packages options) =
    codes "install"
    ∷ codes "-y"
    ∷ (opt options.no_recommends (codes "--setopt=install_weak_deps=0")
        ++ (opt options.force (codes "--allowerasing") ++ map (spec_with b'-') packages))
dnf_args (update name) = codes "upgrade" ∷ codes "-y" ∷ name ∷ []
dnf_args (remove name true) = codes "remove" ∷ codes "-y" ∷ codes "--noautoremove" ∷ name ∷ []
dnf_args (remove name false) = codes "remove" ∷ codes "-y" ∷ name ∷ []
dnf_args (apply_patches packages) = dnf_patch_args packages
dnf_args repair = codes "--rebuilddb" ∷ []

-- The arguments of `YumBackend`.
abbrev pub yum_patch_args : Option (List (List ℕ)) → List (List ℕ)
yum_patch_args (some pkgs) = codes "update" ∷ codes "-y" ∷ codes "--" ∷ pkgs
yum_patch_args none = codes "update" ∷ codes "-y" ∷ []

unfoldable pub yum_args : Operation → List (List ℕ)
yum_args (install packages options) =
    codes "install" ∷ codes "-y" ∷ codes "--" ∷ map (spec_with b'-') packages
yum_args (update name) = codes "update" ∷ codes "-y" ∷ codes "--" ∷ name ∷ []
yum_args (remove name purge) = codes "remove" ∷ codes "-y" ∷ codes "--" ∷ name ∷ []
yum_args (apply_patches packages) = yum_patch_args packages
yum_args repair = codes "--rebuilddb" ∷ []

-- The arguments of `PacmanBackend`, which does not override `repair_package_database`.
abbrev pub pacman_patch_args : Option (List (List ℕ)) → List (List ℕ)
pacman_patch_args (some pkgs) =
    codes "-S" ∷ codes "--noconfirm" ∷ codes "--needed" ∷ codes "--" ∷ pkgs
pacman_patch_args none = codes "-Syu" ∷ codes "--noconfirm" ∷ []

unfoldable pub pacman_args : Operation → List (List ℕ)
pacman_args (install packages options) =
    codes "-S"
    ∷ codes "--noconfirm"
    ∷ codes "--needed"
    ∷ ((if options.force then codes "--overwrite" ∷ codes "*" ∷ [] else [])
        ++ codes "--" ∷ map name_of packages)
pacman_args (update name) = codes "-S" ∷ codes "--noconfirm" ∷ codes "--" ∷ name ∷ []
pacman_args (remove name purge) = codes "-R" ∷ codes "--noconfirm" ∷ codes "--" ∷ name ∷ []
pacman_args (apply_patches packages) = pacman_patch_args packages
pacman_args repair = []

-- The arguments with which `AptBackend` runs apt-get for the operation itself.
unfoldable pub apt_args : Operation → List (List ℕ)
unfolding apt_install_args
apt_args (install packages options) = apt_install_args packages options
apt_args (update name) = apt_update_args name
apt_args (remove name purge) = apt_remove_args name purge
apt_args (apply_patches packages) = patch_args packages
apt_args repair = []

unfoldable pub command_args : Backend → Operation → List (List ℕ)
unfolding apt_args apk_args dnf_args yum_args pacman_args
command_args apt = apt_args
command_args apk = apk_args
command_args dnf = dnf_args
command_args yum = yum_args
command_args pacman = pacman_args

-- The timeout of `run_apk`, `run_dnf` and `run_yum`: by the first argument.
abbrev pub timeout_for : List (List ℕ) → List (List ℕ) → ℕ
timeout_for refreshing [] = package_op_timeout
timeout_for [] (a ∷ args) = package_op_timeout
timeout_for (r ∷ refreshing) (a ∷ args) =
    let rest = timeout_for refreshing (a ∷ args) in
    if list_eq a r then cache_refresh_timeout else rest

module _ (m : Machine) where
  unfoldable pub run_apk : List (List ℕ) → Action m.State (List ℕ)
  unfolding run_command_timed
  run_apk args = run_command_timed m (codes "apk") args (timeout_for (codes "update" ∷ []) args)

  unfoldable pub run_dnf : List (List ℕ) → Action m.State (List ℕ)
  unfolding run_command_timed
  run_dnf args =
      run_command_timed m (codes "dnf") args
        (timeout_for (codes "check-update" ∷ codes "makecache" ∷ []) args)

  unfoldable pub run_yum : List (List ℕ) → Action m.State (List ℕ)
  unfolding run_command_timed
  run_yum args = run_command_timed m (codes "yum") args (timeout_for (codes "makecache" ∷ []) args)

  unfoldable pub run_rpm : List (List ℕ) → Action m.State (List ℕ)
  unfolding run_command_timed
  run_rpm args = run_command_timed m (codes "rpm") args quick_op_timeout
