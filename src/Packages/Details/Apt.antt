-- ===== src/Packages/Details/Apt.antt =====
-- Details of a package by dpkg and apt: `list_packages`, `get_package`, `list_patches` and the versions of
-- `AptBackend` in src/packages/mod.rs.
use linux_patch_api.Prelude.{
  ℕ, Bool, true, false, ◌==◌, List, [], ◌∷◌, ◌++◌, map, starts, Option, none, some, if◌then◌else◌,
}
use linux_patch_api.Prelude.Result.{Result, ok, err}
use linux_patch_api.Prelude.Text.{codes, trim}
use linux_patch_api.Prelude.Lines.{contains, lines, split_whitespace}
use linux_patch_api.Packages.Error.Report.{Error}
use linux_patch_api.Packages.Runner.{
  Machine, Action, ◌>>=◌, handle, pure, run_command_timed, quick_op_timeout,
}
use linux_patch_api.Packages.Apt.Safe.{run_dpkg}
use linux_patch_api.Packages.Listing.{Package, Patch, installed}
use linux_patch_api.Packages.Listing.Parsers.{parse_package_list, apt_patches}
use linux_patch_api.Packages.Details.{
  first_of, trim_start_matches, second_of, find_map, available_package, non_empty,
}

-- `trim_start_matches` and `trim`.
unfoldable pub value_after : List ℕ → List ℕ → List ℕ
unfolding trim
value_after prefix line = trim (trim_start_matches prefix line)

-- `split(',')`.
abbrev cons_part : ℕ → List (List ℕ) → List (List ℕ)
cons_part c [] = (c ∷ []) ∷ []
cons_part c (p ∷ ps) = (c ∷ p) ∷ ps

abbrev pub split_commas : List ℕ → List (List ℕ)
split_commas [] = [] ∷ []
split_commas (c ∷ cs) =
    let rest = split_commas cs in if c == b',' then [] ∷ rest else cons_part c rest

-- The variables of the loop in `get_package`; the status is installed in any case.
pub record DpkgInfo : Type 0 where
  pub version : List ℕ
  pub description : List ℕ
  pub dependencies : List (List ℕ)
  pub size : Option (List ℕ)

unfoldable pub dpkg_line : DpkgInfo → List ℕ → DpkgInfo
unfolding value_after split_whitespace
dpkg_line i line =
    if starts (codes "Version:") line
    then record i { version = value_after (codes "Version:") line }
    else if starts (codes "Status:") line
    then i
    else if starts (codes "Description:") line
    then record i { description = value_after (codes "Description:") line }
    else if starts (codes "Depends:") line
    then record i {
      dependencies =
          map (λ part. first_of (split_whitespace part))
            (split_commas (value_after (codes "Depends:") line));
    }
    else if starts (codes "Installed-Size:") line
    then record i { size = some (value_after (codes "Installed-Size:") line ++ codes " KB") }
    else i

abbrev pub dpkg_lines : DpkgInfo → List (List ℕ) → DpkgInfo
dpkg_lines i [] = i
dpkg_lines i (line ∷ lines) = dpkg_lines (dpkg_line i line) lines

abbrev pub no_dpkg_info : DpkgInfo
no_dpkg_info = record { version = []; description = []; dependencies = []; size = none }

-- The package in the output of `apt list`, if it is not installed.
abbrev available_words : List ℕ → List (List ℕ) → Option Package
available_words name (a ∷ version ∷ c ∷ rest) =
    some (available_package name version (some version) [])
available_words name _ = none

abbrev line_with : List ℕ → List ℕ → Option (List ℕ)
line_with text line = if contains line text then some line else none

abbrev pub available_apt : List ℕ → List ℕ → Option Package
available_apt name output =
    if contains output name
    then elim (find_map (line_with name) (lines output)) [
      | none ↦ none
      | some line ↦ available_words name (split_whitespace line)
    ]
    else none

abbrev pub mentioned : List ℕ → Result Error (List ℕ) → Bool
mentioned name (ok o) = contains o name
mentioned name (err e) = false

-- The second word of the first line with a text.
abbrev pub candidate_apt : List ℕ → Result Error (List ℕ) → Option (List ℕ)
candidate_apt text (err e) = none
candidate_apt text (ok o) = elim (find_map (line_with text) (lines o)) [
  | none ↦ none
  | some line ↦ second_of (split_whitespace line)
]

abbrev apt_details : List ℕ → DpkgInfo → Bool → Option (List ℕ) → Option Package
apt_details name i upgradable latest = some (record {
  name = name;
  version = i.version;
  status = installed;
  is_upgradable = upgradable;
  latest_version = latest;
  description = i.description;
  dependencies = i.dependencies;
  reverse_dependencies = [];
  install_date = none;
  size_installed = i.size;
})

abbrev version_line : List ℕ → Option (List ℕ)
version_line line =
    if starts (codes "Version:") line then non_empty (value_after (codes "Version:") line) else none

abbrev pub installed_apt : Result Error (List ℕ) → Option (List ℕ)
installed_apt (err e) = none
installed_apt (ok o) = find_map version_line (lines o)

abbrev pub list_args : Option (List ℕ) → List (List ℕ)
list_args (some f) = codes "list" ∷ f ∷ []
list_args none = codes "list" ∷ codes "--installed" ∷ []

module _ (m : Machine) where
  -- `run_apt_cli` and `run_apt_cache`.
  unfoldable pub run_apt_cli : List (List ℕ) → Action m.State (List ℕ)
  unfolding run_command_timed
  run_apt_cli args = run_command_timed m (codes "apt") args quick_op_timeout

  unfoldable pub run_apt_cache : List (List ℕ) → Action m.State (List ℕ)
  unfolding run_command_timed
  run_apt_cache args = run_command_timed m (codes "apt-cache") args quick_op_timeout

  abbrev pub after_upgradable : List ℕ → DpkgInfo → Bool → Action m.State (Option Package)
  after_upgradable name i true =
      handle (run_apt_cache (codes "policy" ∷ name ∷ []))
        (λ r. pure (apt_details name i true (candidate_apt (codes "Candidate") r)))
  after_upgradable name i false = pure (apt_details name i false (some i.version))

  abbrev pub after_status : List ℕ → Result Error (List ℕ) → Action m.State (Option Package)
  after_status name (err e) =
      run_apt_cli (codes "list" ∷ name ∷ []) >>= λ output. pure (available_apt name output)
  after_status name (ok output) =
      handle (run_apt_cli (codes "list" ∷ codes "--upgradable" ∷ name ∷ []))
        (λ r. after_upgradable name (dpkg_lines no_dpkg_info (lines output)) (mentioned name r))

  -- `get_package`.
  unfoldable pub apt_get_package : List ℕ → Action m.State (Option Package)
  unfolding run_dpkg run_apt_cli run_apt_cache dpkg_line lines split_whitespace
  apt_get_package name = handle (run_dpkg m (codes "-s" ∷ name ∷ [])) (after_status name)

  -- `get_installed_version` and `get_candidate_version`.
  unfoldable pub apt_installed_version : List ℕ → Action m.State (Option (List ℕ))
  unfolding run_dpkg value_after lines
  apt_installed_version name =
      handle (run_dpkg m (codes "-s" ∷ name ∷ [])) (λ r. pure (installed_apt r))

  unfoldable pub apt_candidate_version : List ℕ → Action m.State (Option (List ℕ))
  unfolding run_apt_cache lines split_whitespace
  apt_candidate_version name =
      handle (run_apt_cache (codes "policy" ∷ name ∷ []))
        (λ r. pure (candidate_apt (codes "Candidate:") r))

  -- `list_packages` and `list_patches`.
  unfoldable pub apt_list_packages : Option (List ℕ) → Action m.State (List Package)
  unfolding run_apt_cli parse_package_list
  apt_list_packages f = run_apt_cli (list_args f) >>= λ output. pure (parse_package_list output)

  unfoldable pub apt_list_patches : Action m.State (List Patch)
  unfolding run_apt_cli apt_patches
  apt_list_patches =
      run_apt_cli (codes "list" ∷ codes "--upgradable" ∷ []) >>= λ output. pure (apt_patches output)
