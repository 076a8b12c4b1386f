-- ===== src/Packages/Details/Pacman.antt =====
-- Details of a package by pacman: `run_pacman_with_acceptable_exit`, `parse_pacman_info`, `get_package`
-- and the versions of `PacmanBackend` in src/packages/mod.rs. The wait for a lock is left out.
use linux_patch_api.Prelude.{
  ℕ, Bool, true, false, not, List, [], ◌∷◌, ◌++◌, list_eq, Option, none, some, if◌then◌else◌,
}
use linux_patch_api.Prelude.Int.{ℤ, pos}
use linux_patch_api.Prelude.Result.{Result, ok, err}
use linux_patch_api.Prelude.Text.{codes, trim, is_whitespace}
use linux_patch_api.Prelude.Lines.{contains, lines, split_whitespace}
use linux_patch_api.Packages.Error.Report.{Error, to_string}
use linux_patch_api.Packages.Runner.{
  Machine, Action, CommandOutput, ◌>>=◌, handle, pure, fail, run_with, quick_op_timeout,
  run_command_with_acceptable_exit,
}
use linux_patch_api.Packages.Apt.Safe.{is_empty_text}
use linux_patch_api.Packages.Splitting.{split_first}
use linux_patch_api.Packages.Backends.{timeout_for}
use linux_patch_api.Packages.Listing.{Package, Patch, installed}
use linux_patch_api.Packages.Listing.Parsers.{parse_pacman_package_list, pacman_patches}
use linux_patch_api.Packages.Details.{
  key_value, first_of, find_map, is_invalid_name, invalid_name, available_package, good_output,
  non_empty,
}
use linux_patch_api.Packages.Details.Rpm.Info.{retain, opt_arg}

abbrev pub db_lock : List ℕ
db_lock = codes "/var/lib/pacman/db.lck"

module _ (m : Machine) where
  abbrev after_pacman : Result Error (List ℕ) → Action m.State (List ℕ)
  after_pacman (ok s) h = (h, ok s)
  after_pacman (err e) h = (
    if contains (to_string e) (codes "timed out")
        then record h { machine = m.remove_file db_lock h.machine }
        else h,
    err e,
  )

  -- `run_pacman_with_acceptable_exit` and `run_pacman`.
  unfoldable pub run_pacman_with_acceptable_exit : List (List ℕ) → List ℤ → Action m.State (List ℕ)
  unfolding run_command_with_acceptable_exit to_string
  run_pacman_with_acceptable_exit args acceptable =
      handle
        (run_command_with_acceptable_exit m (codes "pacman") args acceptable
          (some (timeout_for (codes "-Sy" ∷ codes "-Syu" ∷ []) args)))
        after_pacman

  unfoldable pub run_pacman : List (List ℕ) → Action m.State (List ℕ)
  unfolding run_pacman_with_acceptable_exit
  run_pacman args = run_pacman_with_acceptable_exit args (pos 0 ∷ [])

-- The variables of the loop in `parse_pacman_info`.
pub record PacmanInfo : Type 0 where
  pub version : List ℕ
  pub description : List ℕ
  pub dependencies : List (List ℕ)
  pub required_by : List (List ℕ)
  pub date : Option (List ℕ)
  pub size : Option (List ℕ)

abbrev pub no_pacman_info : PacmanInfo
no_pacman_info = record {
  version = [];
  description = [];
  dependencies = [];
  required_by = [];
  date = none;
  size = none;
}

abbrev has_names : List ℕ → Bool
has_names value = if is_empty_text value then false else not (list_eq value (codes "None"))

abbrev pub pacman_key : List ℕ → List ℕ → PacmanInfo → PacmanInfo
pacman_key key value i =
    if list_eq key (codes "Version")
    then record i { version = value }
    else if list_eq key (codes "Description")
    then record i { description = value }
    else if list_eq key (codes "Installed Size")
    then record i { size = some value }
    else if list_eq key (codes "Install Date")
    then record i { date = some value }
    else if list_eq key (codes "Depends On")
    then (if has_names value
        then record i { dependencies = i.dependencies ++ split_whitespace value }
        else i)
    else if list_eq key (codes "Required By")
    then (if has_names value
        then record i { required_by = i.required_by ++ split_whitespace value }
        else i)
    else i

unfoldable pub pacman_info_line : PacmanInfo → List ℕ → PacmanInfo
unfolding key_value split_whitespace
pacman_info_line i line = elim (key_value line) [ none ↦ i | some r ↦ pacman_key r.0 r.1 i ]

abbrev pub pacman_info_lines : PacmanInfo → List (List ℕ) → PacmanInfo
pacman_info_lines i [] = i
pacman_info_lines i (line ∷ lines) = pacman_info_lines (pacman_info_line i line) lines

abbrev new_version : List ℕ → List (List ℕ) → Option (List ℕ)
new_version name (a ∷ b ∷ c ∷ d ∷ rest) = if list_eq a name then some d else none
new_version name _ = none

abbrev pub is_listed : Result Error (List ℕ) → Bool
is_listed (ok o) = not (is_empty_text (trim o))
is_listed (err e) = false

abbrev pub listed_version : List ℕ → Result Error (List ℕ) → Option (List ℕ)
listed_version name (ok o) = find_map (λ line. new_version name (split_whitespace line)) (lines o)
listed_version name (err e) = none

abbrev pacman_package : List ℕ → PacmanInfo → Bool → Option (List ℕ) → Option Package
pacman_package name i upgradable latest = some (record {
  name = name;
  version = i.version;
  status = installed;
  is_upgradable = upgradable;
  latest_version = latest;
  description = i.description;
  dependencies = i.dependencies;
  reverse_dependencies = i.required_by;
  install_date = i.date;
  size_installed = i.size;
})

-- The loop over the output of `pacman -Si`.
abbrev available_key : List ℕ → List ℕ → PacmanInfo → PacmanInfo
available_key key value i =
    if list_eq key (codes "Version")
    then record i { version = value }
    else if list_eq key (codes "Description")
    then record i { description = value }
    else i

abbrev pub available_pacman_lines : PacmanInfo → List (List ℕ) → PacmanInfo
available_pacman_lines i [] = i
available_pacman_lines i (line ∷ lines) =
    available_pacman_lines (elim (key_value line) [ none ↦ i | some r ↦ available_key r.0 r.1 i ])
      lines

abbrev pub available_pacman : List ℕ → Result Error CommandOutput → Option Package
available_pacman name r = elim (good_output r) [
  | none ↦ none
  | some output ↦
      let i = available_pacman_lines no_pacman_info (lines output) in
      some (available_package name i.version none i.description)
]

abbrev version_line : List ℕ → Option (List ℕ)
version_line line = elim (key_value line) [
  | none ↦ none
  | some r ↦ if list_eq r.0 (codes "Version") then non_empty r.1 else none
]

abbrev pub candidate_pacman : Result Error CommandOutput → Option (List ℕ)
candidate_pacman r = elim (good_output r) [
  | none ↦ none
  | some output ↦ find_map version_line (lines output)
]

abbrev pub queried_version : Result Error (List ℕ) → Option (List ℕ)
queried_version (err e) = none
queried_version (ok output) = elim (split_first is_whitespace (trim (first_of (lines output)))) [
  | none ↦ none
  | some r ↦ some r.1
]

module _ (m : Machine) where
  -- `parse_pacman_info`.
  unfoldable pub parse_pacman_info : List ℕ → List ℕ → Action m.State (Option Package)
  unfolding pacman_info_line run_pacman trim lines split_whitespace
  parse_pacman_info output name =
      let i = pacman_info_lines no_pacman_info (lines output) in
      handle (run_pacman m (codes "-Qu" ∷ name ∷ [])) (λ r.
        if is_listed r
        then handle (run_pacman m (codes "-Qu" ∷ name ∷ []))
            (λ again. pure (pacman_package name i true (listed_version name again)))
        else pure (pacman_package name i false (some i.version)))

  abbrev pub after_pacman_query : List ℕ → Result Error (List ℕ) → Action m.State (Option Package)
  after_pacman_query name (err e) =
      handle (run_with m (some quick_op_timeout) (codes "pacman") (codes "-Si" ∷ name ∷ []))
        (λ r. pure (available_pacman name r))
  after_pacman_query name (ok s) =
      run_pacman m (codes "-Qi" ∷ name ∷ []) >>= λ output. parse_pacman_info output name

  -- `get_package`.
  unfoldable pub pacman_get_package : List ℕ → Action m.State (Option Package)
  unfolding is_invalid_name run_pacman run_with parse_pacman_info key_value lines
  pacman_get_package name =
      if is_invalid_name name
      then fail (invalid_name name)
      else handle (run_pacman m (codes "-Q" ∷ name ∷ [])) (after_pacman_query name)

  -- `get_installed_version` and `get_candidate_version`.
  unfoldable pub pacman_installed_version : List ℕ → Action m.State (Option (List ℕ))
  unfolding run_pacman lines trim
  pacman_installed_version name =
      handle (run_pacman m (codes "-Q" ∷ name ∷ [])) (λ r. pure (queried_version r))

  unfoldable pub pacman_candidate_version : List ℕ → Action m.State (Option (List ℕ))
  unfolding run_with key_value lines
  pacman_candidate_version name =
      handle (run_with m (some quick_op_timeout) (codes "pacman") (codes "-Si" ∷ name ∷ []))
        (λ r. pure (candidate_pacman r))

  -- `list_packages` and `list_patches`.
  unfoldable pub pacman_list_packages : Option (List ℕ) → Action m.State (List Package)
  unfolding run_pacman parse_pacman_package_list
  pacman_list_packages f = run_pacman m (codes "-Q" ∷ opt_arg f) >>= λ output.
      pure (retain f (parse_pacman_package_list output))

  unfoldable pub pacman_list_patches : Action m.State (List Patch)
  unfolding run_pacman_with_acceptable_exit pacman_patches
  pacman_list_patches =
      run_pacman_with_acceptable_exit m (codes "-Qu" ∷ []) (pos 0 ∷ pos 1 ∷ []) >>= λ output.
      pure (pacman_patches output)
