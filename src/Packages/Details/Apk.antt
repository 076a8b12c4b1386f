-- ===== src/Packages/Details/Apk.antt =====
-- Details of a package by apk: `parse_apk_info`, `get_package`, `list_packages`, `list_patches` and the
-- versions of `ApkBackend` in src/packages/mod.rs.
use linux_patch_api.Prelude.{
  ℕ, Bool, true, false, List, [], ◌∷◌, ◌++◌, map, list_eq, Option, none, some, if◌then◌else◌,
}
use linux_patch_api.Prelude.Result.{Result, ok, err}
use linux_patch_api.Prelude.Text.{codes, trim}
use linux_patch_api.Prelude.Lines.{contains, lines, split_whitespace}
use linux_patch_api.Packages.Error.Report.{Error}
use linux_patch_api.Packages.Runner.{Machine, Action, ◌>>=◌, handle, pure, fail}
use linux_patch_api.Packages.Apt.Safe.{is_empty_text}
use linux_patch_api.Packages.Splitting.{parse_name_version, split_once}
use linux_patch_api.Packages.Backends.{run_apk}
use linux_patch_api.Packages.Listing.{Package, Patch, installed}
use linux_patch_api.Packages.Listing.Parsers.{parse_apk_package_list, apk_patches}
use linux_patch_api.Packages.Details.{
  first_of, find_map, is_invalid_name, invalid_name, available_package, non_empty,
  trim_start_matches,
}
use linux_patch_api.Packages.Details.Rpm.Info.{opt_arg}

-- `current_field`.
pub data Field : Type 0 where
  no_field description_field webpage_field size_field dependencies_field provides_field
        required_by_field :
      Field

-- The variables of the loop in `parse_apk_info`.
pub record ApkInfo : Type 0 where
  pub version : List ℕ
  pub description : List ℕ
  pub dependencies : List (List ℕ)
  pub required_by : List (List ℕ)
  pub size : Option (List ℕ)
  pub field : Field

abbrev pub no_apk_info : ApkInfo
no_apk_info = record {
  version = [];
  description = [];
  dependencies = [];
  required_by = [];
  size = none;
  field = no_field;
}

abbrev before : List ℕ → List ℕ → List ℕ
before pattern line = elim (split_once pattern line) [ none ↦ line | some r ↦ r.0 ]

abbrev pub set_version : List ℕ → List ℕ × List ℕ → ApkInfo → ApkInfo
set_version name p i =
    if list_eq p.0 name
    then record i { version = p.1 }
    else if is_empty_text i.version
    then record i { version = p.1 }
    else i

abbrev bytes_of : List ℕ → List ℕ
bytes_of text = text ++ codes " bytes"

abbrev pub set_size : List ℕ → ApkInfo → ApkInfo
set_size text i = if is_empty_text text then i else record i { size = some (bytes_of text) }

abbrev after_header : List ℕ → List ℕ
after_header line = elim (split_once (codes " installed size:") line) [
  | none ↦ []
  | some r ↦ trim r.1
]

abbrev dependency_name : List ℕ → List ℕ
dependency_name dep =
    trim_start_matches (codes "pc:")
      (trim_start_matches (codes "cmd:") (trim_start_matches (codes "so:") dep))

-- A line that is no header, by the field that is open.
abbrev pub content_line : Field → List ℕ → ApkInfo → ApkInfo
content_line description_field line i =
    if is_empty_text i.description then record i { description = trim line } else i
content_line dependencies_field line i = record i {
  dependencies = i.dependencies ++ map dependency_name (split_whitespace line);
}
content_line required_by_field line i = record i {
  required_by = i.required_by ++ map (λ req. (parse_name_version req).0) (split_whitespace line);
}
content_line size_field line i = elim i.size [
  | some s ↦ i
  | none ↦ record i { size = some (bytes_of (trim line)) }
]
content_line _ line i = i

unfoldable pub apk_info_line : List ℕ → ApkInfo → List ℕ → ApkInfo
unfolding trim split_whitespace
apk_info_line name i line =
    if contains line (codes " description:")
    then set_version name (parse_name_version (trim (before (codes " description:") line)))
        (record i { field = description_field })
    else if contains line (codes " webpage:")
    then record i { field = webpage_field }
    else if contains line (codes " installed size:")
    then set_size (after_header line) (record i { field = size_field })
    else if contains line (codes " dependencies:")
    then record i { field = dependencies_field }
    else if contains line (codes " provides:")
    then record i { field = provides_field }
    else if contains line (codes " required by:")
    then record i { field = required_by_field }
    else if is_empty_text (trim line)
    then record i { field = no_field }
    else content_line i.field line i

abbrev pub apk_info_lines : List ℕ → ApkInfo → List (List ℕ) → ApkInfo
apk_info_lines name i [] = i
apk_info_lines name i (line ∷ lines) = apk_info_lines name (apk_info_line name i line) lines

abbrev pub names_it : List ℕ → List ℕ → Bool
names_it name output = if is_empty_text (trim output) then false else contains output name

abbrev pub upgradable_of : List ℕ → Result Error (List ℕ) → Bool
upgradable_of name (ok o) = names_it name o
upgradable_of name (err e) = false

-- The version in the first line, if there is one.
abbrev pub first_version : Result Error (List ℕ) → Option (List ℕ)
first_version (err e) = none
first_version (ok o) = non_empty (parse_name_version (trim (first_of (lines o)))).1

abbrev apk_package : List ℕ → ApkInfo → Bool → Option (List ℕ) → Option Package
apk_package name i upgradable latest = some (record {
  name = name;
  version = i.version;
  status = installed;
  is_upgradable = upgradable;
  latest_version = latest;
  description = i.description;
  dependencies = i.dependencies;
  reverse_dependencies = i.required_by;
  install_date = none;
  size_installed = i.size;
})

-- The package that a search finds: its first line.
abbrev first_found : List (List ℕ) → Option Package
first_found [] = none
first_found (line ∷ lines) =
    let p = parse_name_version (trim line) in some (available_package p.0 p.1 none [])

abbrev pub found_apk : List ℕ → Result Error (List ℕ) → Option Package
found_apk name (err e) = none
found_apk name (ok o) = if names_it name o then first_found (lines o) else none

abbrev listed_line : List ℕ → List ℕ → Option (List ℕ)
listed_line name line =
    if contains line name then non_empty (parse_name_version (trim line)).1 else none

abbrev pub listed_apk : List ℕ → Result Error (List ℕ) → Option (List ℕ)
listed_apk name (err e) = none
listed_apk name (ok o) = find_map (listed_line name) (lines o)

module _ (m : Machine) where
  -- `parse_apk_info`, of an installed package.
  unfoldable pub parse_apk_info : List ℕ → List ℕ → Action m.State (Option Package)
  unfolding apk_info_line run_apk trim lines
  parse_apk_info output name =
      let i = apk_info_lines name no_apk_info (lines output) in
      handle (run_apk m (codes "list" ∷ codes "--upgradable" ∷ name ∷ [])) (λ r.
        if upgradable_of name r
        then handle (run_apk m (codes "info" ∷ name ∷ []))
            (λ again. pure (apk_package name i true (first_version again)))
        else pure (apk_package name i false (some i.version)))

  abbrev pub after_list : List ℕ → List ℕ → Action m.State (Option Package)
  after_list name output =
      if names_it name output
      then (run_apk m (codes "info" ∷ codes "-a" ∷ name ∷ []) >>= λ info. parse_apk_info info name)
      else handle (run_apk m (codes "search" ∷ name ∷ [])) (λ r. pure (found_apk name r))

  -- `get_package`.
  unfoldable pub apk_get_package : List ℕ → Action m.State (Option Package)
  unfolding is_invalid_name run_apk parse_apk_info trim lines
  apk_get_package name =
      if is_invalid_name name
      then fail (invalid_name name)
      else run_apk m (codes "list" ∷ codes "--installed" ∷ name ∷ []) >>= after_list name

  -- `get_installed_version` and `get_candidate_version`.
  unfoldable pub apk_installed_version : List ℕ → Action m.State (Option (List ℕ))
  unfolding run_apk trim lines
  apk_installed_version name =
      handle (run_apk m (codes "list" ∷ codes "--installed" ∷ name ∷ []))
        (λ r. pure (listed_apk name r))

  unfoldable pub apk_candidate_version : List ℕ → Action m.State (Option (List ℕ))
  unfolding run_apk trim lines
  apk_candidate_version name =
      handle (run_apk m (codes "info" ∷ name ∷ [])) (λ r. pure (first_version r))

  -- `list_packages` and `list_patches`.
  unfoldable pub apk_list_packages : Option (List ℕ) → Action m.State (List Package)
  unfolding run_apk parse_apk_package_list
  apk_list_packages f = run_apk m (codes "list" ∷ codes "--installed" ∷ opt_arg f) >>= λ output.
      pure (parse_apk_package_list output)

  unfoldable pub apk_list_patches : Action m.State (List Patch)
  unfolding run_apk apk_patches
  apk_list_patches =
      run_apk m (codes "list" ∷ codes "--upgradable" ∷ []) >>= λ output. pure (apk_patches output)
