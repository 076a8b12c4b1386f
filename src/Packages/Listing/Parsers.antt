-- ===== src/Packages/Listing/Parsers.antt =====
-- The parsers of lists of packages and patches in src/packages/mod.rs, each a function of one line.
use linux_patch_api.Prelude.{
  ℕ, Bool, true, false, not, List, [], ◌∷◌, any, starts, Option, none, some, list_eq, if◌then◌else◌,
}
use linux_patch_api.Prelude.Text.{codes, trim, is_whitespace}
use linux_patch_api.Prelude.Lines.{contains, split_whitespace}
use linux_patch_api.Packages.Apt.Safe.{is_empty_text}
use linux_patch_api.Packages.Request.{one_of}
use linux_patch_api.Packages.Splitting.{
  parse_name_version, split_last, split_once, split_first, until,
}
use linux_patch_api.Packages.Listing.{
  PackageStatus, installed, available, upgradable, Package, Patch, patch, installed_package,
  update_available, read_lines,
}

-- `AptBackend::parse_package_list`, and its line.
abbrev pub status_of : List (List ℕ) → PackageStatus
status_of [] = available
status_of (annotation ∷ rest) =
    if contains annotation (codes "installed")
    then installed
    else if contains annotation (codes "upgradable")
    then upgradable
    else available

abbrev pub is_upgradable_status : PackageStatus → Bool
is_upgradable_status upgradable = true
is_upgradable_status _ = false

abbrev apt_package : List (List ℕ) → Option Package
apt_package (full ∷ version ∷ arch ∷ rest) = some (record {
  name = until b'/' full;
  version = version;
  status = status_of rest;
  is_upgradable = is_upgradable_status (status_of rest);
  latest_version = some version;
  description = [];
  dependencies = [];
  reverse_dependencies = [];
  install_date = none;
  size_installed = none;
})
apt_package _ = none

unfoldable pub apt_package_line : List ℕ → Option Package
unfolding split_whitespace
apt_package_line line =
    if starts (codes "Listing...") line
    then none
    else if is_empty_text line
    then none
    else apt_package (split_whitespace line)

unfoldable pub parse_package_list : List ℕ → List Package
unfolding read_lines apt_package_line
parse_package_list = read_lines apt_package_line

-- The loop of `AptBackend::list_patches`.
abbrev apt_patch : List (List ℕ) → Option Patch
apt_patch (full ∷ second ∷ third ∷ rest) =
    some (patch (until b'/' full) second third update_available)
apt_patch _ = none

unfoldable pub apt_patch_line : List ℕ → Option Patch
unfolding split_whitespace patch
apt_patch_line line =
    if starts (codes "Listing...") line then none else apt_patch (split_whitespace line)

unfoldable pub apt_patches : List ℕ → List Patch
unfolding read_lines apt_patch_line
apt_patches = read_lines apt_patch_line

-- `ApkBackend::parse_apk_package_list`.
abbrev apk_description : List ℕ → List ℕ
apk_description rest = elim (split_once (codes "] ") rest) [
  | some r ↦ r.1
  | none ↦ elim (split_once (codes "]") rest) [ some r ↦ trim r.1 | none ↦ rest ]
]

abbrev apk_described : List ℕ × List ℕ → Package
apk_described r = let p = parse_name_version r.0 in installed_package p.0 p.1 (apk_description r.1)

unfoldable pub apk_package_line : List ℕ → Option Package
unfolding trim
apk_package_line line =
    if is_empty_text (trim line)
    then none
    else some (elim (split_once (codes " [") line) [
      | some r ↦ apk_described r
      | none ↦ elim (split_once (codes " ") line) [
        | some r ↦ apk_described r
        | none ↦ let p = parse_name_version (trim line) in installed_package p.0 p.1 []
      ]
    ])

unfoldable pub parse_apk_package_list : List ℕ → List Package
unfolding read_lines apk_package_line
parse_apk_package_list = read_lines apk_package_line

-- The loop of `ApkBackend::list_patches`.
abbrev apk_patch : List ℕ → List ℕ → Patch
apk_patch ident current = let p = parse_name_version ident in patch p.0 current p.1 update_available

unfoldable pub apk_patch_line : List ℕ → Option Patch
unfolding trim patch
apk_patch_line line =
    if is_empty_text (trim line) then none else elim (split_once (codes " < ") line) [
      | some r ↦ some (apk_patch r.0 (until b' ' r.1))
      | none ↦ elim (split_once (codes " ") line) [ some r ↦ some (apk_patch r.0 []) | none ↦ none ]
    ]

unfoldable pub apk_patches : List ℕ → List Patch
unfolding read_lines apk_patch_line
apk_patches = read_lines apk_patch_line

-- `parse_rpm_package_list` of `DnfBackend` and of `YumBackend`.
abbrev pub without_arch : List ℕ → List ℕ
without_arch ident = elim (split_last b'.' ident) [
  | none ↦ ident
  | some r ↦ if any (λ c. not (one_of (b'_' ∷ []) c)) r.1 then ident else r.0
]

unfoldable pub rpm_package_line : List ℕ → Option Package
unfolding trim
rpm_package_line line =
    let trimmed = trim line in
    if is_empty_text trimmed
    then none
    else let p = parse_name_version (without_arch trimmed) in some (installed_package p.0 p.1 [])

unfoldable pub parse_rpm_package_list : List ℕ → List Package
unfolding read_lines rpm_package_line
parse_rpm_package_list = read_lines rpm_package_line

-- A line of `check-update` as `list_patches` of both reads it: name, version and repository.
pub record Row : Type 0 where
  pub name : List ℕ
  pub candidate : List ℕ
  pub repo : List ℕ

abbrev check_update_row : List (List ℕ) → Option Row
check_update_row (full ∷ version ∷ repo ∷ rest) = some (record {
  name = elim (split_last b'.' full) [ none ↦ full | some r ↦ r.0 ];
  candidate = version;
  repo = repo;
})
check_update_row _ = none

unfoldable pub check_update_line : List ℕ → Option Row
unfolding trim split_whitespace
check_update_line line =
    let trimmed = trim line in
    if is_empty_text trimmed then none else check_update_row (split_whitespace trimmed)

-- `PacmanBackend::parse_pacman_package_list`.
unfoldable pub pacman_package_line : List ℕ → Option Package
unfolding trim
pacman_package_line line =
    let trimmed = trim line in
    if is_empty_text trimmed then none else elim (split_first is_whitespace trimmed) [
      | none ↦ none
      | some r ↦ some (installed_package r.0 r.1 [])
    ]

unfoldable pub parse_pacman_package_list : List ℕ → List Package
unfolding read_lines pacman_package_line
parse_pacman_package_list = read_lines pacman_package_line

-- The loop of `PacmanBackend::list_patches`.
abbrev pacman_patch : List (List ℕ) → Option Patch
pacman_patch (name ∷ old ∷ arrow ∷ new ∷ rest) =
    if list_eq arrow (codes "->") then some (patch name old new update_available) else none
pacman_patch _ = none

unfoldable pub pacman_patch_line : List ℕ → Option Patch
unfolding trim split_whitespace patch
pacman_patch_line line =
    let trimmed = trim line in
    if is_empty_text trimmed then none else pacman_patch (split_whitespace trimmed)

unfoldable pub pacman_patches : List ℕ → List Patch
unfolding read_lines pacman_patch_line
pacman_patches = read_lines pacman_patch_line
