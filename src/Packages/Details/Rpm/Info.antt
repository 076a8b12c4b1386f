-- ===== src/Packages/Details/Rpm/Info.antt =====
-- What the output of rpm, dnf and yum says of one package: the loops of `parse_rpm_info`, `get_package`
-- and the versions of `DnfBackend` and `YumBackend` in src/packages/mod.rs.
use linux_patch_api.Prelude.{
  ℕ, Bool, true, false, List, [], ◌∷◌, ◌++◌, starts, filter, list_eq, Option, none, some,
  if◌then◌else◌,
}
use linux_patch_api.Prelude.Int.{pos}
use linux_patch_api.Prelude.Result.{Result, ok, err}
use linux_patch_api.Prelude.Text.{codes, trim}
use linux_patch_api.Prelude.Lines.{contains, lines, split_whitespace}
use linux_patch_api.Packages.Error.Report.{Error}
use linux_patch_api.Packages.Runner.{CommandOutput, int_eq}
use linux_patch_api.Packages.Apt.Safe.{is_empty_text}
use linux_patch_api.Packages.Splitting.{split_last}
use linux_patch_api.Packages.Listing.{Package, read_lines}
use linux_patch_api.Packages.Details.{
  second_field, first_of, find_map, available_package, good_output, non_empty,
}

-- The variables of the loop in `parse_rpm_info`.
pub record RpmInfo : Type 0 where
  pub version : List ℕ
  pub release : List ℕ
  pub description : List ℕ
  pub size : Option (List ℕ)
  pub date : Option (List ℕ)
  pub in_description : Bool

abbrev pub no_info : RpmInfo
no_info = record {
  version = [];
  release = [];
  description = [];
  size = none;
  date = none;
  in_description = false;
}

abbrev pub or_else_text : List ℕ → List ℕ → List ℕ
or_else_text [] other = other
or_else_text (c ∷ cs) other = c ∷ cs

abbrev pub join_words : List ℕ → List ℕ → List ℕ
join_words [] line = line
join_words (c ∷ cs) line = (c ∷ cs) ++ b' ' ∷ line

-- The chain of tests on a line outside of a description.
abbrev pub field_line : List ℕ → RpmInfo → RpmInfo
field_line line i =
    if starts (codes "Version") line
    then record i { version = second_field line }
    else if starts (codes "Release") line
    then record i { release = second_field line }
    else if starts (codes "Install Date") line
    then record i { date = some (second_field line) }
    else if starts (codes "Size") line
    then record i { size = some (second_field line) }
    else if starts (codes "Summary") line
    then record i { description = or_else_text i.description (second_field line) }
    else if starts (codes "Description") line
    then record i {
      in_description = true;
      description = or_else_text (second_field line) i.description;
    }
    else i

abbrev pub continues : List ℕ → Bool
continues line = if starts (codes " ") line then true else is_empty_text line

unfoldable pub info_line : RpmInfo → List ℕ → RpmInfo
unfolding trim second_field
info_line i line =
    if i.in_description
    then if continues line
      then record i { description = join_words i.description (trim line) }
      else field_line line (record i { in_description = false })
    else field_line line i

abbrev pub info_lines : RpmInfo → List (List ℕ) → RpmInfo
info_lines i [] = i
info_lines i (line ∷ lines) = info_lines (info_line i line) lines

abbrev pub full_version : List ℕ → List ℕ → List ℕ
full_version version [] = version
full_version version (c ∷ cs) = version ++ b'-' ∷ c ∷ cs

-- The candidate in the output of `check-update`, and what the package gets of it.
abbrev pub candidate_words : List ℕ → List (List ℕ) → Option (List ℕ)
candidate_words name (full ∷ version ∷ rest) =
    if starts name full
    then elim (split_last b'.' full) [
      | none ↦ none
      | some r ↦ if list_eq r.0 name then some version else none
    ]
    else none
candidate_words name _ = none

abbrev pub is_updates_code : CommandOutput → Bool
is_updates_code o = elim o.status_code [ none ↦ false | some code ↦ int_eq code (pos 100) ]

abbrev pub candidate_of : List ℕ → List ℕ → Result Error CommandOutput → Bool × Option (List ℕ)
candidate_of name installed_version (err e) = (false, some installed_version)
candidate_of name installed_version (ok o) =
    if is_updates_code o
    then (true, find_map (λ line. candidate_words name (split_whitespace line)) (lines o.stdout))
    else (false, some installed_version)

abbrev pub dependency_name : List ℕ → Option (List ℕ)
dependency_name dep =
    let name = first_of (split_whitespace dep) in
    if starts (codes "rpmlib") name
    then none
    else if starts (codes "rtld") name
    then none
    else some name

unfoldable pub dependency_line : List ℕ → Option (List ℕ)
unfolding trim split_whitespace
dependency_line line = if is_empty_text (trim line) then none else dependency_name (trim line)

abbrev pub dependencies_of : Result Error (List ℕ) → List (List ℕ)
dependencies_of (err e) = []
dependencies_of (ok output) = read_lines dependency_line output

-- The variables of the loop over the output of `info`.
abbrev pub available_line : RpmInfo → List ℕ → RpmInfo
available_line i line =
    if starts (codes "Version") line
    then record i { version = second_field line }
    else if starts (codes "Release") line
    then record i { release = second_field line }
    else if starts (codes "Description") line
    then record i { description = or_else_text (second_field line) i.description }
    else i

abbrev pub available_lines : RpmInfo → List (List ℕ) → RpmInfo
available_lines i [] = i
available_lines i (line ∷ lines) = available_lines (available_line i line) lines

abbrev pub available_rpm : List ℕ → Result Error CommandOutput → Option Package
available_rpm name r = elim (good_output r) [
  | none ↦ none
  | some output ↦
      let i = available_lines no_info (lines output) in
      some (available_package name (full_version i.version i.release) none i.description)
]

-- The candidate version in the output of `info`.
abbrev pub candidate_in : RpmInfo → Option (List ℕ)
candidate_in i = if is_empty_text i.version then none else some (full_version i.version i.release)

abbrev pub candidate_rpm : Result Error CommandOutput → Option (List ℕ)
candidate_rpm r = elim (good_output r) [
  | none ↦ none
  | some output ↦ candidate_in (available_lines no_info (lines output))
]

abbrev pub version_of : Result Error (List ℕ) → Option (List ℕ)
version_of (ok output) = non_empty (trim output)
version_of (err e) = none

abbrev pub text_or_empty : Result Error (List ℕ) → List ℕ
text_or_empty (ok s) = trim s
text_or_empty (err e) = []

abbrev pub query_format : List (List ℕ)
query_format = codes "-q" ∷ codes "--qf" ∷ codes "%{VERSION}-%{RELEASE}" ∷ []

abbrev pub retain : Option (List ℕ) → List Package → List Package
retain none ps = ps
retain (some f) ps = filter (λ p. contains p.name f) ps

abbrev pub opt_arg : Option (List ℕ) → List (List ℕ)
opt_arg none = []
opt_arg (some f) = f ∷ []
