-- ===== src/Packages/Details.antt =====
-- Packages in detail, as the back ends in src/packages/mod.rs read them; what the children share.
pub mod Rpm
pub mod Pacman
pub mod Apt
pub mod Apk
use linux_patch_api.Prelude.{
  ℕ, zero, suc, starts, drop, length, Bool, true, false, ◌==◌, List, [], ◌∷◌, ◌++◌, Option, none,
  some, list_eq, if◌then◌else◌,
}
use linux_patch_api.Prelude.Result.{Result, ok, err}
use linux_patch_api.Prelude.Text.{codes, trim}
use linux_patch_api.Prelude.Lines.{contains}
use linux_patch_api.Packages.Error.Report.{Error, message}
use linux_patch_api.Packages.Runner.{CommandOutput, success}
use linux_patch_api.Packages.Apt.Safe.{is_empty_text}
use linux_patch_api.Packages.Splitting.{split_first, until}
use linux_patch_api.Packages.Listing.{PackageStatus, available, Package}

abbrev is_colon : ℕ → Bool
is_colon c = c == b':'

-- `line.split(':').nth(1).unwrap_or("").trim()`.
unfoldable pub second_field : List ℕ → List ℕ
unfolding trim
second_field line = elim (split_first is_colon line) [ none ↦ [] | some r ↦ trim (until b':' r.1) ]

-- `line.split_once(':')` with both parts trimmed.
unfoldable pub key_value : List ℕ → Option (List ℕ × List ℕ)
unfolding trim
key_value line = elim (split_first is_colon line) [
  | none ↦ none
  | some r ↦ some (trim r.0, trim r.1)
]

-- The words of `split_whitespace` by position.
abbrev pub first_of : List (List ℕ) → List ℕ
first_of [] = []
first_of (w ∷ ws) = w

abbrev pub second_of : List (List ℕ) → Option (List ℕ)
second_of (a ∷ b ∷ ws) = some b
second_of _ = none

-- `find_map` over lines.
abbrev pub find_map : {A : Type 0} → (List ℕ → Option A) → List (List ℕ) → Option A
find_map f [] = none
find_map f (line ∷ lines) =
    let rest = find_map f lines in elim (f line) [ none ↦ rest | some a ↦ some a ]

abbrev pub non_empty : List ℕ → Option (List ℕ)
non_empty text = if is_empty_text text then none else some text

-- The check of a name in `get_package` of all back ends but that of apt.
unfoldable pub is_invalid_name : List ℕ → Bool
is_invalid_name name =
    if is_empty_text name
    then true
    else if contains name (codes "/")
    then true
    else if contains name (codes "..")
    then true
    else contains name (codes " ")

abbrev pub invalid_name : List ℕ → Error
invalid_name name = message (codes "Invalid package name: " ++ name)

-- A package that is not installed.
abbrev pub available_package : List ℕ → List ℕ → Option (List ℕ) → List ℕ → Package
available_package name version latest description = record {
  name = name;
  version = version;
  status = available;
  is_upgradable = false;
  latest_version = latest;
  description = description;
  dependencies = [];
  reverse_dependencies = [];
  install_date = none;
  size_installed = none;
}

-- The output of a command that the runner allowed and that succeeded.
abbrev pub good_output : Result Error CommandOutput → Option (List ℕ)
good_output (ok o) = if success o then some o.stdout else none
good_output (err e) = none

-- `trim_start_matches`, which takes a prefix off as often as it stands there: in front of a text of n
-- characters at most n times.
abbrev strip : ℕ → List ℕ → List ℕ → List ℕ
strip zero prefix text = text
strip (suc n) prefix text =
    let rest = strip n prefix (drop (length prefix) text) in
    if starts prefix text then rest else text

abbrev pub trim_start_matches : List ℕ → List ℕ → List ℕ
trim_start_matches prefix text = strip (length text) prefix text
