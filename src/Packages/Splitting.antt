-- ===== src/Packages/Splitting.antt =====
-- Identifiers and lines taken apart: `parse_name_version`, `parse_rpm_name_version` and the uses of
-- `find`, `rfind` and `splitn` in src/packages/mod.rs.
pub mod Rejoin
use linux_patch_api.Prelude.{
  ℕ, Bool, true, false, ◌==◌, List, [], ◌∷◌, length, drop, starts, Option, none, some,
  if◌then◌else◌,
}
use linux_patch_api.Packages.Request.{is_ascii_digit}

-- A hyphen in front of a digit.
abbrev pub is_break : ℕ → List ℕ → Bool
is_break c [] = false
is_break c (d ∷ ds) = if c == b'-' then is_ascii_digit d else false

-- `parse_name_version` and `parse_rpm_name_version`.
abbrev pub parse_name_version : List ℕ → List ℕ × List ℕ
parse_name_version [] = ([], [])
parse_name_version (c ∷ cs) =
    let r = parse_name_version cs in if is_break c cs then ([], cs) else (c ∷ r.0, r.1)

abbrev pub cons_fst : ℕ → Option (List ℕ × List ℕ) → Option (List ℕ × List ℕ)
cons_fst c none = none
cons_fst c (some r) = some (c ∷ r.0, r.1)

-- What stands around the last separator: `rfind`.
abbrev pub at_last : ℕ → ℕ → List ℕ → Option (List ℕ × List ℕ) → Option (List ℕ × List ℕ)
at_last sep c cs (some r) = some (c ∷ r.0, r.1)
at_last sep c cs none = if c == sep then some ([], cs) else none

abbrev pub split_last : ℕ → List ℕ → Option (List ℕ × List ℕ)
split_last sep [] = none
split_last sep (c ∷ cs) = at_last sep c cs (split_last sep cs)

-- What stands around the first occurrence of a pattern that is not empty: `find`.
abbrev pub split_once : List ℕ → List ℕ → Option (List ℕ × List ℕ)
split_once pattern [] = none
split_once pattern (c ∷ cs) =
    let r = split_once pattern cs in
    if starts pattern (c ∷ cs) then some ([], drop (length pattern) (c ∷ cs)) else cons_fst c r

-- What stands around the first character that passes a test: `splitn(2, _)`.
abbrev pub split_first : (ℕ → Bool) → List ℕ → Option (List ℕ × List ℕ)
split_first p [] = none
split_first p (c ∷ cs) = let r = split_first p cs in if p c then some ([], cs) else cons_fst c r

-- The text up to the first such character.
abbrev pub until : ℕ → List ℕ → List ℕ
until sep [] = []
until sep (c ∷ cs) = let rest = until sep cs in if c == sep then [] else c ∷ rest
