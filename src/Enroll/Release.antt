-- ===== src/Enroll/Release.antt =====
-- The distribution and its release, as read from the text of /etc/os-release:
-- `detect_distro_id_for_repo_config` and `detect_apt_suite_for_repo_config` of src/enroll/client.rs.
use linux_patch_api.Prelude.{
  ℕ, ◌+◌, Bool, true, leb, ◌==◌, List, [], ◌∷◌, map, starts, list_eq, Option, none, some,
  if◌then◌else◌,
}
use linux_patch_api.Prelude.Result.{Result, ok, err}
use linux_patch_api.Prelude.Text.{codes, trim}
use linux_patch_api.Prelude.Lines.{contains, lines}
use linux_patch_api.Packages.Splitting.{split_first}

-- `str::trim_matches` of one character.
abbrev strip_start : ℕ → List ℕ → List ℕ
strip_start q [] = []
strip_start q (c ∷ cs) = let rest = strip_start q cs in if c == q then rest else c ∷ cs

abbrev strip_one : ℕ → ℕ → List ℕ → List ℕ
strip_one q c [] = if c == q then [] else c ∷ []
strip_one q c (d ∷ ds) = c ∷ d ∷ ds

abbrev strip_end : ℕ → List ℕ → List ℕ
strip_end q [] = []
strip_end q (c ∷ cs) = strip_one q c (strip_end q cs)

unfoldable pub trim_matches : ℕ → List ℕ → List ℕ
trim_matches q text = strip_end q (strip_start q text)

-- A value without blanks and quotes.
unfoldable pub unquoted : List ℕ → List ℕ
unfolding trim trim_matches
unquoted value = trim_matches b'\'' (trim_matches b'"' (trim value))

abbrev value_if : List ℕ → Option (List ℕ × List ℕ) → Option (List ℕ)
value_if key none = none
value_if key (some r) = if list_eq r.0 key then some (unquoted r.1) else none

abbrev or_earlier : Option (List ℕ) → Option (List ℕ) → Option (List ℕ)
or_earlier (some v) earlier = some v
or_earlier none earlier = earlier

-- The loop over lines, for one key: the last assignment counts.
abbrev last_value : List ℕ → Option (List ℕ) → List (List ℕ) → Option (List ℕ)
last_value key found [] = found
last_value key found (line ∷ lines) =
    last_value key (or_earlier (value_if key (split_first (λ c. c == b'=') (trim line))) found)
      lines

unfoldable pub field : List ℕ → List ℕ → Option (List ℕ)
unfolding trim unquoted lines
field key content = last_value key none (lines content)

-- `str::to_ascii_lowercase`.
abbrev lower : ℕ → ℕ
lower c = if leb b'A' c then if leb c b'Z' then c + 32 else c else c

abbrev pub to_ascii_lowercase : List ℕ → List ℕ
to_ascii_lowercase = map lower

abbrev or_default : Option (List ℕ) → List ℕ
or_default none = []
or_default (some text) = text

abbrev either_contains : List ℕ → List ℕ → List ℕ → Bool
either_contains os like text = if contains os text then true else contains like text

-- The error: the name and what it is like.
pub record UnknownDistro : Type 0 where
  pub os : List ℕ
  pub like : List ℕ

abbrev pub choose_distro : List ℕ → List ℕ → Result UnknownDistro (List ℕ)
choose_distro os like =
    if either_contains os like (codes "ubuntu")
    then ok (codes "ubuntu")
    else if either_contains os like (codes "debian")
    then ok (codes "debian")
    else if either_contains os like (codes "fedora")
    then ok (codes "fedora")
    else if either_contains os like (codes "alma")
    then ok (codes "almalinux")
    else if either_contains os like (codes "alpine")
    then ok (codes "alpine")
    else if either_contains os like (codes "arch")
    then ok (codes "arch")
    else err (record { os = os; like = like })

-- `detect_distro_id_for_repo_config`, of the text of the file.
unfoldable pub detect_distro_id : List ℕ → Result UnknownDistro (List ℕ)
unfolding field
detect_distro_id content =
    choose_distro (to_ascii_lowercase (or_default (field (codes "NAME") content)))
      (to_ascii_lowercase (or_default (field (codes "ID_LIKE") content)))

abbrev is_or_starts : List ℕ → List ℕ → List ℕ → Bool
is_or_starts ver exact prefix = if list_eq ver exact then true else starts prefix ver

abbrev is_or_contains : List ℕ → List ℕ → Bool
is_or_contains ver text = if list_eq ver text then true else contains ver text

abbrev pub choose_suite : List ℕ → Option (List ℕ)
choose_suite ver =
    if is_or_contains ver (codes "24.04")
    then some (codes "u2404")
    else if is_or_contains ver (codes "22.04")
    then some (codes "u2204")
    else if is_or_contains ver (codes "26.04")
    then some (codes "u2604")
    else if is_or_starts ver (codes "12") (codes "12.")
    then some (codes "debian12")
    else if is_or_starts ver (codes "13") (codes "13.")
    then some (codes "debian13")
    else none

-- `detect_apt_suite_for_repo_config`, of the text of the file, if it could be read.
unfoldable pub detect_apt_suite : Option (List ℕ) → Option (List ℕ)
unfolding field
detect_apt_suite none = none
detect_apt_suite (some content) = elim (field (codes "VERSION_ID") content) [
  | none ↦ none
  | some ver ↦ choose_suite (to_ascii_lowercase ver)
]
