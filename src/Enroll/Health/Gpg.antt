-- ===== src/Enroll/Health/Gpg.antt =====
-- The state of the keyring: `check_gpg_key_health` and `parse_gpg_key_status` of
-- src/enroll/repo_health.rs. The output of `gpg` and the printing of times are parameters.
pub mod Flags
use linux_patch_api.Prelude.{
  ℕ, zero, suc, ◌-◌, ◌^◌, ◌==◌, Bool, true, false, List, [], ◌∷◌, any, list_eq, ltb, Option, none,
  some, if◌then◌else◌,
}
use linux_patch_api.Prelude.Text.{codes}
use linux_patch_api.Prelude.Lines.{lines}
use linux_patch_api.Whitelist.Address.{digits_upto}
use linux_patch_api.Enroll.Health.{detect_distro, expected_repo_paths, non_empty}

pub data GpgKeyStatus : Type 0 where
  valid expired missing revoked : GpgKeyStatus

-- `GpgKeyStatus::as_str`.
abbrev pub as_str : GpgKeyStatus → List ℕ
as_str valid = codes "valid"
as_str expired = codes "expired"
as_str missing = codes "missing"
as_str revoked = codes "revoked"

-- `str::split` at a character.
abbrev extend : ℕ → List (List ℕ) → List (List ℕ)
extend c [] = (c ∷ []) ∷ []
extend c (f ∷ fs) = (c ∷ f) ∷ fs

unfoldable pub split_fields : ℕ → List ℕ → List (List ℕ)
split_fields sep [] = [] ∷ []
split_fields sep (c ∷ cs) =
    let rest = split_fields sep cs in if c == sep then [] ∷ rest else extend c rest

-- `parse::<i64>` of a number that must be positive.
abbrev positive : Option ℕ → Option ℕ
positive none = none
positive (some zero) = none
positive (some (suc n)) = some (suc n)

abbrev parse_unsigned : List ℕ → Option ℕ
parse_unsigned [] = none
parse_unsigned (c ∷ cs) = digits_upto (2 ^ 63 - 1) 0 (c ∷ cs)

abbrev parse_signless : List ℕ → Option ℕ
parse_signless [] = none
parse_signless (c ∷ cs) = if c == b'+' then parse_unsigned cs else parse_unsigned (c ∷ cs)

unfoldable pub parse_seconds : List ℕ → Option ℕ
unfolding digits_upto
parse_seconds text = positive (parse_signless text)

-- The six fields that are looked at.
pub record KeyLine : Type 0 where
  pub validity : List ℕ
  pub expires : List ℕ

abbrev pub is_key : List ℕ → Bool
is_key kind = any (list_eq kind) (codes "pub" ∷ codes "sub" ∷ [])

abbrev pub key_line : List (List ℕ) → Option KeyLine
key_line (kind ∷ validity ∷ a ∷ b ∷ c ∷ expires ∷ more) =
    if is_key kind then some (record { validity = validity; expires = expires }) else none
key_line _ = none

abbrev pub has : ℕ → List ℕ → Bool
has c = any (λ d. d == c)

unfoldable pub next_status : List ℕ → GpgKeyStatus → GpgKeyStatus
next_status validity status =
    if has b'e' validity then expired else if has b'r' validity then revoked else status

-- `from_timestamp` with `to_rfc3339`, which fails for times that are too late.
module _ (rfc3339 : ℕ → Option (List ℕ)) where
  unfoldable pub next_expiry : List ℕ → Option (List ℕ) → Option (List ℕ)
  unfolding parse_seconds
  next_expiry expires expiry = elim (parse_seconds expires) [
    | none ↦ expiry
    | some secs ↦ rfc3339 secs
  ]

  abbrev pub on_line :
      Option KeyLine → GpgKeyStatus × Option (List ℕ) → GpgKeyStatus × Option (List ℕ)
  on_line none r = r
  on_line (some k) r = (next_status k.validity r.0, next_expiry k.expires r.1)

  unfoldable pub scan_keys :
      List (List ℕ) → GpgKeyStatus × Option (List ℕ) → GpgKeyStatus × Option (List ℕ)
  unfolding split_fields next_status next_expiry
  scan_keys [] r = r
  scan_keys (line ∷ rest) r = scan_keys rest (on_line (key_line (split_fields b':' line)) r)

  unfoldable pub parse_gpg_key_status : List ℕ → GpgKeyStatus × Option (List ℕ)
  unfolding scan_keys lines
  parse_gpg_key_status output = scan_keys (lines output) (valid, none)

  abbrev on_output : Option (List ℕ) → GpgKeyStatus × Option (List ℕ)
  on_output none = (valid, none)
  on_output (some output) = parse_gpg_key_status output

  abbrev on_keyring : (List ℕ → Option (List ℕ)) → List ℕ → Bool → GpgKeyStatus × Option (List ℕ)
  on_keyring show_keys keyring true = on_output (show_keys keyring)
  on_keyring show_keys keyring false = (missing, none)

  -- `check_gpg_key_health`, from the text of /etc/os-release, the length of each file that exists, and
  -- the output of `gpg --show-keys` where it succeeds.
  abbrev on_distro :
      (List ℕ → Option ℕ)
      → (List ℕ → Option (List ℕ))
      → Option (List ℕ)
      → GpgKeyStatus × Option (List ℕ)
  on_distro file_len show_keys none = (missing, none)
  on_distro file_len show_keys (some distro) = elim (expected_repo_paths distro) [
    | none ↦ (missing, none)
    | some paths ↦
        on_keyring show_keys paths.1 (elim (file_len paths.1) [ none ↦ false | some n ↦ ltb 0 n ])
  ]

  unfoldable pub check_gpg_key_health :
      Option (List ℕ)
      → (List ℕ → Option ℕ)
      → (List ℕ → Option (List ℕ))
      → GpgKeyStatus × Option (List ℕ)
  unfolding parse_gpg_key_status detect_distro expected_repo_paths
  check_gpg_key_health none file_len show_keys = (missing, none)
  check_gpg_key_health (some os_release) file_len show_keys =
      on_distro file_len show_keys (detect_distro os_release)
