-- ===== src/Enroll/Health/Gpg/Flags.antt =====
-- When the keyring counts as valid: `parse_gpg_key_status` of src/enroll/repo_health.rs.
use linux_patch_api.Prelude.{
  ℕ, Bool, true, false, ◌&&◌, ◌||◌, not, List, [], ◌∷◌, any, Option, none, some, ◌≡◌, ◌∙◌, arith,
}
use linux_patch_api.Prelude.Lines.{lines}
use linux_patch_api.Enroll.Health.Gpg.{
  GpgKeyStatus, valid, expired, missing, revoked, KeyLine, key_line, has, split_fields, next_status,
  on_line, scan_keys, parse_gpg_key_status,
}

abbrev pub is_valid : GpgKeyStatus → Bool
is_valid valid = true
is_valid expired = false
is_valid missing = false
is_valid revoked = false

abbrev pub is_flagged : Option KeyLine → Bool
is_flagged none = false
is_flagged (some k) = has b'e' k.validity || has b'r' k.validity

-- A line of a key or a subkey that is marked as expired or revoked.
abbrev pub is_bad_line : List ℕ → Bool
is_bad_line line = is_flagged (key_line (split_fields b':' line))

next_status-IsValid :
    (validity : List ℕ) (s : GpgKeyStatus)
    → is_valid (next_status validity s)
      ≡ (is_valid s && not (has b'e' validity || has b'r' validity))
unfolding next_status
next_status-IsValid validity s = ground arith

module _ (rfc3339 : ℕ → Option (List ℕ)) where
  on_line-IsValid :
      (k : Option KeyLine) (r : GpgKeyStatus × Option (List ℕ))
      → is_valid (on_line rfc3339 k r).0 ≡ (is_valid r.0 && not (is_flagged k))
  on_line-IsValid none r = ground arith
  on_line-IsValid (some k) r = next_status-IsValid k.validity r.0

  scan_keys-IsValid :
      (ls : List (List ℕ)) (r : GpgKeyStatus × Option (List ℕ))
      → is_valid (scan_keys rfc3339 ls r).0 ≡ (is_valid r.0 && not (any is_bad_line ls))
  unfolding scan_keys
  scan_keys-IsValid [] r = ground arith
  scan_keys-IsValid (l ∷ ls) r =
      let k = key_line (split_fields b':' l) in
      scan_keys-IsValid ls (on_line rfc3339 k r) ∙ rw (on_line-IsValid k r) (ground arith)

-- The key counts as valid exactly if no line of a key or a subkey is marked as expired or revoked,
-- wherever such a line stands; a later line that is in order does not take the mark back.
pub parse_gpg_key_status-valid :
    (rfc3339 : ℕ → Option (List ℕ)) (output : List ℕ)
    → is_valid (parse_gpg_key_status rfc3339 output).0 ≡ not (any is_bad_line (lines output))
unfolding parse_gpg_key_status
parse_gpg_key_status-valid rfc3339 output = scan_keys-IsValid rfc3339 (lines output) (valid, none)
