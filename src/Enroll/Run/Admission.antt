-- ===== src/Enroll/Run/Admission.antt =====
-- What a successful `append_manager_to_whitelist` of src/enroll/provision.rs leaves in the file.
use mathlib.Core.Bool.{true≢false}
use linux_patch_api.Prelude.{
  ℕ, Bool, true, false, List, [], any, Option, some, ◌≡◌, sym, ◌∙◌, inl, inr, list_eq,
  if◌then◌else◌, Bool-cases,
}
use linux_patch_api.Prelude.Result.{Result, ok, err}
use linux_patch_api.Prelude.Text.{trim}
use linux_patch_api.Whitelist.Entry.{WhitelistEntry, is_skipped, parse_appended}
use linux_patch_api.Whitelist.Manager.{Manager, ManagerError, append_entry}
use linux_patch_api.Whitelist.Rules.{is_bad}
use linux_patch_api.Whitelist.Append.{RoundTrips, reload-grants}
use linux_patch_api.Whitelist.Admission.{Admits, IfAppended, append_entry-Admits}
use linux_patch_api.Enroll.Run.{
  Access, WhitelistError, append_manager_to_whitelist, appended, not_watched,
}

module _ (x : Access) (a : ℕ) (lines : List (List ℕ)) (e : WhitelistEntry) where
  -- What holds of the file if the manager was added.
  abbrev pub IfAdded : Option (List ℕ) × Result WhitelistError (Unit {0}) → Type 0
  IfAdded (file, ok u) = Admits x.yaml x.lookup a lines e file
  IfAdded (file, err f) = Unit {0}

  appended-IfAdded :
      (r : Manager × Result ManagerError (Unit {0}))
      → IfAppended (λ m. Admits x.yaml x.lookup a lines e m.file) r
      → IfAdded (appended r)
  appended-IfAdded (m, ok u) h = h
  appended-IfAdded (m, err f) h = tt

  watched-IfAdded :
      (watched : Bool) (file : Option (List ℕ))
      (r : Option (List ℕ) × Result WhitelistError (Unit {0}))
      → IfAdded r
      → IfAdded (if watched then r else (file, err not_watched))
  watched-IfAdded true file r h = h
  watched-IfAdded false file r h = tt

  -- If the address of the manager is an entry, and the file has no bad line, then a success leaves the
  -- file granting what it granted and what the entry allows.
  pub append_manager_to_whitelist-IfAdded :
      (ip content : List ℕ)
      → RoundTrips x.yaml
      → x.yaml.from_str content ≡ some lines
      → any (is_bad x.lookup) lines ≡ false
      → parse_appended (trim (trim ip)) ≡ ok e
      → is_skipped (trim (trim ip)) ≡ false
      → IfAdded (append_manager_to_whitelist x ip (some content))
  unfolding append_manager_to_whitelist
  append_manager_to_whitelist-IfAdded ip content rt y good p k =
      elim (Bool-cases (list_eq (trim ip) [])) [
        | inl blank ↦ rw (append_manager_to_whitelist, blank) tt
        | inr text ↦ elim (reload-grants x.yaml x.lookup a [] content lines y) [
          | inl (h, r) ↦ absurd (true≢false (sym h ∙ good))
          | inr (h, (es, r, g)) ↦
              rw (append_manager_to_whitelist, text, r)
                (watched-IfAdded x.watched (some content)
                  (appended (
                    append_entry x.yaml x.lookup x.locked x.written (trim ip)
                      (record { entries = es; file = some content })))
                  (appended-IfAdded
                    (append_entry x.yaml x.lookup x.locked x.written (trim ip)
                      (record { entries = es; file = some content }))
                    (append_entry-Admits x.yaml x.lookup a es content (trim ip) lines e x.locked
                      x.written rt y good g p k)))
        ]
      ]
