-- ===== src/Whitelist/Admission.antt =====
-- What a successful `append_entry` of src/auth/whitelist.rs leaves in the file, whether or not the entry
-- was there before.
use mathlib.Core.Bool.{true≢false}
use linux_patch_api.Prelude.{
  ℕ, Bool, true, false, List, [], ◌∷◌, ◌++◌, any, Option, some, ◌≡◌, refl, sym, ap, ◌∙◌, inl, inr,
  if◌then◌else◌, Bool-cases,
}
use linux_patch_api.Prelude.Result.{Result, ok, err}
use linux_patch_api.Prelude.Text.{trim}
use linux_patch_api.Whitelist.Entry.{
  WhitelistEntry, IpAddr, entry_allows, entry_eq, is_allowed, is_skipped, parse_appended,
  parse_line,
}
use linux_patch_api.Whitelist.Manager.{
  Manager, ManagerError, lock_failed, Yaml, append_entry, reload, write_entry, load_config,
}
use linux_patch_api.Whitelist.Rules.{any-entry_eq, grants, is_bad}
use linux_patch_api.Whitelist.Append.{
  RoundTrips, any-snoc, reload-grants, parse_line-appended, with_file,
}
use linux_patch_api.Whitelist.Trimming.{trim-trim}

-- What holds of the manager if the result is a success.
abbrev pub IfAppended : (Manager → Type 0) → Manager × Result ManagerError (Unit {0}) → Type 0
IfAppended P (m, ok u) = P m
IfAppended P (m, err e) = Unit {0}

absorbed : (g h : Bool) → (h ≡ true → g ≡ true) → g ≡ (if g then true else h)
absorbed true h i = refl
absorbed false true i = i refl
absorbed false false i = refl

module _ (yaml : Yaml) (lookup : List ℕ → Option (List IpAddr)) (a : ℕ) where
  -- The file is there, all its lines can be read, and they grant an address what the old lines grant
  -- it or the entry allows.
  abbrev pub Admits : List (List ℕ) → WhitelistEntry → Option (List ℕ) → Type 0
  Admits lines e file =
      (content : List ℕ) × (lines' : List (List ℕ)) × (file ≡ some content)
      × (yaml.from_str content ≡ some lines')
      × (any (is_bad lookup) lines' ≡ false)
      × (any (grants lookup a) lines'
          ≡ (if any (grants lookup a) lines then true else entry_allows a e))

  write_entry-Admits :
      (es : List WhitelistEntry) (content text : List ℕ) (lines : List (List ℕ))
      → (e : WhitelistEntry) (written : Bool) → RoundTrips yaml
      → yaml.from_str content ≡ some lines
      → any (is_bad lookup) lines ≡ false
      → parse_line lookup (trim (trim text)) ≡ ok (some e)
      → IfAppended
          (λ m. Admits lines e m.file)
          (write_entry yaml lookup written (trim text) (with_file es content))
  unfolding write_entry load_config reload
  write_entry-Admits es content text lines e false rt y good line =
      let new = rt (lines ++ trim text ∷ []) in rw (write_entry, load_config, y, new.1) tt
  write_entry-Admits es content text lines e true rt y good line =
      let new = rt (lines ++ trim text ∷ []) in
      let readable : any (is_bad lookup) (lines ++ trim text ∷ []) ≡ false =
        any-snoc (is_bad lookup) lines (trim text) ∙ rw (good, line) refl in
      elim (reload-grants yaml lookup a es new.0 (lines ++ trim text ∷ []) new.2) [
        | inl (h, r) ↦ absurd (true≢false (sym h ∙ readable))
        | inr (h, (entries, r, g)) ↦
            rw (write_entry, load_config, y, new.1, r)
              ((
                new.0,
                lines ++ trim text ∷ [],
                refl,
                new.2,
                readable,
                any-snoc (grants lookup a) lines (trim text) ∙ rw line refl,
              ))
      ]

  locked_or :
      (r : Manager × Result ManagerError (Unit {0})) (m : Manager) (locked : Bool)
      → (lines : List (List ℕ)) (e : WhitelistEntry) → IfAppended (λ n. Admits lines e n.file) r
      → IfAppended (λ n. Admits lines e n.file) (if locked then r else (m, err lock_failed))
  locked_or r m true lines e h = h
  locked_or r m false lines e h = tt

  -- If appending a valid entry succeeds, with the entries of the file in memory and no bad line in it,
  -- the file is left granting what it granted and what the entry allows.
  pub append_entry-Admits :
      (es : List WhitelistEntry) (content text : List ℕ) (lines : List (List ℕ))
      → (e : WhitelistEntry) (locked written : Bool) → RoundTrips yaml
      → yaml.from_str content ≡ some lines
      → any (is_bad lookup) lines ≡ false
      → is_allowed a es ≡ any (grants lookup a) lines
      → parse_appended (trim text) ≡ ok e
      → is_skipped (trim text) ≡ false
      → IfAppended
          (λ m. Admits lines e m.file)
          (append_entry yaml lookup locked written text (with_file es content))
  unfolding append_entry is_allowed
  append_entry-Admits es content text lines e locked written rt y good g p k =
      elim (Bool-cases (any (entry_eq e) es)) [
        | inl there ↦
            let same : append_entry yaml lookup locked written text (with_file es content)
                ≡ (with_file es content, ok tt) =
              rw (append_entry, p, there) refl in
            rw same (
              (
                content,
                lines,
                refl,
                y,
                good,
                absorbed (any (grants lookup a) lines) (entry_allows a e)
                    (λ h. sym g ∙ any-entry_eq a e es there h),
              ))
        | inr fresh ↦
            let line : parse_line lookup (trim (trim text)) ≡ ok (some e) =
              ap (parse_line lookup) (trim-trim text)
              ∙ parse_line-appended lookup (trim text) e k p in
            let behind : append_entry yaml lookup locked written text (with_file es content) ≡ (
                if locked
                then write_entry yaml lookup written (trim text) (with_file es content)
                else (with_file es content, err lock_failed)) =
              rw (append_entry, p, fresh) refl in
            rw behind (
              locked_or (write_entry yaml lookup written (trim text) (with_file es content))
                (with_file es content) locked lines e
                (write_entry-Admits es content text lines e written rt y good line))
      ]
