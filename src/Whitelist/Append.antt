-- ===== src/Whitelist/Append.antt =====
-- Loading and appending to the whitelist file: src/auth/whitelist.rs.
use mathlib.Core.Bool.{true≢false}
use linux_patch_api.Prelude.{
  ℕ, Bool, true, false, List, [], ◌∷◌, ◌++◌, any, Option, some, ◌≡◌, refl, sym, ap, ◌∙◌, ◌⊎◌, inl,
  inr, list_eq, arith, if◌then◌else◌, Bool-cases, Option-cases,
}
use linux_patch_api.Prelude.Result.{Result, ok, err}
use linux_patch_api.Prelude.Text.{trim}
use linux_patch_api.Whitelist.Address.{parse_ipv4, split_once}
use linux_patch_api.Whitelist.Entry.{
  WhitelistEntry, IpAddr, v4, is_socket_allowed, EntryError, entry_eq, entry_allows, is_allowed,
  parse_line, parse_appended, is_skipped,
}
use linux_patch_api.Whitelist.Manager.{
  Manager, ManagerError, bad_entry, Yaml, load_config, reload, write_entry, append_entry, call,
  exempt_paths, passed, not_in_whitelist,
}
use linux_patch_api.Whitelist.Trimming.{trim-trim}
use linux_patch_api.Whitelist.Rules.{is_bad, grants, parse_entries-from, parse_entries-bad}

abbrev pub with_file : List WhitelistEntry → List ℕ → Manager
with_file entries content = record { entries = entries; file = some content }

granted : (a : ℕ) (g : Bool) → (if g then true else is_allowed a []) ≡ g
unfolding is_allowed
granted a true = refl
granted a false = refl

module _ (yaml : Yaml) (lookup : List ℕ → Option (List IpAddr)) where
  abbrev pub Reloaded : ℕ → List (List ℕ) → Manager → Type 0
  Reloaded a lines s =
      ((any (is_bad lookup) lines ≡ true)
        × ((e : EntryError) × (reload yaml lookup s ≡ (s, err (bad_entry e)))))
      ⊎ ((any (is_bad lookup) lines ≡ false)
          × ((es : List WhitelistEntry) × (reload yaml lookup s
                ≡ (record s { entries = es }, ok tt))
              × (is_allowed a es ≡ any (grants lookup a) lines)))

  -- A line that cannot be read makes a reload fail and change nothing; otherwise it succeeds, and an
  -- address is allowed exactly if some line grants it.
  pub reload-grants :
      (a : ℕ) (old : List WhitelistEntry) (content : List ℕ) (lines : List (List ℕ))
      → yaml.from_str content ≡ some lines
      → Reloaded a lines (with_file old content)
  unfolding reload load_config
  reload-grants a old content lines y = elim (Bool-cases (any (is_bad lookup) lines)) [
    | inl h ↦
        let bad = parse_entries-bad lookup [] lines h in inl (h, (bad.0, rw (reload, y, bad.1)))
    | inr h ↦
        let good = parse_entries-from lookup a [] lines h in
        inr (h, (good.0, rw (reload, y, good.1), good.2 ∙ granted a (any (grants lookup a) lines)))
  ]

module _ (yaml : Yaml) (lookup : List ℕ → Option (List IpAddr)) where
  -- Behind a reload of a file without bad lines, a request from an IPv4 address to a path that is
  -- not exempt passes exactly if some line grants the address.
  pub call-grants :
      (a : ℕ) (old : List WhitelistEntry) (content : List ℕ) (lines : List (List ℕ)) (path : List ℕ)
      → yaml.from_str content ≡ some lines
      → any (is_bad lookup) lines ≡ false
      → any (list_eq path) exempt_paths ≡ false
      → call path (some (v4 a)) (reload yaml lookup (with_file old content)).0
        ≡ (if any (grants lookup a) lines then passed else not_in_whitelist)
  unfolding call is_socket_allowed
  call-grants a old content lines path y good p =
      elim (reload-grants yaml lookup a old content lines y) [
        | inl (h, r) ↦ absurd (true≢false (sym h ∙ good))
        | inr (h, (es, r, g)) ↦ rw (r, p, g)
      ]

abbrev as_found : Result EntryError WhitelistEntry → Result EntryError (Option WhitelistEntry)
as_found (ok e) = ok (some e)
as_found (err f) = err f

-- A text that can be appended is a line that inserts the same entry.
pub parse_line-appended :
    (lookup : List ℕ → Option (List IpAddr)) (text : List ℕ) (e : WhitelistEntry)
    → is_skipped text ≡ false
    → parse_appended text ≡ ok e
    → parse_line lookup text ≡ ok (some e)
unfolding parse_line parse_appended
parse_line-appended lookup [] e k h = ground arith
parse_line-appended lookup (c ∷ cs) e k h = elim (Option-cases (split_once b'/' (c ∷ cs))) [
  | inr (p, q) ↦ let g = rw (parse_appended, q) at h in rw (parse_line, k, q, g)
  | inl q ↦ elim (Option-cases (parse_ipv4 (c ∷ cs))) [
    | inl r ↦ let g = rw (parse_appended, q, r) at h in grind arith
    | inr (a, r) ↦
        let g = rw (parse_appended, q, r) at h in rw (parse_line, k, q, r) (ap as_found g)
  ]
]

pub any-snoc :
    (p : List ℕ → Bool) (xs : List (List ℕ)) (x : List ℕ)
    → any p (xs ++ x ∷ []) ≡ (if any p xs then true else p x)
any-snoc p [] x = ground arith
any-snoc p (y ∷ xs) x = ground (arith, any-snoc p xs x)

-- The round trip of the YAML library.
abbrev pub RoundTrips : Yaml → Type 0
RoundTrips yaml =
    (lines : List (List ℕ))
    → (content : List ℕ) × (yaml.to_string lines ≡ some content)
      × (yaml.from_str content ≡ some lines)

module _ (yaml : Yaml) (lookup : List ℕ → Option (List IpAddr)) where
  -- The line is in the file, and an address is allowed if a line granted it or the entry does.
  abbrev pub Appended :
      ℕ
      → List (List ℕ)
      → List ℕ
      → WhitelistEntry
      → Manager × Result ManagerError (Unit {0})
      → Type 0
  Appended a lines text e outcome =
      (new : List WhitelistEntry) × (content : List ℕ) × (outcome ≡ (with_file new content, ok tt))
      × (yaml.from_str content ≡ some (lines ++ trim text ∷ []))
      × (is_allowed a new ≡ (if any (grants lookup a) lines then true else entry_allows a e))

  -- Appending a valid entry that is new to a file without bad lines succeeds, if the lock and the file
  -- can be written: its text is then the file's last line, and an address is allowed exactly if an old
  -- line granted it or the entry does.
  pub append_entry-grants :
      (a : ℕ) (old : List WhitelistEntry) (content : List ℕ) (lines : List (List ℕ))
      → (text : List ℕ) (e : WhitelistEntry) → RoundTrips yaml
      → yaml.from_str content ≡ some lines
      → any (is_bad lookup) lines ≡ false
      → parse_appended (trim text) ≡ ok e
      → is_skipped (trim text) ≡ false
      → any (entry_eq e) old ≡ false
      → Appended a lines text e (append_entry yaml lookup true true text (with_file old content))
  unfolding append_entry write_entry load_config
  append_entry-grants a old content lines text e rt y bad p k fresh =
      let written = rt (lines ++ trim text ∷ []) in
      let line : parse_line lookup (trim (trim text)) ≡ ok (some e) =
        ap (parse_line lookup) (trim-trim text) ∙ parse_line-appended lookup (trim text) e k p in
      elim (reload-grants yaml lookup a old written.0 (lines ++ trim text ∷ []) written.2) [
        | inl (h, r) ↦
            absurd
              (true≢false (sym h ∙ any-snoc (is_bad lookup) lines (trim text) ∙ rw (bad, line)))
        | inr (h, (new, r, g)) ↦ (
          new,
          written.0,
          rw (append_entry, p, fresh, write_entry, load_config, y, written.1) r,
          written.2,
          g ∙ any-snoc (grants lookup a) lines (trim text) ∙ rw line,
        )
      ]
