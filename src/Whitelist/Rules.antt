-- ===== src/Whitelist/Rules.antt =====
-- Whom a whitelist file lets in, and what appending to it changes: src/auth/whitelist.rs.
use mathlib.Core.Bool.{true≢false}
use linux_patch_api.Prelude.{
  head_false, ℕ, Bool, true, false, ◌==◌, List, [], ◌∷◌, any, Option, none, some, ◌≡◌, refl, sym,
  ap, ◌∙◌, ◌⊎◌, inl, inr, arith, if◌then◌else◌, ==_iff,
}
use linux_patch_api.Prelude.Result.{Result, ok, err}
use linux_patch_api.Prelude.Text.{trim}
use linux_patch_api.Whitelist.Entry.{
  WhitelistEntry, ip, cidr, hostname, IpAddr, EntryError, entry_eq, entry_allows, is_allowed,
  insert, parse_line, parse_entries, insert_opt,
}

both : (b c : Bool) → (if b then c else false) ≡ true → (b ≡ true) × (c ≡ true)
both true c h = (refl, h)
both false c h = ground arith

entry_eq-allows :
    (a : ℕ) (d e : WhitelistEntry) → entry_eq d e ≡ true → entry_allows a d ≡ entry_allows a e
unfolding entry_allows
entry_eq-allows a (ip b) (ip c) h = ground arith
entry_eq-allows a (ip b) (cidr n q) h = ground arith
entry_eq-allows a (ip b) (hostname n c) h = ground arith
entry_eq-allows a (cidr m p) (ip c) h = ground arith
entry_eq-allows a (cidr m p) (cidr n q) h =
    let e = both (m == n) (p == q) h in rw ((==_iff m n).0 e.0) (rw ((==_iff p q).0 e.1) refl)
entry_eq-allows a (cidr m p) (hostname n c) h = ground arith
entry_eq-allows a (hostname m b) (ip c) h = ground arith
entry_eq-allows a (hostname m b) (cidr n q) h = ground arith
entry_eq-allows a (hostname m b) (hostname n c) h = ground arith

pub any-entry_eq :
    (a : ℕ) (e : WhitelistEntry) (es : List WhitelistEntry)
    → any (entry_eq e) es ≡ true
    → entry_allows a e ≡ true
    → any (entry_allows a) es ≡ true
any-entry_eq a e [] h k = ground arith
any-entry_eq a e (d ∷ es) h k = ground (arith, any-entry_eq a e es, entry_eq-allows a e d)

-- Inserting an entry lets in whom it allows, and keeps the others.
is_allowed-insert :
    (a : ℕ) (e : WhitelistEntry) (es : List WhitelistEntry)
    → is_allowed a (insert e es) ≡ (if entry_allows a e then true else is_allowed a es)
unfolding is_allowed insert
is_allowed-insert a e es = ground (arith, any-entry_eq a e es)

Result-cases :
    (r : Result EntryError (Option WhitelistEntry))
    → ((found : Option WhitelistEntry) × (r ≡ ok found)) ⊎ ((e : EntryError) × (r ≡ err e))
Result-cases (ok found) = inl (found, refl)
Result-cases (err e) = inr (e, refl)

abbrev pub is_failure : Result EntryError (Option WhitelistEntry) → Bool
is_failure (ok found) = false
is_failure (err e) = true

abbrev pub found_allows : ℕ → Result EntryError (Option WhitelistEntry) → Bool
found_allows a (err e) = false
found_allows a (ok none) = false
found_allows a (ok (some e)) = entry_allows a e

is_allowed-insert_opt :
    (a : ℕ) (found : Option WhitelistEntry) (es : List WhitelistEntry)
    → is_allowed a (insert_opt found es)
      ≡ (if found_allows a (ok found) then true else is_allowed a es)
is_allowed-insert_opt a none es = refl
is_allowed-insert_opt a (some e) es = is_allowed-insert a e es

either :
    (f g r : Bool)
    → (if g then true else if f then true else r) ≡ (if if f then true else g then true else r)
either f g r = ground arith

module _ (lookup : List ℕ → Option (List IpAddr)) where
  -- The line cannot be read.
  abbrev pub is_bad : List ℕ → Bool
  is_bad line = is_failure (parse_line lookup (trim line))

  -- The line lets the address in.
  abbrev pub grants : ℕ → List ℕ → Bool
  grants a line = found_allows a (parse_line lookup (trim line))

  parse_entries-ok :
      (parsed : List WhitelistEntry) (line : List ℕ) (lines : List (List ℕ))
      → (found : Option WhitelistEntry) → parse_line lookup (trim line) ≡ ok found
      → parse_entries lookup parsed (line ∷ lines)
        ≡ parse_entries lookup (insert_opt found parsed) lines
  unfolding parse_entries
  parse_entries-ok parsed line lines found p = rw (parse_entries, p)

  parse_entries-err :
      (parsed : List WhitelistEntry) (line : List ℕ) (lines : List (List ℕ)) (e : EntryError)
      → parse_line lookup (trim line) ≡ err e
      → parse_entries lookup parsed (line ∷ lines) ≡ err e
  unfolding parse_entries
  parse_entries-err parsed line lines e p = rw (parse_entries, p)

  pub parse_entries-from :
      (a : ℕ) (parsed : List WhitelistEntry) (lines : List (List ℕ))
      → any is_bad lines ≡ false
      → (es : List WhitelistEntry) × (parse_entries lookup parsed lines ≡ ok es)
        × (is_allowed a es ≡ (if any (grants a) lines then true else is_allowed a parsed))
  unfolding parse_entries
  parse_entries-from a parsed [] h = (parsed, refl, refl)
  parse_entries-from a parsed (line ∷ lines) h =
      let bad = head_false (is_bad line) (any is_bad lines) h in
      elim (Result-cases (parse_line lookup (trim line))) [
        | inr (e, p) ↦ absurd (true≢false (sym (ap is_failure p) ∙ bad.0))
        | inl (found, p) ↦
            let rest = parse_entries-from a (insert_opt found parsed) lines bad.1 in
            (
              rest.0,
              parse_entries-ok parsed line lines found p ∙ rest.1,
              rest.2
                  ∙ rw (is_allowed-insert_opt a found parsed) (
                      rw p (
                        either (found_allows a (ok found)) (any (grants a) lines)
                          (is_allowed a parsed))),
            )
      ]

  pub parse_entries-bad :
      (parsed : List WhitelistEntry) (lines : List (List ℕ))
      → any is_bad lines ≡ true
      → (e : EntryError) × (parse_entries lookup parsed lines ≡ err e)
  parse_entries-bad parsed [] h = ground arith
  parse_entries-bad parsed (line ∷ lines) h = elim (Result-cases (parse_line lookup (trim line))) [
    | inr (e, p) ↦ (e, parse_entries-err parsed line lines e p)
    | inl (found, p) ↦
        let rest =
          parse_entries-bad (insert_opt found parsed) lines
            (ap (λ b. if b then true else any is_bad lines) (sym (ap is_failure p)) ∙ h) in
        (rest.0, parse_entries-ok parsed line lines found p ∙ rest.1)
  ]
