-- ===== src/Api/Packages/Sorting.antt =====
-- The sort of `list_packages` in src/api/handlers/packages.rs.
use linux_patch_api.Prelude.{
  ℕ, Bool, true, false, List, [], ◌∷◌, filter, list_eq, if◌then◌else◌, eq_of_list_eq, ◌≡◌, refl,
  sym, ◌∙◌, inl, inr, Bool-cases, arith,
}
use linux_patch_api.Packages.Listing.{Package}
use linux_patch_api.Enroll.Identity.{text_le}
use linux_patch_api.Enroll.Identity.Selection.{text_le_total}
use linux_patch_api.Api.Packages.Query.{comes_first, insert_package, sort_packages}

text_le_refl : (t : List ℕ) → text_le t t ≡ true
text_le_refl [] = refl
text_le_refl (x ∷ xs) = ground (arith, text_le_refl xs)

text_le_trans : (t u v : List ℕ) → text_le t u ≡ true → text_le u v ≡ true → text_le t v ≡ true
text_le_trans [] u v h k = refl
text_le_trans (x ∷ xs) [] v h k = ground (arith, h)
text_le_trans (x ∷ xs) (y ∷ ys) [] h k = ground (arith, k)
text_le_trans (x ∷ xs) (y ∷ ys) (z ∷ zs) h k = ground (arith, h, k, text_le_trans xs ys zs)

-- The first package may stand in front of the second: by its key, in rising or in falling order.
abbrev pub precedes : (Package → List ℕ) → Bool → Package → Package → Bool
precedes key up p r = if up then text_le (key p) (key r) else text_le (key r) (key p)

comes_first-precedes :
    (key : Package → List ℕ) (up : Bool) (p r : Package)
    → comes_first key up p r ≡ precedes key up p r
comes_first-precedes key true p r = refl
comes_first-precedes key false p r = refl

module _ (key : Package → List ℕ) (up : Bool) where
  -- No package of the list belongs in front of this one.
  abbrev pub FirstOf : Package → List Package → Type 0
  FirstOf p [] = Unit {0}
  FirstOf p (r ∷ rs) = (precedes key up p r ≡ true) × FirstOf p rs

  -- No package belongs in front of an earlier one.
  abbrev pub InOrder : List Package → Type 0
  InOrder [] = Unit {0}
  InOrder (p ∷ ps) = FirstOf p ps × InOrder ps

-- The package has this key.
abbrev pub has_key : (Package → List ℕ) → List ℕ → Package → Bool
has_key key k p = list_eq (key p) k

precedes_trans :
    (key : Package → List ℕ) (up : Bool) (p r t : Package)
    → precedes key up p r ≡ true
    → precedes key up r t ≡ true
    → precedes key up p t ≡ true
precedes_trans key true p r t h k = text_le_trans (key p) (key r) (key t) h k
precedes_trans key false p r t h k = text_le_trans (key t) (key r) (key p) k h

precedes_total :
    (key : Package → List ℕ) (up : Bool) (p r : Package)
    → comes_first key up p r ≡ false
    → precedes key up r p ≡ true
precedes_total key true p r h = text_le_total (key p) (key r) h
precedes_total key false p r h = text_le_total (key r) (key p) h

-- Packages of one key may stand in any order.
same_key_first :
    (key : Package → List ℕ) (up : Bool) (p r : Package)
    → key p ≡ key r
    → comes_first key up p r ≡ true
same_key_first key true p r e = rw e (text_le_refl (key r))
same_key_first key false p r e = rw e (text_le_refl (key r))

module _ (key : Package → List ℕ) (up : Bool) where
  FirstOf-weaken :
      (p r : Package) (rs : List Package)
      → precedes key up p r ≡ true
      → FirstOf key up r rs
      → FirstOf key up p rs
  FirstOf-weaken p r [] h f = tt
  FirstOf-weaken p r (t ∷ ts) h f = (precedes_trans key up p r t h f.0, FirstOf-weaken p r ts h f.1)

  FirstOf-insert_package :
      (r p : Package) (rs : List Package)
      → precedes key up r p ≡ true
      → FirstOf key up r rs
      → FirstOf key up r (insert_package key up p rs)
  unfolding insert_package
  FirstOf-insert_package r p [] h f = (h, tt)
  FirstOf-insert_package r p (t ∷ ts) h f = elim (Bool-cases (comes_first key up p t)) [
    | inl e ↦ rw e (h, f)
    | inr e ↦ rw e (f.0, FirstOf-insert_package r p ts h f.1)
  ]

  insert_package-InOrder :
      (p : Package) (rs : List Package)
      → InOrder key up rs
      → InOrder key up (insert_package key up p rs)
  unfolding insert_package
  insert_package-InOrder p [] o = (tt, tt)
  insert_package-InOrder p (r ∷ rs) o = elim (Bool-cases (comes_first key up p r)) [
    | inl e ↦
        let first = sym (comes_first-precedes key up p r) ∙ e in
        rw e ((first, FirstOf-weaken p r rs first o.0), o)
    | inr e ↦ rw e (
      FirstOf-insert_package r p rs (precedes_total key up p r e) o.0,
      insert_package-InOrder p rs o.1,
    )
  ]

  pub sort_packages-InOrder : (ps : List Package) → InOrder key up (sort_packages key up ps)
  unfolding sort_packages
  sort_packages-InOrder [] = tt
  sort_packages-InOrder (p ∷ ps) =
      insert_package-InOrder p (sort_packages key up ps) (sort_packages-InOrder ps)

  -- A package that is put behind another one has another key.
  other_key :
      (k : List ℕ) (p r : Package)
      → comes_first key up p r ≡ false
      → has_key key k p ≡ true
      → has_key key k r ≡ false
  other_key k p r h e = elim (Bool-cases (has_key key k r)) [
    | inr d ↦ d
    | inl d ↦
        let same = eq_of_list_eq (key p) k e ∙ sym (eq_of_list_eq (key r) k d) in
        ground (arith, h, same_key_first key up p r same)
  ]

  filter-insert_package :
      (k : List ℕ) (p : Package) (rs : List Package)
      → filter (has_key key k) (insert_package key up p rs) ≡ filter (has_key key k) (p ∷ rs)
  unfolding insert_package
  filter-insert_package k p [] = refl
  filter-insert_package k p (r ∷ rs) = elim (Bool-cases (comes_first key up p r)) [
    | inl e ↦ rw e refl
    | inr e ↦ elim (Bool-cases (has_key key k p)) [
      | inl h ↦ ground (arith, e, other_key k p r e h, h, filter-insert_package k p rs)
      | inr h ↦ ground (arith, e, h, filter-insert_package k p rs)
    ]
  ]

  pub filter-sort_packages :
      (k : List ℕ) (ps : List Package)
      → filter (has_key key k) (sort_packages key up ps) ≡ filter (has_key key k) ps
  unfolding sort_packages
  filter-sort_packages k [] = refl
  filter-sort_packages k (p ∷ ps) =
      filter-insert_package k p (sort_packages key up ps)
      ∙ ground (arith, filter-sort_packages k ps)
