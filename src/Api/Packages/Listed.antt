-- ===== src/Api/Packages/Listed.antt =====
-- What a list of packages is: `list_packages` of src/api/handlers/packages.rs.
use linux_patch_api.Prelude.{
  ℕ, Bool, true, false, ◌&&◌, List, [], ◌∷◌, filter, length, list_eq, Option, none, some, ◌≡◌, refl,
  ◌∙◌, arith,
}
use mathlib.Core.Path.{fun_ext}
use linux_patch_api.Prelude.Result.{ok}
use linux_patch_api.Prelude.Text.{codes}
use linux_patch_api.Packages.Listing.{
  Package, PackageStatus, installed, available, upgradable, not_installed,
}
use linux_patch_api.Api.Packages.Query.{
  debug, is_installed, is_available, PackageListQuery, PackageListData, matches_status,
  matches_upgradable, sort_key, ascending, sort_packages, list_packages,
}
use linux_patch_api.Api.Packages.Sorting.{
  InOrder, has_key, sort_packages-InOrder, filter-sort_packages,
}

filter-filter :
    (f g h : Package → Bool) (ps : List Package)
    → filter h (filter g (filter f ps)) ≡ filter (λ p. f p && (g p && h p)) ps
filter-filter f g h [] = refl
filter-filter f g h (p ∷ ps) = ground (arith, filter-filter f g h ps)

-- `{:?}` of a status.
abbrev pub status_text : PackageStatus → List ℕ
status_text installed = codes "Installed"
status_text available = codes "Available"
status_text upgradable = codes "Upgradable"
status_text not_installed = codes "NotInstalled"

-- The key that the list is sorted by, for each `sort` of a query.
pub data SortsBy : Option (List ℕ) → (Package → List ℕ) → Type 0 where
  no_sort : SortsBy none (λ p. p.name)
  by_version : SortsBy (some (codes "version")) (λ p. p.version)
  by_status : SortsBy (some (codes "status")) (λ p. status_text p.status)
  by_name :
      (t : List ℕ)
      → list_eq t (codes "version") ≡ false
      → list_eq t (codes "status") ≡ false
      → SortsBy (some t) (λ p. p.name)

-- Whether the order is rising, for each `order`.
pub data Rises : Option (List ℕ) → Bool → Type 0 where
  no_order : Rises none true
  asc : Rises (some (codes "asc")) true
  falling : (t : List ℕ) → list_eq t (codes "asc") ≡ false → Rises (some t) false

-- The packages that are listed, for each `status`.
pub data Lists : Option (List ℕ) → (Package → Bool) → Type 0 where
  no_status : Lists none (λ p. true)
  all_installed :
      Lists (some (codes "installed")) (λ p. list_eq (status_text p.status) (codes "Installed"))
  all_upgradable : Lists (some (codes "upgradable")) (λ p. p.is_upgradable)
  all_available :
      Lists (some (codes "available")) (λ p. list_eq (status_text p.status) (codes "Available"))
  all_others :
      (t : List ℕ)
      → list_eq t (codes "installed") ≡ false
      → list_eq t (codes "upgradable") ≡ false
      → list_eq t (codes "available") ≡ false
      → Lists (some t) (λ p. true)

-- And for each `upgradable`.
pub data ListsUpgradable : Option Bool → (Package → Bool) → Type 0 where
  not_asked : ListsUpgradable none (λ p. true)
  not_wanted : ListsUpgradable (some false) (λ p. true)
  wanted : ListsUpgradable (some true) (λ p. p.is_upgradable)

debug-status_text : (s : PackageStatus) → debug s ≡ status_text s
debug-status_text installed = refl
debug-status_text available = refl
debug-status_text upgradable = refl
debug-status_text not_installed = refl

is_installed-text :
    (s : PackageStatus) → is_installed s ≡ list_eq (status_text s) (codes "Installed")
is_installed-text installed = refl
is_installed-text available = refl
is_installed-text upgradable = refl
is_installed-text not_installed = refl

is_available-text :
    (s : PackageStatus) → is_available s ≡ list_eq (status_text s) (codes "Available")
is_available-text installed = refl
is_available-text available = refl
is_available-text upgradable = refl
is_available-text not_installed = refl

sort_key-SortsBy : (s : Option (List ℕ)) (key : Package → List ℕ) → SortsBy s key → sort_key s ≡ key
unfolding sort_key
sort_key-SortsBy _ _ no_sort = fun_ext (λ p. refl)
sort_key-SortsBy _ _ by_version = fun_ext (λ p. refl)
sort_key-SortsBy _ _ by_status = fun_ext (λ p. debug-status_text p.status)
sort_key-SortsBy _ _ (by_name t v s) = fun_ext (λ p. rw (v, s) refl)

ascending-Rises : (o : Option (List ℕ)) (up : Bool) → Rises o up → ascending o ≡ up
unfolding ascending
ascending-Rises _ _ no_order = refl
ascending-Rises _ _ asc = refl
ascending-Rises _ _ (falling t h) = h

matches_status-Lists : (s : Option (List ℕ)) (f : Package → Bool) → Lists s f → matches_status s ≡ f
matches_status-Lists _ _ no_status = fun_ext (λ p. refl)
matches_status-Lists _ _ all_installed = fun_ext (λ p. is_installed-text p.status)
matches_status-Lists _ _ all_upgradable = fun_ext (λ p. refl)
matches_status-Lists _ _ all_available = fun_ext (λ p. is_available-text p.status)
matches_status-Lists _ _ (all_others t i u a) = fun_ext (λ p. rw (i, u, a) refl)

matches_upgradable-Lists :
    (s : Option Bool) (g : Package → Bool) → ListsUpgradable s g → matches_upgradable s ≡ g
matches_upgradable-Lists _ _ not_asked = fun_ext (λ p. refl)
matches_upgradable-Lists _ _ not_wanted = fun_ext (λ p. refl)
matches_upgradable-Lists _ _ wanted = fun_ext (λ p. refl)

-- The list is sorted by the field of the query, the name unless it is the version or the status, rising
-- unless the order is another text than `asc`; it has exactly the packages of the back end with the
-- status and the upgrades that the query asks for, those of one key in the back end's order, and their
-- number.
pub list_packages-Listed :
    (q : PackageListQuery) (packages : List Package) (key : Package → List ℕ) (up : Bool)
    (f g : Package → Bool)
    → SortsBy q.sort key
    → Rises q.order up
    → Lists q.status f
    → ListsUpgradable q.only_upgradable g
    → (d : PackageListData) × (list_packages q (ok packages) ≡ ok d)
      × InOrder key up d.packages
      × ((k : List ℕ)
          → filter (has_key key k) d.packages
            ≡ filter (λ p. f p && (g p && has_key key k p)) packages)
      × (d.total ≡ length d.packages)
unfolding list_packages
list_packages-Listed q packages key up f g s r l u =
    rw
      (
        sort_key-SortsBy q.sort key s,
        ascending-Rises q.order up r,
        matches_status-Lists q.status f l,
        matches_upgradable-Lists q.only_upgradable g u,
      )
      (let kept = filter g (filter f packages) in
        (
          record {
            packages = sort_packages key up kept;
            total = length (sort_packages key up kept);
          },
          refl,
          sort_packages-InOrder key up kept,
          (λ k. filter-sort_packages key up k kept ∙ filter-filter f g (has_key key k) packages),
          refl,
        ))
