-- ===== src/Api/Packages/Query.antt =====
-- The list of packages: `list_packages` of src/api/handlers/packages.rs. What the back end answers is an
-- argument.
use linux_patch_api.Prelude.{
  ℕ, Bool, true, false, List, [], ◌∷◌, filter, length, list_eq, Option, none, some, if◌then◌else◌,
}
use linux_patch_api.Prelude.Result.{Result, ok, err}
use linux_patch_api.Prelude.Text.{codes}
use linux_patch_api.Packages.Error.Report.{Error}
use linux_patch_api.Packages.Listing.{
  PackageStatus, installed, available, upgradable, not_installed, Package,
}
use linux_patch_api.Enroll.Identity.{text_le}

-- `PackageListQuery`, whose name the back end takes.
pub record PackageListQuery : Type 0 where
  pub status : Option (List ℕ)
  pub only_upgradable : Option Bool
  pub sort : Option (List ℕ)
  pub order : Option (List ℕ)

-- `PackageListData`.
pub record PackageListData : Type 0 where
  pub packages : List Package
  pub total : ℕ

abbrev pub is_installed : PackageStatus → Bool
is_installed installed = true
is_installed _ = false

abbrev pub is_available : PackageStatus → Bool
is_available available = true
is_available _ = false

-- The two filters of `list_packages`.
abbrev pub matches_status : Option (List ℕ) → Package → Bool
matches_status none p = true
matches_status (some text) p =
    if list_eq text (codes "installed")
    then is_installed p.status
    else if list_eq text (codes "upgradable")
    then p.is_upgradable
    else if list_eq text (codes "available")
    then is_available p.status
    else true

abbrev pub matches_upgradable : Option Bool → Package → Bool
matches_upgradable (some true) p = p.is_upgradable
matches_upgradable _ p = true

-- `format!("{:?}", status)`.
abbrev pub debug : PackageStatus → List ℕ
debug installed = codes "Installed"
debug available = codes "Available"
debug upgradable = codes "Upgradable"
debug not_installed = codes "NotInstalled"

-- What the packages are sorted by: the name, unless the query asks for another field.
unfoldable pub sort_key : Option (List ℕ) → Package → List ℕ
sort_key none p = p.name
sort_key (some field) p =
    if list_eq field (codes "version")
    then p.version
    else if list_eq field (codes "status")
    then debug p.status
    else p.name

unfoldable pub ascending : Option (List ℕ) → Bool
ascending none = true
ascending (some order) = list_eq order (codes "asc")

-- The comparison of `sort_by` does not put the first package behind the second.
abbrev pub comes_first : (Package → List ℕ) → Bool → Package → Package → Bool
comes_first key true p r = text_le (key p) (key r)
comes_first key false p r = text_le (key r) (key p)

-- `sort_by`, which is stable, by insertion.
module _ (key : Package → List ℕ) (up : Bool) where
  unfoldable pub insert_package : Package → List Package → List Package
  insert_package p [] = p ∷ []
  insert_package p (r ∷ rs) =
      let rest = insert_package p rs in if comes_first key up p r then p ∷ r ∷ rs else r ∷ rest

  unfoldable pub sort_packages : List Package → List Package
  unfolding insert_package
  sort_packages [] = []
  sort_packages (p ∷ ps) = insert_package p (sort_packages ps)

abbrev pub list_data : List Package → PackageListData
list_data packages = record { packages = packages; total = length packages }

-- `list_packages`, of the back end's answer.
unfoldable pub list_packages :
    PackageListQuery → Result Error (List Package) → Result Error PackageListData
unfolding sort_packages sort_key ascending
list_packages q (err e) = err e
list_packages q (ok packages) = ok (
    list_data (
      sort_packages (sort_key q.sort) (ascending q.order) (
        filter (matches_upgradable q.only_upgradable) (filter (matches_status q.status) packages))))
