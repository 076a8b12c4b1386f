-- ===== src/Packages/Listing.antt =====
-- Packages and patches as the back ends read them from the output of their commands:
-- src/packages/mod.rs. What `YumBackend` repeats of `DnfBackend` is given once.
pub mod Parsers
pub mod Printed
use linux_patch_api.Prelude.{
  ℕ, Bool, true, false, ◌==◌, List, [], ◌∷◌, ◌++◌, any, starts, Option, none, some, list_eq,
  if◌then◌else◌,
}
use linux_patch_api.Prelude.Text.{codes, trim}
use linux_patch_api.Prelude.Lines.{contains, to_lowercase, lines, split_whitespace}
use linux_patch_api.Packages.Error.Classify.{mentions}

-- `PackageStatus`, `Package` and `Patch`.
pub data PackageStatus : Type 0 where
  installed available upgradable not_installed : PackageStatus

pub record Package : Type 0 where
  pub name : List ℕ
  pub version : List ℕ
  pub status : PackageStatus
  pub is_upgradable : Bool
  pub latest_version : Option (List ℕ)
  pub description : List ℕ
  pub dependencies : List (List ℕ)
  pub reverse_dependencies : List (List ℕ)
  pub install_date : Option (List ℕ)
  pub size_installed : Option (List ℕ)

pub record Patch : Type 0 where
  pub name : List ℕ
  pub current_version : List ℕ
  pub available_version : List ℕ
  pub severity : List ℕ
  pub description : List ℕ
  pub cve_ids : List (List ℕ)
  pub requires_reboot : Bool

-- `REBOOT_REQUIRED_PACKAGE_PREFIXES`.
abbrev pub reboot_required_package_prefixes : List (List ℕ)
reboot_required_package_prefixes =
    codes "kernel"
    ∷ codes "linux-image"
    ∷ codes "linux-headers"
    ∷ codes "linux-generic"
    ∷ codes "linux-base"
    ∷ codes "linux-firmware"
    ∷ codes "glibc"
    ∷ codes "libc6"
    ∷ codes "systemd"
    ∷ codes "dbus"
    ∷ codes "openssl"
    ∷ codes "libssl"
    ∷ codes "grub"
    ∷ codes "shim"
    ∷ codes "initramfs"
    ∷ codes "kmod"
    ∷ codes "microcode"
    ∷ codes "intel-microcode"
    ∷ codes "amd64-microcode"
    ∷ []

abbrev pub suggests_reboot : List ℕ → List ℕ → Bool
suggests_reboot name prefix = if starts prefix name then true else contains name prefix

-- `package_requires_reboot`.
unfoldable pub package_requires_reboot : List ℕ → Bool
unfolding to_lowercase
package_requires_reboot name =
    any (suggests_reboot (to_lowercase name)) reboot_required_package_prefixes

-- The severity that every back end guesses from a name.
unfoldable pub severity_of : List ℕ → List ℕ
severity_of name =
    if mentions name (codes "kernel" ∷ codes "ssl" ∷ codes "security" ∷ [])
    then codes "critical"
    else if contains name (codes "lib")
    then codes "high"
    else codes "medium"

-- A patch of this name and these versions.
unfoldable pub patch : List ℕ → List ℕ → List ℕ → List ℕ → Patch
unfolding severity_of package_requires_reboot
patch name current candidate description = record {
  name = name;
  current_version = current;
  available_version = candidate;
  severity = severity_of name;
  description = description;
  cve_ids = [];
  requires_reboot = package_requires_reboot name;
}

-- An installed package of which only the name, the version and a description are known.
abbrev pub installed_package : List ℕ → List ℕ → List ℕ → Package
installed_package name version description = record {
  name = name;
  version = version;
  status = installed;
  is_upgradable = false;
  latest_version = none;
  description = description;
  dependencies = [];
  reverse_dependencies = [];
  install_date = none;
  size_installed = none;
}

abbrev pub update_available : List ℕ
update_available = codes "Package update available"

-- What one line of an output adds to the result.
abbrev pub collect : {A : Type 0} → (List ℕ → Option A) → List (List ℕ) → List A
collect f [] = []
collect f (line ∷ lines) =
    let rest = collect f lines in elim (f line) [ none ↦ rest | some a ↦ a ∷ rest ]

unfoldable pub read_lines : {A : Type 0} → (List ℕ → Option A) → List ℕ → List A
unfolding lines
read_lines f output = collect f (lines output)
