-- ===== src/Enroll/Identity/Host.antt =====
-- The names of this host and its system: src/enroll/identity.rs. A file is given by its text, if it can
-- be read, a command by its output, if it ran and succeeded.
use linux_patch_api.Prelude.{
  ℕ, ◌==◌, Bool, true, ◌&&◌, not, List, [], ◌∷◌, ◌++◌, any, list_eq, Option, none, some,
  if◌then◌else◌, ◌≡◌, refl, arith,
}
use linux_patch_api.Prelude.Text.{codes, trim}
use linux_patch_api.Prelude.Lines.{contains}
use linux_patch_api.Packages.Splitting.{until}
use linux_patch_api.Enroll.Release.{field}

abbrev is_set : List ℕ → Bool
is_set text = not (list_eq text [])

abbrev is_named : List ℕ → Bool
is_named text = is_set text && not (list_eq text (codes "(none)"))

-- The trimmed text, if it passes a test.
abbrev trimmed_if : (List ℕ → Bool) → Option (List ℕ) → Option (List ℕ)
trimmed_if p none = none
trimmed_if p (some text) = let t = trim text in if p t then some t else none

abbrev or_next : Option (List ℕ) → Option (List ℕ) → Option (List ℕ)
or_next none next = next
or_next (some t) next = some t

-- `get_machine_id`, of the two files.
unfoldable pub get_machine_id : Option (List ℕ) → Option (List ℕ) → Option (List ℕ)
unfolding trim
get_machine_id primary fallback = or_next (trimmed_if is_set primary) (trimmed_if is_set fallback)

-- The commands `hostname -f`, `hostname` and `hostname -d`, and the file /etc/hostname.
pub record Names : Type 0 where
  pub full : Option (List ℕ)
  pub short : Option (List ℕ)
  pub domain : Option (List ℕ)
  pub file : Option (List ℕ)

abbrev has_dot : List ℕ → Bool
has_dot text = contains text (codes ".")

abbrev joined : Option (List ℕ) → Option (List ℕ) → Option (List ℕ)
joined none domain = none
joined (some short) none = none
joined (some short) (some domain) = some (short ++ b'.' ∷ domain)

abbrev or_localhost : Option (List ℕ) → List ℕ
or_localhost none = codes "localhost"
or_localhost (some t) = t

-- `get_fqdn`.
unfoldable pub get_fqdn : Names → List ℕ
unfolding trim
get_fqdn n = or_localhost (
    or_next (trimmed_if (λ t. is_named t && has_dot t) n.full) (
      or_next (joined (trimmed_if is_named n.short) (trimmed_if is_set n.domain))
        (or_next (trimmed_if is_named n.file) (trimmed_if is_set n.short))))

abbrev first_label : Option (List ℕ) → Option (List ℕ)
first_label none = none
first_label (some t) = some (until b'.' t)

-- The last resort but one: the name up to its first dot, if it is a full one.
abbrev of_fqdn : List ℕ → Option (List ℕ)
of_fqdn fqdn = if not (list_eq fqdn (codes "localhost")) && has_dot fqdn then some fqdn else none

-- `get_hostname`.
unfoldable pub get_hostname : Names → List ℕ
unfolding get_fqdn trim
get_hostname n = or_localhost (
    or_next (first_label (trimmed_if is_named n.file))
      (or_next (first_label (trimmed_if is_set n.short)) (first_label (of_fqdn (get_fqdn n)))))

-- The keys of `get_os_details` that are set.
pub record OsDetails : Type 0 where
  pub distro : Option (List ℕ)
  pub name : Option (List ℕ)
  pub version : Option (List ℕ)
  pub id_like : Option (List ℕ)
  pub codename : Option (List ℕ)
  pub kernel : Option (List ℕ)

-- What `uname -r` came to.
pub data Uname : Type 0 where
  not_run failed : Uname
  printed : List ℕ → Uname

abbrev kernel_of : Uname → Option (List ℕ)
kernel_of not_run = some (codes "unknown")
kernel_of failed = none
kernel_of (printed output) = some (trim output)

-- `get_os_details`, of the text of /etc/os-release. A comment's key begins with `#`, so it is none of
-- these.
unfoldable pub get_os_details : Option (List ℕ) → Uname → OsDetails
unfolding field trim
get_os_details none uname = record {
  distro = some (codes "unknown");
  name = none;
  version = some (codes "unknown");
  id_like = none;
  codename = none;
  kernel = kernel_of uname;
}
get_os_details (some content) uname = record {
  distro = field (codes "NAME") content;
  name = field (codes "ID") content;
  version = field (codes "VERSION_ID") content;
  id_like = field (codes "ID_LIKE") content;
  codename = field (codes "VERSION_CODENAME") content;
  kernel = kernel_of uname;
}

abbrev pub is_dotless : List ℕ → Bool
is_dotless t = not (any (λ c. c == b'.') t)

until-IsDotless : (t : List ℕ) → is_dotless (until b'.' t) ≡ true
until-IsDotless [] = refl
until-IsDotless (c ∷ cs) = ground (arith, until-IsDotless cs)

abbrev Dotless : Option (List ℕ) → Type 0
Dotless none = Unit {0}
Dotless (some t) = is_dotless t ≡ true

first_label-IsDotless : (o : Option (List ℕ)) → Dotless (first_label o)
first_label-IsDotless none = tt
first_label-IsDotless (some t) = until-IsDotless t

or_next-IsDotless : (o next : Option (List ℕ)) → Dotless o → Dotless next → Dotless (or_next o next)
or_next-IsDotless none next h k = k
or_next-IsDotless (some t) next h k = h

or_localhost-IsDotless : (o : Option (List ℕ)) → Dotless o → is_dotless (or_localhost o) ≡ true
or_localhost-IsDotless none h = refl
or_localhost-IsDotless (some t) h = h

-- The short name never has a dot, wherever it was found.
pub get_hostname-IsDotless : (n : Names) → is_dotless (get_hostname n) ≡ true
unfolding get_hostname
get_hostname-IsDotless n =
    let file = first_label (trimmed_if is_named n.file) in
    let short = first_label (trimmed_if is_set n.short) in
    let full = first_label (of_fqdn (get_fqdn n)) in
    or_localhost-IsDotless (or_next file (or_next short full)) (
      or_next-IsDotless file (or_next short full)
        (first_label-IsDotless (trimmed_if is_named n.file))
        (or_next-IsDotless short full (first_label-IsDotless (trimmed_if is_set n.short))
          (first_label-IsDotless (of_fqdn (get_fqdn n)))))
