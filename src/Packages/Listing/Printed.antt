-- ===== src/Packages/Listing/Printed.antt =====
-- The list of `rpm -qa` printed and read again: `parse_rpm_package_list` of src/packages/mod.rs.
use linux_patch_api.Prelude.{
  ℕ, Bool, true, false, not, ◌==◌, List, [], ◌∷◌, ◌++◌, map, any, some, ◌≡◌, refl, arith,
  if◌then◌else◌, head_false,
}
use linux_patch_api.Packages.Apt.Safe.{is_empty_text}
use linux_patch_api.Packages.Request.{is_ascii_digit, one_of}
use linux_patch_api.Packages.Splitting.{parse_name_version}
use linux_patch_api.Packages.Splitting.Rejoin.{
  has_space, has_break, lines-append, trim-id, split_last-append, parse_name_version-append,
}
use linux_patch_api.Packages.Listing.{Package, installed_package, read_lines, collect}
use linux_patch_api.Packages.Listing.Parsers.{
  parse_rpm_package_list, rpm_package_line, without_arch,
}

-- An entry of the list: name, version with release, architecture.
pub record Entry : Type 0 where
  pub name : List ℕ
  pub version : List ℕ
  pub arch : List ℕ

-- `name-version.arch`.
abbrev pub print_entry : Entry → List ℕ
print_entry p = (p.name ++ b'-' ∷ p.version) ++ b'.' ∷ p.arch

abbrev pub print_list : List Entry → List ℕ
print_list [] = []
print_list (p ∷ ps) = print_entry p ++ 10 ∷ print_list ps

abbrev starts_digit : List ℕ → Bool
starts_digit [] = false
starts_digit (c ∷ cs) = is_ascii_digit c

abbrev bad_arch : List ℕ → Bool
bad_arch = any (λ c. not (one_of (b'_' ∷ []) c))

-- No white space; no hyphen in front of a digit in the name; a version that starts with a digit; an
-- architecture of letters, digits and underscores.
abbrev pub is_malformed : Entry → Bool
is_malformed p =
    if has_space (print_entry p)
    then true
    else if has_break p.name
    then true
    else if not (starts_digit p.version)
    then true
    else bad_arch p.arch

abbrev pub package_of : Entry → Package
package_of p = installed_package p.name p.version []

no_dot : (a : List ℕ) → bad_arch a ≡ false → any (λ c. c == b'.') a ≡ false
no_dot [] e = refl
no_dot (c ∷ cs) e = ground (arith, no_dot cs)

not_empty : (n : List ℕ) (c : ℕ) (cs ds : List ℕ) → is_empty_text ((n ++ c ∷ cs) ++ ds) ≡ false
not_empty [] c cs ds = refl
not_empty (x ∷ xs) c cs ds = refl

without_arch-append : (x a : List ℕ) → bad_arch a ≡ false → without_arch (x ++ b'.' ∷ a) ≡ x
without_arch-append x a e = rw (without_arch, split_last-append b'.' x a (no_dot a e), e) refl

parse-print :
    (n v : List ℕ)
    → has_break n ≡ false
    → not (starts_digit v) ≡ false
    → parse_name_version (n ++ b'-' ∷ v) ≡ (n, v)
parse-print n [] e k = ground arith
parse-print n (d ∷ v) e k = parse_name_version-append n d v e (ground arith)

line-print :
    (p : Entry) → is_malformed p ≡ false → rpm_package_line (print_entry p) ≡ some (package_of p)
unfolding rpm_package_line
line-print p e =
    let a = head_false (has_space (print_entry p)) _ e in
    let b = head_false (has_break p.name) _ a.1 in
    let c = head_false (not (starts_digit p.version)) (bad_arch p.arch) b.1 in
    rw
      (
        trim-id (print_entry p) a.0,
        not_empty p.name b'-' p.version (b'.' ∷ p.arch),
        without_arch-append (p.name ++ b'-' ∷ p.version) p.arch c.1,
        parse-print p.name p.version b.0 c.0,
      )
      refl

-- The list that rpm prints of well-formed entries, one `name-version.arch` to a line, is read as the
-- same packages: each name and version comes back, hyphens and dots inside them included, and the
-- architecture is dropped. Well-formed means: no white space, no hyphen in front of a digit in the
-- name, a version that starts with a digit, an architecture of letters, digits and underscores.
pub parse_rpm_package_list-print :
    (ps : List Entry)
    → any is_malformed ps ≡ false
    → parse_rpm_package_list (print_list ps) ≡ map package_of ps
unfolding parse_rpm_package_list read_lines
parse_rpm_package_list-print [] e = refl
parse_rpm_package_list-print (p ∷ ps) e =
    let a = head_false (is_malformed p) (any is_malformed ps) e in
    let b = head_false (has_space (print_entry p)) _ a.0 in
    rw
      (
        lines-append (print_entry p) (print_list ps) b.0,
        collect,
        line-print p a.0,
        parse_rpm_package_list-print ps a.1,
      )
      refl
