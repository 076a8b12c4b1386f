-- ===== src/Packages/Backends/Arguments.antt =====
-- What a validated request can make of the command line of a package manager: the arguments of the
-- back ends in src/packages/mod.rs.
use linux_patch_api.Prelude.{
  ℕ, Bool, true, false, ◌==◌, List, [], ◌∷◌, ◌++◌, map, filter, filter-append, Option, none, some,
  ◌≡◌, refl, ap, arith, if◌then◌else◌,
}
use linux_patch_api.Prelude.Result.{Result, ok, err, is_ok}
use linux_patch_api.Prelude.Text.{codes}
use linux_patch_api.Packages.Request.{
  PackageSpec, Operation, install, update, remove, apply_patches, repair, opt, spec_with, validate,
  validate_package_name, validate_spec, validate_package_names, validate_names, validate_request,
  NameError, and_then, package_marks, is_ascii_alphanumeric,
}
use linux_patch_api.Packages.Apt.Operations.{apt_install_args}
use linux_patch_api.Packages.Backends.{
  Backend, apt, apk, dnf, yum, pacman, name_of, apk_args, dnf_args, yum_args, pacman_args, apt_args,
  command_args,
}

-- An argument that a package manager reads as an option.
abbrev pub is_option : List ℕ → Bool
is_option [] = false
is_option (c ∷ cs) = c == b'-'

abbrev pub options : List (List ℕ) → List (List ℕ)
options = filter is_option

-- The request without the names that the client chose.
abbrev pub blank : Operation → Operation
blank (install packages options) = install [] options
blank (update name) = update []
blank (remove name purge) = remove [] purge
blank (apply_patches none) = apply_patches none
blank (apply_patches (some pkgs)) = apply_patches (some [])
blank repair = repair

both_ok :
    (r s : Result NameError (Unit {0}))
    → is_ok (and_then r s) ≡ true
    → (is_ok r ≡ true) × (is_ok s ≡ true)
both_ok (ok u) s e = (refl, e)
both_ok (err x) s e = ground arith

not_dash : (c : ℕ) → is_ascii_alphanumeric c ≡ true → (c == b'-') ≡ false
not_dash c e = ground arith

-- A name that a validator accepts is not an option, whatever follows it.
validate-is_option :
    (marks n suffix : List ℕ)
    → is_ok (validate marks n) ≡ true
    → (is_option n ≡ false) × (is_option (n ++ suffix) ≡ false)
validate-is_option marks [] suffix e = ground arith
validate-is_option marks (c ∷ cs) suffix e = ground arith

name-is_option : (n : List ℕ) → is_ok (validate_package_name n) ≡ true → is_option n ≡ false
unfolding validate_package_name
name-is_option n e = (validate-is_option package_marks n [] e).0

spec_text-is_option :
    (sep : ℕ) (n : List ℕ) (v : Option (List ℕ))
    → is_ok (validate_package_name n) ≡ true
    → is_option (elim v [ none ↦ n | some w ↦ n ++ sep ∷ w ]) ≡ false
unfolding validate_package_name
spec_text-is_option sep n none e = (validate-is_option package_marks n [] e).0
spec_text-is_option sep n (some w) e = (validate-is_option package_marks n (sep ∷ w) e).1

spec-is_option :
    (sep : ℕ) (p : PackageSpec)
    → is_ok (validate_spec p) ≡ true
    → is_option (spec_with sep p) ≡ false
unfolding validate_spec
spec-is_option sep p e = spec_text-is_option sep p.name p.version (both_ok _ _ e).0

-- Validated packages and names bring no options.
options-specs :
    (sep : ℕ) (ps : List PackageSpec)
    → is_ok (validate_package_names ps) ≡ true
    → options (map (spec_with sep) ps) ≡ []
unfolding validate_package_names
options-specs sep [] e = refl
options-specs sep (p ∷ ps) e =
    let b = both_ok (validate_spec p) (validate_package_names ps) e in
    rw (spec-is_option sep p b.0, options-specs sep ps b.1) refl

options-package_names :
    (ps : List PackageSpec)
    → is_ok (validate_package_names ps) ≡ true
    → options (map name_of ps) ≡ []
unfolding validate_package_names validate_spec
options-package_names [] e = refl
options-package_names (p ∷ ps) e =
    let b = both_ok (validate_spec p) (validate_package_names ps) e in
    rw (name-is_option p.name (both_ok _ _ b.0).0, options-package_names ps b.1) refl

options-names : (ns : List (List ℕ)) → is_ok (validate_names ns) ≡ true → options ns ≡ []
unfolding validate_names
options-names [] e = refl
options-names (n ∷ ns) e =
    let b = both_ok (validate_package_name n) (validate_names ns) e in
    rw (name-is_option n b.0, options-names ns b.1) refl

-- Arguments behind fixed ones that bring no options leave those of the fixed ones.
options-behind :
    (fixed xs ys : List (List ℕ))
    → options xs ≡ options ys
    → options (fixed ++ xs) ≡ options (fixed ++ ys)
options-behind fixed xs ys e =
    rw (filter-append is_option fixed xs, filter-append is_option fixed ys, e) refl

options-behind_two :
    (a b xs ys : List (List ℕ))
    → options xs ≡ options ys
    → options (a ++ (b ++ xs)) ≡ options (a ++ (b ++ ys))
options-behind_two a b xs ys e = options-behind a (b ++ xs) (b ++ ys) (options-behind b xs ys e)

options-apt :
    (op : Operation)
    → is_ok (validate_request op) ≡ true
    → options (apt_args op) ≡ options (apt_args (blank op))
unfolding apt_args apt_install_args validate_request
options-apt (install ps o) e =
    ap (λ t. codes "-y" ∷ t)
      (options-behind_two (opt o.no_recommends (codes "--no-install-recommends"))
        (opt o.force (codes "--allow-unauthenticated")) (codes "--" ∷ map (spec_with b'=') ps)
        (codes "--" ∷ []) (rw (options-specs b'=' ps e) refl))
options-apt (update n) e = rw (name-is_option n e) refl
options-apt (remove n true) e = rw (name-is_option n e) refl
options-apt (remove n false) e = rw (name-is_option n e) refl
options-apt (apply_patches none) e = refl
options-apt (apply_patches (some ns)) e = rw (options-names ns e) refl
options-apt repair e = refl

options-apk :
    (op : Operation)
    → is_ok (validate_request op) ≡ true
    → options (apk_args op) ≡ options (apk_args (blank op))
unfolding apk_args validate_request
options-apk (install ps o) e =
    options-behind (opt o.force (codes "--force")) (codes "--" ∷ map (spec_with b'=') ps)
      (codes "--" ∷ []) (rw (options-specs b'=' ps e) refl)
options-apk (update n) e = rw (name-is_option n e) refl
options-apk (remove n p) e = rw (name-is_option n e) refl
options-apk (apply_patches none) e = refl
options-apk (apply_patches (some ns)) e = rw (options-names ns e) refl
options-apk repair e = refl

options-dnf :
    (op : Operation)
    → is_ok (validate_request op) ≡ true
    → options (dnf_args op) ≡ options (dnf_args (blank op))
unfolding dnf_args validate_request
options-dnf (install ps o) e =
    ap (λ t. codes "-y" ∷ t)
      (options-behind_two (opt o.no_recommends (codes "--setopt=install_weak_deps=0"))
        (opt o.force (codes "--allowerasing")) (map (spec_with b'-') ps) []
        (options-specs b'-' ps e))
options-dnf (update n) e = rw (name-is_option n e) refl
options-dnf (remove n true) e = rw (name-is_option n e) refl
options-dnf (remove n false) e = rw (name-is_option n e) refl
options-dnf (apply_patches none) e = refl
options-dnf (apply_patches (some ns)) e = rw (options-names ns e) refl
options-dnf repair e = refl

options-yum :
    (op : Operation)
    → is_ok (validate_request op) ≡ true
    → options (yum_args op) ≡ options (yum_args (blank op))
unfolding yum_args validate_request
options-yum (install ps o) e = rw (options-specs b'-' ps e) refl
options-yum (update n) e = rw (name-is_option n e) refl
options-yum (remove n p) e = rw (name-is_option n e) refl
options-yum (apply_patches none) e = refl
options-yum (apply_patches (some ns)) e = rw (options-names ns e) refl
options-yum repair e = refl

options-pacman :
    (op : Operation)
    → is_ok (validate_request op) ≡ true
    → options (pacman_args op) ≡ options (pacman_args (blank op))
unfolding pacman_args validate_request
options-pacman (install ps o) e =
    ap (λ t. codes "-S" ∷ codes "--noconfirm" ∷ codes "--needed" ∷ t)
      (options-behind (if o.force then codes "--overwrite" ∷ codes "*" ∷ [] else [])
        (codes "--" ∷ map name_of ps) (codes "--" ∷ []) (rw (options-package_names ps e) refl))
options-pacman (update n) e = rw (name-is_option n e) refl
options-pacman (remove n p) e = rw (name-is_option n e) refl
options-pacman (apply_patches none) e = refl
options-pacman (apply_patches (some ns)) e = rw (options-names ns e) refl
options-pacman repair e = refl

-- If the handler's validation accepts a request, then on each of the five back ends the arguments that
-- start with a dash are those of the same request without any name: whatever packages and versions a
-- client names, it adds no option to the command line, also where no `--` stands in front of them.
pub options-command_args :
    (b : Backend) (op : Operation)
    → is_ok (validate_request op) ≡ true
    → options (command_args b op) ≡ options (command_args b (blank op))
unfolding command_args
options-command_args apt = options-apt
options-command_args apk = options-apk
options-command_args dnf = options-dnf
options-command_args yum = options-yum
options-command_args pacman = options-pacman
