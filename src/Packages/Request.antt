-- ===== src/Packages/Request.antt =====
-- Requests to change packages and their validation: src/packages/mod.rs, the guards of
-- src/api/handlers/packages.rs and src/api/handlers/patches.rs. Names are lists of bytes.
use linux_patch_api.Prelude.{
  ℕ, Bool, true, false, not, ltb, leb, ◌==◌, List, [], ◌∷◌, ◌++◌, any, length, Option, none, some,
  if◌then◌else◌,
}
use linux_patch_api.Prelude.Result.{Result, ok, err}

-- `PackageSpec` and `InstallOptions`.
pub record PackageSpec : Type 0 where
  pub name : List ℕ
  pub version : Option (List ℕ)

pub record InstallOptions : Type 0 where
  pub no_recommends : Bool
  pub force : Bool

-- The methods of a back end that change packages, as data.
pub data Operation : Type 0 where
  install : List PackageSpec → InstallOptions → Operation
  update : List ℕ → Operation
  remove : List ℕ → Bool → Operation
  apply_patches : Option (List (List ℕ)) → Operation
  repair : Operation

-- An argument that an option adds.
abbrev pub opt : Bool → List ℕ → List (List ℕ)
opt true a = a ∷ []
opt false a = []

-- `{name}={version}` and `{name}-{version}`, by the separator.
abbrev pub spec_with : ℕ → PackageSpec → List ℕ
spec_with c p = elim p.version [ none ↦ p.name | some v ↦ p.name ++ c ∷ v ]

-- The errors of the validators, one for each of their messages.
pub data NameError : Type 0 where
  empty too_long bad_start bad_character : NameError

-- `u8::is_ascii_alphanumeric`.
abbrev pub is_ascii_digit : ℕ → Bool
is_ascii_digit c = if leb b'0' c then leb c b'9' else false

abbrev pub is_ascii_alphanumeric : ℕ → Bool
is_ascii_alphanumeric c =
    if is_ascii_digit c
    then true
    else if leb b'a' c
    then leb c b'z'
    else if leb b'A' c
    then leb c b'Z'
    else false

abbrev pub max_name_length : ℕ
max_name_length = 256

-- The characters besides letters and digits that each validator allows.
abbrev pub one_of : List ℕ → ℕ → Bool
one_of marks c = if is_ascii_alphanumeric c then true else any (λ d. c == d) marks

-- The common body of the validators.
abbrev pub validate : List ℕ → List ℕ → Result NameError (Unit {0})
validate marks [] = err empty
validate marks (c ∷ cs) =
    if ltb max_name_length (length (c ∷ cs))
    then err too_long
    else if not (is_ascii_alphanumeric c)
    then err bad_start
    else if any (λ d. not (one_of marks d)) (c ∷ cs)
    then err bad_character
    else ok tt

abbrev pub package_marks : List ℕ
package_marks = b'+' ∷ b'.' ∷ b'_' ∷ b'-' ∷ []

-- `validate_package_name`, `validate_version_string` and `validate_service_name`.
unfoldable pub validate_package_name : List ℕ → Result NameError (Unit {0})
validate_package_name = validate package_marks

unfoldable pub validate_version_string : List ℕ → Result NameError (Unit {0})
validate_version_string = validate (b'+' ∷ b'.' ∷ b'_' ∷ b'-' ∷ b':' ∷ b'~' ∷ [])

unfoldable pub validate_service_name : List ℕ → Result NameError (Unit {0})
validate_service_name = validate (b'_' ∷ b'.' ∷ b'@' ∷ b'+' ∷ b'-' ∷ [])

-- `?`: the second check, if the first one passes.
abbrev pub and_then :
    Result NameError (Unit {0}) → Result NameError (Unit {0}) → Result NameError (Unit {0})
and_then (ok u) r = r
and_then (err e) r = err e

unfoldable pub validate_spec : PackageSpec → Result NameError (Unit {0})
unfolding validate_package_name validate_version_string
validate_spec p =
    and_then (validate_package_name p.name)
      (elim p.version [ none ↦ ok tt | some v ↦ validate_version_string v ])

-- `validate_package_names`.
unfoldable pub validate_package_names : List PackageSpec → Result NameError (Unit {0})
unfolding validate_spec
validate_package_names [] = ok tt
validate_package_names (p ∷ ps) = and_then (validate_spec p) (validate_package_names ps)

-- The loop over the packages of a patch request.
unfoldable pub validate_names : List (List ℕ) → Result NameError (Unit {0})
unfolding validate_package_name
validate_names [] = ok tt
validate_names (n ∷ ns) = and_then (validate_package_name n) (validate_names ns)

-- The guard of the handler that starts the operation.
unfoldable pub validate_request : Operation → Result NameError (Unit {0})
unfolding validate_package_names validate_names validate_package_name
validate_request (install packages options) = validate_package_names packages
validate_request (update name) = validate_package_name name
validate_request (remove name purge) = validate_package_name name
validate_request (apply_patches none) = ok tt
validate_request (apply_patches (some pkgs)) = validate_names pkgs
validate_request repair = ok tt
