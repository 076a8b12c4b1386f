-- ===== src/Enroll/Provision/Stages.antt =====
-- The stages of a bundle, and what writing one of its four files does to the others:
-- `provision_pki_bundle` of src/enroll/provision.rs.
use linux_patch_api.Prelude.{
  ℕ, Bool, true, false, List, [], list_eq, some, if◌then◌else◌, ◌≡◌, refl, ◌∙◌, ◌⊎◌,
}
use linux_patch_api.Prelude.Text.{trim}
use linux_patch_api.Enroll.Disk.{
  Disk, Outcome, DiskError, temp_path, backup_path, key_mode, cert_mode,
}
use linux_patch_api.Enroll.Disk.Outcomes.{Leaves, in_context-Leaves, weaken-Leaves}
use linux_patch_api.Enroll.Provision.{
  TlsPaths, default_paths, ProvisionError, write_pem_file, write_part,
}
use linux_patch_api.Enroll.Provision.Pem.{IsPlain, Kept, Written, write_pem_file-Leaves}

-- Writing the first file touches nothing of the second.
abbrev pub Apart : List ℕ → List ℕ → Type 0
Apart p q =
    (list_eq p q ≡ false) × (list_eq (temp_path p) q ≡ false) × (list_eq (backup_path p) q ≡ false)

-- Writing this file touches none of the others.
abbrev pub ApartFrom : List ℕ → List ℕ → List ℕ → List ℕ → Type 0
ApartFrom p q r s = IsPlain p × Apart p q × Apart p r × Apart p s

-- The four targets do not collide.
abbrev pub Disjoint : TlsPaths → Type 0
Disjoint t =
    ApartFrom t.ca_cert t.server_cert t.server_key t.crl_path
    × ApartFrom t.server_cert t.ca_cert t.server_key t.crl_path
    × ApartFrom t.server_key t.ca_cert t.server_cert t.crl_path
    × ApartFrom t.crl_path t.ca_cert t.server_cert t.server_key

-- The default targets do not collide.
pub default_paths-Disjoint : Disjoint default_paths
unfolding temp_path backup_path
default_paths-Disjoint = (
  ((refl, refl, refl), (refl, refl, refl), (refl, refl, refl), (refl, refl, refl)),
  ((refl, refl, refl), (refl, refl, refl), (refl, refl, refl), (refl, refl, refl)),
  ((refl, refl, refl), (refl, refl, refl), (refl, refl, refl), (refl, refl, refl)),
  ((refl, refl, refl), (refl, refl, refl), (refl, refl, refl), (refl, refl, refl)),
)

abbrev pub Status : Bool → List ℕ → List ℕ → ℕ → Disk → Disk → Type 0
Status true p text mode before d = d.files p ≡ some (record { content = text; mode = mode })
Status false p text mode before d = d.files p ≡ before.files p

module _ (t : TlsPaths) (ca_crt server_crt server_key crl_pem : List ℕ) (before : Disk) where
  -- Which of the four files are new; the others are as before.
  abbrev pub Stage : (ca server key crl : Bool) → Disk → Type 0
  Stage ca server key crl d =
      Status ca t.ca_cert ca_crt cert_mode before d
      × Status server t.server_cert server_crt cert_mode before d
      × Status key t.server_key server_key key_mode before d
      × Status crl t.crl_path crl_pem cert_mode before d

  -- The certificates and the key are the bundle's, the key readable by its owner only; so is the
  -- revocation list, unless the bundle has none.
  abbrev pub Installed : Disk → Type 0
  Installed d =
      Stage true true true true d
      ⊎ ((list_eq (trim crl_pem) [] ≡ true) × Stage true true true false d)

  -- The files are replaced in a fixed order, and a failure leaves all from some point on as they were.
  abbrev pub Partly : Disk → Type 0
  Partly d =
      Stage false false false false d
      ⊎ Stage true false false false d
      ⊎ Stage true true false false d
      ⊎ Stage true true true false d

Status-same :
    (new : Bool) (p text : List ℕ) (mode : ℕ) (before d d' : Disk)
    → d'.files p ≡ d.files p
    → Status new p text mode before d
    → Status new p text mode before d'
Status-same true p text mode before d d' e h = e ∙ h
Status-same false p text mode before d d' e h = e ∙ h

Written-Apart :
    (p q text : List ℕ) (mode : ℕ) (d d' : Disk)
    → Apart p q
    → Written p text mode d d'
    → d'.files q ≡ d.files q
Written-Apart p q text mode d d' a w = w.2 q a.0 a.1 a.2

Kept-Apart : (p q : List ℕ) (d d' : Disk) → Apart p q → Kept p d d' → d'.files q ≡ d.files q
Kept-Apart p q d d' a k = k q a.1 a.2

-- Of three other files, none changes.
abbrev pub Alike : List ℕ → List ℕ → List ℕ → Disk → Disk → Type 0
Alike q r s d d' = (d'.files q ≡ d.files q) × (d'.files r ≡ d.files r) × (d'.files s ≡ d.files s)

abbrev pub Renewed : List ℕ → List ℕ → ℕ → List ℕ → List ℕ → List ℕ → Disk → Disk → Type 0
Renewed p text mode q r s d d' =
    (d'.files p ≡ some (record { content = text; mode = mode })) × Alike q r s d d'

abbrev pub Refused : List ℕ → List ℕ → List ℕ → List ℕ → Disk → Disk → Type 0
Refused p q r s d d' = (d'.files p ≡ d.files p) × Alike q r s d d'

module _ (fault : ℕ → Outcome) (wrap : DiskError → ProvisionError) where
  write_part-Leaves :
      (p text : List ℕ) (is_key : Bool) (d : Disk)
      → IsPlain p
      → Leaves
          (λ _. Written p text (if is_key then key_mode else cert_mode) d)
          (Kept p d)
          (write_part fault wrap p text is_key d)
  write_part-Leaves p text is_key d plain =
      in_context-Leaves (λ _. Written p text (if is_key then key_mode else cert_mode) d) (Kept p d)
        wrap (write_pem_file fault p text is_key d)
        (write_pem_file-Leaves fault p text is_key d plain)

  pub part-step :
      (p text : List ℕ) (is_key : Bool) (q r s : List ℕ) (d : Disk)
      → ApartFrom p q r s
      → Leaves
          (λ _. Renewed p text (if is_key then key_mode else cert_mode) q r s d)
          (Refused p q r s d)
          (write_part fault wrap p text is_key d)
  part-step p text is_key q r s d (plain, aq, ar, as_) =
      let mode = if is_key then key_mode else cert_mode in
      weaken-Leaves (λ _. Written p text mode d) (λ _. Renewed p text mode q r s d) (Kept p d)
        (Refused p q r s d) (write_part fault wrap p text is_key d)
        (λ _ d' w. (
          w.0,
          (
            Written-Apart p q text mode d d' aq w,
            Written-Apart p r text mode d d' ar w,
            Written-Apart p s text mode d d' as_ w,
          ),
        ))
        (λ d' k. (
          k p plain.0 plain.1,
          (Kept-Apart p q d d' aq k, Kept-Apart p r d d' ar k, Kept-Apart p s d d' as_ k),
        ))
        (write_part-Leaves p text is_key d plain)
