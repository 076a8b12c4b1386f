-- ===== src/Enroll/Provision/Bundle.antt =====
-- A whole bundle: what `provision_pki_bundle` of src/enroll/provision.rs leaves of the four files.
use linux_patch_api.Prelude.{
  ℕ, Bool, true, false, List, [], list_eq, Option, ◌≡◌, refl, ◌∙◌, ◌⊎◌, inl, inr, Bool-cases,
}
use linux_patch_api.Prelude.Result.{Result, ok, err}
use linux_patch_api.Prelude.Text.{trim}
use linux_patch_api.Enroll.Disk.{Disk, Outcome, After, DiskStep, continue_with, key_mode, cert_mode}
use linux_patch_api.Enroll.Disk.Outcomes.{Leaves, continue-Leaves, weaken-Leaves}
use linux_patch_api.Enroll.Provision.{
  TlsPaths, ProvisionError, target_paths, validate_bundle, write_part, write_crl, write_bundle,
  if_valid, provision_pki_bundle, ca_not_written, server_not_written, key_not_written,
  crl_not_written,
}
use linux_patch_api.Enroll.Provision.Stages.{
  Disjoint, Stage, Installed, Partly, Renewed, Refused, part-step,
}

-- The validation passed or failed.
abbrev pub Passes : Result ProvisionError (Unit {0}) → Type 0
Passes r = r ≡ ok tt

abbrev pub Rejects : Result ProvisionError (Unit {0}) → Type 0
Rejects r = (e : ProvisionError) × (r ≡ err e)

module _ (fault : ℕ → Outcome) (t : TlsPaths) (ca_crt server_crt server_key crl_pem : List ℕ)
    (before : Disk) (apart : Disjoint t) where
  abbrev At : (ca server key crl : Bool) → Disk → Type 0
  At = Stage t ca_crt server_crt server_key crl_pem before

  abbrev Bad : Disk → Type 0
  Bad = Partly t ca_crt server_crt server_key crl_pem before

  abbrev Good : Disk → Type 0
  Good = Installed t ca_crt server_crt server_key crl_pem before

  ca-step :
      (d : Disk)
      → At false false false false d
      → Leaves
          (λ _. At true false false false)
          Bad
          (write_part fault ca_not_written t.ca_cert ca_crt false d)
  ca-step d (a, b, c, e) =
      weaken-Leaves
        (λ _. Renewed t.ca_cert ca_crt cert_mode t.server_cert t.server_key t.crl_path d)
        (λ _. At true false false false) (Refused t.ca_cert t.server_cert t.server_key t.crl_path d)
        Bad (write_part fault ca_not_written t.ca_cert ca_crt false d)
        (λ _ d' (n, (q, r, s)). (n, q ∙ b, r ∙ c, s ∙ e))
        (λ d' (n, (q, r, s)). inl (n ∙ a, q ∙ b, r ∙ c, s ∙ e))
        (part-step fault ca_not_written t.ca_cert ca_crt false t.server_cert t.server_key t.crl_path
          d apart.0)

  server-step :
      (d : Disk)
      → At true false false false d
      → Leaves
          (λ _. At true true false false)
          Bad
          (write_part fault server_not_written t.server_cert server_crt false d)
  server-step d (a, b, c, e) =
      weaken-Leaves
        (λ _. Renewed t.server_cert server_crt cert_mode t.ca_cert t.server_key t.crl_path d)
        (λ _. At true true false false) (Refused t.server_cert t.ca_cert t.server_key t.crl_path d)
        Bad (write_part fault server_not_written t.server_cert server_crt false d)
        (λ _ d' (n, (q, r, s)). (q ∙ a, n, r ∙ c, s ∙ e))
        (λ d' (n, (q, r, s)). inr (inl (q ∙ a, n ∙ b, r ∙ c, s ∙ e)))
        (part-step fault server_not_written t.server_cert server_crt false t.ca_cert t.server_key
          t.crl_path d apart.1)

  key-step :
      (d : Disk)
      → At true true false false d
      → Leaves
          (λ _. At true true true false)
          Bad
          (write_part fault key_not_written t.server_key server_key true d)
  key-step d (a, b, c, e) =
      weaken-Leaves
        (λ _. Renewed t.server_key server_key key_mode t.ca_cert t.server_cert t.crl_path d)
        (λ _. At true true true false) (Refused t.server_key t.ca_cert t.server_cert t.crl_path d)
        Bad (write_part fault key_not_written t.server_key server_key true d)
        (λ _ d' (n, (q, r, s)). (q ∙ a, r ∙ b, n, s ∙ e))
        (λ d' (n, (q, r, s)). inr (inr (inl (q ∙ a, r ∙ b, n ∙ c, s ∙ e))))
        (part-step fault key_not_written t.server_key server_key true t.ca_cert t.server_cert
          t.crl_path d apart.2)

  crl-step :
      (d : Disk)
      → At true true true false d
      → Leaves (λ _. Good) Bad (write_crl fault t.crl_path crl_pem d)
  unfolding write_crl
  crl-step d (a, b, c, e) = elim (Bool-cases (list_eq (trim crl_pem) [])) [
    | inl blank ↦ rw blank (inr (blank, (a, b, c, e)))
    | inr text ↦ rw text (
        weaken-Leaves
          (λ _. Renewed t.crl_path crl_pem cert_mode t.ca_cert t.server_cert t.server_key d)
          (λ _. Good) (Refused t.crl_path t.ca_cert t.server_cert t.server_key d) Bad
          (write_part fault crl_not_written t.crl_path crl_pem false d)
          (λ _ d' (n, (q, r, s)). inl (q ∙ a, r ∙ b, s ∙ c, n))
          (λ d' (n, (q, r, s)). inr (inr (inr (q ∙ a, r ∙ b, s ∙ c, n ∙ e))))
          (part-step fault crl_not_written t.crl_path crl_pem false t.ca_cert t.server_cert
            t.server_key d apart.3))
  ]

  abbrev first : After ProvisionError (Unit {0})
  first = write_part fault ca_not_written t.ca_cert ca_crt false before

  abbrev second : Unit {0} → DiskStep ProvisionError (Unit {0})
  second _ = write_part fault server_not_written t.server_cert server_crt false

  abbrev third : Unit {0} → DiskStep ProvisionError (Unit {0})
  third _ = write_part fault key_not_written t.server_key server_key true

  write_bundle-Leaves :
      Leaves (λ _. Good) Bad (write_bundle fault t ca_crt server_crt server_key crl_pem before)
  unfolding write_bundle
  write_bundle-Leaves =
      continue-Leaves (λ _. At true true true false) (λ _. Good) Bad
        (continue_with (continue_with first second) third) (λ _. write_crl fault t.crl_path crl_pem)
        (continue-Leaves (λ _. At true true false false) (λ _. At true true true false) Bad
          (continue_with first second) third
          (continue-Leaves (λ _. At true false false false) (λ _. At true true false false) Bad
            first second (ca-step before (refl, refl, refl, refl)) (λ _ d h. server-step d h))
          (λ _ d h. key-step d h))
        (λ _ d h. crl-step d h)

  if_valid-Leaves :
      (r : Result ProvisionError (Unit {0}))
      → Leaves
          (λ _ d. Passes r × Good d)
          (λ d. (Rejects r × (d ≡ before)) ⊎ (Passes r × Bad d))
          (if_valid fault r (write_bundle fault t ca_crt server_crt server_key crl_pem) before)
  if_valid-Leaves (err e) = inl ((e, refl), refl)
  if_valid-Leaves (ok u) =
      weaken-Leaves (λ _. Good) (λ _ d. Passes (ok u) × Good d) Bad
        (λ d. (Rejects (ok u) × (d ≡ before)) ⊎ (Passes (ok u) × Bad d))
        (write_bundle fault t ca_crt server_crt server_key crl_pem before) (λ _ d g. (refl, g))
        (λ d b. inr (refl, b)) write_bundle-Leaves

-- The whole provisioning, whichever operations of the disk fail. Either the certificates and the key
-- have passed the validation and every file holds what the bundle says, the key under mode 0600, or the
-- validation failed and nothing was touched, or a write failed: then the four files are replaced up to
-- some point of their order, certificate authority, certificate, key, revocation list, and are as
-- before from there on. The four targets must not collide.
pub provision_pki_bundle-Leaves :
    (fault : ℕ → Outcome) (ca_crt server_crt server_key crl_pem : List ℕ) (tls : Option TlsPaths)
    (before : Disk)
    → Disjoint (target_paths tls)
    → Leaves
        (λ _ d.
          Passes (validate_bundle ca_crt server_crt server_key)
          × Installed (target_paths tls) ca_crt server_crt server_key crl_pem before d)
        (λ d.
          (Rejects (validate_bundle ca_crt server_crt server_key) × (d ≡ before))
          ⊎ (Passes (validate_bundle ca_crt server_crt server_key)
              × Partly (target_paths tls) ca_crt server_crt server_key crl_pem before d))
        (provision_pki_bundle fault ca_crt server_crt server_key crl_pem tls before)
unfolding provision_pki_bundle
provision_pki_bundle-Leaves fault ca_crt server_crt server_key crl_pem tls before apart =
    if_valid-Leaves fault (target_paths tls) ca_crt server_crt server_key crl_pem before apart
      (validate_bundle ca_crt server_crt server_key)
