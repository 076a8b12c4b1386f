-- ===== src/Enroll/Provision.antt =====
-- Writing what the manager hands out: src/enroll/provision.rs.
pub mod Bundle
pub mod Leftover
pub mod Stages
pub mod Success
pub mod Pem
pub mod Repo
mod Examples
use linux_patch_api.Prelude.{
  ℕ, Bool, true, false, ◌||◌, List, [], ◌++◌, list_eq, is_some, Option, none, some, if◌then◌else◌,
}
use linux_patch_api.Prelude.Result.{Result, ok, err, is_ok}
use linux_patch_api.Prelude.Text.{codes, trim}
use linux_patch_api.Prelude.Lines.{contains}
use linux_patch_api.Enroll.Disk.{
  Disk, Outcome, DiskError, parent, temp_path, backup_path, After, DiskStep, in_context, ◌>>◌, pass,
  fails, key_mode, cert_mode, create_dir_all, set_dir_permissions, create_new, write_all, rename,
  copy,
}

-- The errors of `validate_pem`, with the expected type.
pub data PemError : Type 0 where
  empty_pem missing_begin missing_end : List ℕ → PemError

abbrev marker : List ℕ → List ℕ → List ℕ
marker word type = codes "-----" ++ word ++ codes " " ++ type ++ codes "-----"

unfoldable pub validate_pem : List ℕ → List ℕ → Result PemError (Unit {0})
unfolding trim
validate_pem pem type =
    let trimmed = trim pem in
    if list_eq trimmed []
    then err (empty_pem type)
    else if contains trimmed (marker (codes "BEGIN") type)
    then if contains trimmed (marker (codes "END") type) then ok tt else err (missing_end type)
    else err (missing_begin type)

module _ (fault : ℕ → Outcome) where
  -- The steps of `write_pem_file`: the directory, the backup, the temporary file and its renaming.
  unfoldable pub ensure_dir : Option (List ℕ) → DiskStep DiskError (Unit {0})
  unfolding create_dir_all set_dir_permissions
  ensure_dir none d = pass d
  ensure_dir (some dir) d =
      if d.dirs dir then pass d else (create_dir_all fault dir >> set_dir_permissions fault dir) d

  unfoldable pub back_up : List ℕ → DiskStep DiskError (Unit {0})
  unfolding copy backup_path
  back_up p d = if is_some (d.files p) then copy fault p (backup_path p) d else pass d

  unfoldable pub replace : List ℕ → List ℕ → ℕ → DiskStep DiskError (Unit {0})
  unfolding create_new write_all rename temp_path
  replace p text mode =
      create_new fault (temp_path p) mode
      >> write_all fault (temp_path p) text mode
      >> rename fault (temp_path p) p

  unfoldable pub write_pem_file : List ℕ → List ℕ → Bool → DiskStep DiskError (Unit {0})
  unfolding ensure_dir back_up replace parent
  write_pem_file p text is_key =
      ensure_dir (parent p) >> back_up p >> replace p text (if is_key then key_mode else cert_mode)

-- Where the parts of a bundle go: the paths of `TlsConfig`, or the defaults.
pub record TlsPaths : Type 0 where
  pub ca_cert : List ℕ
  pub server_cert : List ℕ
  pub server_key : List ℕ
  pub crl_path : List ℕ

abbrev pub default_paths : TlsPaths
default_paths = record {
  ca_cert = codes "/etc/linux_patch_api/certs/ca.pem";
  server_cert = codes "/etc/linux_patch_api/certs/server.pem";
  server_key = codes "/etc/linux_patch_api/certs/server.key.pem";
  crl_path = codes "/etc/linux_patch_api/certs/crl.pem";
}

abbrev pub target_paths : Option TlsPaths → TlsPaths
target_paths none = default_paths
target_paths (some tls) = tls

-- Why provisioning failed, by the part of the bundle.
pub data ProvisionError : Type 0 where
  invalid_ca invalid_server : PemError → ProvisionError
  invalid_key keyring_without_parent gpg_failed gpg_not_started : ProvisionError
  unknown_distro : List ℕ → ProvisionError
  ca_not_written server_not_written key_not_written crl_not_written : DiskError → ProvisionError
  repo_key_not_written sources_not_written : DiskError → ProvisionError

abbrev key_types : List ℕ → Bool
key_types key =
    is_ok (validate_pem key (codes "PRIVATE KEY"))
    || is_ok (validate_pem key (codes "RSA PRIVATE KEY"))
    || is_ok (validate_pem key (codes "EC PRIVATE KEY"))

abbrev checked :
    {A : Type 0} → (PemError → ProvisionError) → Result PemError A → Result ProvisionError A
checked wrap (ok a) = ok a
checked wrap (err e) = err (wrap e)

abbrev and_checked :
    Result ProvisionError (Unit {0})
    → Result ProvisionError (Unit {0})
    → Result ProvisionError (Unit {0})
and_checked (ok u) next = next
and_checked (err e) next = err e

-- The validation in front of the writes: both certificates, then the key.
unfoldable pub validate_bundle :
    (ca_crt server_crt server_key : List ℕ) → Result ProvisionError (Unit {0})
unfolding validate_pem
validate_bundle ca_crt server_crt server_key =
    and_checked (checked invalid_ca (validate_pem ca_crt (codes "CERTIFICATE"))) (
      and_checked (checked invalid_server (validate_pem server_crt (codes "CERTIFICATE")))
        (if key_types server_key then ok tt else err invalid_key))

module _ (fault : ℕ → Outcome) where
  abbrev pub write_part :
      (DiskError → ProvisionError) → List ℕ → List ℕ → Bool → DiskStep ProvisionError (Unit {0})
  write_part wrap p text is_key d = in_context wrap (write_pem_file fault p text is_key d)

  unfoldable pub write_crl : List ℕ → List ℕ → DiskStep ProvisionError (Unit {0})
  unfolding write_pem_file trim
  write_crl p crl_pem d =
      if list_eq (trim crl_pem) [] then pass d else write_part crl_not_written p crl_pem false d

  -- The writes, in their order.
  unfoldable pub write_bundle :
      TlsPaths
      → (ca_crt server_crt server_key crl_pem : List ℕ) → DiskStep ProvisionError (Unit {0})
  unfolding write_pem_file write_crl
  write_bundle paths ca_crt server_crt server_key crl_pem =
      write_part ca_not_written paths.ca_cert ca_crt false
      >> write_part server_not_written paths.server_cert server_crt false
      >> write_part key_not_written paths.server_key server_key true
      >> write_crl paths.crl_path crl_pem

  abbrev pub if_valid :
      Result ProvisionError (Unit {0})
      → DiskStep ProvisionError (Unit {0})
      → DiskStep ProvisionError (Unit {0})
  if_valid (ok u) writes = writes
  if_valid (err e) writes = fails e

  -- `provision_pki_bundle`.
  unfoldable pub provision_pki_bundle :
      (ca_crt server_crt server_key crl_pem : List ℕ)
      → Option TlsPaths
      → DiskStep ProvisionError (Unit {0})
  unfolding validate_bundle write_bundle
  provision_pki_bundle ca_crt server_crt server_key crl_pem tls =
      if_valid (validate_bundle ca_crt server_crt server_key)
        (write_bundle (target_paths tls) ca_crt server_crt server_key crl_pem)
