-- ===== src/Enroll/Provision/Repo.antt =====
-- The package repository: `provision_repo_config` and `provision_alpine_repo_config` of
-- src/enroll/provision.rs. `gpg --dearmor` is a parameter.
pub mod Placed
use linux_patch_api.Prelude.{
  ℕ, Bool, true, false, List, [], ◌∷◌, ◌++◌, any, list_eq, Option, none, some, if◌then◌else◌,
}
use linux_patch_api.Prelude.Result.{Result, ok, err}
use linux_patch_api.Prelude.Text.{codes, trim_end}
use linux_patch_api.Prelude.Lines.{contains}
use linux_patch_api.Enroll.Answers.{RepoConfig}
use linux_patch_api.Enroll.Disk.{
  Disk, Outcome, DiskError, parent, After, DiskStep, in_context, ◌>>=◌, ◌>>◌, pass, fails,
  cert_mode, fs_write, rename, create_dir_all, set_file_mode, read_to_string,
}
use linux_patch_api.Enroll.Provision.{
  ProvisionError, keyring_without_parent, gpg_failed, gpg_not_started, unknown_distro,
  repo_key_not_written, sources_not_written, ensure_dir, write_pem_file,
}

-- What `gpg --dearmor` came to.
pub data Dearmored : Type 0 where
  not_installed not_started failed : Dearmored
  keyring : List ℕ → Dearmored

abbrev one_of : List ℕ → List (List ℕ) → Bool
one_of text = any (list_eq text)

abbrev pub is_apt : List ℕ → Bool
is_apt distro = one_of distro (codes "ubuntu" ∷ codes "debian" ∷ codes "linuxmint" ∷ [])

abbrev pub is_rpm : List ℕ → Bool
is_rpm distro = one_of distro (
    codes "fedora"
    ∷ codes "rhel"
    ∷ codes "almalinux"
    ∷ codes "centos"
    ∷ codes "rocky"
    ∷ codes "amzn"
    ∷ [])

abbrev pub is_pacman : List ℕ → Bool
is_pacman distro = one_of distro (codes "arch" ∷ codes "manjaro" ∷ codes "endeavouros" ∷ [])

-- `trim_end_matches(".gpg")`.
abbrev pub without_gpg : List ℕ → List ℕ
without_gpg [] = []
without_gpg (c ∷ cs) =
    let rest = without_gpg cs in if list_eq (c ∷ rest) (codes ".gpg") then [] else c ∷ rest

abbrev pub is_armored : List ℕ → Bool
is_armored key = contains key (codes "-----BEGIN PGP")

-- The directory of the sources file that is made if need be, and the file.
unfoldable pub sources_path : List ℕ → Option (Option (List ℕ) × List ℕ)
sources_path distro =
    if is_apt distro
    then some (none, codes "/etc/apt/sources.list.d/lpa.list")
    else if is_rpm distro
    then some (some (codes "/etc/yum.repos.d"), codes "/etc/yum.repos.d/lpa.repo")
    else if is_pacman distro
    then some (some (codes "/etc/pacman.d"), codes "/etc/pacman.d/lpa-repo")
    else none

abbrev pub repositories : List ℕ
repositories = codes "/etc/apk/repositories"

abbrev pub rsa_key_path : List ℕ
rsa_key_path = codes "/etc/apk/keys/lpa-repo.rsa.pub"

module _ (fault : ℕ → Outcome) where
  -- A temporary file and its renaming, as the repository files are written.
  unfoldable pub write_atomically : List ℕ → List ℕ → DiskStep DiskError (Unit {0})
  unfolding fs_write rename
  write_atomically p text =
      fs_write fault (p ++ codes ".tmp") text >> rename fault (p ++ codes ".tmp") p

  -- `.ok()`.
  abbrev pub ignore : After DiskError (Unit {0}) → After ProvisionError (Unit {0})
  ignore (d, r) = (d, ok tt)

  abbrev pub write_key : List ℕ → List ℕ → DiskStep ProvisionError (Unit {0})
  write_key p key d = in_context repo_key_not_written (write_pem_file fault p key false d)

  abbrev dearmor : Dearmored → RepoConfig → DiskStep ProvisionError (Unit {0})
  dearmor not_installed repo d =
      write_key (without_gpg repo.keyring_path ++ codes ".asc") repo.gpg_public_key d
  dearmor not_started repo d = fails gpg_not_started d
  dearmor failed repo d = fails gpg_failed d
  dearmor (keyring bytes) repo d = in_context repo_key_not_written (
      (write_atomically repo.keyring_path bytes >> set_file_mode fault repo.keyring_path cert_mode)
        d)

  -- The key: step 1, behind its directory.
  unfoldable pub provision_key :
      (List ℕ → Dearmored) → RepoConfig → DiskStep ProvisionError (Unit {0})
  unfolding write_atomically write_pem_file set_file_mode
  provision_key gpg repo =
      if is_apt repo.distro_id
      then if is_armored repo.gpg_public_key
        then dearmor (gpg repo.gpg_public_key) repo
        else write_key repo.keyring_path repo.gpg_public_key
      else write_key repo.keyring_path repo.gpg_public_key

  abbrev make_dir : Option (List ℕ) → DiskStep ProvisionError (Unit {0})
  make_dir none d = pass d
  make_dir (some dir) d = ignore (create_dir_all fault dir d)

  -- The sources: step 2.
  abbrev write_sources :
      Option (Option (List ℕ) × List ℕ) → RepoConfig → DiskStep ProvisionError (Unit {0})
  write_sources none repo = fails (unknown_distro repo.distro_id)
  write_sources (some r) repo = make_dir r.0 >> λ d.
      in_context sources_not_written (write_atomically r.1 repo.sources_config d)

  abbrev rsa_key : Option (List ℕ) → DiskStep ProvisionError (Unit {0})
  rsa_key none d = pass d
  rsa_key (some key) d = in_context repo_key_not_written (
      (ensure_dir fault (some (codes "/etc/apk/keys"))
          >> write_atomically rsa_key_path key
          >> set_file_mode fault rsa_key_path cert_mode)
        d)

  abbrev or_empty : Option (List ℕ) → List ℕ
  or_empty none = []
  or_empty (some text) = text

  -- The repositories with the new one at the end.
  unfoldable pub with_repository : List ℕ → List ℕ → List ℕ
  with_repository existing entry = trim_end existing ++ codes "\n" ++ entry ++ codes "\n"

  abbrev append_repository : List ℕ → List ℕ → DiskStep ProvisionError (Unit {0})
  append_repository entry existing d =
      if contains existing entry
      then pass d
      else in_context sources_not_written
          (write_atomically repositories (with_repository existing entry) d)

  unfoldable pub provision_alpine_repo_config : RepoConfig → DiskStep ProvisionError (Unit {0})
  unfolding write_atomically ensure_dir set_file_mode with_repository read_to_string
  provision_alpine_repo_config repo =
      rsa_key repo.apk_rsa_public_key >> read_to_string fault repositories >>= λ existing.
      append_repository repo.sources_config (or_empty existing)

  abbrev in_directory : Option (List ℕ) → DiskStep ProvisionError (Unit {0})
  in_directory none d = fails keyring_without_parent d
  in_directory (some dir) d = in_context repo_key_not_written (ensure_dir fault (some dir) d)

  unfoldable pub provision_repo_config :
      (List ℕ → Dearmored) → RepoConfig → DiskStep ProvisionError (Unit {0})
  unfolding provision_alpine_repo_config provision_key sources_path ensure_dir write_atomically
      parent
  provision_repo_config gpg repo =
      if list_eq repo.distro_id (codes "alpine")
      then provision_alpine_repo_config repo
      else in_directory (parent repo.keyring_path)
        >> provision_key gpg repo
        >> write_sources (sources_path repo.distro_id) repo
