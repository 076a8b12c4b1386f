-- ===== src/Enroll/Provision/Repo/Placed.antt =====
-- What `provision_repo_config` of src/enroll/provision.rs leaves where the key is not dearmored.
use linux_patch_api.Prelude.{ℕ, false, List, ◌++◌, list_eq, Option, none, some, ◌≡◌, sym, ap, ◌∙◌}
use linux_patch_api.Prelude.Result.{ok, err}
use linux_patch_api.Prelude.Text.{codes}
use linux_patch_api.Enroll.Answers.{RepoConfig}
use linux_patch_api.Enroll.Disk.{
  Disk, Outcome, DiskError, After, continue_with, in_context, put, parent, cert_mode, fs_write,
  rename, create_dir_all,
}
use linux_patch_api.Enroll.Disk.Outcomes.{
  Leaves, continue-Leaves, in_context-Leaves, weaken-Leaves, Same, Holds, Moves, Others, put_same,
  put_apart, fs_write-Leaves, rename-Leaves, create_dir_all-Leaves,
}
use linux_patch_api.Enroll.Provision.{
  ProvisionError, write_pem_file, sources_not_written, repo_key_not_written,
}
use linux_patch_api.Enroll.Provision.Pem.{IsPlain, Kept, Written, write_pem_file-Leaves}
use linux_patch_api.Enroll.Provision.Repo.{
  Dearmored, ignore, is_apt, write_atomically, write_key, make_dir, write_sources, sources_path,
  provision_key, provision_repo_config, in_directory,
}

abbrev Anything : Disk → Type 0
Anything d = Unit {0}

-- A file holds a text.
abbrev pub Has : List ℕ → List ℕ → Disk → Type 0
Has p text d = (mode : ℕ) × (d.files p ≡ some (record { content = text; mode = mode }))

module _ (fault : ℕ → Outcome) where
  -- The file holds the text, and another one that is apart holds what it did.
  pub write_atomically-Leaves :
      (p text q other : List ℕ) (d : Disk)
      → list_eq p q ≡ false
      → list_eq (p ++ codes ".tmp") q ≡ false
      → Has q other d
      → Leaves (λ _ d'. Has p text d' × Has q other d') Anything (write_atomically fault p text d)
  unfolding write_atomically
  write_atomically-Leaves p text q other d pq tq (m, h) =
      let temp = p ++ codes ".tmp" in
      continue-Leaves (λ _. Holds temp text d) (λ _ d'. Has p text d' × Has q other d') Anything
        (fs_write fault temp text d) (λ _. rename fault temp p)
        (weaken-Leaves (λ _. Holds temp text d) (λ _. Holds temp text d) (Others temp d) Anything
          (fs_write fault temp text d) (λ _ d' h'. h') (λ d' o. tt)
          (fs_write-Leaves fault temp text d))
        (λ _ d' (mode, e).
          weaken-Leaves (λ _. Moves temp p d') (λ _ d''. Has p text d'' × Has q other d'') (Same d')
            Anything (rename fault temp p d')
            (λ _ d'' (g, at_temp, e').
              let moved = put temp none d'.files in
              let file = some (record { content = text; mode = mode }) in
              (
                (
                  mode,
                  rw e' (
                      put_same p (some g) moved
                      ∙ (sym at_temp ∙ rw e (put_same temp file d.files))),
                ),
                (
                  m,
                  rw e' (
                      put_apart p q (some g) moved pq
                      ∙ (put_apart temp q none d'.files tq
                          ∙ rw e (put_apart temp q file d.files tq ∙ h))),
                ),
              ))
            (λ d'' s. tt) (rename-Leaves fault temp p d'))

  pub write_key-Leaves :
      (p key : List ℕ) (d : Disk)
      → IsPlain p
      → Leaves (λ _. Has p key) Anything (write_key fault p key d)
  write_key-Leaves p key d plain =
      in_context-Leaves (λ _. Has p key) Anything repo_key_not_written
        (write_pem_file fault p key false d)
        (weaken-Leaves (λ _. Written p key cert_mode d) (λ _. Has p key) (Kept p d) Anything
          (write_pem_file fault p key false d) (λ _ d' w. (cert_mode, w.0)) (λ d' k. tt)
          (write_pem_file-Leaves fault p key false d plain))

  anything : (r : After ProvisionError (Unit {0})) → Leaves (λ _. Anything) Anything r
  anything (d, ok u) = tt
  anything (d, err e) = tt

  ignore-Leaves :
      (Good : Unit {0} → Disk → Type 0) (r : After DiskError (Unit {0}))
      → Leaves Good (Good tt) r
      → Leaves Good Anything (ignore fault r)
  ignore-Leaves Good (d, ok tt) h = h
  ignore-Leaves Good (d, err e) h = h

  make_dir-Leaves :
      (dir : Option (List ℕ)) (q other : List ℕ) (d : Disk)
      → Has q other d
      → Leaves (λ _. Has q other) Anything (make_dir fault dir d)
  make_dir-Leaves none q other d h = h
  make_dir-Leaves (some dir) q other d (m, h) =
      ignore-Leaves (λ _. Has q other) (create_dir_all fault dir d)
        (weaken-Leaves (λ _. Same d) (λ _. Has q other) (Same d) (Has q other)
          (create_dir_all fault dir d) (λ _ d' e. (m, ap (λ fs. fs q) e ∙ h))
          (λ d' e. (m, ap (λ fs. fs q) e ∙ h)) (create_dir_all-Leaves fault dir d))

  -- Neither file is written over by the other.
  module _ (gpg : List ℕ → Dearmored) (repo : RepoConfig) (dir : Option (List ℕ)) (sources : List ℕ)
      (plain : IsPlain repo.keyring_path) (apart : list_eq sources repo.keyring_path ≡ false)
      (temp_apart : list_eq (sources ++ codes ".tmp") repo.keyring_path ≡ false) where
    abbrev KeyPlaced : Disk → Type 0
    KeyPlaced = Has repo.keyring_path repo.gpg_public_key

    abbrev Placed : Disk → Type 0
    Placed d = Has sources repo.sources_config d × KeyPlaced d

    write_sources-Leaves :
        (d : Disk)
        → KeyPlaced d
        → Leaves (λ _. Placed) Anything (write_sources fault (some (dir, sources)) repo d)
    write_sources-Leaves d h =
        continue-Leaves (λ _. KeyPlaced) (λ _. Placed) Anything (make_dir fault dir d)
          (λ _ d.
            in_context sources_not_written (write_atomically fault sources repo.sources_config d))
          (make_dir-Leaves dir repo.keyring_path repo.gpg_public_key d h)
          (λ _ d' h'.
            in_context-Leaves (λ _. Placed) Anything sources_not_written
              (write_atomically fault sources repo.sources_config d')
              (write_atomically-Leaves sources repo.sources_config repo.keyring_path
                repo.gpg_public_key d' apart temp_apart h'))

    -- Behind a success the sources file and the keyring hold what the manager sent, for any distribution
    -- but Alpine and those of apt.
    pub provision_repo_config-Leaves :
        (before : Disk)
        → list_eq repo.distro_id (codes "alpine") ≡ false
        → is_apt repo.distro_id ≡ false
        → sources_path repo.distro_id ≡ some (dir, sources)
        → Leaves (λ _. Placed) Anything (provision_repo_config fault gpg repo before)
    unfolding provision_repo_config provision_key
    provision_repo_config-Leaves before not_alpine not_apt s =
        rw (s, not_alpine, not_apt)
          (let located = in_directory fault (parent repo.keyring_path) before in
            let key = λ (_ : Unit {0}). write_key fault repo.keyring_path repo.gpg_public_key in
            continue-Leaves (λ _. KeyPlaced) (λ _. Placed) Anything (continue_with located key)
              (λ _. write_sources fault (some (dir, sources)) repo)
              (continue-Leaves (λ _. Anything) (λ _. KeyPlaced) Anything located key
                (anything located)
                (λ _ d h. write_key-Leaves repo.keyring_path repo.gpg_public_key d plain))
              (λ _ d h. write_sources-Leaves d h))
