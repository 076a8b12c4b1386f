-- ===== src/Enroll/Health/Examples.antt =====
-- Tests of the self-heal, and its theorems at concrete inputs.
use linux_patch_api.Prelude.{ℕ, true, false, List, [], ◌∷◌, Option, none, some, ◌≡◌, refl}
use linux_patch_api.Prelude.Result.{ok, err}
use linux_patch_api.Prelude.Text.{codes}
use linux_patch_api.Enroll.Answers.{RepoConfig}
use linux_patch_api.Enroll.Disk.{Disk, Outcome, done, tick, temp_path, backup_path}
use linux_patch_api.Enroll.Disk.Outcomes.{Leaves}
use linux_patch_api.Enroll.Provision.Repo.{
  Dearmored, not_installed, keyring, sources_path, provision_repo_config, repositories,
}
use linux_patch_api.Enroll.Health.{
  already_configured, provisioned, no_distro, compare_and_heal, spawn_repo_config_sync_task,
}
use linux_patch_api.Enroll.Health.Converges.{
  Paced, first_entry, later_entries, compare_and_heal-converges, spawn_repo_config_sync_task-Paced,
}
use linux_patch_api.Enroll.Health.Gpg.{expired, parse_gpg_key_status}

abbrev healthy : ℕ → Outcome
healthy n = done

abbrev fedora : RepoConfig
fedora = record {
  gpg_public_key = codes "-----BEGIN PGP PUBLIC KEY BLOCK-----";
  sources_config = codes "[lpa]";
  distro_id = codes "fedora";
  keyring_path = codes "/etc/pki/rpm-gpg/lpa-repo.gpg";
  apk_rsa_public_key = none;
}

abbrev no_gpg : List ℕ → Dearmored
no_gpg key = not_installed

abbrev lpa_repo : List ℕ
lpa_repo = codes "/etc/yum.repos.d/lpa.repo"

abbrev blank : Disk
blank = record { files = λ p. none; dirs = λ p. false; clock = 0 }

provisioned_fedora : (provision_repo_config healthy no_gpg fedora blank).1 ≡ ok tt
unfolding provision_repo_config
provisioned_fedora = refl

compare_and_heal-converges_example :
    Leaves
      (λ _ d.
        compare_and_heal healthy no_gpg (codes "fedora") fedora (lpa_repo, fedora.keyring_path) d
        ≡ (tick (tick d), ok already_configured))
      (λ d. Unit {0})
      (provision_repo_config healthy no_gpg fedora blank)
unfolding sources_path temp_path backup_path
compare_and_heal-converges_example =
    compare_and_heal-converges healthy healthy no_gpg fedora (some (codes "/etc/yum.repos.d"))
      lpa_repo blank refl refl refl (refl, refl, refl) refl refl refl refl (λ n. refl)

-- On Debian the keyring is written as `gpg` prints it, and compared with the armoured text: the next
-- check provisions again.
abbrev debian : RepoConfig
debian = record fedora {
  distro_id = codes "debian";
  keyring_path = codes "/etc/apt/keyrings/lpa-repo.gpg";
}

abbrev dearmored : List ℕ → Dearmored
dearmored key = keyring (1 ∷ 2 ∷ 3 ∷ [])

abbrev lpa_list : List ℕ
lpa_list = codes "/etc/apt/sources.list.d/lpa.list"

abbrev with_apt : Disk
with_apt = record blank { dirs = λ p. true }

debian_again :
    (compare_and_heal healthy dearmored
      (codes "debian")
      debian
      (lpa_list, debian.keyring_path)
      (provision_repo_config healthy dearmored debian with_apt).0).1
    ≡ ok provisioned
unfolding compare_and_heal provision_repo_config
debian_again = refl

-- On Alpine the line is appended to the other repositories, and the whole file compared with it.
abbrev alpine : RepoConfig
alpine = record fedora {
  distro_id = codes "alpine";
  sources_config = codes "https://m/apk";
  apk_rsa_public_key = some (codes "rsa");
}

alpine_again :
    (compare_and_heal healthy no_gpg
      (codes "alpine")
      alpine
      (repositories, codes "/etc/apk/keys/lpa-repo.rsa.pub")
      (provision_repo_config healthy no_gpg alpine with_apt).0).1
    ≡ ok provisioned
unfolding compare_and_heal provision_repo_config
alpine_again = refl

-- A sync that fails, then two that succeed.
spawn_repo_config_sync_task-Paced_example :
    (first_entry (
        spawn_repo_config_sync_task 100
          (ok provisioned ∷ err no_distro ∷ ok already_configured ∷ []))
      ≡ some (100, record { synced = some true; last_sync_at = some 100 }))
    × Paced 100 (err no_distro ∷ ok already_configured ∷ []) (
        later_entries (
          spawn_repo_config_sync_task 100
            (ok provisioned ∷ err no_distro ∷ ok already_configured ∷ [])))
spawn_repo_config_sync_task-Paced_example =
    spawn_repo_config_sync_task-Paced 100 (ok provisioned)
      (err no_distro ∷ ok already_configured ∷ [])

-- A key that is revoked, with a subkey that has expired, counts as expired.
abbrev no_time : ℕ → Option (List ℕ)
no_time n = none

revoked_then_expired :
    (parse_gpg_key_status no_time (codes "pub:r:1:a:1:2:x\nsub:e:1:b:1:2:x\n")).0 ≡ expired
unfolding parse_gpg_key_status
revoked_then_expired = refl
