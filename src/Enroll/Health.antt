-- ===== src/Enroll/Health.antt =====
-- The self-heal of the package repository and its background task: src/enroll/repo_health.rs. What the
-- manager answers, `gpg` and the printing of times are parameters.
pub mod Gpg
mod Examples
pub mod Converges
use linux_patch_api.Prelude.{
  ℕ, zero, suc, ◌+◌, ◌*◌, Bool, true, false, ◌&&◌, ltb, ◌==◌, List, [], ◌∷◌, list_eq, Option, none,
  some, if◌then◌else◌,
}
use linux_patch_api.Prelude.Result.{Result, ok, err, is_ok}
use linux_patch_api.Prelude.Text.{codes}
use linux_patch_api.Prelude.Lines.{split_whitespace}
use linux_patch_api.Enroll.Answers.{
  RepoConfig, Answer, RequestError, network, network_error, http, decode, other_status,
}
use linux_patch_api.Enroll.Release.{UnknownDistro, field, detect_distro_id, detect_apt_suite}
use linux_patch_api.Enroll.Disk.{
  Disk, Outcome, After, DiskStep, in_context, ◌>>=◌, ◌>>◌, pass, fails, read_to_string,
}
use linux_patch_api.Enroll.Provision.{ProvisionError}
use linux_patch_api.Enroll.Provision.Repo.{
  Dearmored, is_apt, is_rpm, is_pacman, provision_repo_config,
}

-- `RepoHealResult`.
pub data RepoHealResult : Type 0 where
  already_configured provisioned : RepoHealResult

abbrev pub non_empty : Option (List ℕ) → Option (List ℕ)
non_empty none = none
non_empty (some []) = none
non_empty (some (c ∷ cs)) = some (c ∷ cs)

abbrev first_of : List (List ℕ) → Option (List ℕ)
first_of [] = none
first_of (w ∷ ws) = some w

abbrev like_first : Option (List ℕ) → Option (List ℕ)
like_first none = none
like_first (some like) = first_of (split_whitespace like)

abbrev or_else : Option (List ℕ) → Option (List ℕ) → Option (List ℕ)
or_else none other = other
or_else (some a) other = some a

-- `detect_distro_id` of this file, of the text of /etc/os-release.
unfoldable pub detect_distro : List ℕ → Option (List ℕ)
unfolding field split_whitespace
detect_distro content =
    or_else (non_empty (field (codes "ID") content)) (like_first (field (codes "ID_LIKE") content))

-- `expected_repo_paths`: the sources file and the keyring.
unfoldable pub expected_repo_paths : List ℕ → Option (List ℕ × List ℕ)
expected_repo_paths distro =
    if is_apt distro
    then some (codes "/etc/apt/sources.list.d/lpa.list", codes "/etc/apt/keyrings/lpa-repo.gpg")
    else if is_rpm distro
    then some (codes "/etc/yum.repos.d/lpa.repo", codes "/etc/pki/rpm-gpg/lpa-repo.gpg")
    else if list_eq distro (codes "alpine")
    then some (codes "/etc/apk/repositories", codes "/etc/apk/keys/lpa-repo.rsa.pub")
    else if is_pacman distro
    then some (codes "/etc/pacman.d/lpa-repo", codes "/etc/pacman.d/lpa-repo.gpg")
    else none

-- What the client's request of the repository fails with.
pub data FetchError : Type 0 where
  no_release : FetchError
  unknown : UnknownDistro → FetchError
  request : RequestError → FetchError

-- What the check fails with.
pub data HealError : Type 0 where
  no_os_release no_distro : HealError
  unrecognized : List ℕ → HealError
  not_fetched : FetchError → HealError
  not_provisioned : ProvisionError → HealError

abbrev repo_answer : (List ℕ → Option RepoConfig) → Answer → Result RequestError RepoConfig
repo_answer from_json network_error = err network
repo_answer from_json (http status body) =
    if status == 200 then decode from_json body else other_status status body

abbrev returned : {A : Type 0} → Result RequestError A → Result FetchError A
returned (ok a) = ok a
returned (err e) = err (request e)

-- The key that the file must hold.
unfoldable pub expected_key : List ℕ → RepoConfig → List ℕ
expected_key distro repo =
    if list_eq distro (codes "alpine")
    then elim repo.apk_rsa_public_key [ none ↦ repo.gpg_public_key | some key ↦ key ]
    else repo.gpg_public_key

-- `read_file_content(..).as_deref() == Some(expected)`.
abbrev pub holds : Option (List ℕ) → List ℕ → Bool
holds content expected = elim (non_empty content) [
  | none ↦ false
  | some text ↦ list_eq text expected
]

module _ (fault : ℕ → Outcome) (gpg : List ℕ → Dearmored) where
  abbrev pub heal : RepoConfig → Bool → DiskStep HealError RepoHealResult
  heal repo true d = (d, ok already_configured)
  heal repo false d =
      ((λ d. in_context not_provisioned (provision_repo_config fault gpg repo d)) >>= λ u d.
      (d, ok provisioned))
        d

  -- The comparison of both files, then the repair.
  unfoldable pub compare_and_heal :
      List ℕ → RepoConfig → List ℕ × List ℕ → DiskStep HealError RepoHealResult
  unfolding provision_repo_config read_to_string expected_key
  compare_and_heal distro repo paths = read_to_string fault paths.0 >>= λ sources.
      read_to_string fault paths.1 >>= λ keyring.
      heal repo (holds sources repo.sources_config && holds keyring (expected_key distro repo))

-- The manager, on the distribution and the release that the request names.
module _ (from_json : List ℕ → Option RepoConfig)
    (manager : List ℕ → Option (List ℕ) → Answer) where
  abbrev ask : List ℕ → Option (List ℕ) → DiskStep FetchError RepoConfig
  ask distro content d =
      (d, returned (repo_answer from_json (manager distro (detect_apt_suite content))))

  abbrev ask_for : (ℕ → Outcome) → Result UnknownDistro (List ℕ) → DiskStep FetchError RepoConfig
  ask_for fault (err e) d = (d, err (unknown e))
  ask_for fault (ok distro) d = (read_to_string fault (codes "/etc/os-release") >>= ask distro) d

  abbrev with_release : (ℕ → Outcome) → Option (List ℕ) → DiskStep FetchError RepoConfig
  with_release fault none d = (d, err no_release)
  with_release fault (some content) d = ask_for fault (detect_distro_id content) d

  -- `fetch_repo_config` of src/enroll/client.rs.
  unfoldable pub fetch_repo_config : (ℕ → Outcome) → DiskStep FetchError RepoConfig
  unfolding read_to_string detect_distro_id detect_apt_suite
  fetch_repo_config fault = read_to_string fault (codes "/etc/os-release") >>= with_release fault

  module _ (fault : ℕ → Outcome) (gpg : List ℕ → Dearmored) where
    abbrev on_paths : List ℕ → Option (List ℕ × List ℕ) → DiskStep HealError RepoHealResult
    on_paths distro none d = (d, err (unrecognized distro))
    on_paths distro (some paths) d =
        ((λ d. in_context not_fetched (fetch_repo_config fault d)) >>= λ repo.
        compare_and_heal fault gpg distro repo paths)
          d

    abbrev on_distro : Option (List ℕ) → DiskStep HealError RepoHealResult
    on_distro none d = (d, err no_distro)
    on_distro (some distro) d = on_paths distro (expected_repo_paths distro) d

    abbrev on_content : Option (List ℕ) → DiskStep HealError RepoHealResult
    on_content none d = (d, err no_os_release)
    on_content (some content) d = on_distro (detect_distro content) d

    -- `check_and_provision_repo_config`.
    unfoldable pub check_and_provision_repo_config : DiskStep HealError RepoHealResult
    unfolding fetch_repo_config detect_distro expected_repo_paths compare_and_heal read_to_string
    check_and_provision_repo_config = read_to_string fault (codes "/etc/os-release") >>= on_content

-- `RepoSyncState`; a time is in seconds.
pub record RepoSyncState : Type 0 where
  pub synced : Option Bool
  pub last_sync_at : Option ℕ

-- `new_shared_sync_state` and `update_sync_state`.
abbrev pub new_shared_sync_state : RepoSyncState
new_shared_sync_state = record { synced = none; last_sync_at = none }

unfoldable pub update_sync_state :
    ℕ → Result HealError RepoHealResult → RepoSyncState → RepoSyncState
update_sync_state now result s = record { synced = some (is_ok result); last_sync_at = some now }

abbrev sync_interval : ℕ
sync_interval = 6 * 60 * 60

abbrev pub sync_backoff : ℕ → ℕ
sync_backoff zero = 60
sync_backoff (suc zero) = 300
sync_backoff (suc (suc zero)) = 900
sync_backoff (suc (suc (suc n))) = 3600

-- The loop of `spawn_repo_config_sync_task` behind the sleep of the interval: the times of the syncs
-- and the state after each, from the results of the syncs, which take no time.
unfoldable pub sync_loop :
    ℕ → ℕ → RepoSyncState → List (Result HealError RepoHealResult) → List (ℕ × RepoSyncState)
unfolding update_sync_state
sync_loop now retry_idx s [] = []
sync_loop now retry_idx s (ok r ∷ rest) =
    let t = now + sync_interval in
    let s' = update_sync_state t (ok r) s in (t, s') ∷ sync_loop t 0 s' rest
sync_loop now retry_idx s (err e ∷ rest) =
    let t = now + sync_interval in
    let s' = update_sync_state t (err e) s in
    (t, s')
    ∷ sync_loop (t + sync_backoff retry_idx) (if ltb retry_idx 4 then suc retry_idx else retry_idx)
        s' rest

-- `spawn_repo_config_sync_task`: one sync at once, then the loop.
unfoldable pub spawn_repo_config_sync_task :
    ℕ → List (Result HealError RepoHealResult) → List (ℕ × RepoSyncState)
unfolding sync_loop update_sync_state
spawn_repo_config_sync_task now [] = []
spawn_repo_config_sync_task now (r ∷ rest) =
    let s = update_sync_state now r new_shared_sync_state in (now, s) ∷ sync_loop now 0 s rest
