-- ===== src/Enroll/Health/Converges.antt =====
-- The self-heal is done once it has repaired: src/enroll/repo_health.rs on what
-- src/enroll/provision.rs wrote. And the pace of the background task.
use linux_patch_api.Prelude.{
  ℕ, zero, suc, ◌+◌, ◌*◌, ◌≤◌, Bool, true, false, ◌&&◌, List, [], ◌∷◌, ◌++◌, list_eq, list_eq_refl,
  Option, none, some, ◌≡◌, refl, arith,
}
use linux_patch_api.Prelude.Result.{Result, ok, err, is_ok}
use linux_patch_api.Prelude.Text.{codes}
use linux_patch_api.Enroll.Answers.{RepoConfig}
use linux_patch_api.Enroll.Disk.{Disk, Outcome, done, tick, read_to_string}
use linux_patch_api.Enroll.Disk.Outcomes.{Leaves, weaken-Leaves}
use linux_patch_api.Enroll.Provision.Pem.{IsPlain}
use linux_patch_api.Enroll.Provision.Repo.{Dearmored, is_apt, sources_path, provision_repo_config}
use linux_patch_api.Enroll.Provision.Repo.Placed.{Has, provision_repo_config-Leaves}
use linux_patch_api.Enroll.Health.{
  RepoHealResult, already_configured, HealError, RepoSyncState, heal, holds, expected_key,
  compare_and_heal, sync_backoff, update_sync_state, sync_loop, spawn_repo_config_sync_task,
}

holds_same : (text : List ℕ) → list_eq text [] ≡ false → holds (some text) text ≡ true
holds_same [] h = ground arith
holds_same (c ∷ cs) h = list_eq_refl (c ∷ cs)

-- Every read succeeds.
abbrev pub Readable : (ℕ → Outcome) → Type 0
Readable fault = (n : ℕ) → fault n ≡ done

expected_key_lem :
    (distro : List ℕ) (repo : RepoConfig)
    → list_eq distro (codes "alpine") ≡ false
    → expected_key distro repo ≡ repo.gpg_public_key
unfolding expected_key
expected_key_lem distro repo h = rw h refl

matching :
    (distro : List ℕ) (repo : RepoConfig)
    → list_eq distro (codes "alpine") ≡ false
    → list_eq repo.sources_config [] ≡ false
    → list_eq repo.gpg_public_key [] ≡ false
    → (holds (some repo.sources_config) repo.sources_config
        && holds (some repo.gpg_public_key) (expected_key distro repo))
      ≡ true
matching distro repo h s k =
    rw
      (
        expected_key_lem distro repo h,
        holds_same repo.sources_config s,
        holds_same repo.gpg_public_key k,
      )
      refl

module _ (fault : ℕ → Outcome) (gpg : List ℕ → Dearmored) (readable : Readable fault) where
  heal-already :
      (repo : RepoConfig) (d : Disk) (matches : Bool)
      → matches ≡ true
      → heal fault gpg repo matches d ≡ (d, ok already_configured)
  heal-already repo d matches h = rw h refl

  compare_and_heal-already :
      (distro : List ℕ) (repo : RepoConfig) (sources keyring : List ℕ) (d : Disk)
      → list_eq distro (codes "alpine") ≡ false
      → list_eq repo.sources_config [] ≡ false
      → list_eq repo.gpg_public_key [] ≡ false
      → Has sources repo.sources_config d
      → Has keyring repo.gpg_public_key d
      → compare_and_heal fault gpg distro repo (sources, keyring) d
        ≡ (tick (tick d), ok already_configured)
  unfolding compare_and_heal read_to_string
  compare_and_heal-already distro repo sources keyring d not_alpine s k (ms, hs) (mk, hk) =
      rw (readable d.clock, readable (suc d.clock), hs, hk)
        (heal-already repo (tick (tick d)) _ (matching distro repo not_alpine s k))

-- On a distribution of neither apt nor Alpine, once provisioning has succeeded, however the disk behaves
-- during it, the next check with the same answer of the manager reads both files back, finds them equal
-- to that answer and changes no file. The manager names the expected keyring, and neither text is empty;
-- the four paths that are written do not collide, and the files can be read.
pub compare_and_heal-converges :
    (fault fault' : ℕ → Outcome) (gpg : List ℕ → Dearmored) (repo : RepoConfig)
    (dir : Option (List ℕ)) (sources : List ℕ) (before : Disk)
    → list_eq repo.distro_id (codes "alpine") ≡ false
    → is_apt repo.distro_id ≡ false
    → sources_path repo.distro_id ≡ some (dir, sources)
    → IsPlain repo.keyring_path
    → list_eq sources repo.keyring_path ≡ false
    → list_eq (sources ++ codes ".tmp") repo.keyring_path ≡ false
    → list_eq repo.sources_config [] ≡ false
    → list_eq repo.gpg_public_key [] ≡ false
    → Readable fault'
    → Leaves
        (λ _ d.
          compare_and_heal fault' gpg repo.distro_id repo (sources, repo.keyring_path) d
          ≡ (tick (tick d), ok already_configured))
        (λ d. Unit {0})
        (provision_repo_config fault gpg repo before)
compare_and_heal-converges fault fault' gpg repo dir sources before not_alpine not_apt located plain
      apart temp_apart s k readable =
    weaken-Leaves
      (λ _ d. Has sources repo.sources_config d × Has repo.keyring_path repo.gpg_public_key d)
      (λ _ d.
        compare_and_heal fault' gpg repo.distro_id repo (sources, repo.keyring_path) d
        ≡ (tick (tick d), ok already_configured))
      (λ d. Unit {0}) (λ d. Unit {0}) (provision_repo_config fault gpg repo before)
      (λ _ d (hs, hk).
        compare_and_heal-already fault' gpg readable repo.distro_id repo sources repo.keyring_path d
          not_alpine s k hs hk)
      (λ d u. tt)
      (provision_repo_config-Leaves fault gpg repo dir sources plain apart temp_apart before
        not_alpine not_apt located)

-- One entry for each result. From one sync to the next at least 6 hours pass, and at most 7; the state says when the last one was
-- and whether it succeeded.
abbrev Fails : Type 0
Fails = true ≡ false

abbrev pub Paced : ℕ → List (Result HealError RepoHealResult) → List (ℕ × RepoSyncState) → Type 0
Paced last [] [] = Unit {0}
Paced last [] (e ∷ es) = Fails
Paced last (r ∷ rs) [] = Fails
Paced last (r ∷ rs) ((t, s) ∷ es) =
    (last + 6 * 60 * 60 ≤ t)
    × (t ≤ last + 7 * 60 * 60)
    × (s ≡ record { synced = some (is_ok r); last_sync_at = some t })
    × Paced t rs es

sync_backoff-le : (n : ℕ) → sync_backoff n ≤ 3600
sync_backoff-le zero = omega arith
sync_backoff-le (suc zero) = omega arith
sync_backoff-le (suc (suc zero)) = omega arith
sync_backoff-le (suc (suc (suc n))) = omega arith

sync_loop-Paced :
    (last now retry_idx : ℕ) (s : RepoSyncState) (results : List (Result HealError RepoHealResult))
    → last ≤ now
    → now ≤ last + 3600
    → Paced last results (sync_loop now retry_idx s results)
unfolding sync_loop update_sync_state
sync_loop-Paced last now idx s [] l h = tt
sync_loop-Paced last now idx s (ok r ∷ rest) l h = (
  omega (arith, l),
  omega (arith, h),
  refl,
  sync_loop-Paced (now + 6 * 60 * 60) (now + 6 * 60 * 60) 0 _ rest (omega arith) (omega arith),
)
sync_loop-Paced last now idx s (err e ∷ rest) l h = (
  omega (arith, l),
  omega (arith, h),
  refl,
  sync_loop-Paced (now + 6 * 60 * 60) (now + 6 * 60 * 60 + sync_backoff idx) _ _ rest (omega arith)
      (omega (arith, sync_backoff-le idx)),
)

abbrev pub first_entry : List (ℕ × RepoSyncState) → Option (ℕ × RepoSyncState)
first_entry [] = none
first_entry (e ∷ es) = some e

abbrev pub later_entries : List (ℕ × RepoSyncState) → List (ℕ × RepoSyncState)
later_entries [] = []
later_entries (e ∷ es) = es

-- The task syncs at once, and then again and again, whatever each sync comes to: the next one is at
-- least 6 and at most 7 hours after the last, also behind failures, not counting what the syncs take.
-- After each the shared state says when it was and whether it succeeded.
pub spawn_repo_config_sync_task-Paced :
    (now : ℕ) (first : Result HealError RepoHealResult)
    (results : List (Result HealError RepoHealResult))
    → (first_entry (spawn_repo_config_sync_task now (first ∷ results))
        ≡ some (now, record { synced = some (is_ok first); last_sync_at = some now }))
      × Paced now results (later_entries (spawn_repo_config_sync_task now (first ∷ results)))
unfolding spawn_repo_config_sync_task update_sync_state
spawn_repo_config_sync_task-Paced now first results =
    (refl, sync_loop-Paced now now 0 _ results (omega arith) (omega arith))
