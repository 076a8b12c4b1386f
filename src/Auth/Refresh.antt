-- ===== src/Auth/Refresh.antt =====
-- The tasks that keep the revocation list fresh: src/auth/crl.rs. What the network and the file
-- system answer are arguments.
use linux_patch_api.Prelude.{
  ℕ, zero, suc, ◌+◌, ◌*◌, ltb, Bool, true, false, List, [], ◌∷◌, Option, none, some, if◌then◌else◌,
}
use linux_patch_api.Prelude.Result.{Result, ok, err}
use linux_patch_api.Auth.Crl.{
  CrlState, CrlStatus, valid, expired, missing, invalid, degraded, X509, FileRead, contents,
  load_crl_from_bytes, load_crl,
}

-- The errors of `refresh_crl`, one for each of its messages.
pub data RefreshError : Type 0 where
  bad_ca_cert client_failed request_failed body_failed : RefreshError
  http_status : ℕ → RefreshError
  verification_failed directory_failed create_failed write_failed rename_failed : RefreshError

-- The list's file with its time, and the state that the verifier reads.
pub record Store : Type 0 where
  pub file : FileRead
  pub file_mtime : Option ℕ
  pub shared : CrlState

-- `PartialEq` of `CrlStatus`.
abbrev pub same_status : CrlStatus → CrlStatus → Bool
same_status valid valid = true
same_status expired expired = true
same_status missing missing = true
same_status invalid invalid = true
same_status degraded degraded = true
same_status _ _ = false

-- The new list is put in place: `rename`, and the swap of the shared state.
abbrev pub install : List ℕ → Option ℕ → CrlState → Store
install body mtime state = record {
  file = contents body;
  file_mtime = mtime;
  shared = record state { crl_mtime = mtime };
}

-- `refresh_crl`, given the body that the manager sends or the error in front of it, and the time of
-- the file written or the error in writing it.
unfoldable pub refresh_crl :
    X509
    → ℕ
    → List ℕ
    → Result RefreshError (List ℕ)
    → Result RefreshError (Option ℕ)
    → Store
    → Store × Result RefreshError (Unit {0})
unfolding load_crl_from_bytes
refresh_crl x now ca (err e) saved s = (s, err e)
refresh_crl x now ca (ok body) saved s =
    let new_state = load_crl_from_bytes x now body none ca in
    if same_status new_state.status invalid
    then (s, err verification_failed)
    else elim saved [ err e ↦ (s, err e) | ok mtime ↦ (install body mtime new_state, ok tt) ]

-- One round of the loop of `spawn_crl_health_task`.
unfoldable pub health_check : X509 → ℕ → List ℕ → Store → Store
unfolding load_crl
health_check x now ca s =
    let new_state = load_crl x now s.file s.file_mtime ca in
    if same_status s.shared.status new_state.status then s else record s { shared = new_state }

-- The interval and the delays of `spawn_crl_refresh_task`, in seconds.
abbrev pub interval : ℕ
interval = 12 * 60 * 60

abbrev pub backoff : ℕ → ℕ
backoff zero = 60
backoff (suc zero) = 300
backoff (suc (suc zero)) = 900
backoff (suc (suc (suc n))) = 3600

-- The times at which the loop of `spawn_crl_refresh_task` fetches, from a time and a retry index,
-- for the outcomes of the fetches. A fetch takes no time.
unfoldable pub fetch_times : ℕ → ℕ → List Bool → List ℕ
fetch_times t retry_idx [] = []
fetch_times t retry_idx (true ∷ outcomes) = (t + interval) ∷ fetch_times (t + interval) 0 outcomes
fetch_times t retry_idx (false ∷ outcomes) =
    (t + interval)
    ∷ fetch_times (t + interval + backoff retry_idx)
        (if ltb retry_idx 4 then suc retry_idx else retry_idx) outcomes

-- The fetch of the start-up, if a manager is configured.
unfoldable pub fetch_if :
    X509
    → ℕ
    → List ℕ
    → Option (Result RefreshError (List ℕ) × Result RefreshError (Option ℕ))
    → Store
    → Store
unfolding refresh_crl
fetch_if x now ca none s = s
fetch_if x now ca (some answers) s = (refresh_crl x now ca answers.0 answers.1 s).0

-- The `match` of the start-up on the status of the list on disk, which `loaded` has in memory.
unfoldable pub proceed :
    X509
    → ℕ
    → List ℕ
    → Option (Result RefreshError (List ℕ) × Result RefreshError (Option ℕ))
    → Store
    → (loaded : Store) → CrlStatus
    → Option Store
unfolding fetch_if
proceed x now ca manager s loaded invalid = none
proceed x now ca manager s loaded valid = some loaded
proceed x now ca manager s loaded expired = some (fetch_if x now ca manager loaded)
proceed x now ca manager s loaded missing = some (fetch_if x now ca manager s)
proceed x now ca manager s loaded degraded = some s

-- The list in the start-up of `main`: none if the agent exits. The manager is what it and the file
-- system answer, if one is configured; the store is the disk with the default list in memory.
unfoldable pub start_up :
    X509
    → ℕ
    → List ℕ
    → Option (Result RefreshError (List ℕ) × Result RefreshError (Option ℕ))
    → Store
    → Option Store
unfolding load_crl proceed
start_up x now ca manager s =
    let initial = load_crl x now s.file s.file_mtime ca in
    proceed x now ca manager s (record s { shared = initial }) initial.status
