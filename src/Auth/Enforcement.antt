-- ===== src/Auth/Enforcement.antt =====
-- The agent with its two tasks on the revocation list, in any interleaving, and what its verifier
-- then decides: src/auth/crl.rs, src/auth/mtls.rs and the start-up of src/main.rs.
use mathlib.Core.Option.{some-injective}
use linux_patch_api.Prelude.{
  ℕ, List, any, list_eq, Option, none, some, ◌≡◌, refl, ◌⊎◌, inl, arith, if◌then◌else◌,
}
use linux_patch_api.Prelude.Result.{Result, ok, err}
use linux_patch_api.Auth.Crl.{
  CrlState, CrlStatus, valid, expired, missing, degraded, invalid, X509, no_serials, FileRead,
}
use linux_patch_api.Auth.Mtls.{revoked, verify_client_cert}
use linux_patch_api.Auth.Refresh.{
  RefreshError, Store, refresh_crl, health_check, start_up, fetch_if, proceed,
}
use linux_patch_api.Auth.Trust.{
  IsSigned, IsTrusted, load_crl-IsTrusted, refresh_crl-IsTrusted, health_check-IsTrusted,
}

-- A step of the two tasks, or of somebody who writes the file.
pub data Step (x : X509) (ca : List ℕ) : Store → Store → Type 0 where
  refreshed :
      (now : ℕ) (fetched : Result RefreshError (List ℕ)) (saved : Result RefreshError (Option ℕ))
      → (s : Store) → Step x ca s (refresh_crl x now ca fetched saved s).0
  rechecked : (now : ℕ) (s : Store) → Step x ca s (health_check x now ca s)
  file_changed :
      (file : FileRead) (mtime : Option ℕ) (s : Store)
      → Step x ca s (record s { file = file; file_mtime = mtime })

-- The states of an agent that has started.
pub data Started (x : X509) (ca : List ℕ) : Store → Type 0 where
  started :
      (now : ℕ) (manager : Option (Result RefreshError (List ℕ) × Result RefreshError (Option ℕ)))
      → (file : FileRead) (mtime : Option ℕ) (s : Store)
      → start_up x now ca manager
          (record { file = file; file_mtime = mtime; shared = no_serials now missing none })
        ≡ some s
      → Started x ca s
  then_step : (s t : Store) → Started x ca s → Step x ca s t → Started x ca t

module _ (x : X509) (ca : List ℕ) where
  fetch_if-IsTrusted :
      (now : ℕ) (manager : Option (Result RefreshError (List ℕ) × Result RefreshError (Option ℕ)))
      → (s : Store) → IsTrusted x ca s.shared
      → IsTrusted x ca (fetch_if x now ca manager s).shared
  unfolding fetch_if
  fetch_if-IsTrusted now none s h = h
  fetch_if-IsTrusted now (some answers) s h = refresh_crl-IsTrusted x ca now answers.0 answers.1 s h

  Step-IsTrusted : (s t : Store) → Step x ca s t → IsTrusted x ca s.shared → IsTrusted x ca t.shared
  Step-IsTrusted _ _ (refreshed now fetched saved s) h =
      refresh_crl-IsTrusted x ca now fetched saved s h
  Step-IsTrusted _ _ (rechecked now s) h = health_check-IsTrusted x ca now s h
  Step-IsTrusted _ _ (file_changed file mtime s) h = h

  proceed-IsTrusted :
      (now : ℕ) (manager : Option (Result RefreshError (List ℕ) × Result RefreshError (Option ℕ)))
      → (s loaded t : Store) (status : CrlStatus) → IsTrusted x ca s.shared
      → IsTrusted x ca loaded.shared
      → proceed x now ca manager s loaded status ≡ some t
      → IsTrusted x ca t.shared
  unfolding proceed
  proceed-IsTrusted now manager s loaded t invalid h k e = grind arith
  proceed-IsTrusted now manager s loaded t valid h k e = rw (← some-injective _ _ e) k
  proceed-IsTrusted now manager s loaded t expired h k e =
      rw (← some-injective _ _ e) (fetch_if-IsTrusted now manager loaded k)
  proceed-IsTrusted now manager s loaded t missing h k e =
      rw (← some-injective _ _ e) (fetch_if-IsTrusted now manager s h)
  proceed-IsTrusted now manager s loaded t degraded h k e = rw (← some-injective _ _ e) h

  -- In every state of a started agent the list in memory is a signed one, with exactly its serials,
  -- or it is not enforced and has none.
  pub Started-IsTrusted : (s : Store) → Started x ca s → IsTrusted x ca s.shared
  unfolding start_up
  Started-IsTrusted s (started now manager file mtime _ e) =
      proceed-IsTrusted now manager _ _ s _ (inl (refl, refl))
        (load_crl-IsTrusted x ca now file mtime) e
  Started-IsTrusted t (then_step s _ r k) = Step-IsTrusted s t k (Started-IsTrusted s r)

module _ (E : Type 0) (x : X509) (ca : List ℕ) where
  -- What becomes of a certificate that the chain validation accepted.
  abbrev pub Decision : List ℕ → List ℕ → CrlState → Type 0
  Decision cert serial s =
      let answer = verify_client_cert {E = E} x (ok tt) cert s in
      ((s.status ≡ invalid) × (answer ≡ err revoked))
      ⊎ (((s.status ≡ missing) ⊎ (s.status ≡ degraded)) × (answer ≡ ok tt))
      ⊎ ((crl : x.Crl) × IsSigned x ca crl
          × (answer ≡ (if any (list_eq serial) (x.revoked crl) then err revoked else ok tt)))
