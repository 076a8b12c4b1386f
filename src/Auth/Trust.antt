-- ===== src/Auth/Trust.antt =====
-- What the lists in memory are worth: each was signed by the pinned authority, or it has no serials
-- and is not enforced.
use mathlib.Core.Option.{none-ne-some, some-injective}
use mathlib.Core.Bool.{true≢false}
use linux_patch_api.Prelude.{
  ap, sym, ◌∙◌, ℕ, Bool, true, false, List, [], map, Option, none, some, ◌≡◌, refl, ◌⊎◌, inl, inr,
  arith, Option-cases, Bool-cases,
}
use linux_patch_api.Prelude.Result.{Result, ok, err}
use linux_patch_api.Auth.Crl.{
  CrlState, CrlStatus, valid, expired, invalid, X509, format_serial_hex, verified_state,
  load_crl_from_bytes, no_serials, der_or_raw, extract_pem_crl_der, extract_pem_cert_der, FileRead,
  absent, unreadable, contents, load_crl,
}
use linux_patch_api.Auth.Refresh.{
  verification_failed, same_status, RefreshError, Store, refresh_crl, health_check,
}

-- `Valid | Expired`.
abbrev pub is_enforced : CrlStatus → Bool
is_enforced valid = true
is_enforced expired = true
is_enforced _ = false

module _ (x : X509) (ca : List ℕ) where
  -- The authority's key verifies the list's signature.
  abbrev pub IsSigned : x.Crl → Type 0
  IsSigned crl =
      (key : x.Key) × (x.cert_key (der_or_raw x (extract_pem_cert_der x ca) ca) ≡ some key)
      × (x.verify_signature crl key ≡ true)

  -- The bytes are a list, as PEM or DER, that the authority signed.
  abbrev pub ReadsAs : List ℕ → x.Crl → Type 0
  ReadsAs bytes crl =
      (x.parse_crl (der_or_raw x (extract_pem_crl_der x bytes) bytes) ≡ some crl) × IsSigned crl

  -- The list holds exactly the serials of a signed one.
  abbrev pub Lists : CrlState → x.Crl → Type 0
  Lists s crl =
      (s.revoked_serials ≡ map format_serial_hex (x.revoked crl))
      × (s.next_update ≡ x.crl_next_update crl)

  abbrev pub IsTrusted : CrlState → Type 0
  IsTrusted s =
      ((is_enforced s.status ≡ false) × (s.revoked_serials ≡ []))
      ⊎ ((is_enforced s.status ≡ true) × ((crl : x.Crl) × IsSigned crl × Lists s crl))

  verified_state-IsTrusted :
      (now : ℕ) (mtime : Option ℕ) (crl : x.Crl)
      → IsSigned crl
      → IsTrusted (verified_state x now mtime crl)
  unfolding verified_state
  verified_state-IsTrusted now mtime crl h = inr (ground arith, (crl, h, (refl, refl)))

  unsigned :
      (bytes : List ℕ) (crl : x.Crl) (key : x.Key) (c : x.Crl)
      → x.parse_crl (der_or_raw x (extract_pem_crl_der x bytes) bytes) ≡ some crl
      → x.cert_key (der_or_raw x (extract_pem_cert_der x ca) ca) ≡ some key
      → x.verify_signature crl key ≡ false
      → ¬ ReadsAs bytes c
  unsigned bytes crl key c p q v (p', (key', q', v')) = true≢false (
      sym v'
      ∙ ap (λ d. x.verify_signature d key') (some-injective _ _ (sym p' ∙ p))
      ∙ ap (x.verify_signature crl) (some-injective _ _ (sym q' ∙ q))
      ∙ v)

  verdict :
      (now : ℕ) (bytes : List ℕ)
      → (((crl : x.Crl) → ¬ ReadsAs bytes crl)
          × ((mtime : Option ℕ)
              → load_crl_from_bytes x now bytes mtime ca ≡ no_serials now invalid mtime))
        ⊎ ((crl : x.Crl) × ReadsAs bytes crl
            × ((mtime : Option ℕ)
                → load_crl_from_bytes x now bytes mtime ca ≡ verified_state x now mtime crl))
  unfolding load_crl_from_bytes
  verdict now bytes =
      elim (Option-cases (x.parse_crl (der_or_raw x (extract_pem_crl_der x bytes) bytes))) [
        | inl p ↦ inl (λ c r. none-ne-some _ (sym p ∙ r.0), λ m. rw (load_crl_from_bytes, p))
        | inr (crl, p) ↦
            elim (Option-cases (x.cert_key (der_or_raw x (extract_pem_cert_der x ca) ca))) [
              | inl q ↦
                  inl (λ c r. none-ne-some _ (sym q ∙ r.1.1), λ m. rw (load_crl_from_bytes, p, q))
              | inr (key, q) ↦ elim (Bool-cases (x.verify_signature crl key)) [
                | inl v ↦ inr (crl, (p, (key, q, v)), λ m. rw (load_crl_from_bytes, p, q, v))
                | inr v ↦ inl (
                  λ c r. unsigned bytes crl key c p q v r,
                  λ m. rw (load_crl_from_bytes, p, q, v),
                )
              ]
            ]
      ]

  -- Loading yields a signed list's state, or an invalid state without serials if there is no signed
  -- list in the bytes.
  pub load_crl_from_bytes-outcome :
      (now : ℕ) (bytes : List ℕ) (mtime : Option ℕ)
      → (((crl : x.Crl) → ¬ ReadsAs bytes crl)
          × (load_crl_from_bytes x now bytes mtime ca ≡ no_serials now invalid mtime))
        ⊎ ((crl : x.Crl) × ReadsAs bytes crl
            × (load_crl_from_bytes x now bytes mtime ca ≡ verified_state x now mtime crl))
  load_crl_from_bytes-outcome now bytes mtime = elim (verdict now bytes) [
    | inl (n, e) ↦ inl (n, e mtime)
    | inr (crl, h, e) ↦ inr (crl, h, e mtime)
  ]

  load_crl_from_bytes-IsTrusted :
      (now : ℕ) (bytes : List ℕ) (mtime : Option ℕ)
      → IsTrusted (load_crl_from_bytes x now bytes mtime ca)
  load_crl_from_bytes-IsTrusted now bytes mtime =
      elim (load_crl_from_bytes-outcome now bytes mtime) [
        | inl (n, e) ↦ rw e (inl (refl, refl))
        | inr (crl, h, e) ↦ rw e (verified_state-IsTrusted now mtime crl h.1)
      ]

  pub load_crl-IsTrusted :
      (now : ℕ) (file : FileRead) (mtime : Option ℕ) → IsTrusted (load_crl x now file mtime ca)
  unfolding load_crl
  load_crl-IsTrusted now (contents bytes) mtime = load_crl_from_bytes-IsTrusted now bytes mtime
  load_crl-IsTrusted now absent mtime = inl (refl, refl)
  load_crl-IsTrusted now unreadable mtime = inl (refl, refl)

  not_invalid :
      (now : ℕ) (mtime : Option ℕ) (crl : x.Crl)
      → same_status (verified_state x now mtime crl).status invalid ≡ false
  unfolding verified_state
  not_invalid now mtime crl = ground arith

  -- Nothing was fetched, or nothing signed, or it could not be saved.
  abbrev pub Fails : Result RefreshError (List ℕ) → Result RefreshError (Option ℕ) → Type 0
  Fails fetched saved =
      ((e : RefreshError) × (fetched ≡ err e))
      ⊎ ((e : RefreshError) × (saved ≡ err e))
      ⊎ ((body : List ℕ) × (fetched ≡ ok body) × ((crl : x.Crl) → ¬ ReadsAs body crl))

  abbrev pub RefreshOutcome :
      ℕ → Result RefreshError (List ℕ) → Result RefreshError (Option ℕ) → Store → Type 0
  RefreshOutcome now fetched saved s =
      (Fails fetched saved
        × ((e : RefreshError) × (refresh_crl x now ca fetched saved s ≡ (s, err e))))
      ⊎ ((body : List ℕ) × (mtime : Option ℕ) × (crl : x.Crl) × (fetched ≡ ok body)
          × ReadsAs body crl
          × (load_crl x now (contents body) mtime ca ≡ verified_state x now mtime crl)
          × (refresh_crl x now ca fetched saved s ≡ (
            record {
              file = contents body;
              file_mtime = mtime;
              shared = verified_state x now mtime crl;
            },
            ok tt,
          )))

  -- A refresh fails and changes nothing, if nothing was fetched or saved or it is not signed, or it
  -- puts a signed list into the file and into memory, and loading the file yields the same list.
  pub refresh_crl-outcome :
      (now : ℕ) (fetched : Result RefreshError (List ℕ)) (saved : Result RefreshError (Option ℕ))
      → (s : Store) → RefreshOutcome now fetched saved s
  unfolding refresh_crl load_crl verified_state
  refresh_crl-outcome now (err e) saved s = inl (inl (e, refl), (e, refl))
  refresh_crl-outcome now (ok body) (err f) s = elim (verdict now body) [
    | inl (n, e) ↦ inl (inr (inl (f, refl)), (verification_failed, rw (e none)))
    | inr (crl, h, e) ↦ inl (inr (inl (f, refl)), (f, rw (e none, not_invalid now none crl)))
  ]
  refresh_crl-outcome now (ok body) (ok mtime) s = elim (verdict now body) [
    | inl (n, e) ↦ inl (inr (inr (body, refl, n)), (verification_failed, rw (e none)))
    | inr (crl, h, e) ↦
        inr (body, mtime, crl, refl, h, e mtime, rw (e none, not_invalid now none crl))
  ]

  pub refresh_crl-IsTrusted :
      (now : ℕ) (fetched : Result RefreshError (List ℕ)) (saved : Result RefreshError (Option ℕ))
      → (s : Store) → IsTrusted s.shared
      → IsTrusted (refresh_crl x now ca fetched saved s).0.shared
  refresh_crl-IsTrusted now fetched saved s h = elim (refresh_crl-outcome now fetched saved s) [
    | inl (f, (e, p)) ↦ rw p h
    | inr (body, mtime, crl, q, k, l, p) ↦ rw p (verified_state-IsTrusted now mtime crl k.1)
  ]

  pub health_check-IsTrusted :
      (now : ℕ) (s : Store) → IsTrusted s.shared → IsTrusted (health_check x now ca s).shared
  unfolding health_check
  health_check-IsTrusted now s h =
      elim (Bool-cases
        (same_status s.shared.status (load_crl x now s.file s.file_mtime ca).status)) [
          | inl e ↦ rw e h
          | inr e ↦ rw e (load_crl-IsTrusted now s.file s.file_mtime)
        ]
