-- ===== src/Config/Certs/Usable.antt =====
-- When the server may start with its certificates: `validate_certs` of src/config/loader.rs.
use mathlib.Core.Bool.{true≢false}
use linux_patch_api.Prelude.{
  ℕ, ◌+◌, ◌*◌, Bool, true, false, ltb, Bool-cases, List, [], ◌∷◌, filter, not, Option, none, some,
  if◌then◌else◌, ◌≡◌, inl, inr, refl, arith,
}
use linux_patch_api.Prelude.Result.{Result, ok, err}
use linux_patch_api.Config.{AppConfig, TlsConfig, tls_config}
use linux_patch_api.Config.Certs.{
  CertStatus, valid, expiring_soon, key_mismatch, untrusted, Certificate, Files, Stop, ◌>>=◌, ◌>>◌,
  guard, threshold_days, require_files, load_certs, load_key, check_expiry, verify_ca_trust, checks,
  conclude, validate_certs, all_there, not_none, one_key, not_expired, with_cert, with_current_ca,
  with_key, with_server, with_ca, with_files,
}
use linux_patch_api.Config.Certs.Sound.{Sound, checks-Sound}

-- The status lets the server start with TLS.
abbrev pub is_usable : CertStatus → Bool
is_usable valid = true
is_usable (expiring_soon n) = true
is_usable _ = false

-- A check that stops never stops with such a status.
abbrev Refuses : {A : Type 0} → Result Stop A → Type 0
Refuses (ok a) = Unit {0}
Refuses (err (ok status)) = is_usable status ≡ false
Refuses (err (err e)) = Unit {0}

bind-Refuses :
    {A B : Type 0} (m : Result Stop A) (g : A → Result Stop B)
    → Refuses m
    → ((a : A) → Refuses (g a))
    → Refuses (m >>= g)
bind-Refuses (ok a) g hm hg = hg a
bind-Refuses (err (ok status)) g hm hg = hm
bind-Refuses (err (err e)) g hm hg = tt

module _ (f : Files) (now : ℕ) (t : TlsConfig) where
  all_there-Refuses : (ps : List (List ℕ)) → Refuses (all_there f now ps)
  all_there-Refuses [] = tt
  all_there-Refuses (p ∷ ps) = refl

  require_files-Refuses : Refuses (require_files f now t)
  unfolding require_files
  require_files-Refuses =
      all_there-Refuses
        (filter (λ p. not (f.exists p)) (t.ca_cert ∷ t.server_cert ∷ t.server_key ∷ []))

  not_none-Refuses : (path : List ℕ) (o : Option (List (List ℕ))) → Refuses (not_none f now path o)
  not_none-Refuses path none = tt
  not_none-Refuses path (some []) = refl
  not_none-Refuses path (some (c ∷ cs)) = tt

  load_certs-Refuses : (path : List ℕ) → Refuses (load_certs f now path)
  unfolding load_certs
  load_certs-Refuses path = not_none-Refuses path (f.certs path)

  one_key-Refuses : (path : List ℕ) (o : Option (Option (List ℕ))) → Refuses (one_key f now path o)
  one_key-Refuses path none = tt
  one_key-Refuses path (some none) = refl
  one_key-Refuses path (some (some key)) = tt

  load_key-Refuses : (path : List ℕ) → Refuses (load_key f now path)
  unfolding load_key
  load_key-Refuses path = one_key-Refuses path (f.private_key path)

  not_expired-Refuses :
      (path : List ℕ) (o : Option Certificate) → Refuses (not_expired f now path o)
  not_expired-Refuses path none = refl
  not_expired-Refuses path (some c) = elim (Bool-cases (ltb c.not_after now)) [
    | inl past ↦ rw past refl
    | inr current ↦ rw current tt
  ]

  check_expiry-Refuses : (path der : List ℕ) → Refuses (check_expiry f now path der)
  unfolding check_expiry
  check_expiry-Refuses path der = not_expired-Refuses path (f.parse_x509 der)

  guard-Refuses : (b : Bool) (s : CertStatus) → is_usable s ≡ false → Refuses (guard b s)
  guard-Refuses true s h = tt
  guard-Refuses false s h = h

  with_cert-Refuses :
      (ca server : List ℕ × List (List ℕ)) (key : List ℕ) (c : Certificate)
      → Refuses (with_cert f now ca server key c)
  with_cert-Refuses ca server key c =
      let trusted = verify_ca_trust f now server.0 ca.0 in
      bind-Refuses (guard (f.accepts (server.0 ∷ server.1) key) key_mismatch)
        (λ _. guard trusted untrusted >> ok c) (guard-Refuses _ key_mismatch refl)
        (λ _.
          bind-Refuses (guard trusted untrusted) (λ _. ok c) (guard-Refuses trusted untrusted refl)
            (λ _. tt))

  checks-Refuses : Refuses (checks f now t)
  unfolding checks
  checks-Refuses =
      bind-Refuses (require_files f now t) (with_files f now t) require_files-Refuses (λ _.
        bind-Refuses (load_certs f now t.ca_cert) (with_ca f now t) (load_certs-Refuses t.ca_cert)
          (λ ca.
            bind-Refuses (load_certs f now t.server_cert) (with_server f now t ca)
              (load_certs-Refuses t.server_cert)
              (λ server.
                bind-Refuses (load_key f now t.server_key) (with_key f now t ca server)
                  (load_key-Refuses t.server_key)
                  (λ key.
                    bind-Refuses (check_expiry f now t.ca_cert ca.0)
                      (with_current_ca f now t ca server key) (check_expiry-Refuses t.ca_cert ca.0)
                      (λ _.
                        bind-Refuses (check_expiry f now t.server_cert server.0)
                          (with_cert f now ca server key)
                          (check_expiry-Refuses t.server_cert server.0)
                          (with_cert-Refuses ca server key))))))

  abbrev pub status_of : ℕ → Certificate → CertStatus
  status_of days server =
      if ltb server.not_after (now + days * 86400) then expiring_soon server.not_after else valid

  conclude-Sound :
      (days : ℕ) (r : Result Stop Certificate) (status : CertStatus)
      → ((cert : Certificate) → r ≡ ok cert → Sound f now t cert)
      → Refuses r
      → conclude f now days r ≡ ok status
      → is_usable status ≡ true
      → (server : Certificate) × Sound f now t server × (status ≡ status_of days server)
  conclude-Sound days (ok cert) status sound refuses e u =
      (cert, sound cert refl, ground (arith, e))
  conclude-Sound days (err (ok s)) status sound refuses e u =
      absurd (true≢false (ground (arith, e, u, refuses)))
  conclude-Sound days (err (err x)) status sound refuses e u =
      absurd (true≢false (ground (arith, e)))

on_tls-Sound :
    (f : Files) (now : ℕ) (c : AppConfig) (t : TlsConfig) (status : CertStatus)
    → tls_config c ≡ some t
    → validate_certs f now c ≡ ok status
    → conclude f now (threshold_days c.enrollment) (checks f now t) ≡ ok status
unfolding validate_certs
on_tls-Sound f now c t status e h = rw (validate_certs, e) at h

-- With TLS enabled, a status that lets the server start means that the three files exist and can be
-- read, that neither first certificate is past its end, that the library accepts the key with the
-- server's certificates, and that the server's issuer has the name of the authority; and it says that
-- the certificate ends soon exactly if it ends within the days of the threshold.
pub validate_certs-Sound :
    (f : Files) (now : ℕ) (c : AppConfig) (t : TlsConfig) (status : CertStatus)
    → tls_config c ≡ some t
    → validate_certs f now c ≡ ok status
    → is_usable status ≡ true
    → (server : Certificate) × Sound f now t server
      × (status ≡ status_of f now t (threshold_days c.enrollment) server)
validate_certs-Sound f now c t status e h u =
    conclude-Sound f now t (threshold_days c.enrollment) (checks f now t) status
      (λ cert. checks-Sound f now t cert) (checks-Refuses f now t)
      (on_tls-Sound f now c t status e h) u
