-- ===== src/Config/Certs.antt =====
-- Whether the certificates can be used: `validate_certs` of src/config/loader.rs. Reading PEM files,
-- X.509 and the comparison of a key with a certificate are parameters; a time is in seconds.
pub mod Sound
pub mod Usable
use linux_patch_api.Prelude.{
  ℕ, ◌+◌, ◌*◌, Bool, true, false, ltb, List, [], ◌∷◌, filter, not, list_eq, Option, none, some,
  if◌then◌else◌,
}
use linux_patch_api.Prelude.Result.{Result, ok, err}
use linux_patch_api.Config.{AppConfig, TlsConfig, EnrollmentConfig, tls_config}

pub data CertStatus : Type 0 where
  valid key_mismatch untrusted : CertStatus
  expiring_soon : (not_after : ℕ) → CertStatus
  missing : (paths : List (List ℕ)) → CertStatus
  corrupt : (path : List ℕ) → CertStatus
  expired : (path : List ℕ) (not_after : ℕ) → CertStatus

-- A file that cannot be opened, or no proper PEM.
pub data CertError : Type 0 where
  unreadable : List ℕ → CertError

-- What is looked at in a certificate.
pub record Certificate : Type 0 where
  pub not_after : ℕ
  pub issuer : List ℕ
  pub subject : List ℕ

-- The certificate files and the libraries that read them: `rustls_pemfile`, `x509_parser` and `rustls`.
pub record Files : Type 0 where
  pub exists : List ℕ → Bool
  pub certs : List ℕ → Option (List (List ℕ))
  pub private_key : List ℕ → Option (Option (List ℕ))
  pub parse_x509 : List ℕ → Option Certificate
  pub accepts : List (List ℕ) → List ℕ → Bool

-- The status or the error that a check ends with.
abbrev pub Stop : Type 0
Stop = Result CertError CertStatus

infixl 5 ◌>>=◌ ◌>>◌
abbrev pub ◌>>=◌ : {A B : Type 0} → Result Stop A → (A → Result Stop B) → Result Stop B
ok a >>= f = f a
err e >>= f = err e

abbrev pub ◌>>◌ : {B : Type 0} → Result Stop (Unit {0}) → Result Stop B → Result Stop B
m >> k = m >>= λ _. k

abbrev pub guard : Bool → CertStatus → Result Stop (Unit {0})
guard true status = ok tt
guard false status = err (ok status)

abbrev pub threshold_days : Option EnrollmentConfig → ℕ
threshold_days none = 7
threshold_days (some e) = e.cert_renewal_threshold_days

module _ (f : Files) (now : ℕ) where
  abbrev pub all_there : List (List ℕ) → Result Stop (Unit {0})
  all_there [] = ok tt
  all_there (p ∷ ps) = err (ok (missing (p ∷ ps)))

  unfoldable pub require_files : TlsConfig → Result Stop (Unit {0})
  require_files t =
      all_there (filter (λ p. not (f.exists p)) (t.ca_cert ∷ t.server_cert ∷ t.server_key ∷ []))

  abbrev pub not_none : List ℕ → Option (List (List ℕ)) → Result Stop (List ℕ × List (List ℕ))
  not_none path none = err (err (unreadable path))
  not_none path (some []) = err (ok (corrupt path))
  not_none path (some (c ∷ cs)) = ok (c, cs)

  -- The first certificate of a file, and the others.
  unfoldable pub load_certs : List ℕ → Result Stop (List ℕ × List (List ℕ))
  load_certs path = not_none path (f.certs path)

  abbrev pub one_key : List ℕ → Option (Option (List ℕ)) → Result Stop (List ℕ)
  one_key path none = err (err (unreadable path))
  one_key path (some none) = err (ok (corrupt path))
  one_key path (some (some key)) = ok key

  unfoldable pub load_key : List ℕ → Result Stop (List ℕ)
  load_key path = one_key path (f.private_key path)

  abbrev pub not_expired : List ℕ → Option Certificate → Result Stop Certificate
  not_expired path none = err (ok (corrupt path))
  not_expired path (some c) =
      if ltb c.not_after now then err (ok (expired path c.not_after)) else ok c

  unfoldable pub check_expiry : List ℕ → List ℕ → Result Stop Certificate
  check_expiry path der = not_expired path (f.parse_x509 der)

  -- `verify_ca_trust`: the names only.
  unfoldable pub verify_ca_trust : List ℕ → List ℕ → Bool
  verify_ca_trust server_der ca_der = elim (f.parse_x509 server_der) [
    | none ↦ false
    | some server ↦ elim (f.parse_x509 ca_der) [
      | none ↦ false
      | some ca ↦ list_eq server.issuer ca.subject
    ]
  ]

  -- All checks, in their order, by what is known so far; the result is the certificate of the server.
  abbrev pub with_cert :
      List ℕ × List (List ℕ)
      → List ℕ × List (List ℕ)
      → List ℕ
      → Certificate
      → Result Stop Certificate
  with_cert ca server key cert =
      guard (f.accepts (server.0 ∷ server.1) key) key_mismatch
      >> (guard (verify_ca_trust server.0 ca.0) untrusted >> ok cert)

  abbrev pub with_current_ca :
      TlsConfig
      → List ℕ × List (List ℕ)
      → List ℕ × List (List ℕ)
      → List ℕ
      → Certificate
      → Result Stop Certificate
  with_current_ca t ca server key ca_cert =
      check_expiry t.server_cert server.0 >>= with_cert ca server key

  abbrev pub with_key :
      TlsConfig → List ℕ × List (List ℕ) → List ℕ × List (List ℕ) → List ℕ → Result Stop Certificate
  with_key t ca server key = check_expiry t.ca_cert ca.0 >>= with_current_ca t ca server key

  abbrev pub with_server :
      TlsConfig → List ℕ × List (List ℕ) → List ℕ × List (List ℕ) → Result Stop Certificate
  with_server t ca server = load_key t.server_key >>= with_key t ca server

  abbrev pub with_ca : TlsConfig → List ℕ × List (List ℕ) → Result Stop Certificate
  with_ca t ca = load_certs t.server_cert >>= with_server t ca

  abbrev pub with_files : TlsConfig → Unit {0} → Result Stop Certificate
  with_files t u = load_certs t.ca_cert >>= with_ca t

  unfoldable pub checks : TlsConfig → Result Stop Certificate
  unfolding require_files load_certs load_key check_expiry verify_ca_trust
  checks t = require_files t >>= with_files t

  abbrev pub conclude : ℕ → Result Stop Certificate → Result CertError CertStatus
  conclude days (err stop) = stop
  conclude days (ok cert) =
      if ltb cert.not_after (now + days * 86400)
      then ok (expiring_soon cert.not_after)
      else ok valid

  abbrev pub on_tls : Option EnrollmentConfig → Option TlsConfig → Result CertError CertStatus
  on_tls enrollment none = ok valid
  on_tls enrollment (some t) = conclude (threshold_days enrollment) (checks t)

  unfoldable pub validate_certs : AppConfig → Result CertError CertStatus
  unfolding checks tls_config
  validate_certs c = on_tls c.enrollment (tls_config c)
