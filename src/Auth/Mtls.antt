-- ===== src/Auth/Mtls.antt =====
-- The decision on a client certificate: src/auth/mtls.rs.
pub mod Revocation
use linux_patch_api.Prelude.{ℕ, Bool, false, List, Option, none, some, if◌then◌else◌}
use linux_patch_api.Prelude.Result.{Result, ok, err}
use linux_patch_api.Auth.Crl.{
  CrlState, valid, expired, missing, degraded, invalid, X509, is_revoked, cert_serial_hex,
}

-- The error `InvalidCertificate(Revoked)`, and those that the inner verifier returns.
pub data CertError (E : Type 0) : Type 0 where
  revoked : CertError E
  inner_error : E → CertError E

abbrev pub revoked_serial : Option (List ℕ) → CrlState → Bool
revoked_serial none s = false
revoked_serial (some serial) s = is_revoked serial s

-- The part of `verify_client_cert` behind the inner verifier.
unfoldable pub check_revocation :
    {E : Type 0} → X509 → List ℕ → CrlState → Result (CertError E) (Unit {0})
unfolding is_revoked cert_serial_hex
check_revocation x cert s = elim s.status [
  | valid ↦ if revoked_serial (cert_serial_hex x cert) s then err revoked else ok tt
  | expired ↦ if revoked_serial (cert_serial_hex x cert) s then err revoked else ok tt
  | missing ↦ ok tt
  | degraded ↦ ok tt
  | invalid ↦ err revoked
]

-- `CrlAwareVerifier::verify_client_cert`, given what the inner verifier says.
unfoldable pub verify_client_cert :
    {E : Type 0} → X509 → Result E (Unit {0}) → List ℕ → CrlState → Result (CertError E) (Unit {0})
unfolding check_revocation
verify_client_cert x (err e) cert s = err (inner_error e)
verify_client_cert x (ok _) cert s = check_revocation x cert s
