-- ===== src/Enroll/Run/Startup.antt =====
-- What `main` of src/main.rs makes of the certificates before the server starts.
use linux_patch_api.Prelude.{
  ℕ, Bool, true, false, List, Option, none, some, if◌then◌else◌, ◌≡◌, ◌⊎◌,
}
use linux_patch_api.Config.Certs.Usable.{is_usable}
use linux_patch_api.Prelude.Result.{Result, ok, err}
use linux_patch_api.Config.{AppConfig, TlsConfig, tls_config, enrollment_manager_url}
use linux_patch_api.Config.Certs.{CertStatus, valid, expiring_soon, CertError}

-- How the process goes on: an exit code, or the start of the server.
pub data ExitCode : Type 0 where
  clean error enrollment_in_progress : ExitCode

-- An enrolment with the URL of a manager happened or not, and then the end.
pub data Start : Type 0 where
  serve : (enrolled : Option (List ℕ)) → Start
  exit : (enrolled : Option (List ℕ)) → ExitCode → Start

-- Whether an enrolment with this manager would succeed, and whether the configuration can be loaded again
-- behind it.
module _ (enroll : List ℕ → Bool) (reloads : Bool) where
  abbrev renew_with : Option (List ℕ) → Start
  renew_with none = exit none error
  renew_with (some url) = if enroll url then exit (some url) clean else exit (some url) error

  -- `--renew-certs`.
  unfoldable pub renew_certs : Option (List ℕ) → Result CertError CertStatus → Start
  renew_certs url (ok valid) = exit none clean
  renew_certs url (ok status) = renew_with url
  renew_certs url (err e) = exit none error

  -- `--enroll`.
  abbrev enroll_flag : List ℕ → Start
  enroll_flag url = if enroll url then exit (some url) clean else exit (some url) error

  abbrev reloaded : List ℕ → Bool → Start
  reloaded url true = serve (some url)
  reloaded url false = exit (some url) error

  abbrev auto_enroll : Option (List ℕ) → Start
  auto_enroll none = exit none clean
  auto_enroll (some url) =
      if enroll url then reloaded url reloads else exit (some url) enrollment_in_progress

  -- The start with TLS.
  unfoldable pub check_certs : Option (List ℕ) → Result CertError CertStatus → Start
  check_certs url (ok valid) = serve none
  check_certs url (ok (expiring_soon n)) = serve none
  check_certs url (ok status) = auto_enroll url
  check_certs url (err e) = exit none error

  abbrev on_tls : Option (List ℕ) → Result CertError CertStatus → Option TlsConfig → Start
  on_tls url status none = serve none
  on_tls url status (some t) = check_certs url status

  -- The three modes, in their order, of the loaded configuration.
  unfoldable pub start_mode :
      (renew : Bool) (enroll_url : Option (List ℕ))
      → AppConfig
      → Result CertError CertStatus
      → Start
  unfolding renew_certs check_certs tls_config enrollment_manager_url
  start_mode true enroll_url c status = renew_certs (enrollment_manager_url c) status
  start_mode false (some url) c status = enroll_flag url
  start_mode false none c status = on_tls (enrollment_manager_url c) status (tls_config c)

  -- Why the server may start.
  abbrev pub IsReady : AppConfig → Result CertError CertStatus → Option (List ℕ) → Type 0
  IsReady c status enrolled =
      ((tls_config c ≡ none) × (enrolled ≡ none))
      ⊎ (((s : CertStatus) × (status ≡ ok s) × (is_usable s ≡ true) × (enrolled ≡ none))
          ⊎ ((url : List ℕ) × ((s : CertStatus) × (status ≡ ok s) × (is_usable s ≡ false))
              × (enrollment_manager_url c ≡ some url)
              × (enroll url ≡ true)
              × (enrolled ≡ some url)))

  -- What must hold where the server starts.
  abbrev pub Serves : (Option (List ℕ) → Type 0) → Start → Type 0
  Serves P (serve enrolled) = P enrolled
  Serves P (exit enrolled code) = Unit {0}

  module _ (c : AppConfig) where
    -- The certificates could be examined and cannot be used.
    abbrev Unusable : Result CertError CertStatus → Type 0
    Unusable status = (s : CertStatus) × (status ≡ ok s) × (is_usable s ≡ false)
