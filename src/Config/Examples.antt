-- ===== src/Config/Examples.antt =====
-- Tests of the configuration and the certificates, and the theorem at a concrete input.
use linux_patch_api.Prelude.{true, false, [], ◌∷◌, none, some, ◌≡◌, refl}
use linux_patch_api.Prelude.Result.{ok}
use linux_patch_api.Prelude.Text.{codes}
use linux_patch_api.Config.{
  AppConfig, TlsConfig, default_enrollment, default_rate_limit, default_cache, tls_config,
  migrate_empty_strings, enrollment_manager_url,
}
use linux_patch_api.Config.Certs.{expiring_soon, Certificate, Files, threshold_days, validate_certs}
use linux_patch_api.Config.Certs.Sound.{Sound}
use linux_patch_api.Config.Certs.Usable.{status_of, validate_certs-Sound}

abbrev tls : TlsConfig
tls = record {
  enabled = true;
  port = 12443;
  ca_cert = codes "ca";
  server_cert = codes "server";
  server_key = codes "key";
  crl_path = codes "crl";
}

abbrev config : AppConfig
config = record {
  server = record { port = 12443; bind = codes "0.0.0.0"; timeout_seconds = 30 };
  tls = some tls;
  jobs = record {
    max_concurrent = 5;
    timeout_minutes = 30;
    storage_path = codes "/var/lib/linux_patch_api/jobs";
    max_queue_depth = 100;
  };
  logging = record {
    level = codes "info";
    journal_enabled = true;
    syslog_enabled = false;
    syslog_server = none;
    file_path = codes "/var/log/linux_patch_api/audit.log";
    retention_days = 30;
  };
  whitelist = none;
  package_manager = none;
  cache = default_cache;
  enrollment = some (record default_enrollment { manager_url = some [] });
  rate_limit = default_rate_limit;
}

-- An empty address is none.
no_manager : (enrollment_manager_url (migrate_empty_strings config)) ≡ none
unfolding enrollment_manager_url migrate_empty_strings
no_manager = refl

-- Each file holds one certificate, which ends at 1,000,000 seconds.
abbrev certificate : Certificate
certificate = record { not_after = 1_000_000; issuer = codes "CA"; subject = codes "CA" }

abbrev files : Files
files = record {
  exists = λ p. true;
  certs = λ p. some (p ∷ []);
  private_key = λ p. some (some p);
  parse_x509 = λ der. some certificate;
  accepts = λ certs key. true;
}

soon : validate_certs files 900_000 config ≡ ok (expiring_soon 1_000_000)
unfolding validate_certs
soon = refl

validate_certs-Sound_example :
    (server : Certificate) × Sound files 900_000 tls server
    × (expiring_soon 1_000_000
        ≡ status_of files 900_000 tls (threshold_days config.enrollment) server)
unfolding tls_config
validate_certs-Sound_example =
    validate_certs-Sound files 900_000 config tls (expiring_soon 1_000_000) refl soon refl
