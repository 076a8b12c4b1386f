-- ===== src/Config.antt =====
-- The configuration: src/config/loader.rs. Reading and writing YAML are parameters.
pub mod Certs
mod Examples
use linux_patch_api.Prelude.{
  ℕ, Bool, true, false, List, [], ◌∷◌, list_eq, Option, none, some, if◌then◌else◌,
}
use linux_patch_api.Prelude.Result.{Result, ok, err}
use linux_patch_api.Prelude.Text.{codes}
use linux_patch_api.Enroll.Disk.{Disk, Outcome, DiskError, DiskStep, fs_write, read_to_string}

pub record ServerConfig : Type 0 where
  pub port : ℕ
  pub bind : List ℕ
  pub timeout_seconds : ℕ

pub record TlsConfig : Type 0 where
  pub enabled : Bool
  pub port : ℕ
  pub ca_cert : List ℕ
  pub server_cert : List ℕ
  pub server_key : List ℕ
  pub crl_path : List ℕ

pub record JobsConfig : Type 0 where
  pub max_concurrent : ℕ
  pub timeout_minutes : ℕ
  pub storage_path : List ℕ
  pub max_queue_depth : ℕ

pub record RateLimitConfig : Type 0 where
  pub enabled : Bool
  pub destructive_per_minute : ℕ
  pub destructive_burst : ℕ
  pub read_per_minute : ℕ
  pub read_burst : ℕ

-- `RateLimitConfig::default`.
abbrev pub default_rate_limit : RateLimitConfig
default_rate_limit = record {
  enabled = true;
  destructive_per_minute = 20;
  destructive_burst = 10;
  read_per_minute = 120;
  read_burst = 30;
}

pub record LoggingConfig : Type 0 where
  pub level : List ℕ
  pub journal_enabled : Bool
  pub syslog_enabled : Bool
  pub syslog_server : Option (List ℕ)
  pub file_path : List ℕ
  pub retention_days : ℕ

pub record WhitelistConfig : Type 0 where
  pub path : List ℕ

pub record PackageManagerConfig : Type 0 where
  pub backend : List ℕ

pub record CacheConfig : Type 0 where
  pub stale_threshold_secs : ℕ

abbrev pub default_cache : CacheConfig
default_cache = record { stale_threshold_secs = 3600 }

pub record EnrollmentConfig : Type 0 where
  pub manager_url : Option (List ℕ)
  pub polling_token : List ℕ
  pub polling_interval_seconds : ℕ
  pub max_poll_attempts : ℕ
  pub report_interface : Option (List ℕ)
  pub report_ip : Option (List ℕ)
  pub cert_renewal_threshold_days : ℕ

-- `EnrollmentConfig::default`.
abbrev pub default_enrollment : EnrollmentConfig
default_enrollment = record {
  manager_url = none;
  polling_token = [];
  polling_interval_seconds = 60;
  max_poll_attempts = 1440;
  report_interface = none;
  report_ip = none;
  cert_renewal_threshold_days = 7;
}

abbrev non_empty : Option (List ℕ) → Option (List ℕ)
non_empty none = none
non_empty (some url) = if list_eq url [] then none else some url

-- `effective_manager_url`.
unfoldable pub effective_manager_url : EnrollmentConfig → Option (List ℕ)
effective_manager_url e = non_empty e.manager_url

pub record AppConfig : Type 0 where
  pub server : ServerConfig
  pub tls : Option TlsConfig
  pub jobs : JobsConfig
  pub logging : LoggingConfig
  pub whitelist : Option WhitelistConfig
  pub package_manager : Option PackageManagerConfig
  pub cache : CacheConfig
  pub enrollment : Option EnrollmentConfig
  pub rate_limit : RateLimitConfig

abbrev pub map_enrollment :
    (EnrollmentConfig → EnrollmentConfig) → Option EnrollmentConfig → Option EnrollmentConfig
map_enrollment f none = none
map_enrollment f (some e) = some (f e)

-- `migrate_empty_strings`.
unfoldable pub migrate_empty_strings : AppConfig → AppConfig
migrate_empty_strings c = record c {
  enrollment =
      map_enrollment (λ e. record e { manager_url = non_empty e.manager_url }) c.enrollment;
}

-- `tls_config`, `whitelist_path` and `enrollment_manager_url`.
unfoldable pub tls_config : AppConfig → Option TlsConfig
tls_config c = elim c.tls [ none ↦ none | some t ↦ if t.enabled then some t else none ]

unfoldable pub whitelist_path : AppConfig → List ℕ
whitelist_path c = elim c.whitelist [
  | none ↦ codes "/etc/linux_patch_api/whitelist.yaml"
  | some w ↦ w.path
]

unfoldable pub enrollment_manager_url : AppConfig → Option (List ℕ)
unfolding effective_manager_url
enrollment_manager_url c = elim c.enrollment [ none ↦ none | some e ↦ effective_manager_url e ]

pub data ConfigError : Type 0 where
  not_read not_parsed not_serialized : ConfigError
  not_written : DiskError → ConfigError

module _ (fault : ℕ → Outcome) (from_yaml : List ℕ → Option AppConfig) where
  abbrev parsed : Option AppConfig → Result ConfigError AppConfig
  parsed none = err not_parsed
  parsed (some c) = ok (migrate_empty_strings c)

  abbrev read : Option (List ℕ) → Result ConfigError AppConfig
  read none = err not_read
  read (some content) = parsed (from_yaml content)

  abbrev finished :
      Disk × Result ConfigError (Option (List ℕ)) → Disk × Result ConfigError AppConfig
  finished (d, ok content) = (d, read content)
  finished (d, err e) = (d, err e)

  -- `AppConfig::load`.
  unfoldable pub load : List ℕ → DiskStep ConfigError AppConfig
  unfolding read_to_string migrate_empty_strings
  load path d = finished (read_to_string fault path d)

abbrev pub with_token : List ℕ → Option EnrollmentConfig → EnrollmentConfig
with_token token none = record default_enrollment { polling_token = token }
with_token token (some e) = record e { polling_token = token }

-- The configuration in memory after a token was saved and after it was cleared.
unfoldable pub token_saved : List ℕ → AppConfig → AppConfig
token_saved token c = record c { enrollment = some (with_token token c.enrollment) }

unfoldable pub token_cleared : AppConfig → AppConfig
token_cleared c = record c {
  enrollment = map_enrollment (λ e. record e { polling_token = [] }) c.enrollment;
}

module _ (fault : ℕ → Outcome) (to_yaml : AppConfig → Option (List ℕ)) where
  abbrev wrapped : Disk × Result DiskError (Unit {0}) → Disk × Result ConfigError (Unit {0})
  wrapped (d, ok u) = (d, ok tt)
  wrapped (d, err e) = (d, err (not_written e))

  abbrev write_yaml : List ℕ → Option (List ℕ) → DiskStep ConfigError (Unit {0})
  write_yaml path none d = (d, err not_serialized)
  write_yaml path (some yaml) d = wrapped (fs_write fault path yaml d)

  -- What `save_polling_token` and `clear_polling_token` do with the file, of the new configuration.
  unfoldable pub write_config : List ℕ → AppConfig → DiskStep ConfigError (Unit {0})
  unfolding fs_write
  write_config path c d = write_yaml path (to_yaml c) d
