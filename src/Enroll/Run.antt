-- ===== src/Enroll/Run.antt =====
-- The whole enrolment: `run_enrollment` of src/enroll/mod.rs, with `append_manager_to_whitelist` of
-- src/enroll/provision.rs and the start of the server on its outcome in src/main.rs.
pub mod Token
pub mod Admission
pub mod Steps
pub mod Completion
pub mod Startup
mod Examples
use linux_patch_api.Prelude.{
  ℕ, Bool, true, false, List, [], ◌∷◌, list_eq, Option, none, some, if◌then◌else◌,
}
use linux_patch_api.Prelude.Result.{Result, ok, err}
use linux_patch_api.Prelude.Text.{codes, trim}
use linux_patch_api.Prelude.Lines.{contains}
use linux_patch_api.Whitelist.Entry.{IpAddr}
use linux_patch_api.Whitelist.Manager.{Manager, ManagerError, Yaml, reload, append_entry}
use linux_patch_api.Config.{
  AppConfig, EnrollmentConfig, TlsConfig, tls_config, token_saved, token_cleared, write_config,
}
use linux_patch_api.Enroll.Answers.{
  RepoConfig, PkiBundle, EnrollmentStatusResponse, Answer, RequestError, conflict, server_error,
  unexpected, register,
}
use linux_patch_api.Enroll.Client.{Event, PollError, Polled, poll_for_approval}
use linux_patch_api.Enroll.Disk.{Disk, Outcome, DiskStep}
use linux_patch_api.Enroll.Provision.{TlsPaths, ProvisionError, provision_pki_bundle}
use linux_patch_api.Enroll.Provision.Repo.{Dearmored, provision_repo_config}
use linux_patch_api.Enroll.Health.{FetchError}

-- What appending the manager to the whitelist fails with.
pub data WhitelistError : Type 0 where
  empty_ip : WhitelistError
  not_initialized not_appended : ManagerError → WhitelistError
  not_watched : WhitelistError

-- The file of the whitelist and the libraries around it: whether the watcher can be set up, the lock be
-- taken and the new file be written.
pub record Access : Type 0 where
  pub yaml : Yaml
  pub lookup : List ℕ → Option (List IpAddr)
  pub watched : Bool
  pub locked : Bool
  pub written : Bool

abbrev appended :
    Manager × Result ManagerError (Unit {0}) → Option (List ℕ) × Result WhitelistError (Unit {0})
appended (m, ok u) = (m.file, ok tt)
appended (m, err e) = (m.file, err (not_appended e))

abbrev initialized :
    Access
    → List ℕ
    → Manager × Result ManagerError (Unit {0})
    → Option (List ℕ) × Result WhitelistError (Unit {0})
initialized x ip (m, err e) = (m.file, err (not_initialized e))
initialized x ip (m, ok u) =
    if x.watched
    then appended (append_entry x.yaml x.lookup x.locked x.written ip m)
    else (m.file, err not_watched)

-- `append_manager_to_whitelist`, with `WhitelistManager::new`; the state is the file, if it exists.
unfoldable pub append_manager_to_whitelist :
    Access → List ℕ → Option (List ℕ) → Option (List ℕ) × Result WhitelistError (Unit {0})
unfolding reload append_entry trim
append_manager_to_whitelist x manager_ip file =
    let ip = trim manager_ip in
    if list_eq ip []
    then (file, err empty_ip)
    else initialized x ip (reload x.yaml x.lookup (record { entries = []; file = file }))

-- The agent: its configuration in memory, the disk, and the whitelist file.
pub record Agent : Type 0 where
  pub config : AppConfig
  pub disk : Disk
  pub whitelist : Option (List ℕ)

pub data RunError : Type 0 where
  not_identified already_registered no_manager_ip : RunError
  not_registered : RequestError → RunError
  not_polled : PollError → RunError
  not_provisioned not_configured : ProvisionError → RunError
  not_whitelisted : WhitelistError → RunError

-- All that the enrolment meets: the identity of the host, if it can be collected, the manager, its
-- address, the disk and the programs.
pub record World : Type 0 where
  pub identity : Option (List ℕ)
  pub post : List ℕ → Answer
  pub token_of : List ℕ → Option (List ℕ)
  pub status_of : List ℕ → Option EnrollmentStatusResponse
  pub poll : List ℕ → ℕ → Event
  pub listening : Bool
  pub fetch : DiskStep FetchError RepoConfig
  pub manager_ip : Option (List ℕ)
  pub fault : ℕ → Outcome
  pub gpg : List ℕ → Dearmored
  pub to_yaml : AppConfig → Option (List ℕ)
  pub access : Access

abbrev pub Run : Type 0
Run = Agent → Agent × Result RunError (Unit {0})

abbrev pub polling_token : AppConfig → List ℕ
polling_token c = elim c.enrollment [ none ↦ [] | some e ↦ e.polling_token ]

abbrev polling_interval_seconds : AppConfig → ℕ
polling_interval_seconds c = elim c.enrollment [ none ↦ 60 | some e ↦ e.polling_interval_seconds ]

abbrev max_poll_attempts : AppConfig → ℕ
max_poll_attempts c = elim c.enrollment [ none ↦ 1440 | some e ↦ e.max_poll_attempts ]

abbrev paths_of : Option TlsConfig → Option TlsPaths
paths_of none = none
paths_of (some t) = some (record {
  ca_cert = t.ca_cert;
  server_cert = t.server_cert;
  server_key = t.server_key;
  crl_path = t.crl_path;
})

module _ (w : World) (config_path : List ℕ) where
  -- The configuration in memory, and its file, whether or not it can be written.
  abbrev pub persist : AppConfig → Agent → Agent
  persist c a = record a {
    config = c;
    disk = (write_config w.fault w.to_yaml config_path c a.disk).0;
  }

  -- `err_str.contains("ENROLLMENT_CONFLICT")`: in the text of the error, or in a body that it shows.
  abbrev names_conflict : Option (List ℕ) → Bool
  names_conflict none = false
  names_conflict (some body) = contains body (codes "ENROLLMENT_CONFLICT")

  unfoldable pub request_error : RequestError → RunError
  request_error conflict = already_registered
  request_error (server_error status body) =
      if names_conflict body then already_registered else not_registered (server_error status body)
  request_error (unexpected status body) =
      if names_conflict body then already_registered else not_registered (unexpected status body)
  request_error e = not_registered e

  unfoldable pub registered : Result RequestError (List ℕ) → Result RunError (List ℕ)
  unfolding request_error
  registered (ok token) = ok token
  registered (err e) = err (request_error e)

  -- Phase 1: the saved token, or a new one.
  unfoldable pub obtain_token : AppConfig → Result RunError (List ℕ)
  unfolding register registered
  obtain_token c =
      if list_eq (polling_token c) []
      then elim w.identity [
        | none ↦ err not_identified
        | some host ↦ registered (register w.token_of (w.post host))
      ]
      else ok (polling_token c)

  -- Phase 3 from its end: the token is cleared.
  abbrev pub finish : Run
  finish a = (persist (token_cleared a.config) a, ok tt)

  abbrev pub whitelisted : Option (List ℕ) × Result WhitelistError (Unit {0}) → Run
  whitelisted (file, ok u) a = finish (record a { whitelist = file })
  whitelisted (file, err e) a = (record a { whitelist = file }, err (not_whitelisted e))

  abbrev pub add_manager : Option (List ℕ) → Run
  add_manager none a = (a, err no_manager_ip)
  add_manager (some ip) a = whitelisted (append_manager_to_whitelist w.access ip a.whitelist) a

  abbrev pub configured : Disk × Result ProvisionError (Unit {0}) → Run
  configured (d, ok u) a = add_manager w.manager_ip (record a { disk = d })
  configured (d, err e) a = (record a { disk = d }, err (not_configured e))

  -- The fallback: whatever fails there, the enrolment goes on.
  abbrev pub fetched : Disk × Result FetchError RepoConfig → Run
  fetched (d, ok repo) a =
      add_manager w.manager_ip (record a { disk = (provision_repo_config w.fault w.gpg repo d).0 })
  fetched (d, err e) a = add_manager w.manager_ip (record a { disk = d })

  abbrev pub configure : Option RepoConfig → Run
  configure (some repo) a = configured (provision_repo_config w.fault w.gpg repo a.disk) a
  configure none a = fetched (w.fetch a.disk) a

  abbrev pub provisioned : PkiBundle → Disk × Result ProvisionError (Unit {0}) → Run
  provisioned b (d, ok u) a = configure b.repo_config (record a { disk = d })
  provisioned b (d, err e) a = (record a { disk = d }, err (not_provisioned e))

  abbrev pub provision : PkiBundle → Agent → Disk × Result ProvisionError (Unit {0})
  provision b a =
      provision_pki_bundle w.fault b.ca_crt b.server_crt b.server_key b.crl_pem
        (paths_of (tls_config a.config)) a.disk

  abbrev pub polled : Result PollError PkiBundle → Run
  polled (ok b) a = provisioned b (provision b a) a
  polled (err e) a = (a, err (not_polled e))

  abbrev pub poll_with : List ℕ → AppConfig → Result PollError PkiBundle
  poll_with token c =
      (poll_for_approval w.status_of (w.poll token) w.listening (polling_interval_seconds c)
        (max_poll_attempts c)).result

  -- The token is saved, then phase 2.
  abbrev pub with_token : Result RunError (List ℕ) → Run
  with_token (err e) a = (a, err e)
  with_token (ok token) a =
      let c = token_saved token a.config in polled (poll_with token c) (persist c a)

  unfoldable pub run_enrollment : Run
  unfolding obtain_token poll_for_approval provision_pki_bundle provision_repo_config
      append_manager_to_whitelist write_config token_saved token_cleared tls_config
  run_enrollment a = with_token (obtain_token a.config) a
