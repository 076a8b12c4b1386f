-- ===== src/Enroll/Run/Token.antt =====
-- The saved token and the steps of an enrolment: `run_enrollment` of src/enroll/mod.rs.
use linux_patch_api.Prelude.{
  ℕ, suc, true, false, list_eq_refl, List, [], list_eq, Option, none, some, ◌≡◌, refl,
}
use linux_patch_api.Prelude.Result.{Result, ok, err}
use linux_patch_api.Config.{
  AppConfig, EnrollmentConfig, load, migrate_empty_strings, write_config, token_saved,
  token_cleared, with_token as saved_in, map_enrollment,
}
use linux_patch_api.Enroll.Answers.{RepoConfig, PkiBundle}
use linux_patch_api.Enroll.Client.{PollError}
use linux_patch_api.Enroll.Disk.{
  Disk, Outcome, done, has_parent, store, mode_of, fs_write, read_to_string,
}
use linux_patch_api.Enroll.Provision.{ProvisionError}
use linux_patch_api.Enroll.Provision.Repo.{provision_repo_config}
use linux_patch_api.Enroll.Health.{FetchError}
use linux_patch_api.Enroll.Run.{
  Agent, World, RunError, not_polled, WhitelistError, polling_token, obtain_token, persist, finish,
  whitelisted, append_manager_to_whitelist, add_manager, configured, fetched, configure,
  provisioned, provision, polled, poll_with, run_enrollment,
}

token_of_cleared :
    (o : Option EnrollmentConfig)
    → elim (map_enrollment (λ e. record e { polling_token = [] }) o) [
      | none ↦ []
      | some e ↦ e.polling_token
    ]
      ≡ []
token_of_cleared none = refl
token_of_cleared (some e) = refl

polling_token-token_cleared : (c : AppConfig) → polling_token (token_cleared c) ≡ []
unfolding token_cleared
polling_token-token_cleared c = token_of_cleared c.enrollment

token_of_saved :
    (token : List ℕ) (o : Option EnrollmentConfig) → (saved_in token o).polling_token ≡ token
token_of_saved token none = refl
token_of_saved token (some e) = refl

polling_token-token_saved :
    (token : List ℕ) (c : AppConfig) → polling_token (token_saved token c) ≡ token
unfolding token_saved
polling_token-token_saved token c = token_of_saved token c.enrollment

-- The token in memory behind a success and behind a failure.
abbrev pub Ends : List ℕ → Agent × Result RunError (Unit {0}) → Type 0
Ends token (a, ok u) = polling_token a.config ≡ []
Ends token (a, err e) = polling_token a.config ≡ token

module _ (w : World) (config_path token : List ℕ) where
  finish-Ends : (a : Agent) → Ends token (finish w config_path a)
  finish-Ends a = polling_token-token_cleared a.config

  whitelisted-Ends :
      (r : Option (List ℕ) × Result WhitelistError (Unit {0})) (a : Agent)
      → polling_token a.config ≡ token
      → Ends token (whitelisted w config_path r a)
  whitelisted-Ends (file, ok u) a h = finish-Ends (record a { whitelist = file })
  whitelisted-Ends (file, err e) a h = h

  add_manager-Ends :
      (ip : Option (List ℕ)) (a : Agent)
      → polling_token a.config ≡ token
      → Ends token (add_manager w config_path ip a)
  add_manager-Ends none a h = h
  add_manager-Ends (some ip) a h =
      whitelisted-Ends (append_manager_to_whitelist w.access ip a.whitelist) a h

  configured-Ends :
      (r : Disk × Result ProvisionError (Unit {0})) (a : Agent)
      → polling_token a.config ≡ token
      → Ends token (configured w config_path r a)
  configured-Ends (d, ok u) a h = add_manager-Ends w.manager_ip (record a { disk = d }) h
  configured-Ends (d, err e) a h = h

  fetched-Ends :
      (r : Disk × Result FetchError RepoConfig) (a : Agent)
      → polling_token a.config ≡ token
      → Ends token (fetched w config_path r a)
  fetched-Ends (d, ok repo) a h =
      add_manager-Ends w.manager_ip
        (record a { disk = (provision_repo_config w.fault w.gpg repo d).0 }) h
  fetched-Ends (d, err e) a h = add_manager-Ends w.manager_ip (record a { disk = d }) h

  configure-Ends :
      (o : Option RepoConfig) (a : Agent)
      → polling_token a.config ≡ token
      → Ends token (configure w config_path o a)
  configure-Ends (some repo) a h =
      configured-Ends (provision_repo_config w.fault w.gpg repo a.disk) a h
  configure-Ends none a h = fetched-Ends (w.fetch a.disk) a h

  provisioned-Ends :
      (b : PkiBundle) (r : Disk × Result ProvisionError (Unit {0})) (a : Agent)
      → polling_token a.config ≡ token
      → Ends token (provisioned w config_path b r a)
  provisioned-Ends b (d, ok u) a h = configure-Ends b.repo_config (record a { disk = d }) h
  provisioned-Ends b (d, err e) a h = h

  polled-Ends :
      (r : Result PollError PkiBundle) (a : Agent)
      → polling_token a.config ≡ token
      → Ends token (polled w config_path r a)
  polled-Ends (ok b) a h = provisioned-Ends b (provision w config_path b a) a h
  polled-Ends (err e) a h = h

-- Once the token is known, the saved one or a new one, it is in memory until the enrolment has
-- succeeded, and no longer then. A failure of any later step keeps it, also a denial or a token that the
-- manager does not know.
run_enrollment-Ends :
    (w : World) (config_path token : List ℕ) (a : Agent)
    → obtain_token w config_path a.config ≡ ok token
    → Ends token (run_enrollment w config_path a)
unfolding run_enrollment
run_enrollment-Ends w config_path token a h = rw h (
    let c = token_saved token a.config in
    polled-Ends w config_path token (poll_with w config_path token c) (persist w config_path c a)
      (polling_token-token_saved token a.config))

-- A saved token is used again: the next run neither collects the identity nor registers, whatever the
-- world is then.
obtain_token-saved :
    (w : World) (config_path token : List ℕ) (c : AppConfig)
    → list_eq token [] ≡ false
    → polling_token c ≡ token
    → obtain_token w config_path c ≡ ok token
unfolding obtain_token
obtain_token-saved w config_path token c n h = rw (h, n) refl

-- What the file of the configuration holds behind a write that the disk does.
write_config-content :
    (fault : ℕ → Outcome) (to_yaml : AppConfig → Option (List ℕ)) (path yaml : List ℕ)
    (c : AppConfig) (d : Disk)
    → to_yaml c ≡ some yaml
    → fault d.clock ≡ done
    → has_parent d path ≡ true
    → (mode : ℕ) × ((write_config fault to_yaml path c d).0
        ≡ store path (some (record { content = yaml; mode = mode })) d)
unfolding write_config
write_config-content fault to_yaml path yaml c d y f p =
    (mode_of fault (d.files path), rw (y, fs_write, p, f) refl)

-- Such a file is loaded.
load-content :
    (fault : ℕ → Outcome) (from_yaml : List ℕ → Option AppConfig) (path yaml : List ℕ)
    (c : AppConfig) (mode : ℕ) (d : Disk)
    → from_yaml yaml ≡ some c
    → fault (suc d.clock) ≡ done
    → (load fault from_yaml path (store path (some (record { content = yaml; mode = mode })) d)).1
      ≡ ok (migrate_empty_strings c)
unfolding load read_to_string
load-content fault from_yaml path yaml c mode d y f = rw (f, list_eq_refl path, y) refl

token_of_migrated :
    (token : List ℕ) (c : AppConfig)
    → polling_token (migrate_empty_strings (token_saved token c)) ≡ token
unfolding migrate_empty_strings token_saved
token_of_migrated token c = token_of_saved token c.enrollment

-- When polling fails, however it does, also because the manager denies the host or does not know the
-- token any more, then the token stays in the file of the configuration: the process that starts next
-- and loads this file goes on with that token, and does not register, whatever the world is then. The
-- new configuration could be printed and written, what YAML prints of it is read back as it was, and
-- the next process can read the file.
pub run_enrollment-resumes :
    (w w' : World) (config_path token yaml : List ℕ) (from_yaml : List ℕ → Option AppConfig)
    (later : ℕ → Outcome) (a : Agent) (e : PollError)
    → obtain_token w config_path a.config ≡ ok token
    → list_eq token [] ≡ false
    → poll_with w config_path token (token_saved token a.config) ≡ err e
    → w.to_yaml (token_saved token a.config) ≡ some yaml
    → from_yaml yaml ≡ some (token_saved token a.config)
    → w.fault a.disk.clock ≡ done
    → has_parent a.disk config_path ≡ true
    → later (suc a.disk.clock) ≡ done
    → let r = run_enrollment w config_path a in
      (r.1 ≡ err (not_polled e))
      × ((c : AppConfig) × ((load later from_yaml config_path r.0.disk).1 ≡ ok c)
          × (obtain_token w' config_path c ≡ ok token))
unfolding run_enrollment
run_enrollment-resumes w w' path token yaml from_yaml later a e h n failed printed parsed wrote p
      l =
    let c = token_saved token a.config in
    let content = write_config-content w.fault w.to_yaml path yaml c a.disk printed wrote p in
    rw (h, failed)
      (
        refl,
        (
          migrate_empty_strings c,
          rw content.1 (load-content later from_yaml path yaml c content.0 a.disk parsed l),
          obtain_token-saved w' path token (migrate_empty_strings c) n
              (token_of_migrated token a.config),
        ),
      )
