-- ===== src/Enroll/Run/Steps.antt =====
-- The steps that lie behind a success of `run_enrollment` of src/enroll/mod.rs.
use linux_patch_api.Prelude.{ℕ, true, List, Option, none, some, ◌≡◌, refl}
use linux_patch_api.Prelude.Result.{Result, ok, err, is_ok}
use linux_patch_api.Config.{token_saved}
use linux_patch_api.Enroll.Answers.{RepoConfig, PkiBundle}
use linux_patch_api.Enroll.Client.{PollError}
use linux_patch_api.Enroll.Disk.{Disk}
use linux_patch_api.Enroll.Provision.{ProvisionError}
use linux_patch_api.Enroll.Provision.Repo.{provision_repo_config}
use linux_patch_api.Enroll.Health.{FetchError}
use linux_patch_api.Enroll.Run.{
  Agent, World, RunError, WhitelistError, persist, whitelisted, append_manager_to_whitelist,
  add_manager, configured, fetched, configure, provisioned, provision, polled, poll_with,
  with_token,
}

-- What holds if the run succeeded.
abbrev pub IfDone : (Agent → Type 0) → Agent × Result RunError (Unit {0}) → Type 0
IfDone P (a, ok u) = P a
IfDone P (a, err e) = Unit {0}

module _ (w : World) (config_path : List ℕ) where
  -- The manager's address was added to this whitelist file.
  abbrev pub Whitelisted : Option (List ℕ) → Agent → Type 0
  Whitelisted file a' =
      (ip : List ℕ) × (w.manager_ip ≡ some ip)
      × (append_manager_to_whitelist w.access ip file ≡ (a'.whitelist, ok tt))

  whitelisted-IfDone :
      (ip : List ℕ) (r : Option (List ℕ) × Result WhitelistError (Unit {0})) (a : Agent)
      → w.manager_ip ≡ some ip
      → append_manager_to_whitelist w.access ip a.whitelist ≡ r
      → IfDone (Whitelisted a.whitelist) (whitelisted w config_path r a)
  whitelisted-IfDone ip (file, ok tt) a at_ip e = (ip, at_ip, e)
  whitelisted-IfDone ip (file, err x) a at_ip e = tt

  add_manager-IfDone :
      (o : Option (List ℕ)) (a : Agent)
      → w.manager_ip ≡ o
      → IfDone (Whitelisted a.whitelist) (add_manager w config_path o a)
  add_manager-IfDone none a h = tt
  add_manager-IfDone (some ip) a h =
      whitelisted-IfDone ip (append_manager_to_whitelist w.access ip a.whitelist) a h refl

  configured-IfDone :
      (r : Disk × Result ProvisionError (Unit {0})) (a : Agent)
      → IfDone (Whitelisted a.whitelist) (configured w config_path r a)
  configured-IfDone (d, ok u) a = add_manager-IfDone w.manager_ip (record a { disk = d }) refl
  configured-IfDone (d, err e) a = tt

  fetched-IfDone :
      (r : Disk × Result FetchError RepoConfig) (a : Agent)
      → IfDone (Whitelisted a.whitelist) (fetched w config_path r a)
  fetched-IfDone (d, ok repo) a =
      add_manager-IfDone w.manager_ip
        (record a { disk = (provision_repo_config w.fault w.gpg repo d).0 }) refl
  fetched-IfDone (d, err e) a = add_manager-IfDone w.manager_ip (record a { disk = d }) refl

  configure-IfDone :
      (o : Option RepoConfig) (a : Agent)
      → IfDone (Whitelisted a.whitelist) (configure w config_path o a)
  configure-IfDone (some repo) a =
      configured-IfDone (provision_repo_config w.fault w.gpg repo a.disk) a
  configure-IfDone none a = fetched-IfDone (w.fetch a.disk) a

  -- The manager's bundle was written, and its address added.
  abbrev pub Provisioned : PkiBundle → Agent → Agent → Type 0
  Provisioned b a a' = (is_ok (provision w config_path b a).1 ≡ true) × Whitelisted a.whitelist a'

  with_ok :
      (b : PkiBundle) (a : Agent) (r : Agent × Result RunError (Unit {0}))
      → is_ok (provision w config_path b a).1 ≡ true
      → IfDone (Whitelisted a.whitelist) r
      → IfDone (Provisioned b a) r
  with_ok b a (a', ok u) h i = (h, i)
  with_ok b a (a', err e) h i = tt

  provisioned-IfDone :
      (b : PkiBundle) (a : Agent) (r : Disk × Result ProvisionError (Unit {0}))
      → provision w config_path b a ≡ r
      → IfDone (Provisioned b a) (provisioned w config_path b r a)
  provisioned-IfDone b a (d, ok u) e =
      with_ok b a (configure w config_path b.repo_config (record a { disk = d })) (rw e refl)
        (configure-IfDone b.repo_config (record a { disk = d }))
  provisioned-IfDone b a (d, err x) e = tt

  -- The manager approved with this bundle.
  abbrev pub Approved : Result PollError PkiBundle → Agent → Agent → Type 0
  Approved r a a' = (b : PkiBundle) × (r ≡ ok b) × Provisioned b a a'

  with_bundle :
      (b : PkiBundle) (a : Agent) (r : Agent × Result RunError (Unit {0}))
      → IfDone (Provisioned b a) r
      → IfDone (Approved (ok b) a) r
  with_bundle b a (a', ok u) h = (b, refl, h)
  with_bundle b a (a', err e) h = tt

  polled-IfDone :
      (r : Result PollError PkiBundle) (a : Agent)
      → IfDone (Approved r a) (polled w config_path r a)
  polled-IfDone (ok b) a =
      with_bundle b a (provisioned w config_path b (provision w config_path b a) a)
        (provisioned-IfDone b a (provision w config_path b a) refl)
  polled-IfDone (err e) a = tt

  -- With a token, from the agent that has saved it.
  abbrev pub Completed : Result RunError (List ℕ) → Agent → Agent → Type 0
  Completed r a a' =
      (token : List ℕ) × (r ≡ ok token)
      × (let c = token_saved token a.config in
          Approved (poll_with w config_path token c) (persist w config_path c a) a')

  with_saved :
      (token : List ℕ) (a : Agent) (r : Agent × Result RunError (Unit {0}))
      → (let c = token_saved token a.config in
          IfDone (Approved (poll_with w config_path token c) (persist w config_path c a)) r)
      → IfDone (Completed (ok token) a) r
  with_saved token a (a', ok u) h = (token, refl, h)
  with_saved token a (a', err e) h = tt

  pub with_token-IfDone :
      (r : Result RunError (List ℕ)) (a : Agent)
      → IfDone (Completed r a) (with_token w config_path r a)
  with_token-IfDone (err e) a = tt
  with_token-IfDone (ok token) a =
      let c = token_saved token a.config in
      with_saved token a
        (polled w config_path (poll_with w config_path token c) (persist w config_path c a))
        (polled-IfDone (poll_with w config_path token c) (persist w config_path c a))
