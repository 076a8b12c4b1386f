-- ===== src/Enroll/Run/Completion.antt =====
-- What a successful enrolment leaves: `run_enrollment` of src/enroll/mod.rs.
use mathlib.Core.Bool.{true≢false}
use mathlib.Core.Option.{some-injective}
use mathlib.Core.Path.{subst}
use linux_patch_api.Prelude.{ℕ, true, false, List, any, some, ◌≡◌, sym, ap, ◌∙◌, ◌⊎◌}
use linux_patch_api.Prelude.Text.{trim}
use linux_patch_api.Whitelist.Entry.{WhitelistEntry, is_skipped, parse_appended}
use linux_patch_api.Whitelist.Rules.{is_bad}
use linux_patch_api.Whitelist.Append.{RoundTrips}
use linux_patch_api.Whitelist.Admission.{Admits}
use linux_patch_api.Prelude.Result.{Result, ok, err, is_ok}
use linux_patch_api.Config.{token_saved, tls_config}
use linux_patch_api.Enroll.Answers.{PkiBundle}
use linux_patch_api.Enroll.Disk.{Disk}
use linux_patch_api.Enroll.Disk.Outcomes.{Leaves}
use linux_patch_api.Enroll.Provision.{TlsPaths, ProvisionError, target_paths, validate_bundle}
use linux_patch_api.Enroll.Provision.Stages.{Disjoint, Installed, Partly}
use linux_patch_api.Enroll.Provision.Bundle.{Passes, Rejects, provision_pki_bundle-Leaves}
use linux_patch_api.Enroll.Run.{
  Agent, World, RunError, obtain_token, persist, append_manager_to_whitelist, provision, poll_with,
  run_enrollment, paths_of,
}
use linux_patch_api.Enroll.Run.Admission.{IfAdded, append_manager_to_whitelist-IfAdded}
use linux_patch_api.Enroll.Run.Steps.{IfDone, Completed, with_token-IfDone}

IfDone-map :
    (P Q : Agent → Type 0) (r : Agent × Result RunError (Unit {0}))
    → ((a' : Agent) → P a' → Q a')
    → IfDone P r
    → IfDone Q r
IfDone-map P Q (a', ok u) f h = f a' h
IfDone-map P Q (a', err e) f h = tt

succeeded :
    (Good Bad : Disk → Type 0) (r : Disk × Result ProvisionError (Unit {0}))
    → is_ok r.1 ≡ true
    → Leaves (λ _. Good) Bad r
    → Good r.0
succeeded Good Bad (d, ok u) h g = g
succeeded Good Bad (d, err e) h g = absurd (true≢false (sym h))

module _ (w : World) (config_path : List ℕ) (a : Agent) where
  -- The agent that has saved the token.
  abbrev pub saved : List ℕ → Agent
  saved token = persist w config_path (token_saved token a.config) a

  -- The paths that the configuration names for the bundle.
  abbrev pub targets : TlsPaths
  targets = target_paths (paths_of (tls_config a.config))

  -- The bundle passed the validation, and its files hold what it says.
  abbrev pub Provides : PkiBundle → List ℕ → Type 0
  Provides b token =
      Passes (validate_bundle b.ca_crt b.server_crt b.server_key)
      × Installed targets b.ca_crt b.server_crt b.server_key b.crl_pem (saved token).disk
          (provision w config_path b (saved token)).0

  -- A token, a bundle that the manager approved with, its files, and a whitelist file that grants an
  -- address what the lines granted it or the entry allows.
  abbrev pub Enrolled : ℕ → List (List ℕ) → WhitelistEntry → Agent → Type 0
  Enrolled address lines e a' =
      (token : List ℕ) × (b : PkiBundle) × (obtain_token w config_path a.config ≡ ok token)
      × (poll_with w config_path token (token_saved token a.config) ≡ ok b)
      × Provides b token
      × Admits w.access.yaml w.access.lookup address lines e a'.whitelist

  provided :
      (b : PkiBundle) (token : List ℕ)
      → Disjoint targets
      → is_ok (provision w config_path b (saved token)).1 ≡ true
      → Provides b token
  unfolding token_saved tls_config
  provided b token apart h =
      succeeded
        (λ d.
          Passes (validate_bundle b.ca_crt b.server_crt b.server_key)
          × Installed targets b.ca_crt b.server_crt b.server_key b.crl_pem (saved token).disk d)
        (λ d.
          (Rejects (validate_bundle b.ca_crt b.server_crt b.server_key) × (d ≡ (saved token).disk))
          ⊎ (Passes (validate_bundle b.ca_crt b.server_crt b.server_key)
              × Partly targets b.ca_crt b.server_crt b.server_key b.crl_pem (saved token).disk d))
        (provision w config_path b (saved token)) h
        (provision_pki_bundle-Leaves w.fault b.ca_crt b.server_crt b.server_key b.crl_pem
          (paths_of (tls_config a.config)) (saved token).disk apart)

  -- If the enrolment succeeds, it had a token, and the manager approved it with a bundle whose
  -- certificates and key pass the validation. The provisioning left each file of the bundle at its path:
  -- the certificates, the key under mode 0600, and the revocation list unless it is blank. The whitelist
  -- file is left such that all its lines can be read, and that they grant an address what the old lines
  -- granted it or the entry of the manager's address allows. The four paths must not collide, the old
  -- whitelist file must be readable without a bad line, the manager's address must be known and a valid
  -- entry, and YAML must read back what it has written.
  pub run_enrollment-Completed :
      (ip : List ℕ) (content : List ℕ) (lines : List (List ℕ)) (e : WhitelistEntry) (address : ℕ)
      → Disjoint targets
      → RoundTrips w.access.yaml
      → w.manager_ip ≡ some ip
      → a.whitelist ≡ some content
      → w.access.yaml.from_str content ≡ some lines
      → any (is_bad w.access.lookup) lines ≡ false
      → parse_appended (trim (trim ip)) ≡ ok e
      → is_skipped (trim (trim ip)) ≡ false
      → IfDone (Enrolled address lines e) (run_enrollment w config_path a)
  unfolding run_enrollment
  run_enrollment-Completed ip content lines e address apart rt at_ip file y good p k =
      IfDone-map (Completed w config_path (obtain_token w config_path a.config) a)
        (Enrolled address lines e) (run_enrollment w config_path a)
        (λ a' (token, had, (b, approved, (installed, (ip', at_ip', added)))). (
          token,
          b,
          had,
          approved,
          provided b token apart installed,
          subst (IfAdded w.access address lines e)
              (ap (λ i. append_manager_to_whitelist w.access i (some content))
                  (some-injective _ _ (sym at_ip ∙ at_ip'))
                ∙ ap (append_manager_to_whitelist w.access ip') (sym file)
                ∙ added)
              (append_manager_to_whitelist-IfAdded w.access address lines e ip content rt y good p
                k),
        ))
        (with_token-IfDone w config_path (obtain_token w config_path a.config) a)
