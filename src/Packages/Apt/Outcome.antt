-- ===== src/Packages/Apt/Outcome.antt =====
-- What an upgrade that `AptBackend` reports as done has run: `apply_patches` of src/packages/mod.rs.
use linux_patch_api.Prelude.{
  ℕ, Bool, true, false, List, [], ◌∷◌, Option, none, some, ◌≡◌, refl, ◌∙◌, arith, if◌then◌else◌,
}
use linux_patch_api.Prelude.Result.{Result, ok, err, is_ok}
use linux_patch_api.Prelude.Text.{trim}
use linux_patch_api.Prelude.Lines.{to_lowercase}
use linux_patch_api.Packages.Error.Report.{Error, context, extract_stderr}
use linux_patch_api.Packages.Runner.{
  Machine, Host, Call, Action, CommandOutput, ◌>>=◌, continue_with, handle, pure, fail, run_with,
  run_command_timed, success,
}
use linux_patch_api.Packages.Apt.Safe.{
  run_apt_safe, ensure_dpkg_clean, verify_dpkg_clean, run_dpkg, after_apt, apt_get, dpkg,
  configure_args, clean_locks, clean_and_fail, recheck, apt_exited, apt_timeout, apt_command,
  still_dirty, audit_args, is_empty_text,
}
use linux_patch_api.Packages.Apt.Operations.{
  apt_apply_patches, report_held, after_retry, after_fix, after_upgrade, upgrade, after_first_fix,
  after_fallback, patch_args, dist_upgrade_args, first_fix_failed, is_held_block,
  is_dependency_issue, fix_broken_args, held_package_partial_failure, fix_failed, fallback_failed,
  retry_fallback_failed, fallback_to_hold_respecting_upgrade,
}
use linux_patch_api.Packages.Apt.Trace.{is_apt_get}

-- The command of apt-get that was run last.
abbrev pub last_apt_get : List Call → Option Call
last_apt_get [] = none
last_apt_get (c ∷ cs) = let rest = last_apt_get cs in if is_apt_get c then some c else rest

abbrev pub done : List (List ℕ) → Call
done args = record { program = apt_get; args = args; succeeded = true }

module _ {S : Type 0} where
  -- The action runs no command of apt-get.
  abbrev Keeps : {A : Type 0} → Action S A → Type 0
  Keeps a = (h : Host S) → last_apt_get (a h).0.calls ≡ last_apt_get h.calls

  Keeps-continue :
      {A B : Type 0} (h : Host S) (r : Result Error A) (f : A → Action S B)
      → ((a : A) → Keeps (f a))
      → last_apt_get (continue_with (h, r) f).0.calls ≡ last_apt_get h.calls
  Keeps-continue h (ok a) f kf = kf a h
  Keeps-continue h (err e) f kf = refl

  Keeps-bind :
      (A B : Type 0) (a : Action S A) (f : A → Action S B)
      → Keeps a
      → ((x : A) → Keeps (f x))
      → Keeps (a >>= f)
  Keeps-bind A B a f ka kf h = Keeps-continue (a h).0 (a h).1 f kf ∙ ka h

  Keeps-if :
      {A : Type 0} (b : Bool) (x y : Action S A) → Keeps x → Keeps y → Keeps (if b then x else y)
  Keeps-if true x y kx ky = kx
  Keeps-if false x y kx ky = ky

  -- If the action, from this host, reports success, then the command of apt-get that ran last is the
  -- one with these arguments, and it succeeded.
  abbrev EndsAt : {A : Type 0} → List (List ℕ) → Host S → Action S A → Type 0
  EndsAt args h a = is_ok (a h).1 ≡ true → last_apt_get (a h).0.calls ≡ some (done args)

  abbrev Ends : {A : Type 0} → List (List ℕ) → Action S A → Type 0
  Ends args a = (h : Host S) → EndsAt args h a

  Ends-fail : (A : Type 0) (args : List (List ℕ)) (e : Error) → Ends args (fail {S = S} {A = A} e)
  Ends-fail A args e h x = ground arith

  EndsAt-if :
      {A : Type 0} (args : List (List ℕ)) (h : Host S) (b : Bool) (x y : Action S A)
      → EndsAt args h x
      → EndsAt args h y
      → EndsAt args h (if b then x else y)
  EndsAt-if args h true x y ex ey = ex
  EndsAt-if args h false x y ex ey = ey

  Ends-handle :
      (A B : Type 0) (args : List (List ℕ)) (a : Action S A) (f : Result Error A → Action S B)
      → ((r : Result Error A) → Ends args (f r))
      → Ends args (handle a f)
  Ends-handle A B args a f ef h = ef (a h).1 (a h).0

  Ends-continue :
      {A B : Type 0} (args : List (List ℕ)) (h : Host S) (r : Result Error A) (f : A → Action S B)
      → ((x : A) → Ends args (f x))
      → is_ok (continue_with (h, r) f).1 ≡ true
      → last_apt_get (continue_with (h, r) f).0.calls ≡ some (done args)
  Ends-continue args h (ok a) f ef = ef a h
  Ends-continue args h (err e) f ef = λ x. ground arith

module _ (m : Machine) where
  Keeps-dpkg : (args : List (List ℕ)) → Keeps (run_dpkg m args)
  unfolding run_dpkg run_command_timed run_with
  Keeps-dpkg args =
      Keeps-bind CommandOutput (List ℕ) (run_with m (some _) dpkg args) (λ o. pure o.stdout)
        (λ h. refl) (λ o h. refl)

  Keeps-ensure : Keeps (ensure_dpkg_clean m)
  unfolding ensure_dpkg_clean
  Keeps-ensure h = Keeps-dpkg configure_args (clean_locks m h)

  Keeps-recheck : (text : List ℕ) → Keeps (recheck m text)
  Keeps-recheck text =
      Keeps-if (is_empty_text (trim text)) (pure tt) (fail (still_dirty m (trim text))) (λ h. refl)
        (λ h. refl)

  Keeps-verify : Keeps (verify_dpkg_clean m)
  unfolding verify_dpkg_clean
  Keeps-verify =
      Keeps-bind (List ℕ) (Unit {0}) (run_dpkg m audit_args) _ (Keeps-dpkg audit_args) (λ audit.
        Keeps-if (is_empty_text (trim audit)) (pure tt) _ (λ h. refl)
          (Keeps-bind (Unit {0}) (Unit {0}) (ensure_dpkg_clean m) _ Keeps-ensure (λ u.
            Keeps-bind (List ℕ) (Unit {0}) (run_dpkg m audit_args) (recheck m)
              (Keeps-dpkg audit_args) Keeps-recheck)))

  -- What follows the command ends with it.
  after_apt-ends :
      (args : List (List ℕ)) (h : Host m.State) (r : Result Error CommandOutput)
      → (is_ok r ≡ true → last_apt_get h.calls ≡ some (done args))
      → EndsAt args h (after_apt m args r)
  unfolding after_apt
  after_apt-ends args h (err e) c = λ x. ground arith
  after_apt-ends args h (ok o) c =
      EndsAt-if args h (success o) (verify_dpkg_clean m >>= λ u. pure o.stdout)
        (clean_and_fail m (apt_exited m args o))
        (λ x.
          Keeps-bind (Unit {0}) (List ℕ) (verify_dpkg_clean m) (λ u. pure o.stdout) Keeps-verify
            (λ u g. refl) h
          ∙ c refl)
        (λ x. ground arith)

  Ends-run_apt_safe : (args : List (List ℕ)) → Ends args (run_apt_safe m args)
  unfolding run_apt_safe apt_command run_with
  Ends-run_apt_safe args h =
      let g = ensure_dpkg_clean m h in
      Ends-continue args g.0 g.1 (λ u. apt_command m args)
        (λ u k.
          let r = run_with m (some (apt_timeout args)) apt_get args k in
          after_apt-ends args r.0 r.1 (λ x. rw x refl))

  -- The fallback is never a success.
  Ends-after_fallback :
      (args : List (List ℕ)) (note : List ℕ) (r : Result Error (List ℕ))
      → Ends args (after_fallback m note r)
  Ends-after_fallback args note (ok held) =
      Ends-fail (Unit {0}) args (held_package_partial_failure held)
  Ends-after_fallback args note (err e) = Ends-fail (Unit {0}) args (context note e)

  Ends-report_held : (args : List (List ℕ)) (note : List ℕ) → Ends args (report_held m note)
  unfolding report_held
  Ends-report_held args note =
      Ends-handle (List ℕ) (Unit {0}) args (fallback_to_hold_respecting_upgrade m)
        (after_fallback m note) (Ends-after_fallback args note)

  module _ (packages : Option (List (List ℕ))) where
    EndsAt-after_retry :
        (h : Host m.State) (r : Result Error (List ℕ))
        → (is_ok r ≡ true → last_apt_get h.calls ≡ some (done (patch_args packages)))
        → EndsAt (patch_args packages) h (after_retry m packages r)
    unfolding after_retry
    EndsAt-after_retry h (ok s) c = c
    EndsAt-after_retry h (err e) c =
        EndsAt-if (patch_args packages) h (is_held_block packages (to_lowercase (extract_stderr e)))
          (report_held m retry_fallback_failed) (fail e)
          (Ends-report_held (patch_args packages) retry_fallback_failed h)
          (Ends-fail (Unit {0}) (patch_args packages) e h)

    Ends-after_fix :
        (r : Result Error (List ℕ)) → Ends (patch_args packages) (after_fix m packages r)
    Ends-after_fix (ok s) h =
        let r = run_apt_safe m (patch_args packages) h in
        EndsAt-after_retry r.0 r.1 (Ends-run_apt_safe (patch_args packages) h)
    Ends-after_fix (err e) h = Ends-fail (Unit {0}) (patch_args packages) (context fix_failed e) h

    EndsAt-after_upgrade :
        (h : Host m.State) (r : Result Error (List ℕ))
        → (is_ok r ≡ true → last_apt_get h.calls ≡ some (done (patch_args packages)))
        → EndsAt (patch_args packages) h (after_upgrade m packages r)
    unfolding after_upgrade
    EndsAt-after_upgrade h (ok s) c = c
    EndsAt-after_upgrade h (err e) c =
        EndsAt-if (patch_args packages) h (is_held_block packages (to_lowercase (extract_stderr e)))
          (report_held m fallback_failed) _
          (Ends-report_held (patch_args packages) fallback_failed h)
          (EndsAt-if (patch_args packages) h (is_dependency_issue (to_lowercase (extract_stderr e)))
            (handle (run_apt_safe m fix_broken_args) (after_fix m packages)) (fail e)
            (Ends-handle (List ℕ) (Unit {0}) (patch_args packages) (run_apt_safe m fix_broken_args)
              (after_fix m packages) Ends-after_fix h)
            (Ends-fail (Unit {0}) (patch_args packages) e h))

    Ends-upgrade : Ends (patch_args packages) (upgrade m packages)
    unfolding upgrade
    Ends-upgrade h =
        let r = run_apt_safe m (patch_args packages) h in
        EndsAt-after_upgrade r.0 r.1 (Ends-run_apt_safe (patch_args packages) h)

  Ends-after_first_fix : (r : Result Error (List ℕ)) → Ends dist_upgrade_args (after_first_fix m r)
  Ends-after_first_fix (ok s) = Ends-upgrade none
  Ends-after_first_fix (err e) = Ends-fail (Unit {0}) dist_upgrade_args (context first_fix_failed e)

  -- If `apply_patches` reports success, on whatever machine and after whatever retries, then the
  -- command of apt-get that ran last is the upgrade that was asked for (of the named packages, or
  -- dist-upgrade), and it succeeded: the fallback that leaves held packages is never reported as done.
  pub apply_patches-upgrades :
      (packages : Option (List (List ℕ))) (h : Host m.State)
      → is_ok (apt_apply_patches m packages h).1 ≡ true
      → last_apt_get (apt_apply_patches m packages h).0.calls ≡ some (done (patch_args packages))
  unfolding apt_apply_patches
  apply_patches-upgrades none h =
      Ends-handle (List ℕ) (Unit {0}) dist_upgrade_args (run_apt_safe m fix_broken_args)
        (after_first_fix m) Ends-after_first_fix h
  apply_patches-upgrades (some pkgs) h = Ends-upgrade (some pkgs) h
