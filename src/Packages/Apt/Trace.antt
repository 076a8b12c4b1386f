-- ===== src/Packages/Apt/Trace.antt =====
-- What the operations of `AptBackend` in src/packages/mod.rs run: each command of apt stands behind a
-- successful configuration of dpkg, and there is a bound on their number.
use linux_patch_api.Prelude.{
  ℕ, ◌+◌, ◌≤◌, Bool, true, false, List, [], ◌∷◌, length, list_eq, Option, some, ◌≡◌, refl, arith,
  if◌then◌else◌,
}
use linux_patch_api.Prelude.Result.{Result, ok, err, is_ok}
use linux_patch_api.Prelude.Text.{trim}
use linux_patch_api.Packages.Error.Report.{Error, context}
use linux_patch_api.Packages.Runner.{
  Machine, Host, Call, Action, CommandOutput, ◌>>=◌, continue_with, handle, pure, fail, run_with,
  run_command_timed, success, record_call,
}
use linux_patch_api.Packages.Apt.Safe.{
  run_apt_safe, ensure_dpkg_clean, verify_dpkg_clean, run_dpkg, after_apt, apt_get, dpkg,
  configure_args, clean_locks, clean_and_fail, recheck, apt_failed, apt_exited, apt_timeout,
  apt_command, configure_failed, still_dirty, discard, map_err, audit_args, is_empty_text,
}

abbrev pub lines_eq : List (List ℕ) → List (List ℕ) → Bool
lines_eq [] [] = true
lines_eq [] (y ∷ ys) = false
lines_eq (x ∷ xs) [] = false
lines_eq (x ∷ xs) (y ∷ ys) = let rest = lines_eq xs ys in if list_eq x y then rest else false

abbrev pub is_apt_get : Call → Bool
is_apt_get c = list_eq c.program apt_get

-- The last command configured dpkg, with success.
abbrev pub is_configured : List Call → Bool
is_configured [] = false
is_configured (c ∷ cs) =
    if list_eq c.program dpkg
    then if lines_eq c.args configure_args then c.succeeded else false
    else false

-- Each command of apt-get was run right behind a successful configuration of dpkg.
abbrev pub is_guarded : List Call → Bool
is_guarded [] = true
is_guarded (c ∷ cs) =
    let rest = is_guarded cs in
    if is_apt_get c then if is_configured cs then rest else false else rest

module _ {S : Type 0} where
  -- The action keeps the guard and runs at most n commands.
  abbrev pub Within : {A : Type 0} → ℕ → Action S A → Type 0
  Within n a =
      (h : Host S)
      → ((is_guarded h.calls ≡ true → is_guarded (a h).0.calls ≡ true)
          × (length (a h).0.calls ≤ n + length h.calls))

  pub Within-pure : {A : Type 0} (n : ℕ) (a : A) → Within n (pure {S = S} a)
  Within-pure n a h = (λ g. g, omega arith)

  pub Within-fail : (A : Type 0) (n : ℕ) (e : Error) → Within n (fail {S = S} {A = A} e)
  Within-fail A n e h = (λ g. g, omega arith)

  pub Within-handle :
      (A B : Type 0) (n k : ℕ) (a : Action S A) (f : Result Error A → Action S B)
      → Within n a
      → ((r : Result Error A) → Within k (f r))
      → Within (k + n) (handle a f)
  Within-handle A B n k a f wa wf h =
      let x = wa h in let y = wf (a h).1 (a h).0 in (λ g. y.0 (x.0 g), omega (arith, x.1, y.1))

  Within-continue :
      {A B : Type 0} (k : ℕ) (h : Host S) (r : Result Error A) (f : A → Action S B)
      → ((a : A) → Within k (f a))
      → (is_guarded h.calls ≡ true → is_guarded (continue_with (h, r) f).0.calls ≡ true)
        × (length (continue_with (h, r) f).0.calls ≤ k + length h.calls)
  Within-continue k h (ok a) f wf = wf a h
  Within-continue k h (err e) f wf = (λ g. g, omega arith)

  pub Within-bind :
      (A B : Type 0) (n k : ℕ) (a : Action S A) (f : A → Action S B)
      → Within n a
      → ((x : A) → Within k (f x))
      → Within (k + n) (a >>= f)
  Within-bind A B n k a f wa wf h =
      let x = wa h in
      let y = Within-continue k (a h).0 (a h).1 f wf in (λ g. y.0 (x.0 g), omega (arith, x.1, y.1))

  pub Within-if :
      {A : Type 0} (n : ℕ) (b : Bool) (x y : Action S A)
      → Within n x
      → Within n y
      → Within n (if b then x else y)
  Within-if n true x y wx wy = wx
  Within-if n false x y wx wy = wy

  pub Within-weaken : {A : Type 0} (n k : ℕ) (a : Action S A) → n ≤ k → Within n a → Within k a
  Within-weaken n k a l w h = ((w h).0, omega (arith, l, (w h).1))

module _ (m : Machine) where
  Within-run :
      (limit : Option ℕ) (program : List ℕ) (args : List (List ℕ))
      → list_eq program apt_get ≡ false
      → Within 1 (run_with m limit program args)
  unfolding run_with
  Within-run limit program args e h = (λ g. rw e g, omega arith)

  pub Within-timed :
      (program : List ℕ) (args : List (List ℕ)) (limit : ℕ)
      → list_eq program apt_get ≡ false
      → Within 1 (run_command_timed m program args limit)
  unfolding run_command_timed
  Within-timed program args limit e =
      Within-bind CommandOutput (List ℕ) 1 0 (run_with m (some limit) program args)
        (λ o. pure o.stdout) (Within-run (some limit) program args e) (λ o. Within-pure 0 o.stdout)

  Within-dpkg : (args : List (List ℕ)) → Within 1 (run_dpkg m args)
  unfolding run_dpkg
  Within-dpkg args = Within-timed dpkg args _ refl

  pub Within-ensure : Within 1 (ensure_dpkg_clean m)
  unfolding ensure_dpkg_clean
  Within-ensure h = Within-dpkg configure_args (clean_locks m h)

  pub Within-verify : Within 3 (verify_dpkg_clean m)
  unfolding verify_dpkg_clean
  Within-verify =
      Within-bind (List ℕ) (Unit {0}) 1 2 (run_dpkg m audit_args) _ (Within-dpkg audit_args)
        (λ audit. Within-if 2 (is_empty_text (trim audit)) (pure tt) _ (Within-pure 2 tt) (
          Within-bind (Unit {0}) (Unit {0}) 1 1 (ensure_dpkg_clean m) _ Within-ensure (λ u.
            Within-bind (List ℕ) (Unit {0}) 1 0 (run_dpkg m audit_args) (recheck m)
              (Within-dpkg audit_args)
              (λ text.
                Within-if 0 (is_empty_text (trim text)) (pure tt) _ (Within-pure 0 tt)
                  (Within-fail (Unit {0}) 0 (still_dirty m (trim text)))))))

  Within-clean : (e : Error) → Within 1 (clean_and_fail m e)
  Within-clean e =
      Within-handle (Unit {0}) (List ℕ) 1 0 (ensure_dpkg_clean m) (λ r. fail e) Within-ensure
        (λ r. Within-fail (List ℕ) 0 e)

  Within-after_apt :
      (args : List (List ℕ)) (r : Result Error CommandOutput) → Within 3 (after_apt m args r)
  unfolding after_apt
  Within-after_apt args (err e) =
      Within-weaken {A = List ℕ} 1 3 (clean_and_fail m (apt_failed m e)) (omega arith)
        (Within-clean (apt_failed m e))
  Within-after_apt args (ok o) =
      Within-if 3 (success o) _ _
        (Within-bind (Unit {0}) (List ℕ) 3 0 (verify_dpkg_clean m) (λ u. pure o.stdout)
          Within-verify (λ u. Within-pure 0 o.stdout))
        (Within-weaken {A = List ℕ} 1 3 (clean_and_fail m (apt_exited m args o)) (omega arith)
          (Within-clean (apt_exited m args o)))

  is_configured-run :
      (f : Error → Error) (calls : List Call) (r : m.State × Result Error CommandOutput)
      → is_ok (
          discard (
            map_err f
              (continue_with (record_call m dpkg configure_args calls r) (λ o. pure o.stdout)).1))
        ≡ true
      → is_configured
          (continue_with (record_call m dpkg configure_args calls r) (λ o. pure o.stdout)).0.calls
        ≡ true
  is_configured-run f calls (w, ok o) e = refl
  is_configured-run f calls (w, err d) e = ground arith

  -- A configuration of dpkg that succeeds leaves dpkg configured.
  ensure-is_configured :
      (h : Host m.State)
      → is_ok (ensure_dpkg_clean m h).1 ≡ true
      → is_configured (ensure_dpkg_clean m h).0.calls ≡ true
  unfolding ensure_dpkg_clean run_dpkg
  ensure-is_configured h e =
      is_configured-run (context configure_failed) h.calls
        (m.run dpkg configure_args (some 60) (clean_locks m h).machine) e

  -- The rest of `run_apt_safe`, from a host on which dpkg was configured with success.
  apt_on :
      (args : List (List ℕ)) (g : Host m.State) (r : Result Error (Unit {0}))
      → (is_ok r ≡ true → is_configured g.calls ≡ true)
      → (is_guarded g.calls ≡ true
          → is_guarded (continue_with (g, r) (λ u. apt_command m args)).0.calls ≡ true)
        × (length (continue_with (g, r) (λ u. apt_command m args)).0.calls ≤ 4 + length g.calls)
  unfolding apt_command run_with
  apt_on args g (err e) c = (λ k. k, omega arith)
  apt_on args g (ok u) c =
      let r = run_with m (some (apt_timeout args)) apt_get args g in
      let y = Within-after_apt args r.1 r.0 in (λ k. y.0 (rw (c refl) k), omega (arith, y.1))

  pub Within-run_apt_safe : (args : List (List ℕ)) → Within 5 (run_apt_safe m args)
  unfolding run_apt_safe
  Within-run_apt_safe args h =
      let x = Within-ensure h in
      let y =
        apt_on args (ensure_dpkg_clean m h).0 (ensure_dpkg_clean m h).1 (ensure-is_configured h) in
      (λ g. y.0 (x.0 g), omega (arith, x.1, y.1))
