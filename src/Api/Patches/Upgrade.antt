-- ===== src/Api/Patches/Upgrade.antt =====
-- What a patch transaction that ends well has done, on `AptBackend`: src/api/handlers/patches.rs with
-- src/packages/mod.rs.
use linux_patch_api.Prelude.{
  ℕ, Bool, true, false, List, [], ◌∷◌, Option, some, ◌≡◌, refl, arith, if◌then◌else◌,
}
use linux_patch_api.Prelude.Result.{Result, ok, err, is_ok}
use linux_patch_api.Prelude.Text.{codes}
use linux_patch_api.Packages.Error.Report.{Error, to_string}
use linux_patch_api.Packages.Runner.{Machine, Host}
use linux_patch_api.Prelude.Lines.{to_lowercase}
use linux_patch_api.Packages.Apt.Safe.{run_apt_safe, apt_failed}
use linux_patch_api.Packages.Apt.Operations.{patch_args}
use linux_patch_api.Packages.Apt.Outcome.{last_apt_get, done, apply_patches-upgrades}
use linux_patch_api.Packages.Cache.{CacheState, update_success, is_fetch_error}
use linux_patch_api.Api.Patches.{
  PatchStep, World, patch_transaction, after_refresh, after_apply, retry_apply, with_context,
  apt_transaction, apt_refresh_package_cache, apt_apply, note_refresh,
}

-- If each refresh that succeeds leaves P, and each application that succeeds, from P, leaves Q, then a
-- transaction that succeeds leaves Q.
module _ {S : Type 0} (P Q : S → Type 0) (refresh again apply : PatchStep S) where
  abbrev Leaves : (S → Type 0) → S × Result Error (Unit {0}) → Type 0
  Leaves R r = is_ok r.1 ≡ true → R r.0

  with_context-Leaves :
      (note : List ℕ) (r : S × Result Error (Unit {0}))
      → Leaves Q r
      → Leaves Q (with_context note r)
  with_context-Leaves note (s, ok u) h e = h refl
  with_context-Leaves note (s, err x) h e = ground arith

  if-Leaves :
      (b : Bool) (x y : S × Result Error (Unit {0}))
      → Leaves Q x
      → Leaves Q y
      → Leaves Q (if b then x else y)
  if-Leaves true x y hx hy = hx
  if-Leaves false x y hx hy = hy

  module _ (apply-Q : (s : S) → P s → Leaves Q (apply s)) where
    retry_apply-Leaves :
        (r : S × Result Error (Unit {0}))
        → Leaves P r
        → Leaves Q (retry_apply refresh again apply r)
    retry_apply-Leaves (s, ok u) h = with_context-Leaves _ (apply s) (apply-Q s (h refl))
    retry_apply-Leaves (s, err x) h = λ e. ground arith

    after_apply-Leaves :
        ((s : S) → Leaves P (again s))
        → (r : S × Result Error (Unit {0})) → Leaves Q r
        → Leaves Q (after_apply refresh again apply r)
    after_apply-Leaves again-P (s, ok u) h = h
    after_apply-Leaves again-P (s, err x) h =
        if-Leaves (is_fetch_error x) _ (s, err x) (retry_apply-Leaves (again s) (again-P s)) h

    after_refresh-Leaves :
        ((s : S) → Leaves P (again s))
        → (r : S × Result Error (Unit {0})) → Leaves P r
        → Leaves Q (after_refresh refresh again apply r)
    after_refresh-Leaves again-P (s, ok u) h =
        after_apply-Leaves again-P (apply s) (apply-Q s (h refl))
    after_refresh-Leaves again-P (s, err x) h = λ e. ground arith

    patch_transaction-Leaves :
        ((s : S) → Leaves P (refresh s))
        → ((s : S) → Leaves P (again s))
        → (s : S) → Leaves Q (patch_transaction refresh again apply s)
    unfolding patch_transaction
    patch_transaction-Leaves refresh-P again-P s =
        after_refresh-Leaves again-P (refresh s) (refresh-P s)

module _ (m : Machine) (format_error_chain : Error → List ℕ) where
  -- The index is recorded as refreshed.
  abbrev pub IsRefreshed : World m.State → Type 0
  IsRefreshed w = w.cache.last_update_success ≡ true

  abbrev pub IsUpgraded : Option (List (List ℕ)) → World m.State → Type 0
  IsUpgraded packages w =
      (w.cache.last_update_success ≡ true)
      × (last_apt_get w.host.calls ≡ some (done (patch_args packages)))

  note_refresh-IsRefreshed :
      (now : ℕ) (c : CacheState) (r : Host m.State × Result Error (List ℕ))
      → is_ok (note_refresh m format_error_chain now c r).1 ≡ true
      → IsRefreshed (note_refresh m format_error_chain now c r).0
  unfolding update_success
  note_refresh-IsRefreshed now c (h, ok s) e = refl
  note_refresh-IsRefreshed now c (h, err x) e = ground arith

  refresh-IsRefreshed :
      (now : ℕ) (w : World m.State)
      → is_ok (apt_refresh_package_cache m format_error_chain now w).1 ≡ true
      → IsRefreshed (apt_refresh_package_cache m format_error_chain now w).0
  unfolding apt_refresh_package_cache
  refresh-IsRefreshed now w =
      note_refresh-IsRefreshed now w.cache (run_apt_safe m (codes "update" ∷ []) w.host)

  apply-IsUpgraded :
      (packages : Option (List (List ℕ))) (w : World m.State)
      → IsRefreshed w
      → is_ok (apt_apply m packages w).1 ≡ true
      → IsUpgraded packages (apt_apply m packages w).0
  unfolding apt_apply
  apply-IsUpgraded packages w r e = (r, apply_patches-upgrades m packages w.host e)

  -- If the patch transaction on apt succeeds, on whatever machine, with or without its retry, then the
  -- last refresh of the index is recorded as a success, and the command of apt-get that ran last is the
  -- upgrade that was asked for (install of the named packages, or dist-upgrade), itself a success: a
  -- job is not reported as done for an upgrade that left out held packages or fell back.
  pub apt_transaction-upgrades :
      (first second : ℕ) (packages : Option (List (List ℕ))) (w : World m.State)
      → is_ok (apt_transaction m format_error_chain first second packages w).1 ≡ true
      → IsUpgraded packages (apt_transaction m format_error_chain first second packages w).0
  unfolding apt_transaction
  apt_transaction-upgrades first second packages =
      patch_transaction-Leaves IsRefreshed (IsUpgraded packages)
        (apt_refresh_package_cache m format_error_chain first)
        (apt_refresh_package_cache m format_error_chain second) (apt_apply m packages)
        (apply-IsUpgraded packages) (refresh-IsRefreshed first) (refresh-IsRefreshed second)

-- An error of the runner around which `run_apt_safe` puts its context is no fetch error, whatever it
-- says.
is_fetch_error-apt_failed : (m : Machine) (e : Error) → is_fetch_error (apt_failed m e) ≡ false
unfolding is_fetch_error to_string to_lowercase
is_fetch_error-apt_failed m e = refl
