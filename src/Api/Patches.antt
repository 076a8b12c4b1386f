-- ===== src/Api/Patches.antt =====
-- The handlers of patches: src/api/handlers/patches.rs, and `refresh_package_cache` of `AptBackend` in
-- src/packages/mod.rs. The transaction is the closure that `apply_patches` hands to the scheduler.
pub mod Upgrade
pub mod Conclusion
pub mod Ending
use linux_patch_api.Prelude.{
  ℕ, zero, suc, ◌+◌, Bool, true, false, List, [], ◌∷◌, ◌++◌, any, filter, length, Option, none,
  some, list_eq, if◌then◌else◌,
}
use linux_patch_api.Prelude.Result.{Result, ok, err}
use linux_patch_api.Prelude.Text.{codes}
use linux_patch_api.Packages.Error.Report.{Error, context, format_error_for_cache}
use linux_patch_api.Packages.Runner.{Machine, Host}
use linux_patch_api.Packages.Apt.Safe.{run_apt_safe, discard}
use linux_patch_api.Packages.Apt.Operations.{apt_apply_patches}
use linux_patch_api.Packages.Cache.{CacheState, update_success, update_failure, is_fetch_error}
use linux_patch_api.Packages.Listing.{Patch, package_requires_reboot}

-- What a back end and the state of its package index make of a call.
abbrev pub PatchStep : Type 0 → Type 0
PatchStep S = S → S × Result Error (Unit {0})

abbrev pub with_context :
    {S : Type 0} → List ℕ → S × Result Error (Unit {0}) → S × Result Error (Unit {0})
with_context note (s, ok u) = (s, ok tt)
with_context note (s, err e) = (s, err (context note e))

module _ {S : Type 0} (refresh again apply : PatchStep S) where
  -- Stage 3 behind its refresh.
  abbrev pub retry_apply : S × Result Error (Unit {0}) → S × Result Error (Unit {0})
  retry_apply (s, ok u) = with_context (codes "retry patch apply failed") (apply s)
  retry_apply (s, err e) = (s, err (context (codes "retry cache refresh failed") e))

  -- What follows stage 2.
  abbrev pub after_apply : S × Result Error (Unit {0}) → S × Result Error (Unit {0})
  after_apply (s, ok u) = (s, ok tt)
  after_apply (s, err e) = if is_fetch_error e then retry_apply (again s) else (s, err e)

  -- What follows stage 1.
  abbrev pub after_refresh : S × Result Error (Unit {0}) → S × Result Error (Unit {0})
  after_refresh (s, ok u) = after_apply (apply s)
  after_refresh (s, err e) = (s, err (context (codes "initial cache refresh failed") e))

  -- The transaction of `apply_patches`; both refreshes are the same call, at two times.
  unfoldable pub patch_transaction : PatchStep S
  unfolding is_fetch_error
  patch_transaction s = after_refresh (refresh s)

-- The host and the state of the package index.
pub record World (S : Type 0) : Type 0 where
  pub host : Host S
  pub cache : CacheState

module _ (m : Machine) where
  abbrev pub note_refresh :
      (Error → List ℕ)
      → ℕ
      → CacheState
      → Host m.State × Result Error (List ℕ)
      → World m.State × Result Error (Unit {0})
  note_refresh format_error_chain now c (h, ok s) =
      (record { host = h; cache = update_success now c }, ok tt)
  note_refresh format_error_chain now c (h, err e) = (
    record {
      host = h;
      cache =
          update_failure now
            (codes "APT cache refresh failed: " ++ format_error_for_cache format_error_chain e) c;
    },
    err e,
  )

  -- `refresh_package_cache` of `AptBackend`, at a time, given how anyhow prints the chain.
  unfoldable pub apt_refresh_package_cache : (Error → List ℕ) → ℕ → PatchStep (World m.State)
  unfolding run_apt_safe update_success update_failure format_error_for_cache
  apt_refresh_package_cache format_error_chain now w =
      note_refresh format_error_chain now w.cache (run_apt_safe m (codes "update" ∷ []) w.host)

  -- `apply_patches` of `AptBackend`, which leaves the state of the index.
  unfoldable pub apt_apply : Option (List (List ℕ)) → PatchStep (World m.State)
  unfolding apt_apply_patches
  apt_apply packages w =
      let r = apt_apply_patches m packages w.host in (record w { host = r.0 }, r.1)

  -- The transaction on `AptBackend`.
  unfoldable pub apt_transaction :
      (Error → List ℕ) → ℕ → ℕ → Option (List (List ℕ)) → PatchStep (World m.State)
  unfolding patch_transaction apt_refresh_package_cache apt_apply
  apt_transaction format_error_chain first second packages =
      patch_transaction (apt_refresh_package_cache format_error_chain first)
        (apt_refresh_package_cache format_error_chain second) (apt_apply packages)

-- `PatchListData`.
pub record PatchListData : Type 0 where
  pub patches : List Patch
  pub total : ℕ
  pub security_updates : ℕ
  pub requires_reboot : Bool

abbrev pub is_security_update : Patch → Bool
is_security_update p =
    if list_eq p.severity (codes "critical") then true else list_eq p.severity (codes "high")

abbrev pub needs_reboot : Patch → Bool
needs_reboot p = p.requires_reboot

-- The data that the handler `list_patches` answers with.
unfoldable pub patch_list_data : List Patch → PatchListData
patch_list_data patches = record {
  patches = patches;
  total = length patches;
  security_updates = length (filter is_security_update patches);
  requires_reboot = any needs_reboot patches;
}

-- `should_reboot` in `apply_patches`; the system's own answer is an argument.
unfoldable pub should_reboot : Bool → Bool → Option (List (List ℕ)) → Bool
unfolding package_requires_reboot
should_reboot false system_needs_reboot packages = false
should_reboot true system_needs_reboot none = system_needs_reboot
should_reboot true system_needs_reboot (some []) = system_needs_reboot
should_reboot true system_needs_reboot (some (p ∷ ps)) =
    if system_needs_reboot then true else any package_requires_reboot (p ∷ ps)
