-- ===== src/Packages/Cache.antt =====
-- The state of the package index: src/packages/cache.rs. Times are in nanoseconds; how the state file
-- is read and written is outside.
use linux_patch_api.Prelude.{
  ℕ, ◌+◌, ◌-◌, ◌*◌, Bool, true, false, ltb, List, [], ◌∷◌, Option, none, some, if◌then◌else◌,
}
use linux_patch_api.Prelude.Result.{Result, ok, err}
use linux_patch_api.Prelude.Text.{codes}
use linux_patch_api.Prelude.Lines.{to_lowercase}
use linux_patch_api.Packages.Error.Report.{Error, to_string}
use linux_patch_api.Packages.Error.Classify.{mentions}
use linux_patch_api.Packages.Runner.{Action, ◌>>=◌, handle, pure, fail}

abbrev pub default_stale_threshold : ℕ
default_stale_threshold = 3600

abbrev pub jitter_max : ℕ
jitter_max = 300

-- `PackageCacheState` with its `CacheStateInner`.
pub record CacheState : Type 0 where
  pub last_update : Option ℕ
  pub last_update_success : Bool
  pub last_update_error : Option (List ℕ)
  pub stale_threshold : ℕ
  pub jitter : ℕ

-- `CacheStateFile`, its time parsed if it can be.
pub record CacheFile : Type 0 where
  pub last_cache_update : Option ℕ
  pub last_success : Bool

abbrev pub file_time : Option CacheFile → Option ℕ
file_time none = none
file_time (some f) = f.last_cache_update

abbrev pub file_success : Option CacheFile → Bool
file_success none = false
file_success (some f) = f.last_success

-- `with_threshold_and_jitter`.
unfoldable pub with_threshold_and_jitter : Option CacheFile → ℕ → ℕ → CacheState
with_threshold_and_jitter file threshold jitter = record {
  last_update = file_time file;
  last_update_success = file_success file;
  last_update_error = none;
  stale_threshold = threshold;
  jitter = jitter;
}

-- `saturating_add` on 64 bits.
abbrev pub max_u64 : ℕ
max_u64 = 18446744073709551615

unfoldable pub effective_threshold : CacheState → ℕ
effective_threshold s =
    if ltb max_u64 (s.stale_threshold + s.jitter) then max_u64 else s.stale_threshold + s.jitter

-- `chrono::Duration::from_std`, which fails above `TimeDelta::MAX`, in nanoseconds.
abbrev pub to_delta : ℕ → ℕ
to_delta seconds =
    if ltb 9223372036854775 seconds then 9223372036854775807000000 else seconds * 1000000000

-- `is_stale` at a time. If the last update lies ahead of it, the index is not stale.
unfoldable pub is_stale : ℕ → CacheState → Bool
unfolding effective_threshold
is_stale now s = elim s.last_update [
  | none ↦ true
  | some t ↦ ltb (to_delta (effective_threshold s)) (now - t)
]

-- `update_success` and `update_failure`.
unfoldable pub update_success : ℕ → CacheState → CacheState
update_success now s = record s {
  last_update = some now;
  last_update_success = true;
  last_update_error = none;
}

abbrev pub or_now : ℕ → Option ℕ → Option ℕ
or_now now none = some now
or_now now (some t) = some t

unfoldable pub update_failure : ℕ → List ℕ → CacheState → CacheState
update_failure now error s = record s {
  last_update = or_now now s.last_update;
  last_update_success = false;
  last_update_error = some error;
}

-- What `persist_state` writes.
abbrev pub persisted : CacheState → CacheFile
persisted s = record { last_cache_update = s.last_update; last_success = s.last_update_success }

-- `is_fetch_error`.
unfoldable pub is_fetch_error : Error → Bool
unfolding to_string to_lowercase
is_fetch_error e =
    mentions (to_lowercase (to_string e))
      (codes "404" ∷ codes "not found" ∷ codes "failed to fetch" ∷ codes "unable to fetch" ∷ [])

module _ {S : Type 0} where
  abbrev pub retry_after :
      Action S (Unit {0}) → Action S (Unit {0}) → Result Error (Unit {0}) → Action S (Unit {0})
  retry_after refresh apply (ok u) = pure tt
  retry_after refresh apply (err e) = if is_fetch_error e then (refresh >>= λ u. apply) else fail e

  -- `apply_with_cache_retry`.
  unfoldable pub apply_with_cache_retry :
      Action S (Unit {0}) → Action S (Unit {0}) → Action S (Unit {0})
  unfolding is_fetch_error
  apply_with_cache_retry refresh apply = handle apply (retry_after refresh apply)
