-- ===== src/Auth/Schedule.antt =====
-- When the background task of src/auth/crl.rs fetches the revocation list.
use linux_patch_api.Prelude.{
  ℕ, zero, suc, ◌+◌, ◌*◌, ◌≤◌, ◌<◌, Bool, true, false, List, [], ◌∷◌, ltb, arith, if◌then◌else◌,
}
use linux_patch_api.Auth.Refresh.{interval, backoff, fetch_times}

abbrev pub AllAbove : ℕ → List ℕ → Type 0
AllAbove t [] = Unit {0}
AllAbove t (u ∷ us) = (t < u) × AllAbove t us

backoff_low : (n : ℕ) → 60 ≤ backoff n
backoff_low zero = omega arith
backoff_low (suc zero) = omega arith
backoff_low (suc (suc zero)) = omega arith
backoff_low (suc (suc (suc n))) = omega arith

fetch_times-AllAbove :
    (low t n : ℕ) (outcomes : List Bool) → low ≤ t → AllAbove low (fetch_times t n outcomes)
unfolding fetch_times
fetch_times-AllAbove low t n [] h = tt
fetch_times-AllAbove low t n (true ∷ os) h =
    (omega (arith, h), fetch_times-AllAbove low (t + interval) 0 os (omega (arith, h)))
fetch_times-AllAbove low t n (false ∷ os) h = (
  omega (arith, h),
  fetch_times-AllAbove low (t + interval + backoff n) (if ltb n 4 then suc n else n) os
      (omega (arith, h)),
)

-- The times behind the first.
abbrev pub rest_of : List ℕ → List ℕ
rest_of [] = []
rest_of (u ∷ us) = us

-- After a fetch at time t, once the next one fails all others come more than 24 hours after t,
-- whatever the retry index is.
pub fetch_times-lapse :
    (t retry_idx : ℕ) (outcomes : List Bool)
    → AllAbove (t + 24 * 60 * 60) (rest_of (fetch_times t retry_idx (false ∷ outcomes)))
unfolding fetch_times
fetch_times-lapse t n [] = tt
fetch_times-lapse t n (true ∷ os) = (
  omega (arith, backoff_low n),
  fetch_times-AllAbove (t + 24 * 60 * 60) (t + interval + backoff n + interval) 0 os
      (omega (arith, backoff_low n)),
)
fetch_times-lapse t n (false ∷ os) = (
  omega (arith, backoff_low n),
  fetch_times-AllAbove (t + 24 * 60 * 60)
      (t + interval + backoff n + interval + backoff (if ltb n 4 then suc n else n)) _ os
      (omega (arith, backoff_low n)),
)
