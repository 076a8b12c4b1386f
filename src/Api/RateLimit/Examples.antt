-- ===== src/Api/RateLimit/Examples.antt =====
-- Tests of the limits, and the theorem at a concrete input.
use linux_patch_api.Prelude.{ℕ, zero, suc, true, [], ◌∷◌, Option, none, some, ◌≡◌, refl}
use linux_patch_api.Prelude.Text.{codes}
use linux_patch_api.Whitelist.Entry.{v4}
use linux_patch_api.Api.RateLimit.{Limiter, RateLimiters, Request, call, after, call-tiers}

-- A limiter that lets so many requests pass and then asks for 0 seconds.
abbrev take_one : ℕ → ℕ × Option ℕ
take_one zero = (zero, some 0)
take_one (suc n) = (n, none)

abbrev counter : Limiter
counter = record { State = ℕ; keyed = λ per_minute burst. burst; check_key = λ ip n. take_one n }

abbrev limiters : RateLimiters ℕ
limiters = record { destructive = 0; read = 1; enabled = true }

abbrev get : Request
get = record { method = codes "GET"; path = codes "/api/v1/jobs"; peer = some (v4 1) }

-- A request over the limit waits for a second at least.
refused : (call counter (codes "POST") (codes "/api/v1/jobs") (some (v4 1)) limiters).1 ≡ some 1
unfolding call
refused = refl

call-tiers_example :
    (call counter
      (codes "POST")
      (codes "/")
      (some (v4 2))
      (after counter limiters (get ∷ get ∷ []))).1
    ≡ (call counter (codes "POST") (codes "/") (some (v4 2)) limiters).1
call-tiers_example =
    call-tiers counter limiters (get ∷ get ∷ []) (codes "POST") (codes "/") (some (v4 2)) refl refl
