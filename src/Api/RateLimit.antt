-- ===== src/Api/RateLimit.antt =====
-- The limits on requests: `RateLimiters` of src/api/rate_limit.rs. The limiter of a tier is a parameter:
-- a check of an address gives the new state, and the seconds to wait if the limit is reached.
mod Examples
use mathlib.Core.Bool.{true≢false}
use linux_patch_api.Prelude.{
  ℕ, zero, suc, max, Bool, true, false, ◌&&◌, ◌||◌, not, ◌==◌, List, [], ◌∷◌, any, list_eq, Option,
  none, some, if◌then◌else◌, ◌≡◌, refl, sym, ◌∙◌, arith, Bool-cases, inl, inr,
}
use linux_patch_api.Prelude.Result.{Result, ok, err, is_ok}
use linux_patch_api.Prelude.Text.{codes}
use linux_patch_api.Whitelist.Entry.{IpAddr}
use linux_patch_api.Config.{RateLimitConfig}

-- `EXEMPT_PATHS`.
abbrev pub exempt_paths : List (List ℕ)
exempt_paths = codes "/health" ∷ codes "/api/v1/system/info" ∷ []

-- A limiter of the library: `check_key` on its state.
pub record Limiter : Type 1 where
  pub State : Type 0
  pub keyed : (per_minute burst : ℕ) → State
  pub check_key : IpAddr → State → State × Option ℕ

-- `RateLimiters`.
pub record RateLimiters (S : Type 0) : Type 0 where
  pub destructive : S
  pub read : S
  pub enabled : Bool

abbrev quota : {S : Type 0} → (ℕ → ℕ → S) → ℕ → ℕ → Option S
quota keyed zero burst = none
quota keyed (suc n) zero = none
quota keyed (suc n) (suc b) = some (keyed (suc n) (suc b))

module _ (l : Limiter) where
  abbrev with_read : l.State → Bool → Option l.State → Option (RateLimiters l.State)
  with_read destructive enabled none = none
  with_read destructive enabled (some read) =
      some (record { destructive = destructive; read = read; enabled = enabled })

  abbrev with_destructive : RateLimitConfig → Option l.State → Option (RateLimiters l.State)
  with_destructive c none = none
  with_destructive c (some destructive) =
      with_read destructive c.enabled (quota l.keyed c.read_per_minute c.read_burst)

  -- `RateLimiters::new`; `none` is the panic of `unwrap` on a quota of zero.
  unfoldable pub new : RateLimitConfig → Option (RateLimiters l.State)
  new c = with_destructive c (quota l.keyed c.destructive_per_minute c.destructive_burst)

  -- The error: `retry_after_secs`, at least one.
  abbrev outcome : Option ℕ → Result ℕ (Unit {0})
  outcome none = ok tt
  outcome (some wait) = err (max wait 1)

  abbrev pub is_destructive : List ℕ → Bool
  is_destructive method = any (list_eq method) (codes "POST" ∷ codes "PUT" ∷ codes "DELETE" ∷ [])

  abbrev on_tier : Bool → IpAddr → RateLimiters l.State → RateLimiters l.State × Result ℕ (Unit {0})
  on_tier true ip s =
      let r = l.check_key ip s.destructive in (record s { destructive = r.0 }, outcome r.1)
  on_tier false ip s = let r = l.check_key ip s.read in (record s { read = r.0 }, outcome r.1)

  -- `RateLimiters::check`.
  unfoldable pub check :
      (method path : List ℕ)
      → IpAddr
      → RateLimiters l.State
      → RateLimiters l.State × Result ℕ (Unit {0})
  check method path peer_ip s =
      let checked = on_tier (is_destructive method) peer_ip s in
      if not s.enabled
      then (s, ok tt)
      else if any (list_eq path) exempt_paths
      then (s, ok tt)
      else checked

  -- What the middleware does with a request: the next service, or the response 429 with the seconds.
  abbrev limited : RateLimiters l.State × Result ℕ (Unit {0}) → RateLimiters l.State × Option ℕ
  limited (s, ok u) = (s, none)
  limited (s, err wait) = (s, some wait)

  unfoldable pub call :
      (method path : List ℕ)
      → Option IpAddr
      → RateLimiters l.State
      → RateLimiters l.State × Option ℕ
  unfolding check
  call method path none s = (s, none)
  call method path (some ip) s = limited (check method path ip s)

-- A request: its method, its path and the address of the peer, if it is one.
pub record Request : Type 0 where
  pub method : List ℕ
  pub path : List ℕ
  pub peer : Option IpAddr

module _ (l : Limiter) where
  abbrev pub after : RateLimiters l.State → List Request → RateLimiters l.State
  after s [] = s
  after s (r ∷ rs) = after (call l r.method r.path r.peer s).0 rs

  abbrev pub Agree : RateLimiters l.State → RateLimiters l.State → Type 0
  Agree s s' = (s'.destructive ≡ s.destructive) × (s'.enabled ≡ s.enabled)

  limited-state : (r : RateLimiters l.State × Result ℕ (Unit {0})) → (limited l r).0 ≡ r.0
  limited-state (s, ok u) = refl
  limited-state (s, err wait) = refl

  if_free :
      (s : RateLimiters l.State) (a b : Bool) (r : RateLimiters l.State × Result ℕ (Unit {0}))
      → Agree s r.0
      → Agree s (if a then (s, ok tt) else if b then (s, ok tt) else r).0
  if_free s true b r h = (refl, refl)
  if_free s false true r h = (refl, refl)
  if_free s false false r h = h

  check-Agree :
      (method path : List ℕ) (ip : IpAddr) (s : RateLimiters l.State)
      → is_destructive l method ≡ false
      → Agree s (check l method path ip s).0
  unfolding check
  check-Agree method path ip s h = rw h (
      if_free s (not s.enabled) (any (list_eq path) exempt_paths) (on_tier l false ip s)
        (refl, refl))

  call-Agree :
      (method path : List ℕ) (peer : Option IpAddr) (s : RateLimiters l.State)
      → is_destructive l method ≡ false
      → Agree s (call l method path peer s).0
  unfolding call
  call-Agree method path none s h = (refl, refl)
  call-Agree method path (some ip) s h =
      rw (limited-state (check l method path ip s)) (check-Agree method path ip s h)

  abbrev pub reads_only : List Request → Bool
  reads_only rs = not (any (λ r. is_destructive l r.method) rs)

  after-Agree :
      (s : RateLimiters l.State) (rs : List Request) → reads_only rs ≡ true → Agree s (after s rs)
  after-Agree s [] h = (refl, refl)
  after-Agree s (r ∷ rs) h = elim (Bool-cases (is_destructive l r.method)) [
    | inl d ↦ absurd (true≢false (sym (rw d at h)))
    | inr n ↦
        let (a, b) = call-Agree r.method r.path r.peer s n in
        let (c, d) = after-Agree (call l r.method r.path r.peer s).0 rs (rw n at h) in
        (c ∙ a, d ∙ b)
  ]

  abbrev pick : Bool → Bool → Result ℕ (Unit {0}) → Option ℕ
  pick true b r = none
  pick false true r = none
  pick false false (ok u) = none
  pick false false (err wait) = some wait

  if_pick :
      (s : RateLimiters l.State) (a b : Bool) (r : RateLimiters l.State × Result ℕ (Unit {0}))
      → (limited l (if a then (s, ok tt) else if b then (s, ok tt) else r)).1 ≡ pick a b r.1
  if_pick s true b r = refl
  if_pick s false true r = refl
  if_pick s false false (s', ok u) = refl
  if_pick s false false (s', err wait) = refl

  call-destructive :
      (method path : List ℕ) (ip : IpAddr) (s : RateLimiters l.State)
      → is_destructive l method ≡ true
      → (call l method path (some ip) s).1
        ≡ pick
            (not s.enabled)
            (any (list_eq path) exempt_paths)
            (outcome l (l.check_key ip s.destructive).1)
  unfolding call check
  call-destructive method path ip s h =
      rw h (if_pick s (not s.enabled) (any (list_eq path) exempt_paths) (on_tier l true ip s))

  same_verdict :
      (method path : List ℕ) (peer : Option IpAddr) (s s' : RateLimiters l.State)
      → is_destructive l method ≡ true
      → Agree s s'
      → (call l method path peer s').1 ≡ (call l method path peer s).1
  unfolding call
  same_verdict method path none s s' h a = refl
  same_verdict method path (some ip) s s' h (d, e) =
      call-destructive method path ip s' h
      ∙ (rw (d, e) refl ∙ sym (call-destructive method path ip s h))

-- However many requests of other methods came before, from whatever addresses, a request by POST, PUT
-- or DELETE passes or is refused, with the same seconds to wait, as if they had not been made.
pub call-tiers :
    (l : Limiter) (s : RateLimiters l.State) (before : List Request) (method path : List ℕ)
    (peer : Option IpAddr)
    → reads_only l before ≡ true
    → is_destructive l method ≡ true
    → (call l method path peer (after l s before)).1 ≡ (call l method path peer s).1
call-tiers l s before method path peer reads destructive =
    same_verdict l method path peer s (after l s before) destructive (after-Agree l s before reads)
