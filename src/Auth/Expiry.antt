-- ===== src/Auth/Expiry.antt =====
-- The status that the health report shows between two loads: src/auth/crl.rs.
use linux_patch_api.Prelude.{ℕ, ◌≤◌, Option, none, some, ◌≡◌, refl, arith, if◌then◌else◌}
use linux_patch_api.Auth.Crl.{
  X509, CrlStatus, valid, expired, verified_state, reevaluate_expiry, is_past,
}

-- For a list loaded at `now`, the status re-evaluated later is the status that loading the same list
-- then would give.
pub reevaluate_expiry-verified_state :
    (x : X509) (now later : ℕ) (mtime : Option ℕ) (crl : x.Crl)
    → now ≤ later
    → reevaluate_expiry later (verified_state x now mtime crl)
      ≡ (verified_state x later mtime crl).status
unfolding reevaluate_expiry verified_state
reevaluate_expiry-verified_state x now later mtime crl h =
    elim (x.crl_next_update crl)
      as (λ u.
        (elim (if is_past now u then expired else valid) as (λ c. CrlStatus) [
          | valid ↦ if is_past later u then expired else valid
          | other ↦ other
        ])
        ≡ (if is_past later u then expired else valid)) [ none ↦ refl | some u ↦ ground arith ]
