-- ===== src/Enroll/Examples.antt =====
-- The theorem on polling at a concrete input.
use linux_patch_api.Prelude.{ℕ, zero, suc, List, [], ◌∷◌, Option, none, some, ◌==◌, if◌then◌else◌}
use linux_patch_api.Prelude.Text.{codes}
use linux_patch_api.Enroll.Answers.{EnrollmentStatusResponse, pending, denied, network_error, http}
use linux_patch_api.Enroll.Client.{Event, answer, sigint}

abbrev parse : List ℕ → Option EnrollmentStatusResponse
parse [] = none
parse (c ∷ cs) = if c == b'd' then some denied else some pending

-- Two attempts that decide nothing, then a denial.
abbrev events : ℕ → Event
events zero = sigint
events (suc zero) = answer network_error
events (suc (suc zero)) = answer (http 200 (some (codes "pending")))
events (suc (suc (suc n))) = answer (http 200 (some (codes "denied")))
