-- ===== src/Jobs/Status.antt =====
-- The status and the operation of a job: src/jobs/manager.rs.
use linux_patch_api.Prelude.{ℕ, String, Bool, true, false, ◌==◌, ◌≡◌, refl, arith, not}

-- `JobStatus`.
pub data JobStatus : Type 0 where
  pending running rebooting completed failed cancelled timed_out : JobStatus

-- `JobStatus::as_str`.
unfoldable pub as_str : JobStatus → String
as_str pending = "pending"
as_str running = "running"
as_str rebooting = "rebooting"
as_str completed = "completed"
as_str failed = "failed"
as_str cancelled = "cancelled"
as_str timed_out = "timed_out"

-- The place of a constructor in the declaration, by which the derived `PartialEq` compares.
abbrev pub discriminant : JobStatus → ℕ
discriminant pending = 0
discriminant running = 1
discriminant rebooting = 2
discriminant completed = 3
discriminant failed = 4
discriminant cancelled = 5
discriminant timed_out = 6

-- The derived `PartialEq` of `JobStatus`.
abbrev pub status_eq : JobStatus → JobStatus → Bool
status_eq s t = discriminant s == discriminant t

-- `JobStatus::is_active`.
abbrev pub is_active : JobStatus → Bool
is_active pending = true
is_active running = true
is_active rebooting = true
is_active _ = false

-- `JobStatus::is_terminal`.
abbrev pub is_terminal : JobStatus → Bool
is_terminal completed = true
is_terminal failed = true
is_terminal cancelled = true
is_terminal timed_out = true
is_terminal _ = false

-- `JobOperation`.
pub data JobOperation : Type 0 where
  install update remove patch_apply reboot self_update rollback : JobOperation

-- `matches!(op, JobOperation::SelfUpdate)`.
abbrev pub is_self_update : JobOperation → Bool
is_self_update self_update = true
is_self_update _ = false

-- The derived comparison decides equality.
pub eq_of_status_eq : (s t : JobStatus) → status_eq s t ≡ true → s ≡ t
eq_of_status_eq s t h = ground arith

-- A status is terminal exactly when it is not active: the two tests cut the seven in two.
pub is_terminal-not-is_active : (s : JobStatus) → is_terminal s ≡ not (is_active s)
is_terminal-not-is_active pending = refl
is_terminal-not-is_active _ = refl
