-- ===== src/Scheduler/State.antt =====
-- The state behind the scheduler's lock, and the helpers that its operations share:
-- src/jobs/scheduler.rs. What leaves the state is recorded in it: the events sent on the broadcast
-- channel (newest first) and the number of calls of `Notify::notify_one`.
use linux_patch_api.Prelude.{
  ℕ, suc, ◌+◌, ◌%◌, String, Bool, true, false, ◌&&◌, not, List, [], ◌∷◌, Option, none, some, max,
}
use linux_patch_api.Prelude.Table.{get, modify, count}
use linux_patch_api.Jobs.Status.{JobStatus, running, is_active, status_eq, as_str}
use linux_patch_api.Jobs.Job.{Job, is_internal}

-- `AdmissionMode`; `opened` is `Open`.
pub data AdmissionMode : Type 0 where
  opened frozen recovery : AdmissionMode

abbrev pub is_open : AdmissionMode → Bool
is_open opened = true
is_open _ = false

-- `UpgradeOperation`.
pub record UpgradeOperation : Type 0 where
  pub job_id : ℕ
  pub from_version : String
  pub target_version : String
  pub generation : ℕ

-- `JobStatusEvent`. The time stands for its RFC 3339 text.
pub record JobStatusEvent : Type 0 where
  pub event : String
  pub job_id : ℕ
  pub status : String
  pub progress : ℕ
  pub message : String
  pub timestamp : ℕ
  pub error : Option String
  pub error_code : Option String

-- `SchedulerState`, with the effects on the channel and the notifier, and the static
-- `GENERATION_COUNTER`.
pub record SchedulerState : Type 0 where
  pub admission : AdmissionMode
  pub jobs : List (ℕ × Job)
  pub active_mutation : Option ℕ
  pub mutation_generation : ℕ
  pub self_update : Option UpgradeOperation
  pub reboot_pending : Option ℕ
  pub max_concurrent : ℕ
  pub max_queue_depth : ℕ
  pub events : List JobStatusEvent
  pub wakes : ℕ
  pub generation_counter : ℕ

-- `Scheduler::new`, at the given value of the static counter.
unfoldable pub new : ℕ → ℕ → ℕ → SchedulerState
new max_concurrent max_queue_depth counter = record {
  admission = opened;
  jobs = [];
  active_mutation = none;
  mutation_generation = 0;
  self_update = none;
  reboot_pending = none;
  max_concurrent = max max_concurrent 1;
  max_queue_depth = max max_queue_depth 1;
  events = [];
  wakes = 0;
  generation_counter = counter;
}

-- `emit_event`, with the event type "job_status" that every call gives.
unfoldable pub emit_event : ℕ → ℕ → JobStatus → ℕ → String → SchedulerState → SchedulerState
emit_event now id status progress message s = record s {
  events =
      record {
        event = "job_status";
        job_id = id;
        status = as_str status;
        progress = progress;
        message = message;
        timestamp = now;
        error = none;
        error_code = none;
      }
      ∷ s.events;
}

-- `emit_event_detailed`.
unfoldable pub emit_event_detailed :
    ℕ → ℕ → JobStatus → ℕ → String → Option String → Option String → SchedulerState → SchedulerState
emit_event_detailed now id status progress message error code s = record s {
  events =
      record {
        event = "job_status";
        job_id = id;
        status = as_str status;
        progress = progress;
        message = message;
        timestamp = now;
        error = error;
        error_code = code;
      }
      ∷ s.events;
}

-- `state.notify.notify_one()`.
unfoldable pub notify_one : SchedulerState → SchedulerState
notify_one s = record s { wakes = suc s.wakes }

-- The shape that most transitions have: `get_mut`, an update of the job, and an event with the
-- status, progress and message that the job then has. A missing job is passed over.
unfoldable pub change_job : ℕ → ℕ → (Job → Job) → SchedulerState → SchedulerState
unfolding emit_event
change_job now id f s = elim (get id s.jobs) [
  | none ↦ s
  | some j ↦
      emit_event now id (f j).status (f j).progress (f j).message
        (record s { jobs = modify id f s.jobs })
]

-- 2 ^ 64, past which a `u64` wraps.
abbrev pub u64_mod : ℕ
u64_mod = 18446744073709551616

-- `next_generation`: `fetch_add` on a `u64` yields the old value, and wraps.
unfoldable pub next_generation : SchedulerState → ℕ × SchedulerState
next_generation s =
    (s.generation_counter, record s { generation_counter = (s.generation_counter + 1) % u64_mod })

abbrev pub is_running : Job → Bool
is_running j = status_eq j.status running

-- `j.status.is_active() && !j.is_internal()`.
abbrev pub counts_active : Job → Bool
counts_active j = is_active j.status && not (is_internal j)

-- The number of jobs with status `Running`.
abbrev pub running_count : SchedulerState → ℕ
running_count s = count is_running s.jobs

-- The number of active jobs that are not internal.
abbrev pub active_user_count : SchedulerState → ℕ
active_user_count s = count counts_active s.jobs

-- `Scheduler::active_count`, which counts internal jobs too.
unfoldable pub active_count : SchedulerState → ℕ
active_count s = count (λ j. is_active j.status) s.jobs
