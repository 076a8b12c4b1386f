-- ===== src/Enroll/Client.antt =====
-- The loop that waits for an approval: `poll_for_approval` of src/enroll/client.rs. What the race of an
-- attempt yields, an answer or a signal, is given by the number of the attempt.
use linux_patch_api.Prelude.{
  ℕ, zero, suc, ◌+◌, ◌*◌, ◌/◌, ◌%◌, ◌^◌, ◌==◌, ltb, Bool, true, false, List, Option, if◌then◌else◌,
}
use linux_patch_api.Prelude.Result.{Result, ok, err}
use linux_patch_api.Enroll.Answers.{
  PkiBundle, EnrollmentStatusResponse, pending, denied, not_found, approved, Answer, RequestError,
  poll_status,
}

pub data Event : Type 0 where
  answer : Answer → Event
  sigint sigterm : Event

-- How polling ends without a bundle.
pub data PollError : Type 0 where
  interrupted_by_user interrupted_by_system was_denied token_invalid no_listener : PollError
  timed_out : (hours attempts : ℕ) → PollError

-- The result, the attempts made and the seconds slept.
pub record Polled : Type 0 where
  pub result : Result PollError PkiBundle
  pub attempts : ℕ
  pub slept : ℕ

-- `effective_interval` and `effective_max`.
abbrev pub effective_interval : ℕ → ℕ
effective_interval seconds = if seconds == 0 then 60 else seconds

unfoldable pub effective_max : ℕ → ℕ
effective_max n = if n == 0 then 1440 else if ltb 1440 n then 1440 else n

-- `total_seconds`, in 64 bits.
abbrev pub total_seconds : ℕ → ℕ → ℕ
total_seconds attempts interval = attempts * interval % 2 ^ 64

module _ (from_json : List ℕ → Option EnrollmentStatusResponse) (event : ℕ → Event)
    (interval : ℕ) where
  abbrev pub finish : ℕ → Result PollError PkiBundle → Polled
  finish attempt r = record { result = r; attempts = attempt; slept = 0 }

  -- Sleep, then the rest of the loop.
  abbrev pub sleep_then : Polled → Polled
  sleep_then p = record p { slept = p.slept + interval }

  -- `match` on the status; the last argument is the rest of the loop.
  abbrev pub on_status : ℕ → EnrollmentStatusResponse → Polled → Polled
  on_status attempt pending rest = sleep_then rest
  on_status attempt (approved a b c d e r) rest = finish attempt (
      ok (record {
        ca_crt = a;
        ca_chain = b;
        server_crt = c;
        server_key = d;
        crl_pem = e;
        repo_config = r;
      }))
  on_status attempt denied rest = finish attempt (err was_denied)
  on_status attempt not_found rest = finish attempt (err token_invalid)

  abbrev pub on_answer : ℕ → Result RequestError EnrollmentStatusResponse → Polled → Polled
  on_answer attempt (err e) rest = sleep_then rest
  on_answer attempt (ok status) rest = on_status attempt status rest

  abbrev pub on_event : ℕ → Event → Polled → Polled
  on_event attempt (answer a) rest = on_answer attempt (poll_status from_json a) rest
  on_event attempt sigint rest = finish attempt (err interrupted_by_user)
  on_event attempt sigterm rest = finish attempt (err interrupted_by_system)

  -- The loop, with the attempts that are left and the number of the next one; the first argument is the
  -- limit that the last error names.
  unfoldable pub poll_loop : ℕ → ℕ → ℕ → Polled
  unfolding poll_status
  poll_loop limit zero attempt = record {
    result = err (timed_out (total_seconds limit interval / 3600) limit);
    attempts = limit;
    slept = 0;
  }
  poll_loop limit (suc left) attempt =
      let rest = poll_loop limit left (suc attempt) in on_event attempt (event attempt) rest

-- `poll_for_approval`, whether or not the listeners of both signals can be set up.
unfoldable pub poll_for_approval :
    (List ℕ → Option EnrollmentStatusResponse) → (ℕ → Event) → Bool → ℕ → ℕ → Polled
unfolding poll_loop effective_max
poll_for_approval from_json event false interval_seconds max_attempts = record {
  result = err no_listener;
  attempts = 0;
  slept = 0;
}
poll_for_approval from_json event true interval_seconds max_attempts =
    let n = effective_max max_attempts in
    poll_loop from_json event (effective_interval interval_seconds) n n 1
