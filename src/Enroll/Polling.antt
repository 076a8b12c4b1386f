-- ===== src/Enroll/Polling.antt =====
-- What polling comes to: the first attempt that decides, or the limit. The loop is
-- `poll_for_approval` of src/enroll/client.rs.
use linux_patch_api.Prelude.{
  ◌==◌, if◌then◌else◌, ℕ, zero, suc, ◌+◌, ◌*◌, ◌/◌, ◌<◌, List, Option, none, some, ◌≡◌, ◌⊎◌,
}
use linux_patch_api.Prelude.Result.{Result, ok, err}
use linux_patch_api.Enroll.Answers.{
  PkiBundle, EnrollmentStatusResponse, pending, denied, not_found, approved, RequestError, Answer,
  network_error, http,
}
use linux_patch_api.Enroll.Client.{
  Event, answer, sigint, sigterm, PollError, interrupted_by_user, interrupted_by_system, was_denied,
  token_invalid, timed_out, Polled, total_seconds,
}

-- What an attempt decides, if anything: a signal, or a bundle, a denial or an unknown token in an answer
-- with the status 200.
abbrev pub status_decision : EnrollmentStatusResponse → Option (Result PollError PkiBundle)
status_decision pending = none
status_decision denied = some (err was_denied)
status_decision not_found = some (err token_invalid)
status_decision (approved a b c d e r) = some (
    ok (record {
      ca_crt = a;
      ca_chain = b;
      server_crt = c;
      server_key = d;
      crl_pem = e;
      repo_config = r;
    }))

abbrev answer_decision :
    Result RequestError EnrollmentStatusResponse → Option (Result PollError PkiBundle)
answer_decision (err e) = none
answer_decision (ok s) = status_decision s

module _ (from_json : List ℕ → Option EnrollmentStatusResponse) (event : ℕ → Event) where
  abbrev pub body_decision : Option EnrollmentStatusResponse → Option (Result PollError PkiBundle)
  body_decision none = none
  body_decision (some s) = status_decision s

  abbrev pub http_decision : Answer → Option (Result PollError PkiBundle)
  http_decision network_error = none
  http_decision (http status none) = none
  http_decision (http status (some body)) =
      if status == 200 then body_decision (from_json body) else none

  abbrev pub decision : Event → Option (Result PollError PkiBundle)
  decision (answer a) = http_decision a
  decision sigint = some (err interrupted_by_user)
  decision sigterm = some (err interrupted_by_system)

  -- So many attempts from this one on decide nothing.
  abbrev pub Undecided : ℕ → ℕ → Type 0
  Undecided from zero = Unit {0}
  Undecided from (suc k) = (decision (event from) ≡ none) × Undecided (suc from) k

  -- Attempt number `from + k`, the first that decides, gives the result.
  abbrev pub DecidedAt : ℕ → ℕ → ℕ → Polled → Type 0
  DecidedAt interval from k p =
      Undecided from k
      × (decision (event (from + k)) ≡ some p.result)
      × (p.attempts ≡ from + k)
      × (p.slept ≡ k * interval)

  abbrev pub Exhausted : ℕ → ℕ → ℕ → ℕ → Polled → Type 0
  Exhausted interval limit from n p =
      Undecided from n
      × (p.result ≡ err (timed_out (total_seconds limit interval / 3600) limit))
      × (p.attempts ≡ limit)
      × (p.slept ≡ n * interval)

  -- The two ways to end, for a run of the loop.
  abbrev Ends : ℕ → ℕ → ℕ → ℕ → Polled → Type 0
  Ends interval limit from n p =
      ((k : ℕ) × (k < n) × DecidedAt interval from k p) ⊎ Exhausted interval limit from n p
