-- ===== src/Enroll/Answers.antt =====
-- What the manager answers, and what the client makes of it: `register` and `poll_status` of
-- src/enroll/client.rs. HTTP and JSON are parameters: an answer is a status with a body.
use linux_patch_api.Prelude.{ℕ, ◌==◌, leb, List, Option, none, some, if◌then◌else◌}
use linux_patch_api.Prelude.Result.{Result, ok, err}

-- `RepoConfig`, `PkiBundle` and `EnrollmentStatusResponse`.
pub record RepoConfig : Type 0 where
  pub gpg_public_key : List ℕ
  pub sources_config : List ℕ
  pub distro_id : List ℕ
  pub keyring_path : List ℕ
  pub apk_rsa_public_key : Option (List ℕ)

pub record PkiBundle : Type 0 where
  pub ca_crt : List ℕ
  pub ca_chain : List ℕ
  pub server_crt : List ℕ
  pub server_key : List ℕ
  pub crl_pem : List ℕ
  pub repo_config : Option RepoConfig

pub data EnrollmentStatusResponse : Type 0 where
  pending denied not_found : EnrollmentStatusResponse
  approved :
      (ca_crt ca_chain server_crt server_key crl_pem : List ℕ) (repo_config : Option RepoConfig)
      → EnrollmentStatusResponse

-- An answer to a request: nothing, or a status and the body, unless it cannot be read.
pub data Answer : Type 0 where
  network_error : Answer
  http : ℕ → Option (List ℕ) → Answer

-- The errors of a request, one for each message.
pub data RequestError : Type 0 where
  network unreadable malformed expired conflict rate_limited : RequestError
  server_error unexpected : ℕ → Option (List ℕ) → RequestError

module _ {A : Type 0} where
  -- The body of a good answer.
  abbrev pub decode : (List ℕ → Option A) → Option (List ℕ) → Result RequestError A
  decode from_json none = err unreadable
  decode from_json (some body) = elim (from_json body) [ none ↦ err malformed | some a ↦ ok a ]

  -- The last two branches, which both requests share.
  abbrev pub other_status : ℕ → Option (List ℕ) → Result RequestError A
  other_status status body =
      if leb 500 status then err (server_error status body) else err (unexpected status body)

-- `poll_status`, after the request.
unfoldable pub poll_status :
    (List ℕ → Option EnrollmentStatusResponse)
    → Answer
    → Result RequestError EnrollmentStatusResponse
poll_status from_json network_error = err network
poll_status from_json (http status body) =
    if status == 200
    then decode from_json body
    else if status == 404
    then err expired
    else if status == 429
    then err rate_limited
    else other_status status body

-- `register`, after the request: the polling token.
unfoldable pub register : (List ℕ → Option (List ℕ)) → Answer → Result RequestError (List ℕ)
register from_json network_error = err network
register from_json (http status body) =
    if status == 202
    then decode from_json body
    else if status == 409
    then err conflict
    else if status == 429
    then err rate_limited
    else other_status status body
