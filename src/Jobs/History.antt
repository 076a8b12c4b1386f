-- ===== src/Jobs/History.antt =====
-- The history file: src/jobs/persistence.rs. JSON is a parameter, and so is whether the new file can
-- be written and renamed.
pub mod Survival
use linux_patch_api.Prelude.{
  ℕ, ltb, Bool, true, false, not, ◌||◌, List, [], ◌∷◌, Option, none, some, length, filter, take,
  if◌then◌else◌,
}
use linux_patch_api.Jobs.Status.{is_terminal}
use linux_patch_api.Jobs.Job.{Job, is_internal}
use linux_patch_api.Jobs.Order.{sort_newest}

-- `serde_json` on lists of jobs. A text is the list of its bytes.
pub record Json : Type 0 where
  pub to_string_pretty : List Job → Option (List ℕ)
  pub from_str : List ℕ → Option (List Job)

-- What `fs::read_to_string` yields of a file.
pub data FileText : Type 0 where
  text : List ℕ → FileText
  absent unreadable : FileText

-- The two files of the state directory.
pub record StateDir : Type 0 where
  pub jobs_history : FileText
  pub running_jobs : FileText

-- `HISTORY_RETENTION_COUNT`.
abbrev pub retention_count : ℕ
retention_count = 500

-- The jobs that `persist_all_jobs` retains.
unfoldable pub is_retained : Job → Bool
unfolding is_internal
is_retained j = not (is_internal j) || is_terminal j.status

-- The jobs that `persist_all_jobs` writes.
unfoldable pub kept_jobs : List Job → List Job
unfolding is_retained sort_newest
kept_jobs jobs =
    let kept = filter is_retained jobs in
    if ltb retention_count (length kept) then take retention_count (sort_newest kept) else kept

-- `persist_all_jobs`, given whether the file is written and renamed.
unfoldable pub persist_all_jobs : Json → Bool → List Job → StateDir → StateDir
unfolding kept_jobs
persist_all_jobs json written jobs d = elim (json.to_string_pretty (kept_jobs jobs)) [
  | none ↦ d
  | some s ↦ if written then record d { jobs_history = text s } else d
]

-- The end of `load_all_jobs`: the history file.
unfoldable pub load_history_file : Json → FileText → List Job
load_history_file json absent = []
load_history_file json unreadable = []
load_history_file json (text s) = elim (json.from_str s) [ none ↦ [] | some jobs ↦ jobs ]

-- The migration of `load_all_jobs`: none if there is nothing to migrate.
unfoldable pub migrate : Json → Bool → StateDir → FileText → Option (StateDir × List Job)
unfolding persist_all_jobs
migrate json written d absent = none
migrate json written d unreadable = none
migrate json written d (text s) = elim (json.from_str s) [
  | none ↦ none
  | some jobs ↦ some (record (persist_all_jobs json written jobs d) { running_jobs = absent }, jobs)
]

abbrev pub or_else : List Job → StateDir → Option (StateDir × List Job) → StateDir × List Job
or_else jobs d none = (d, jobs)
or_else jobs d (some r) = r

-- `load_all_jobs`, given whether the migrated file is written.
unfoldable pub load_all_jobs : Json → Bool → StateDir → StateDir × List Job
unfolding load_history_file migrate
load_all_jobs json written d = elim d.jobs_history [
  | absent ↦ or_else [] d (migrate json written d d.running_jobs)
  | other ↦ (d, load_history_file json other)
]
