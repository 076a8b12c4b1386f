-- ===== src/Jobs/History/Survival.antt =====
-- What survives in the history file: src/jobs/persistence.rs.
use linux_patch_api.Prelude.{
  ℕ, zero, suc, ◌≤◌, ltb, Bool, true, false, List, [], ◌∷◌, ◌++◌, some, length, filter, take, drop,
  ◌≡◌, refl, sym, ap, ◌∙◌, arith, inl, inr, ◌⊎◌, Bool-cases, if◌then◌else◌,
}
use linux_patch_api.Jobs.Job.{Job}
use linux_patch_api.Jobs.Order.{
  IsSorted, sort_newest, sort_newest-IsSorted, count_of, count_of-sort_newest,
}
use linux_patch_api.Jobs.History.{
  Json, StateDir, text, absent, retention_count, is_retained, kept_jobs, persist_all_jobs,
  load_all_jobs, load_history_file, migrate, or_else,
}

-- These jobs can be written, and read back.
abbrev pub RoundTrips : Json → List Job → Type 0
RoundTrips json jobs =
    (s : List ℕ) × (json.to_string_pretty jobs ≡ some s) × (json.from_str s ≡ some jobs)

take-drop : (n : ℕ) (js : List Job) → take n js ++ drop n js ≡ js
take-drop zero js = refl
take-drop (suc n) [] = refl
take-drop (suc n) (j ∷ js) = rw (take-drop n js)

length-count : (js : List Job) → count_of (λ j. true) js ≡ length js
length-count [] = refl
length-count (j ∷ js) = omega (arith, length-count js)

length-take : (n : ℕ) (js : List Job) → n ≤ length js → length (take n js) ≡ n
length-take zero js h = refl
length-take (suc n) [] h = ground arith
length-take (suc n) (j ∷ js) h = omega (arith, length-take n js (omega (arith, h)))

abbrev pub Retains : (Job → Bool) → List Job → Type 0
Retains p jobs =
    let retained = filter is_retained jobs in
    let kept = kept_jobs jobs in
    ((length retained ≤ 500) × (kept ≡ retained))
    ⊎ ((length kept ≡ 500)
        × ((dropped : List Job) × IsSorted (kept ++ dropped)
            × (count_of p (kept ++ dropped) ≡ count_of p retained)))

kept_jobs-long :
    (jobs : List Job)
    → ltb retention_count (length (filter is_retained jobs)) ≡ true
    → kept_jobs jobs ≡ take 500 (sort_newest (filter is_retained jobs))
unfolding kept_jobs
kept_jobs-long jobs e = rw (kept_jobs, e)

kept_jobs-short :
    (jobs : List Job)
    → ltb retention_count (length (filter is_retained jobs)) ≡ false
    → kept_jobs jobs ≡ filter is_retained jobs
unfolding kept_jobs
kept_jobs-short jobs e = rw (kept_jobs, e)

length-sort_newest : (js : List Job) → length (sort_newest js) ≡ length js
length-sort_newest js =
    sym (length-count (sort_newest js)) ∙ count_of-sort_newest (λ j. true) js ∙ length-count js

not_short : (n : ℕ) → ltb retention_count n ≡ true → 500 ≤ n
not_short n h = ground arith

short : (n : ℕ) → ltb retention_count n ≡ false → n ≤ 500
short n h = ground arith

-- Either all retained jobs are written, at most 500, or exactly 500 are, and together with the dropped
-- ones they are the retained jobs, none of those written older than a dropped one.
pub kept_jobs-Retains : (p : Job → Bool) (jobs : List Job) → Retains p jobs
kept_jobs-Retains p jobs =
    let sorted = sort_newest (filter is_retained jobs) in
    elim (Bool-cases (ltb retention_count (length (filter is_retained jobs)))) [
      | inr e ↦ inl (short _ e, kept_jobs-short jobs e)
      | inl e ↦ inr (
        ap length (kept_jobs-long jobs e)
            ∙ length-take 500 sorted
                (rw (length-sort_newest (filter is_retained jobs)) (not_short _ e)),
        (
          drop 500 sorted,
          rw (kept_jobs-long jobs e, take-drop 500 sorted) (sort_newest-IsSorted _),
          rw (kept_jobs-long jobs e, take-drop 500 sorted) (count_of-sort_newest p _),
        ),
      )
    ]

-- If the kept jobs can be written and read back as JSON, the next start loads exactly these.
load-persist :
    (json : Json) (jobs : List Job) (d : StateDir) (written : Bool)
    → RoundTrips json (kept_jobs jobs)
    → (load_all_jobs json written (persist_all_jobs json true jobs d)).1 ≡ kept_jobs jobs
unfolding load_all_jobs persist_all_jobs
load-persist json jobs d written rt = rw (persist_all_jobs, rt.1, load_history_file, rt.2)

abbrev pub legacy_dir : List ℕ → StateDir
legacy_dir s = record { jobs_history = absent; running_jobs = text s }

migrate-unwritten :
    (json : Json) (jobs : List Job) (s : List ℕ)
    → RoundTrips json (kept_jobs jobs)
    → json.from_str s ≡ some jobs
    → migrate json false (legacy_dir s) (text s)
      ≡ some (record { jobs_history = absent; running_jobs = absent }, jobs)
unfolding migrate persist_all_jobs
migrate-unwritten json jobs s rt e = rw (migrate, e, persist_all_jobs, rt.1)

load-unwritten :
    (json : Json) (jobs : List Job) (s : List ℕ)
    → RoundTrips json (kept_jobs jobs)
    → json.from_str s ≡ some jobs
    → load_all_jobs json false (legacy_dir s)
      ≡ (record { jobs_history = absent; running_jobs = absent }, jobs)
unfolding load_all_jobs
load-unwritten json jobs s rt e =
    ap (or_else [] (legacy_dir s)) (migrate-unwritten json jobs s rt e)

-- The first start after the file's name changed yields the jobs of the old file, if the kept
-- jobs can be written and read back as JSON; the next start loads those that are kept, but nothing if the new file could not be written.
pub load_all_jobs-migrates :
    (json : Json) (jobs : List Job) (s : List ℕ) (written later : Bool)
    → RoundTrips json (kept_jobs jobs)
    → json.from_str s ≡ some jobs
    → ((load_all_jobs json written (legacy_dir s)).1 ≡ jobs)
      × ((load_all_jobs json later (load_all_jobs json written (legacy_dir s)).0).1
          ≡ (if written then kept_jobs jobs else []))
unfolding load_all_jobs persist_all_jobs migrate
load_all_jobs-migrates json jobs s true later rt e =
    (rw (migrate, e), rw (migrate, e, persist_all_jobs, rt.1, load_history_file, rt.2))
load_all_jobs-migrates json jobs s false later rt e =
    let q = load-unwritten json jobs s rt e in
    (ap (λ r. r.1) q, ap (λ r. (load_all_jobs json later r.0).1) q)
