-- ===== src/Jobs/Examples.antt =====
-- What is kept of the jobs, at a concrete input.
use linux_patch_api.Prelude.{true, List, [], ◌∷◌, none}
use linux_patch_api.Jobs.Status.{install}
use linux_patch_api.Jobs.Job.{Job, new}
use linux_patch_api.Jobs.History.Survival.{Retains, kept_jobs-Retains}

abbrev one_job : List Job
one_job = new (record { now = 3; new_id = 1; boot = none }) install ("curl" ∷ []) ∷ []

kept_jobs-Retains_example : Retains (λ j. true) one_job
kept_jobs-Retains_example = kept_jobs-Retains (λ j. true) one_job
