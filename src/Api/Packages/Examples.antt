-- ===== src/Api/Packages/Examples.antt =====
-- The theorems on src/api/handlers/packages.rs at concrete inputs.
use linux_patch_api.Prelude.{
  false, Bool, ◌&&◌, ℕ, ◌+◌, String, true, List, [], ◌∷◌, map, filter, length, list_eq, Option,
  none, some, ◌≡◌, refl, if◌then◌else◌,
}
use linux_patch_api.Prelude.Result.{ok, is_ok}
use linux_patch_api.Prelude.Text.{codes}
use linux_patch_api.Prelude.Table.{get}
use linux_patch_api.Jobs.Status.{install, update, remove, self_update, running, completed, failed}
use linux_patch_api.Jobs.Job.{Env}
use linux_patch_api.Jobs.Job
use linux_patch_api.Scheduler.State.{SchedulerState}
use linux_patch_api.Scheduler.State
use linux_patch_api.Packages.Request.{validate_package_name, validate_package_names}
use linux_patch_api.Packages.Listing.{Package, installed_package, available}
use linux_patch_api.Api.Patches.Ending.Status.{status_of}
use linux_patch_api.Api.Packages.Query.{
  PackageListQuery, PackageListData, sort_key, ascending, sort_packages, list_packages,
}
use linux_patch_api.Api.Packages.{
  spec_of, requested_name, self_package_name, install_packages, update_package, remove_package,
  end_self_update,
}
use linux_patch_api.Api.Packages.Listed.{
  status_text, no_sort, falling, all_installed, not_asked, list_packages-Listed,
}
use linux_patch_api.Api.Packages.Sorting.{InOrder, has_key}
use linux_patch_api.Api.Packages.Ending.{Answers, change_requests-Answers, end_self_update-Releases}

abbrev bash : Package
bash = installed_package (codes "bash") (codes "5.2") []

abbrev zsh : Package
zsh = record (installed_package (codes "zsh") (codes "5.9") []) { status = available }

abbrev curl : Package
curl = installed_package (codes "curl") (codes "8.5") []

-- The installed packages, the last name first.
abbrev query : PackageListQuery
query = record {
  status = some (codes "installed");
  only_upgradable = none;
  sort = none;
  order = some (codes "desc");
}

sorted :
    list_packages query (ok (bash ∷ zsh ∷ curl ∷ []))
    ≡ ok (record { packages = curl ∷ bash ∷ []; total = 2 })
unfolding list_packages sort_packages sort_key ascending
sorted = refl

abbrev is_there : Package → Bool
is_there p = list_eq (status_text p.status) (codes "Installed")

list_packages-Listed_example :
    (d : PackageListData) × (list_packages query (ok (bash ∷ zsh ∷ curl ∷ [])) ≡ ok d)
    × InOrder (λ p. p.name) false d.packages
    × ((k : List ℕ)
        → filter (has_key (λ p. p.name) k) d.packages
          ≡ filter
              (λ p. is_there p && (true && has_key (λ p. p.name) k p))
              (bash ∷ zsh ∷ curl ∷ []))
    × (d.total ≡ length d.packages)
list_packages-Listed_example =
    list_packages-Listed query (bash ∷ zsh ∷ curl ∷ []) (λ p. p.name) false is_there (λ p. true)
      no_sort (falling (codes "desc") refl) all_installed not_asked

abbrev env : Env
env = record { now = 100; new_id = 8; boot = none }

abbrev requested : List (String × Option String)
requested = ("bash", some "5.2") ∷ ("curl", none) ∷ []

abbrev idle : SchedulerState
idle = State.new 1 10 0

change_requests-Answers_example :
    Answers env install
      (map requested_name requested)
      (is_ok (validate_package_names (map spec_of requested)))
      idle
      (install_packages env requested idle)
    × Answers env
        (if list_eq (codes "linux-patch-api") (codes self_package_name)
          then self_update
          else update)
        ("linux-patch-api" ∷ [])
        (is_ok (validate_package_name (codes "linux-patch-api")))
        idle
        (update_package env "linux-patch-api" idle)
    × Answers env remove
        ("linux-patch-api" ∷ [])
        (is_ok (validate_package_name (codes "linux-patch-api")))
        idle
        (remove_package env "linux-patch-api" idle)
change_requests-Answers_example = change_requests-Answers env requested "linux-patch-api" idle

-- A self-update that runs.
abbrev updating : SchedulerState
updating = record idle {
  jobs = (7, record (Job.new env self_update []) { status = running }) ∷ [];
  self_update =
      some (record { job_id = 7; from_version = ""; target_version = ""; generation = 1 });
}

updating-runs : status_of 7 updating ≡ some running
unfolding State.new get Job.new
updating-runs = refl

abbrev clock : ℕ → ℕ
clock n = 100 + n

end_self_update-Releases_example :
    let t = end_self_update clock 7 (ok tt) updating in
    (status_of 7 t ≡ some (if true then completed else failed))
    × (t.self_update ≡ none)
    × (t.admission ≡ updating.admission)
    × (t.reboot_pending ≡ updating.reboot_pending)
end_self_update-Releases_example =
    end_self_update-Releases clock 7 (ok tt) running updating updating-runs refl
