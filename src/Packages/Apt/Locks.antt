-- ===== src/Packages/Apt/Locks.antt =====
-- Stale lock files: `cleanup_stale_apt_locks` of src/packages/mod.rs.
use linux_patch_api.Prelude.{
  ℕ, Bool, true, false, not, ◌==◌, List, [], ◌∷◌, map, Option, none, some, if◌then◌else◌,
}
use linux_patch_api.Prelude.Text.{codes, trim}
use linux_patch_api.Prelude.Lines.{contains}
use linux_patch_api.Whitelist.Address.{digits_upto}
use linux_patch_api.Packages.Runner.{Machine, LockFile, absent, unreadable, content}

-- `str::parse::<u32>`: a plus sign may stand in front.
unfoldable pub parse_u32 : List ℕ → Option ℕ
unfolding digits_upto
parse_u32 [] = none
parse_u32 (c ∷ []) = digits_upto 4294967295 0 (c ∷ [])
parse_u32 (c ∷ d ∷ cs) =
    if c == b'+' then digits_upto 4294967295 0 (d ∷ cs) else digits_upto 4294967295 0 (c ∷ d ∷ cs)

-- The four paths.
abbrev pub lock_files : List (List ℕ)
lock_files =
    codes "/var/lib/dpkg/lock-frontend"
    ∷ codes "/var/lib/dpkg/lock"
    ∷ codes "/var/cache/apt/archives/lock"
    ∷ codes "/var/lib/apt/lists/lock"
    ∷ []

-- `replace('\0', " ")`, and the three searches.
abbrev pub is_apt_cmdline : List ℕ → Bool
is_apt_cmdline cmdline =
    let text = map (λ c. if c == 0 then 32 else c) cmdline in
    if contains text (codes "apt")
    then true
    else if contains text (codes "dpkg")
    then true
    else contains text (codes "apt-get")

module _ (m : Machine) where
  -- Whether the process of this number shows that the lock is stale.
  abbrev pub pid_is_stale : m.State → ℕ → Bool
  pid_is_stale w pid =
      if m.proc_exists w pid
      then elim (m.cmdline w pid) [ none ↦ false | some cmdline ↦ not (is_apt_cmdline cmdline) ]
      else true

  -- `stale`, for one lock file.
  unfoldable pub is_stale_lock : m.State → LockFile → Bool
  unfolding parse_u32 trim
  is_stale_lock w absent = false
  is_stale_lock w unreadable = false
  is_stale_lock w (content text) = elim (parse_u32 (trim text)) [
    | some pid ↦ pid_is_stale w pid
    | none ↦ not (m.has_apt_process w)
  ]

  abbrev remove_if : Bool → List ℕ → m.State → m.State
  remove_if true path w = m.remove_file path w
  remove_if false path w = w

  -- The loop of `cleanup_stale_apt_locks` over paths.
  unfoldable pub cleanup_locks : List (List ℕ) → m.State → m.State
  unfolding is_stale_lock
  cleanup_locks [] w = w
  cleanup_locks (path ∷ paths) w =
      cleanup_locks paths (remove_if (is_stale_lock w (m.lock_file w path)) path w)

  -- `cleanup_stale_apt_locks`.
  unfoldable pub cleanup_stale_apt_locks : m.State → m.State
  unfolding cleanup_locks
  cleanup_stale_apt_locks w = cleanup_locks lock_files w
