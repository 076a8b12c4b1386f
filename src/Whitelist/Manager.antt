-- ===== src/Whitelist/Manager.antt =====
-- `WhitelistManager` and the middleware of src/auth/whitelist.rs. Reading and writing YAML is a
-- parameter, and so is whether the lock and the new file can be written.
use linux_patch_api.Prelude.{
  ℕ, Bool, List, [], ◌∷◌, ◌++◌, any, Option, none, some, list_eq, if◌then◌else◌,
}
use linux_patch_api.Prelude.Result.{Result, ok, err}
use linux_patch_api.Prelude.Text.{trim, codes}
use linux_patch_api.Whitelist.Entry.{
  WhitelistEntry, IpAddr, EntryError, entry_eq, is_socket_allowed, parse_entries, parse_appended,
}

-- `serde_yaml` on `WhitelistConfig`.
pub record Yaml : Type 0 where
  pub from_str : List ℕ → Option (List (List ℕ))
  pub to_string : List (List ℕ) → Option (List ℕ)

-- The entries in memory and the file, if it exists.
pub record Manager : Type 0 where
  pub entries : List WhitelistEntry
  pub file : Option (List ℕ)

-- What `reload` and `append_entry` fail with.
pub data ManagerError : Type 0 where
  bad_entry : EntryError → ManagerError
  no_file bad_yaml lock_failed write_failed : ManagerError

-- `load_config`.
unfoldable pub load_config : Yaml → Option (List ℕ) → Result ManagerError (List (List ℕ))
load_config yaml none = err no_file
load_config yaml (some content) = elim (yaml.from_str content) [
  | none ↦ err bad_yaml
  | some lines ↦ ok lines
]

-- `reload`: the state it leaves, and its result.
unfoldable pub reload :
    Yaml → (List ℕ → Option (List IpAddr)) → Manager → Manager × Result ManagerError (Unit {0})
unfolding load_config parse_entries
reload yaml lookup s = elim (load_config yaml s.file) [
  | err e ↦ (s, err e)
  | ok lines ↦ elim (parse_entries lookup [] lines) [
    | err e ↦ (s, err (bad_entry e))
    | ok entries ↦ (record s { entries = entries }, ok tt)
  ]
]

-- The lines that `append_entry` starts from.
abbrev pub existing_lines : Yaml → Option (List ℕ) → Result ManagerError (List (List ℕ))
existing_lines yaml none = ok []
existing_lines yaml (some content) = load_config yaml (some content)

-- `append_entry` behind the checks for duplicates, with the lock held.
unfoldable pub write_entry :
    Yaml
    → (List ℕ → Option (List IpAddr))
    → Bool
    → List ℕ
    → Manager
    → Manager × Result ManagerError (Unit {0})
unfolding reload load_config
write_entry yaml lookup written entry_str s = elim (existing_lines yaml s.file) [
  | err e ↦ (s, err e)
  | ok lines ↦ elim (yaml.to_string (lines ++ entry_str ∷ [])) [
    | none ↦ (s, err bad_yaml)
    | some content ↦
        if written
        then reload yaml lookup (record s { file = some content })
        else (s, err write_failed)
  ]
]

-- `append_entry`, given whether the lock is acquired and whether the new file is written.
unfoldable pub append_entry :
    Yaml
    → (List ℕ → Option (List IpAddr))
    → Bool
    → Bool
    → List ℕ
    → Manager
    → Manager × Result ManagerError (Unit {0})
unfolding write_entry trim parse_appended
append_entry yaml lookup locked written text s = elim (parse_appended (trim text)) [
  | err e ↦ (s, err (bad_entry e))
  | ok entry ↦
      if any (entry_eq entry) s.entries
      then (s, ok tt)
      else if locked
      then write_entry yaml lookup written (trim text) s
      else (s, err lock_failed)
]

-- What the middleware makes of a request.
pub data Verdict : Type 0 where
  passed not_in_whitelist no_address : Verdict

-- `WHITELIST_EXEMPT_PATHS`.
abbrev pub exempt_paths : List (List ℕ)
exempt_paths = codes "/health" ∷ codes "/api/v1/system/info" ∷ []

-- `WhitelistMiddlewareService::call`, given the path and the peer's address, if there is one.
unfoldable pub call : List ℕ → Option IpAddr → Manager → Verdict
unfolding is_socket_allowed
call path peer s = if any (list_eq path) exempt_paths then passed else elim peer [
  | none ↦ no_address
  | some addr ↦ if is_socket_allowed addr s.entries then passed else not_in_whitelist
]
