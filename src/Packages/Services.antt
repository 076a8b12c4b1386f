-- ===== src/Packages/Services.antt =====
-- Services and the reboot: `reboot_system_via_runner`, `get_systemd_service_status_via_runner` and
-- `get_openrc_service_status_via_runner` of src/packages/mod.rs.
use linux_patch_api.Prelude.{
  ℕ, ◌+◌, ◌/◌, max, Bool, true, false, ◌&&◌, not, ltb, ◌==◌, List, [], ◌∷◌, ◌++◌, any, starts,
  list_eq, Option, none, some, if◌then◌else◌,
}
use linux_patch_api.Prelude.Result.{Result, ok, err}
use linux_patch_api.Prelude.Text.{codes, trim, show_ℕ}
use linux_patch_api.Prelude.Lines.{contains, to_lowercase, lines}
use linux_patch_api.Packages.Error.Report.{Error, message}
use linux_patch_api.Packages.Error.Classify.{mentions}
use linux_patch_api.Packages.Runner.{
  Machine, Action, CommandOutput, success, ◌>>=◌, handle, pure, fail, run_with, run_command_timed,
  quick_op_timeout,
}
use linux_patch_api.Packages.Apt.Safe.{is_empty_text}
use linux_patch_api.Packages.Apt.Locks.{parse_u32}
use linux_patch_api.Packages.Splitting.{split_first}
use linux_patch_api.Packages.Details.{first_of}

-- `ServiceStatus`.
pub record ServiceStatus : Type 0 where
  pub name : List ℕ
  pub display_name : List ℕ
  pub active_state : List ℕ
  pub sub_state : List ℕ
  pub load_state : List ℕ
  pub enabled_state : List ℕ
  pub main_pid : Option ℕ
  pub healthy : Bool

-- `max(1, delay_seconds.div_ceil(60))`.
unfoldable pub delay_minutes : ℕ → ℕ
delay_minutes seconds = max 1 ((seconds + 59) / 60)

-- `filter(|&p| p > 0)`.
abbrev pub positive : Option ℕ → Option ℕ
positive none = none
positive (some p) = if ltb 0 p then some p else none

abbrev no_service : ServiceStatus
no_service = record {
  name = [];
  display_name = [];
  active_state = [];
  sub_state = [];
  load_state = [];
  enabled_state = [];
  main_pid = none;
  healthy = false;
}

-- A line `key=value` of `systemctl show`.
abbrev pub property : List ℕ → List ℕ → ServiceStatus → ServiceStatus
property key value s =
    if list_eq key (codes "Id")
    then record s { name = value }
    else if list_eq key (codes "Description")
    then record s { display_name = value }
    else if list_eq key (codes "ActiveState")
    then record s { active_state = value }
    else if list_eq key (codes "SubState")
    then record s { sub_state = value }
    else if list_eq key (codes "LoadState")
    then record s { load_state = value }
    else if list_eq key (codes "UnitFileState")
    then record s { enabled_state = value }
    else if list_eq key (codes "MainPID")
    then record s { main_pid = positive (parse_u32 value) }
    else s

unfoldable pub property_line : ServiceStatus → List ℕ → ServiceStatus
unfolding parse_u32
property_line s line = elim (split_first (λ c. c == b'=') line) [
  | none ↦ s
  | some r ↦ property r.0 r.1 s
]

abbrev pub property_lines : ServiceStatus → List (List ℕ) → ServiceStatus
property_lines s [] = s
property_lines s (line ∷ lines) = property_lines (property_line s line) lines

-- `trim_end_matches(".service")`.
abbrev pub cut_suffix : List ℕ → List ℕ → List ℕ
cut_suffix suffix [] = []
cut_suffix suffix (c ∷ cs) =
    let rest = cut_suffix suffix cs in if list_eq (c ∷ rest) suffix then [] else c ∷ rest

abbrev pub is_known : ServiceStatus → Bool
is_known s =
    if list_eq s.load_state (codes "not-found")
    then false
    else if list_eq s.load_state (codes "bad-setting")
    then false
    else not (is_empty_text s.name)

abbrev pub is_running_service : ServiceStatus → Bool
is_running_service s =
    list_eq s.active_state (codes "active") && list_eq s.sub_state (codes "running")

abbrev pub may_have_socket : ServiceStatus → Bool
may_have_socket s =
    list_eq s.active_state (codes "inactive") && list_eq s.enabled_state (codes "enabled")

abbrev pub socket_active : Result Error CommandOutput → Bool
socket_active (ok o) = contains o.stdout (codes "ActiveState=active")
socket_active (err e) = false

-- The three states that OpenRC's status line gives.
abbrev pub openrc_status : List ℕ → ServiceStatus → ServiceStatus
openrc_status line s =
    if mentions line (codes "started" ∷ codes "running" ∷ [])
    then record s { active_state = codes "active"; sub_state = codes "running"; healthy = true }
    else if mentions line (codes "stopped" ∷ codes "not running" ∷ [])
    then record s { active_state = codes "inactive"; sub_state = codes "dead"; healthy = false }
    else if mentions line (codes "crashed" ∷ codes "failed" ∷ [])
    then record s { active_state = codes "failed"; sub_state = codes "failed"; healthy = false }
    else record s { active_state = codes "unknown"; sub_state = codes "unknown"; healthy = false }

abbrev pub enabled_text : List ℕ → Result Error CommandOutput → List ℕ
enabled_text name (err e) = codes "unknown"
enabled_text name (ok o) =
    if any (λ line. starts name (trim line)) (lines o.stdout)
    then codes "enabled"
    else codes "disabled"

module _ (m : Machine) where
  -- `reboot_system_via_runner`.
  unfoldable pub reboot_system : ℕ → Action m.State (Unit {0})
  unfolding run_command_timed
  reboot_system seconds =
      if ltb 0 seconds
      then (run_command_timed m (codes "shutdown")
            (codes "-r" ∷ (b'+' ∷ codes (show_ℕ (delay_minutes seconds))) ∷ []) quick_op_timeout
          >>= λ s. pure tt)
      else (run_command_timed m (codes "systemctl") (codes "reboot" ∷ []) quick_op_timeout >>= λ s.
          pure tt)

  abbrev pub with_socket : ServiceStatus → Action m.State (Option ServiceStatus)
  with_socket s =
      if is_running_service s
      then pure (some (record s { healthy = true }))
      else if may_have_socket s
      then handle
          (run_with m (some quick_op_timeout) (codes "systemctl") (
            codes "show"
            ∷ (cut_suffix (codes ".service") s.name ++ codes ".socket")
            ∷ codes "--property=ActiveState"
            ∷ codes "--no-pager"
            ∷ []))
          (λ r. pure (some (record s { healthy = socket_active r })))
      else pure (some s)

  abbrev pub shown : CommandOutput → Action m.State (Option ServiceStatus)
  shown o =
      let s = property_lines no_service (lines o.stdout) in
      if not (success o)
      then pure none
      else if is_empty_text (trim o.stdout)
      then pure none
      else if is_known s
      then with_socket s
      else pure none

  -- `get_systemd_service_status_via_runner`.
  unfoldable pub systemd_service_status : List ℕ → Action m.State (Option ServiceStatus)
  unfolding run_with property_line lines trim
  systemd_service_status name =
      run_with m (some quick_op_timeout) (codes "systemctl") (
        codes "show"
        ∷ codes "--property=Id,Description,ActiveState,SubState,LoadState,UnitFileState,MainPID"
        ∷ codes "--no-pager"
        ∷ codes "--"
        ∷ name
        ∷ [])
      >>= shown

  abbrev pub openrc_answered : List ℕ → CommandOutput → Action m.State (Option ServiceStatus)
  openrc_answered name o =
      if success o
      then handle
          (run_with m (some quick_op_timeout) (codes "rc-update")
            (codes "show" ∷ codes "default" ∷ []))
          (λ r. pure (
            some (
              openrc_status (to_lowercase (first_of (lines o.stdout))) (record no_service {
                name = name;
                display_name = name;
                load_state = codes "loaded";
                enabled_state = enabled_text name r;
              }))))
      else if contains o.stderr (codes "does not exist")
      then pure none
      else if contains o.stdout (codes "does not exist")
      then pure none
      else fail (message (codes "rc-service failed: " ++ o.stderr))

  -- `get_openrc_service_status_via_runner`.
  unfoldable pub openrc_service_status : List ℕ → Action m.State (Option ServiceStatus)
  unfolding run_with to_lowercase lines trim
  openrc_service_status name =
      run_with m (some quick_op_timeout) (codes "rc-service") (name ∷ codes "status" ∷ [])
      >>= openrc_answered name
