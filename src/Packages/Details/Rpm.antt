-- ===== src/Packages/Details/Rpm.antt =====
-- Details of a package by rpm, with dnf or yum: `parse_rpm_info`, `get_package`, `get_installed_version`,
-- `get_candidate_version`, `list_packages` and `list_patches` of `DnfBackend` and `YumBackend` in
-- src/packages/mod.rs.
pub mod Info
use linux_patch_api.Prelude.{
  ℕ, Bool, true, false, List, [], ◌∷◌, ◌++◌, starts, filter, list_eq, Option, none, some,
  if◌then◌else◌,
}
use linux_patch_api.Prelude.Int.{pos}
use linux_patch_api.Prelude.Result.{Result, ok, err}
use linux_patch_api.Prelude.Text.{codes, trim}
use linux_patch_api.Prelude.Lines.{contains, lines, split_whitespace}
use linux_patch_api.Packages.Error.Report.{Error}
use linux_patch_api.Packages.Runner.{
  Machine, Action, CommandOutput, int_eq, ◌>>=◌, handle, pure, fail, run_with, quick_op_timeout,
  run_command_with_acceptable_exit,
}
use linux_patch_api.Packages.Apt.Safe.{is_empty_text}
use linux_patch_api.Packages.Splitting.{split_last}
use linux_patch_api.Packages.Listing.{Package, Patch, installed, patch, read_lines}
use linux_patch_api.Packages.Listing.Parsers.{parse_rpm_package_list, check_update_line, Row}
use linux_patch_api.Packages.Backends.{run_rpm}
use linux_patch_api.Packages.Details.{
  second_field, first_of, find_map, is_invalid_name, invalid_name, available_package, good_output,
  non_empty,
}
use linux_patch_api.Packages.Details.Rpm.Info.{
  no_info, info_line, info_lines, full_version, candidate_of, dependency_line, dependencies_of,
  available_rpm, candidate_rpm, version_of, text_or_empty, query_format, retain, opt_arg,
}

module _ (m : Machine) (program : List ℕ) where
  -- `parse_rpm_info`.
  unfoldable pub parse_rpm_info : List ℕ → List ℕ → Action m.State (Option Package)
  unfolding info_line lines run_with run_rpm read_lines dependency_line split_whitespace
  parse_rpm_info output name =
      let i = info_lines no_info (lines output) in
      let version = full_version i.version i.release in
      handle
        (run_with m (some quick_op_timeout) program (codes "check-update" ∷ codes "-q" ∷ name ∷ []))
        (λ check. handle (run_rpm m (codes "-qR" ∷ name ∷ [])) (λ deps. pure (
          some (record {
            name = name;
            version = version;
            status = installed;
            is_upgradable = (candidate_of name version check).0;
            latest_version = (candidate_of name version check).1;
            description = i.description;
            dependencies = dependencies_of deps;
            reverse_dependencies = [];
            install_date = i.date;
            size_installed = i.size;
          }))))

  -- `get_package` behind the check of the name.
  abbrev pub after_query : List ℕ → Result Error (List ℕ) → Action m.State (Option Package)
  after_query name (err e) =
      handle (run_with m (some quick_op_timeout) program (codes "info" ∷ codes "-q" ∷ name ∷ []))
        (λ r. pure (available_rpm name r))
  after_query name (ok s) =
      run_rpm m (codes "-qi" ∷ name ∷ []) >>= λ output. parse_rpm_info output name

  unfoldable pub rpm_get_package : List ℕ → Action m.State (Option Package)
  unfolding is_invalid_name parse_rpm_info run_with run_rpm second_field lines
  rpm_get_package name =
      if is_invalid_name name
      then fail (invalid_name name)
      else handle (run_rpm m (codes "-q" ∷ name ∷ [])) (after_query name)

  -- `get_installed_version` and `get_candidate_version`.
  unfoldable pub rpm_installed_version : List ℕ → Action m.State (Option (List ℕ))
  unfolding run_rpm trim
  rpm_installed_version name =
      handle (run_rpm m (query_format ++ name ∷ [])) (λ r. pure (version_of r))

  unfoldable pub rpm_candidate_version : List ℕ → Action m.State (Option (List ℕ))
  unfolding run_with second_field lines
  rpm_candidate_version name =
      handle (run_with m (some quick_op_timeout) program (codes "info" ∷ codes "-q" ∷ name ∷ []))
        (λ r. pure (candidate_rpm r))

  -- `list_packages`.
  unfoldable pub rpm_list_packages : Option (List ℕ) → Action m.State (List Package)
  unfolding run_rpm parse_rpm_package_list
  rpm_list_packages f = run_rpm m (codes "-qa" ∷ opt_arg f) >>= λ output.
      pure (retain f (parse_rpm_package_list output))

  -- The rest of the loop in `list_patches`.
  unfoldable pub patches_of : List Row → Action m.State (List Patch)
  unfolding run_rpm patch trim
  patches_of [] = pure []
  patches_of (row ∷ rows) = handle (run_rpm m (query_format ++ row.name ∷ [])) (λ r.
      patches_of rows >>= λ ps. pure (
        patch row.name (text_or_empty r) row.candidate
          (codes "Package update available from " ++ row.repo)
        ∷ ps))

  -- `list_patches`.
  unfoldable pub rpm_list_patches : Action m.State (List Patch)
  unfolding run_command_with_acceptable_exit read_lines check_update_line patches_of
  rpm_list_patches =
      run_command_with_acceptable_exit m program (codes "check-update" ∷ codes "-q" ∷ [])
        (pos 0 ∷ pos 100 ∷ []) none
      >>= λ output. patches_of (read_lines check_update_line output)
