-- ===== src/Packages/Error/Classify.antt =====
-- Error codes: `classify_error` of src/packages/error_utils.rs.
use linux_patch_api.Prelude.{
  ℕ, Bool, true, false, List, [], ◌∷◌, ◌++◌, any, Option, none, some, is_some, if◌then◌else◌,
}
use linux_patch_api.Prelude.Text.{codes}
use linux_patch_api.Prelude.Lines.{contains, to_lowercase}
use linux_patch_api.Packages.Error.Report.{
  Error, message, command, context, CommandError, summary, extract_command_output,
}

-- The constants of `error_code` that `classify_error` returns.
pub data ErrorCode : Type 0 where
  pkg_manager_error command_not_found cache_refresh_error network_error gpg_error : ErrorCode
  pkg_not_found dependency_conflict permission_denied reboot_error timeout unknown_error : ErrorCode

-- `joined`, from what is joined of the outer causes.
unfoldable pub join_cause : List ℕ → List ℕ → List ℕ
join_cause [] s = s
join_cause (c ∷ cs) [] = c ∷ cs
join_cause (c ∷ cs) (d ∷ ds) = (c ∷ cs) ++ (codes " | " ++ d ∷ ds)

unfoldable pub joined_from : List ℕ → Error → List ℕ
unfolding join_cause summary
joined_from acc (message s) = join_cause acc s
joined_from acc (command ce) = join_cause acc (summary ce)
joined_from acc (context s e) = joined_from (join_cause acc s) e

-- One of the patterns occurs.
abbrev pub mentions : List ℕ → List (List ℕ) → Bool
mentions text patterns = any (contains text) patterns

-- The part of `classify_error` for a command that did not start or did not end.
abbrev pub classify_start : CommandError → List ℕ → Option ErrorCode
classify_start ce lower =
    if ce.timed_out
    then some timeout
    else if is_some ce.spawn_error
    then some (
        if mentions lower (codes "no such file" ∷ codes "not found" ∷ [])
        then command_not_found
        else if contains lower (codes "permission denied")
        then permission_denied
        else command_not_found)
    else none

-- The part of `classify_error` on the combined message.
unfoldable pub classify_text : Bool → List ℕ → ErrorCode
classify_text is_command lower =
    if mentions lower (codes "gpg" ∷ codes "signature" ∷ codes "untrusted" ∷ [])
    then gpg_error
    else if mentions lower (
        codes "404"
        ∷ codes "not found"
        ∷ codes "failed to fetch"
        ∷ codes "unable to fetch"
        ∷ codes "could not resolve"
        ∷ codes "connection refused"
        ∷ codes "network is unreachable"
        ∷ [])
    then if mentions lower (
        codes "unable to locate package"
        ∷ codes "no package available"
        ∷ codes "package foo"
        ∷ codes "no such package"
        ∷ [])
      then pkg_not_found
      else network_error
    else if mentions lower (codes "unable to locate package" ∷ codes "no package available" ∷ [])
    then pkg_not_found
    else if mentions lower (
        codes "dependency"
        ∷ codes "dependencies"
        ∷ codes "conflict"
        ∷ codes "broken count"
        ∷ codes "held broken package"
        ∷ [])
    then dependency_conflict
    else if mentions lower (codes "permission denied" ∷ codes "lock file" ∷ [])
    then permission_denied
    else if mentions lower (codes "reboot" ∷ codes "shutdown" ∷ [])
    then reboot_error
    else if mentions lower (codes "cache refresh" ∷ codes "check-update" ∷ [])
    then cache_refresh_error
    else if is_command
    then pkg_manager_error
    else unknown_error

-- `classify_error`.
unfoldable pub classify_error : Error → ErrorCode
unfolding joined_from to_lowercase extract_command_output classify_text
classify_error e =
    let lower = to_lowercase (joined_from [] e) in
    elim (extract_command_output e) [
      | none ↦ classify_text false lower
      | some ce ↦ elim (classify_start ce lower) [
        | some code ↦ code
        | none ↦ classify_text true lower
      ]
    ]
