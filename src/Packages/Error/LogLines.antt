-- ===== src/Packages/Error/LogLines.antt =====
-- How many lines a failed command adds to a job's log: src/packages/error_utils.rs.
use linux_patch_api.Prelude.{
  ℕ, ◌≤◌, List, [], ◌∷◌, length, take, ltb, arith, inl, inr, Bool-cases, length-append,
  length-take-le, Option-cases,
}
use linux_patch_api.Packages.Error.Report.{
  CommandError, truncated, output_log_lines, max_output_lines, truncation_note, all_lines,
}

truncated-le : (ls : List (List ℕ)) → length (truncated ls) ≤ 201
truncated-le ls = elim (Bool-cases (ltb max_output_lines (length ls))) [
  | inl e ↦
      rw e
        (omega (arith, length-append (take 200 ls) (truncation_note ∷ []), length-take-le 200 ls))
  | inr e ↦ rw e (ground arith)
]

-- However long the output of the command is, at most 201 lines of it are logged.
pub length-output_log_lines : (ce : CommandError) → length (output_log_lines ce) ≤ 201
unfolding output_log_lines
length-output_log_lines ce = elim (Option-cases ce.spawn_error) [
  | inl e ↦ rw e (truncated-le (all_lines ce))
  | inr (s, e) ↦ rw e (omega arith)
]
