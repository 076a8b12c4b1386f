-- ===== src/Packages/Error/Report.antt =====
-- `CommandError`, error chains and what is reported of them: src/packages/error_utils.rs. Texts are
-- lists of code points. How anyhow prints a whole chain is a parameter.
use linux_patch_api.Prelude.{
  ℕ, Bool, true, false, List, [], ◌∷◌, ◌++◌, length, ltb, take, Option, none, some, if◌then◌else◌,
}
use linux_patch_api.Prelude.Int.{ℤ}
use linux_patch_api.Prelude.Text.{codes, trim, show_ℕ}
use linux_patch_api.Prelude.Lines.{lines, show_ℤ}
use linux_patch_api.Packages.Error.Quoting.{format_command}

-- `CommandError`.
pub record CommandError : Type 0 where
  pub program : List ℕ
  pub args : List (List ℕ)
  pub exit_code : Option ℤ
  pub stdout : List ℕ
  pub stderr : List ℕ
  pub spawn_error : Option (List ℕ)
  pub timed_out : Bool

-- `anyhow::Error`: a root cause, and the contexts put around it.
pub data Error : Type 0 where
  message : List ℕ → Error
  command : CommandError → Error
  context : List ℕ → Error → Error

-- `from_output`, given the exit code and the two streams as texts.
abbrev pub from_output : List ℕ → List (List ℕ) → Option ℤ → List ℕ → List ℕ → CommandError
from_output program args code stdout stderr = record {
  program = program;
  args = args;
  exit_code = code;
  stdout = stdout;
  stderr = stderr;
  spawn_error = none;
  timed_out = false;
}

-- `from_spawn_error`, given the text of the I/O error.
abbrev pub from_spawn_error : List ℕ → List (List ℕ) → List ℕ → CommandError
from_spawn_error program args e = record {
  program = program;
  args = args;
  exit_code = none;
  stdout = [];
  stderr = [];
  spawn_error = some e;
  timed_out = false;
}

-- `from_timeout`.
abbrev pub from_timeout : List ℕ → List (List ℕ) → ℕ → CommandError
from_timeout program args secs = record {
  program = program;
  args = args;
  exit_code = none;
  stdout = [];
  stderr =
      codes "command timed out after "
      ++ (codes (show_ℕ secs) ++ codes "s and was killed (SIGKILL)");
  spawn_error = none;
  timed_out = true;
}

abbrev first_or : List ℕ → Option (List ℕ) → Option (List ℕ)
first_or [] rest = rest
first_or (c ∷ cs) rest = some (c ∷ cs)

abbrev first_nonempty : List (List ℕ) → Option (List ℕ)
first_nonempty [] = none
first_nonempty (line ∷ rest) = first_or (trim line) (first_nonempty rest)

-- `first_nonempty_line`.
unfoldable pub first_nonempty_line : List ℕ → Option (List ℕ)
unfolding lines trim
first_nonempty_line s = first_nonempty (lines s)

-- `Option::unwrap_or_default`, and `or_else` in front of it.
abbrev pub or_empty : Option (List ℕ) → List ℕ
or_empty none = []
or_empty (some s) = s

abbrev pub detail_of : Option (List ℕ) → Option (List ℕ) → List ℕ
detail_of none out = or_empty out
detail_of (some s) out = s

-- `summary`.
unfoldable pub summary : CommandError → List ℕ
unfolding first_nonempty_line
summary ce = elim ce.spawn_error [
  | some e ↦ ce.program ++ (codes " failed to start: " ++ e)
  | none ↦
      let detail = detail_of (first_nonempty_line ce.stderr) (first_nonempty_line ce.stdout) in
      if ce.timed_out
      then ce.program ++ (codes " timed out: " ++ or_empty (first_nonempty_line ce.stderr))
      else elim ce.exit_code [
        | some code ↦
            ce.program ++ (codes " failed (exit " ++ (show_ℤ code ++ (codes "): " ++ detail)))
        | none ↦ ce.program ++ (codes " failed (signal): " ++ detail)
      ]
]

abbrev pub indent : List (List ℕ) → List (List ℕ)
indent [] = []
indent (line ∷ rest) = (codes "  " ++ line) ∷ indent rest

-- The lines that `append_stream_lines` adds.
abbrev pub stream_lines : List ℕ → List (List ℕ) → List (List ℕ)
stream_lines name [] = (codes "[" ++ (name ++ codes "] (empty)")) ∷ []
stream_lines name (line ∷ rest) = (codes "[" ++ (name ++ codes "]")) ∷ indent (line ∷ rest)

-- `append_stream_lines`.
unfoldable pub append_stream_lines : List (List ℕ) → List ℕ → List ℕ → List (List ℕ)
unfolding lines
append_stream_lines acc name content = acc ++ stream_lines name (lines content)

-- `MAX_OUTPUT_LINES`.
abbrev pub max_output_lines : ℕ
max_output_lines = 200

abbrev pub truncation_note : List ℕ
truncation_note = codes "... output truncated at 200 lines"

abbrev pub truncated : List (List ℕ) → List (List ℕ)
truncated ls =
    if ltb max_output_lines (length ls)
    then take max_output_lines ls ++ truncation_note ∷ []
    else ls

abbrev header : Option ℤ → List ℕ → List ℕ
header (some code) cmd = codes "Command failed (exit " ++ (show_ℤ code ++ (codes "): " ++ cmd))
header none cmd = codes "Command failed (signal): " ++ cmd

-- The lines in front of the truncation.
abbrev pub all_lines : CommandError → List (List ℕ)
all_lines ce =
    append_stream_lines
      (append_stream_lines (header ce.exit_code (format_command ce.program ce.args) ∷ [])
        (codes "stderr") ce.stderr)
      (codes "stdout") ce.stdout

-- `output_log_lines`.
unfoldable pub output_log_lines : CommandError → List (List ℕ)
unfolding append_stream_lines format_command
output_log_lines ce = elim ce.spawn_error [
  | some e ↦
      header ce.exit_code (format_command ce.program ce.args) ∷ (codes "Spawn error: " ++ e) ∷ []
  | none ↦ truncated (all_lines ce)
]

-- `extract_command_output`: the first `CommandError` of the chain.
unfoldable pub extract_command_output : Error → Option CommandError
extract_command_output (message s) = none
extract_command_output (command ce) = some ce
extract_command_output (context s e) = extract_command_output e

-- `extract_stderr(&e).unwrap_or_default()`.
unfoldable pub extract_stderr : Error → List ℕ
unfolding extract_command_output
extract_stderr e = elim (extract_command_output e) [ none ↦ [] | some ce ↦ ce.stderr ]

-- `e.to_string()`: the outermost cause.
unfoldable pub to_string : Error → List ℕ
unfolding summary
to_string (message s) = s
to_string (command ce) = summary ce
to_string (context s e) = s

-- `diagnostic_log_lines`, given how anyhow prints the chain.
unfoldable pub diagnostic_log_lines : (Error → List ℕ) → Error → List (List ℕ)
unfolding output_log_lines extract_command_output lines
diagnostic_log_lines format_error_chain e =
    codes "Error chain:"
    ∷ (lines (format_error_chain e) ++ elim (extract_command_output e) [
      | none ↦ []
      | some ce ↦ [] ∷ codes "Command output:" ∷ output_log_lines ce
    ])

-- `format_error_for_cache`, given how anyhow prints the chain.
unfoldable pub format_error_for_cache : (Error → List ℕ) → Error → List ℕ
unfolding summary extract_command_output
format_error_for_cache format_error_chain e = elim (extract_command_output e) [
  | none ↦ format_error_chain e
  | some ce ↦ summary ce
]
