-- ===== src/Packages/Runner.antt =====
-- Commands and the state they run in: src/packages/coordinator.rs. What the machine does is a
-- parameter; the commands that were run are recorded, the last one first.
use linux_patch_api.Prelude.{
  ℕ, Bool, false, ◌==◌, List, ◌∷◌, any, Option, none, some, if◌then◌else◌,
}
use linux_patch_api.Prelude.Int.{ℤ, pos, negsuc}
use linux_patch_api.Prelude.Result.{Result, ok, err, is_ok}
use linux_patch_api.Packages.Error.Report.{Error, CommandError, extract_command_output}

-- `CommandOutput`.
pub record CommandOutput : Type 0 where
  pub status_code : Option ℤ
  pub stdout : List ℕ
  pub stderr : List ℕ
  pub timed_out : Bool

-- `PartialEq` of `i32`.
abbrev pub int_eq : ℤ → ℤ → Bool
int_eq (pos m) (pos n) = m == n
int_eq (negsuc m) (negsuc n) = m == n
int_eq _ _ = false

-- `CommandOutput::success`.
abbrev pub success : CommandOutput → Bool
success o = elim o.status_code [ none ↦ false | some code ↦ int_eq code (pos 0) ]

-- What a lock file holds.
pub data LockFile : Type 0 where
  absent unreadable : LockFile
  content : List ℕ → LockFile

-- The machine: a `CommandRunner` on a state, and the files and processes that the agent looks at.
pub record Machine : Type 1 where
  pub State : Type 0
  pub run : List ℕ → List (List ℕ) → Option ℕ → State → State × Result Error CommandOutput
  pub lock_file : State → List ℕ → LockFile
  pub proc_exists : State → ℕ → Bool
  pub cmdline : State → ℕ → Option (List ℕ)
  pub has_apt_process : State → Bool
  pub remove_file : List ℕ → State → State

-- A command that was run, and whether the runner returned no error, which `SystemCommandRunner` does
-- for the exit code 0 only.
pub record Call : Type 0 where
  pub program : List ℕ
  pub args : List (List ℕ)
  pub succeeded : Bool

pub record Host (S : Type 0) : Type 0 where
  pub machine : S
  pub calls : List Call

-- `CACHE_REFRESH_TIMEOUT`, `PACKAGE_OP_TIMEOUT` and `QUICK_OP_TIMEOUT`, in seconds.
abbrev pub cache_refresh_timeout : ℕ
cache_refresh_timeout = 300

abbrev pub package_op_timeout : ℕ
package_op_timeout = 1800

abbrev pub quick_op_timeout : ℕ
quick_op_timeout = 60

-- An operation on a host that may fail.
abbrev pub Action : Type 0 → Type 0 → Type 0
Action S A = Host S → Host S × Result Error A

module _ {S A B : Type 0} where
  abbrev pub continue_with : Host S × Result Error A → (A → Action S B) → Host S × Result Error B
  continue_with (h, ok a) f = f a h
  continue_with (h, err e) f = (h, err e)

  infixl 5 ◌>>=◌
  abbrev pub ◌>>=◌ : Action S A → (A → Action S B) → Action S B
  (m >>= f) h = continue_with (m h) f

  -- `match` on the result of an action.
  abbrev pub handle : Action S A → (Result Error A → Action S B) → Action S B
  handle m f h = let r = m h in f r.1 r.0

abbrev pub pure : {S A : Type 0} → A → Action S A
pure a h = (h, ok a)

abbrev pub fail : {S A : Type 0} → Error → Action S A
fail e h = (h, err e)

module _ (m : Machine) where
  abbrev pub record_call :
      List ℕ
      → List (List ℕ)
      → List Call
      → m.State × Result Error CommandOutput
      → Host m.State × Result Error CommandOutput
  record_call program args calls r = (
    record {
      machine = r.0;
      calls = record { program = program; args = args; succeeded = is_ok r.1 } ∷ calls;
    },
    r.1,
  )

  -- `run_with_timeout`, and `run` without a limit.
  unfoldable pub run_with : Option ℕ → List ℕ → List (List ℕ) → Action m.State CommandOutput
  run_with limit program args h =
      record_call program args h.calls (m.run program args limit h.machine)

  -- `run_command_timed`.
  unfoldable pub run_command_timed : List ℕ → List (List ℕ) → ℕ → Action m.State (List ℕ)
  unfolding run_with
  run_command_timed program args limit = run_with (some limit) program args >>= λ o. pure o.stdout

abbrev acceptable : Option CommandError → List ℤ → Error → Result Error (List ℕ)
acceptable none codes e = err e
acceptable (some ce) codes e = elim ce.exit_code [
  | none ↦ err e
  | some code ↦ if any (int_eq code) codes then ok ce.stdout else err e
]

-- The result that `run_command_with_acceptable_exit` makes of the runner's.
unfoldable pub accept_exit : List ℤ → Result Error CommandOutput → Result Error (List ℕ)
unfolding extract_command_output
accept_exit codes (ok o) = ok o.stdout
accept_exit codes (err e) = acceptable (extract_command_output e) codes e

-- `run_command_with_acceptable_exit` and its timed variant, by the limit.
unfoldable pub run_command_with_acceptable_exit :
    (m : Machine) → List ℕ → List (List ℕ) → List ℤ → Option ℕ → Action m.State (List ℕ)
unfolding run_with accept_exit
run_command_with_acceptable_exit m program args codes limit =
    handle (run_with m limit program args) (λ r h. (h, accept_exit codes r))
