-- ===== src/Packages/Examples.antt =====
-- The theorems on src/packages at concrete inputs.
use linux_patch_api.Prelude.{
  ℕ, ◌+◌, ◌*◌, ◌≤◌, true, false, List, [], ◌∷◌, map, none, some, length, ◌≡◌, refl, arith,
}
use linux_patch_api.Prelude.Int.{pos}
use linux_patch_api.Prelude.Result.{Result, ok, err, is_ok}
use linux_patch_api.Prelude.Text.{codes}
use linux_patch_api.Packages.Error.Report.{Error, command}
use linux_patch_api.Packages.Error.Quoting.{format_command}
use linux_patch_api.Packages.Error.Words.{between, shell_words, shell_words-format_command}
use linux_patch_api.Packages.Runner.{Machine, Host, CommandOutput, absent}
use linux_patch_api.Packages.Request.{
  PackageSpec, Operation, install, remove, apply_patches, validate_request, validate_package_names,
  validate_spec, validate_package_name, validate_version_string,
}
use linux_patch_api.Packages.Apt.Operations.{perform_all}
use linux_patch_api.Packages.Apt.Trace.{is_guarded}
use linux_patch_api.Packages.Apt.Guard.{perform_all-is_guarded, length-perform_all}
use linux_patch_api.Packages.Backends.{dnf, command_args}
use linux_patch_api.Packages.Backends.Arguments.{options, blank, options-command_args}
use linux_patch_api.Packages.Listing.Parsers.{parse_rpm_package_list}
use linux_patch_api.Packages.Listing.Printed.{
  Entry, print_list, package_of, parse_rpm_package_list-print,
}

-- A machine that gives the answers of a list, and then answers that all went well.
abbrev pub quiet : CommandOutput
quiet = record { status_code = some (pos 0); stdout = []; stderr = []; timed_out = false }

abbrev pub next :
    List (Result Error CommandOutput)
    → List (Result Error CommandOutput) × Result Error CommandOutput
next [] = ([], ok quiet)
next (r ∷ rs) = (rs, r)

abbrev pub scripted : Machine
scripted = record {
  State = List (Result Error CommandOutput);
  run = λ program args limit s. next s;
  lock_file = λ s path. absent;
  proc_exists = λ s pid. false;
  cmdline = λ s pid. none;
  has_apt_process = λ s. false;
  remove_file = λ path s. s;
}

abbrev pub apt_error : List ℕ → Error
apt_error text = command (record {
  program = codes "apt-get";
  args = codes "dist-upgrade" ∷ codes "-y" ∷ [];
  exit_code = some (pos 100);
  stdout = [];
  stderr = text;
  spawn_error = none;
  timed_out = false;
})

abbrev pub host_with : List (Result Error CommandOutput) → Host (List (Result Error CommandOutput))
host_with answers = record { machine = answers; calls = [] }

-- The first upgrade meets unmet dependencies; what follows goes well.
abbrev pub unmet : List (Result Error CommandOutput)
unmet =
    ok quiet
    ∷ ok quiet
    ∷ ok quiet
    ∷ ok quiet
    ∷ err (apt_error (codes "E: Unmet dependencies."))
    ∷ []

abbrev requests : List Operation
requests = apply_patches none ∷ remove (codes "nano") true ∷ []

perform_all-is_guarded_example :
    is_guarded (perform_all scripted requests (host_with unmet)).calls ≡ true
perform_all-is_guarded_example = perform_all-is_guarded scripted requests (host_with unmet) refl

length-perform_all_example :
    length (perform_all scripted requests (host_with unmet)).calls ≤ 26 * 2 + 0
length-perform_all_example = length-perform_all scripted requests (host_with unmet)

abbrev bash : PackageSpec
bash = record { name = codes "bash"; version = some (codes "5.2-1") }

abbrev request : Operation
request = install (bash ∷ []) (record { no_recommends = true; force = false })

request-valid : is_ok (validate_request request) ≡ true
unfolding validate_request validate_package_names validate_spec validate_package_name
    validate_version_string
request-valid = refl

options-command_args_example :
    options (command_args dnf request) ≡ options (command_args dnf (blank request))
options-command_args_example = options-command_args dnf request request-valid

abbrev entries : List Entry
entries =
    record { name = codes "python3-libs"; version = codes "3.12.2-1.fc43"; arch = codes "x86_64" }
    ∷ record { name = codes "bash"; version = codes "5.2.26-3.fc43"; arch = codes "noarch" }
    ∷ []

parse_rpm_package_list-print_example :
    parse_rpm_package_list (print_list entries) ≡ map package_of entries
parse_rpm_package_list-print_example = parse_rpm_package_list-print entries refl

abbrev command_line : List (List ℕ)
command_line = codes "-o" ∷ codes "it's a $test" ∷ []

shell_words-format_command_example :
    shell_words between (format_command (codes "apt-get") command_line)
    ≡ codes "apt-get" ∷ command_line
shell_words-format_command_example =
    shell_words-format_command (codes "apt-get") command_line (λ e. ground arith) refl
      (λ e. ground arith, (λ e. ground arith, tt))
