-- ===== src/Whitelist/Examples.antt =====
-- Runs of the whitelist code.
use linux_patch_api.Prelude.{
  ℕ, ◌==◌, true, any, List, [], ◌∷◌, Option, none, some, ◌≡◌, refl, arith, if◌then◌else◌,
}
use linux_patch_api.Prelude.Text.{codes, trim}
use linux_patch_api.Whitelist.Address.{ip_in_subnet}
use linux_patch_api.Whitelist.Entry.{IpAddr, v4, ip, parse_appended}
use linux_patch_api.Whitelist.Manager.{append_entry, reload, call, passed, not_in_whitelist}
use linux_patch_api.Whitelist.Subnet.{shift_right, ip_in_subnet_lem}
use linux_patch_api.Whitelist.Append.{
  with_file, Reloaded, Appended, reload-grants, append_entry-grants, call-grants,
}
use linux_patch_api.Whitelist.Rules.{grants}
use linux_patch_api.Whitelist.Sample.{write_lines, toy_yaml, toy_yaml-RoundTrips}

abbrev no_names : List ℕ → Option (List IpAddr)
no_names name = none

abbrev subnet_lines : List (List ℕ)
subnet_lines = codes "10.0.0.0/8" ∷ []

ip_in_subnet_lem_example :
    ip_in_subnet 3232235777 3232235776 24 ≡ (shift_right 8 3232235777 == shift_right 8 3232235776)
ip_in_subnet_lem_example =
    ip_in_subnet_lem 3232235777 3232235776 24 (omega arith) (omega arith) (omega arith)

reload-grants_example :
    Reloaded toy_yaml no_names 167772161 subnet_lines (with_file [] (write_lines subnet_lines))
reload-grants_example =
    reload-grants toy_yaml no_names 167772161 [] (write_lines subnet_lines) subnet_lines refl

append_entry-grants_example :
    Appended toy_yaml no_names 16909060 subnet_lines (codes " 1.2.3.4") (ip 16909060) (
      append_entry toy_yaml no_names true true
        (codes " 1.2.3.4")
        (with_file [] (write_lines subnet_lines)))
unfolding linux_patch_api.Whitelist.Entry.parse_line trim parse_appended
append_entry-grants_example =
    append_entry-grants toy_yaml no_names 16909060 [] (write_lines subnet_lines) subnet_lines
      (codes " 1.2.3.4") (ip 16909060) toy_yaml-RoundTrips refl refl refl refl refl

call-grants_example :
    call
      (codes "/api/v1/jobs")
      (some (v4 167772161))
      (reload toy_yaml no_names (with_file [] (write_lines subnet_lines))).0
    ≡ (if any (grants no_names 167772161) subnet_lines then passed else not_in_whitelist)
unfolding linux_patch_api.Whitelist.Entry.parse_line trim
call-grants_example =
    call-grants toy_yaml no_names 167772161 [] (write_lines subnet_lines) subnet_lines
      (codes "/api/v1/jobs") refl refl refl
