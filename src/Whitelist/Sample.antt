-- ===== src/Whitelist/Sample.antt =====
-- A small stand-in for the YAML library that src/auth/whitelist.rs calls, for the tests: a line's
-- characters are one greater, and a zero ends it.
use linux_patch_api.Prelude.{ℕ, zero, suc, List, [], ◌∷◌, some, ◌≡◌, refl, ap}
use linux_patch_api.Whitelist.Manager.{Yaml}
use linux_patch_api.Whitelist.Append.{RoundTrips}

abbrev write_line : List ℕ → List ℕ → List ℕ
write_line [] rest = 0 ∷ rest
write_line (c ∷ cs) rest = suc c ∷ write_line cs rest

abbrev pub write_lines : List (List ℕ) → List ℕ
write_lines [] = []
write_lines (line ∷ lines) = write_line line (write_lines lines)

-- A character in front of the lines that follow.
abbrev cons_first : ℕ → List (List ℕ) → List (List ℕ)
cons_first c [] = []
cons_first c (line ∷ lines) = (c ∷ line) ∷ lines

abbrev read_lines : List ℕ → List (List ℕ)
read_lines [] = []
read_lines (zero ∷ cs) = [] ∷ read_lines cs
read_lines (suc c ∷ cs) = cons_first c (read_lines cs)

abbrev pub toy_yaml : Yaml
toy_yaml = record { from_str = λ cs. some (read_lines cs); to_string = λ ls. some (write_lines ls) }

read_lines-write_line :
    (line rest : List ℕ) → read_lines (write_line line rest) ≡ line ∷ read_lines rest
read_lines-write_line [] rest = refl
read_lines-write_line (c ∷ cs) rest = ap (cons_first c) (read_lines-write_line cs rest)

read_lines-write_lines : (lines : List (List ℕ)) → read_lines (write_lines lines) ≡ lines
read_lines-write_lines [] = refl
read_lines-write_lines (line ∷ lines) =
    rw (read_lines-write_line line (write_lines lines), read_lines-write_lines lines)

pub toy_yaml-RoundTrips : RoundTrips toy_yaml
toy_yaml-RoundTrips lines = (write_lines lines, refl, ap some (read_lines-write_lines lines))
