-- ===== src/Prelude/Text.antt =====
-- What the agent uses of `String`, on the native texts, by bytes of UTF-8 as in Rust.
use Prim.Native.Nat.{ℕ, zero, suc, ◌-◌, ◌/◌, ◌%◌}
use Prim.Native.String.{String, ◌++◌, len, slice}
use Prim.Native.Char.{code}
use mathlib.Core.List.{List, [], ◌∷◌}
use mathlib.Core.Bool.{Bool, true, false}
use mathlib.Core.Option.{none, some}
use text.Mathlib.Text.{◌==◌ as str_eq, starts_with, find?}
use linux_patch_api.Prelude.Tests.{ltb, leb, ◌==◌, if◌then◌else◌}

-- `format!("{}{}", s, t)`.
abbrev pub concat : String → String → String
concat s t = s ++ t

-- `str::is_empty`.
abbrev pub is_empty : String → Bool
is_empty s = str_eq s ""

-- `str::ends_with`.
pub ends_with : String → String → Bool
ends_with s t = if leb (len t) (len s) then str_eq (slice s (len s - len t) (len s)) t else false

-- `str::contains`.
pub contains : String → String → Bool
contains s t = elim (find? s t) [ none ↦ false | some i ↦ true ]

-- `p.starts_with("__") && p.ends_with("__")`.
unfoldable pub is_sentinel : String → Bool
unfolding ends_with
is_sentinel p = if starts_with p "__" then ends_with p "__" else false

abbrev digit : ℕ → String
digit zero = "0"
digit (suc zero) = "1"
digit (suc (suc zero)) = "2"
digit (suc (suc (suc zero))) = "3"
digit (suc (suc (suc (suc zero)))) = "4"
digit (suc (suc (suc (suc (suc zero))))) = "5"
digit (suc (suc (suc (suc (suc (suc zero)))))) = "6"
digit (suc (suc (suc (suc (suc (suc (suc zero))))))) = "7"
digit (suc (suc (suc (suc (suc (suc (suc (suc zero)))))))) = "8"
digit (suc (suc (suc (suc (suc (suc (suc (suc (suc d))))))))) = "9"

decimal : ℕ → ℕ → String
decimal zero n = ""
decimal (suc fuel) n =
    let rest = decimal fuel (n / 10) in if ltb n 10 then digit n else concat rest (digit (n % 10))

-- `{}` of an unsigned number: a number has at most as many digits as its value and one more.
unfoldable pub show_ℕ : ℕ → String
unfolding decimal
show_ℕ n = decimal (suc n) n

-- The code points of a text: its bytes, if it is ASCII.
abbrev pub codes : String → List ℕ
codes String.[] = []
codes (String.◌∷◌ c s) = code c ∷ codes s

-- `char::is_whitespace`.
abbrev pub is_whitespace : ℕ → Bool
is_whitespace c =
    if leb 9 c
    then if leb c 13
      then true
      else if c == 32
      then true
      else if c == 0x85
      then true
      else if c == 0xa0
      then true
      else if c == 0x1680
      then true
      else if leb 0x2000 c
      then if leb c 0x200a
        then true
        else if c == 0x2028
        then true
        else if c == 0x2029
        then true
        else if c == 0x202f
        then true
        else if c == 0x205f
        then true
        else c == 0x3000
      else false
    else false

-- `str::trim_start`, `str::trim_end` and `str::trim` on code points.
abbrev pub trim_start : List ℕ → List ℕ
trim_start [] = []
trim_start (c ∷ cs) = let rest = trim_start cs in if is_whitespace c then rest else c ∷ cs

abbrev pub trim_end_one : ℕ → List ℕ → List ℕ
trim_end_one c [] = if is_whitespace c then [] else c ∷ []
trim_end_one c (d ∷ ds) = c ∷ d ∷ ds

abbrev pub trim_end : List ℕ → List ℕ
trim_end [] = []
trim_end (c ∷ cs) = trim_end_one c (trim_end cs)

unfoldable pub trim : List ℕ → List ℕ
trim cs = trim_end (trim_start cs)
