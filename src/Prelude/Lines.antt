-- ===== src/Prelude/Lines.antt =====
-- What the agent uses of `str` for the output of commands, on lists of code points.
use Prim.Native.Nat.{ℕ, suc, ◌+◌}
use mathlib.Core.Bool.{Bool, true, false}
use mathlib.Core.List.{List, [], ◌∷◌}
use linux_patch_api.Prelude.Tests.{leb, ◌==◌, if◌then◌else◌, is_some}
use linux_patch_api.Prelude.Lists.{find}
use linux_patch_api.Prelude.Text.{is_whitespace, codes}
use linux_patch_api.Prelude.Int.{ℤ, pos, negsuc}
use linux_patch_api.Prelude.Text.{show_ℕ}

-- `str::contains`.
abbrev pub contains : List ℕ → List ℕ → Bool
contains s t = is_some (find s t)

-- `str::to_lowercase`, of which only the letters of ASCII matter to the agent: besides them exactly
-- U+0130 and U+212A have one in their lower case. Other characters are left as they are.
unfoldable pub to_lowercase : List ℕ → List ℕ
to_lowercase [] = []
to_lowercase (c ∷ cs) =
    let rest = to_lowercase cs in
    if leb b'A' c
    then if leb c b'Z'
      then (c + 32) ∷ rest
      else if c == 0x130
      then b'i' ∷ 0x307 ∷ rest
      else if c == 0x212a
      then b'k' ∷ rest
      else c ∷ rest
    else c ∷ rest

-- A character in front of the first of the lines that follow it.
abbrev pub prepend : ℕ → List (List ℕ) → List (List ℕ)
prepend c [] = (c ∷ []) ∷ []
prepend c (line ∷ lines) = (c ∷ line) ∷ lines

-- A carriage return in front of a line feed.
abbrev pub is_crlf : ℕ → List ℕ → Bool
is_crlf c [] = false
is_crlf c (d ∷ ds) = if c == 13 then d == 10 else false

-- `str::lines`.
unfoldable pub lines : List ℕ → List (List ℕ)
lines [] = []
lines (c ∷ cs) =
    let rest = lines cs in
    if c == 10 then [] ∷ rest else if is_crlf c cs then rest else prepend c rest

-- The first part up to a white space character, and what follows it.
abbrev pub first_word : List ℕ → List ℕ
first_word [] = []
first_word (c ∷ cs) = let rest = first_word cs in if is_whitespace c then [] else c ∷ rest

-- The words of a text whose first character continues a word or not.
unfoldable pub words_from : Bool → List ℕ → List (List ℕ)
words_from inside [] = []
words_from inside (c ∷ cs) =
    let others = words_from false cs in
    let same = words_from true cs in
    if is_whitespace c then others else if inside then same else first_word (c ∷ cs) ∷ same

-- `str::split_whitespace`.
unfoldable pub split_whitespace : List ℕ → List (List ℕ)
unfolding words_from
split_whitespace text = words_from false text

-- `{}` of an `i32`.
abbrev pub show_ℤ : ℤ → List ℕ
show_ℤ (pos n) = codes (show_ℕ n)
show_ℤ (negsuc n) = b'-' ∷ codes (show_ℕ (suc n))
