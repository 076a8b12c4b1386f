-- ===== src/Packages/Error/Words.antt =====
-- The words that a shell reads from a command line, and that those of `format_command` in
-- src/packages/error_utils.rs are the program and its arguments.
use mathlib.Core.Bool.{true≢false}
use mathlib.Core.List.{append_assoc}
use linux_patch_api.Prelude.{
  ℕ, Bool, true, false, List, [], ◌∷◌, ◌++◌, any, ◌==◌, ◌≡◌, refl, sym, ap, ◌∙◌, ◌≢◌, inl, inr,
  if◌then◌else◌, Bool-cases, ==_iff, head_false,
}
use linux_patch_api.Prelude.Lines.{prepend}
use linux_patch_api.Packages.Error.Quoting.{
  is_special, escape_quotes, quote_arg, format_args, format_command,
}

-- Between words, in a word, inside single quotes, behind a backslash.
pub data Mode : Type 0 where
  between bare quoted escaped : Mode

abbrev is_blank : ℕ → Bool
is_blank c = if c == 32 then true else if c == 10 then true else c == 9

abbrev in_word : ℕ → Mode
in_word c = if c == b'\'' then quoted else if c == b'\\' then escaped else bare

abbrev next : Mode → ℕ → Mode
next between c = if is_blank c then between else in_word c
next bare c = if is_blank c then between else in_word c
next quoted c = if c == b'\'' then bare else quoted
next escaped c = bare

-- A quote or a backslash adds nothing to the word.
abbrev keep : ℕ → List (List ℕ) → List (List ℕ)
keep c words = if c == b'\'' then words else if c == b'\\' then words else prepend c words

abbrev add : Mode → ℕ → List (List ℕ) → List (List ℕ)
add between c words = if is_blank c then words else keep c words
add bare c words = if is_blank c then [] ∷ words else keep c words
add quoted c words = if c == b'\'' then words else prepend c words
add escaped c words = prepend c words

-- The words of a text. Within a word the first one is its rest.
unfoldable pub shell_words : Mode → List ℕ → List (List ℕ)
shell_words between [] = []
shell_words bare [] = [] ∷ []
shell_words quoted [] = [] ∷ []
shell_words escaped [] = [] ∷ []
shell_words m (c ∷ cs) = add m c (shell_words (next m c) cs)

-- The characters in front of the first word.
abbrev prefix : List ℕ → List (List ℕ) → List (List ℕ)
prefix [] words = words
prefix (c ∷ cs) words = prepend c (prefix cs words)

prefix-word : (a : List ℕ) (words : List (List ℕ)) → prefix a ([] ∷ words) ≡ a ∷ words
prefix-word [] words = refl
prefix-word (c ∷ a) words = rw (prefix-word a words)

-- A character that is not quoted is no blank, no quote and no backslash.
not_special : (c d : ℕ) → is_special d ≡ true → is_special c ≡ false → (c == d) ≡ false
not_special c d h k = elim (Bool-cases (c == d)) [
  | inl e ↦ absurd (true≢false (sym h ∙ ap is_special (sym ((==_iff c d).0 e)) ∙ k))
  | inr e ↦ e
]

bare_step :
    (c : ℕ) (cs : List ℕ)
    → is_special c ≡ false
    → (shell_words bare (c ∷ cs) ≡ prepend c (shell_words bare cs))
      × (shell_words between (c ∷ cs) ≡ prepend c (shell_words bare cs))
unfolding shell_words
bare_step c cs h =
    let e1 = not_special c 32 refl h in
    let e2 = not_special c 10 refl h in
    let e3 = not_special c 9 refl h in
    let e4 = not_special c b'\'' refl h in
    let e5 = not_special c b'\\' refl h in (rw (e1, e2, e3, e4, e5), rw (e1, e2, e3, e4, e5))

bare_word :
    (w rest : List ℕ)
    → any is_special w ≡ false
    → shell_words bare (w ++ rest) ≡ prefix w (shell_words bare rest)
bare_word [] rest h = refl
bare_word (c ∷ w) rest h =
    let p = head_false (is_special c) (any is_special w) h in
    (bare_step c (w ++ rest) p.0).0 ∙ ap (prepend c) (bare_word w rest p.1)

quoted_word :
    (a rest : List ℕ)
    → shell_words quoted (escape_quotes a ++ b'\'' ∷ rest) ≡ prefix a (shell_words bare rest)
unfolding shell_words escape_quotes
quoted_word [] rest = refl
quoted_word (c ∷ a) rest = elim (Bool-cases (c == b'\'')) [
  | inl e ↦ rw ((==_iff c b'\'').0 e) (ap (prepend b'\'') (quoted_word a rest))
  | inr e ↦ rw (e, e) (ap (prepend c) (quoted_word a rest))
]

between_word :
    (a rest : List ℕ)
    → a ≢ []
    → shell_words between (quote_arg a ++ rest) ≡ prefix a (shell_words bare rest)
unfolding quote_arg shell_words
between_word [] rest h = absurd (h refl)
between_word (c ∷ a) rest h = elim (Bool-cases (any is_special (c ∷ a))) [
  | inl e ↦ rw e (
      ap (λ t. shell_words quoted t) (append_assoc (escape_quotes (c ∷ a)) (b'\'' ∷ []) rest)
      ∙ quoted_word (c ∷ a) rest)
  | inr e ↦
      let p = head_false (is_special c) (any is_special a) e in
      rw e ((bare_step c (a ++ rest) p.0).1 ∙ ap (prepend c) (bare_word a rest p.1))
]

-- No argument is empty.
abbrev pub NoneEmpty : List (List ℕ) → Type 0
NoneEmpty [] = Unit {0}
NoneEmpty (a ∷ args) = (a ≢ []) × NoneEmpty args

args_words :
    (args : List (List ℕ)) → NoneEmpty args → shell_words bare (format_args args) ≡ [] ∷ args
unfolding format_args shell_words
args_words [] h = refl
args_words (a ∷ args) h =
    ap (λ ws. [] ∷ ws)
      (between_word a (format_args args) h.0
        ∙ ap (prefix a) (args_words args h.1)
        ∙ prefix-word a args)

-- For a program without special characters and arguments none of which is empty, the logged command
-- line, split into words as a shell does (blanks, single quotes, backslashes), gives the program and
-- the arguments back.
pub shell_words-format_command :
    (program : List ℕ) (args : List (List ℕ))
    → program ≢ []
    → any is_special program ≡ false
    → NoneEmpty args
    → shell_words between (format_command program args) ≡ program ∷ args
unfolding format_command
shell_words-format_command [] args h k n = absurd (h refl)
shell_words-format_command (c ∷ p) args h k n =
    let q = head_false (is_special c) (any is_special p) k in
    (bare_step c (p ++ format_args args) q.0).1
    ∙ ap (prepend c) (bare_word p (format_args args) q.1 ∙ ap (prefix p) (args_words args n))
    ∙ prefix-word (c ∷ p) args
