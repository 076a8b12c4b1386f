-- ===== src/Packages/Splitting/Rejoin.antt =====
-- Texts put together and taken apart again, by the helpers of src/packages/mod.rs.
use linux_patch_api.Prelude.{
  ℕ, Bool, true, false, ◌==◌, ==_refl, List, [], ◌∷◌, ◌++◌, any, none, some, ◌≡◌, refl, arith,
  head_false, if◌then◌else◌,
}
use linux_patch_api.Prelude.Text.{trim, trim_start, trim_end, is_whitespace}
use linux_patch_api.Prelude.Lines.{lines, is_crlf}
use linux_patch_api.Packages.Request.{is_ascii_digit}
use linux_patch_api.Packages.Splitting.{is_break, parse_name_version, split_last}

abbrev pub has_space : List ℕ → Bool
has_space = any is_whitespace

-- A hyphen in front of a digit, somewhere.
abbrev pub has_break : List ℕ → Bool
has_break [] = false
has_break (c ∷ cs) = let rest = has_break cs in if is_break c cs then true else rest

head_tail :
    (p : ℕ → Bool) (c : ℕ) (cs : List ℕ)
    → any p (c ∷ cs) ≡ false
    → (p c ≡ false) × (any p cs ≡ false)
head_tail p c cs e = ground arith

not_newline : (c : ℕ) → is_whitespace c ≡ false → ((c == 10) ≡ false) × ((c == 13) ≡ false)
not_newline c e = ground arith

is_crlf-false : (c : ℕ) (cs : List ℕ) → (c == 13) ≡ false → is_crlf c cs ≡ false
is_crlf-false c [] e = refl
is_crlf-false c (d ∷ ds) e = rw e refl

pub lines-append :
    (xs rest : List ℕ) → has_space xs ≡ false → lines (xs ++ 10 ∷ rest) ≡ xs ∷ lines rest
unfolding lines
lines-append [] rest e = refl
lines-append (c ∷ cs) rest e =
    let p = head_tail is_whitespace c cs e in
    let q = not_newline c p.0 in
    rw (q.0, is_crlf-false c (cs ++ 10 ∷ rest) q.1, lines-append cs rest p.1) refl

trim_start-id : (xs : List ℕ) → has_space xs ≡ false → trim_start xs ≡ xs
trim_start-id [] e = refl
trim_start-id (c ∷ cs) e = rw (head_tail is_whitespace c cs e).0 refl

trim_end-id : (xs : List ℕ) → has_space xs ≡ false → trim_end xs ≡ xs
trim_end-id [] e = refl
trim_end-id (c ∷ []) e = rw (head_tail is_whitespace c [] e).0 refl
trim_end-id (c ∷ d ∷ ds) e = rw (trim_end-id (d ∷ ds) (head_tail is_whitespace c (d ∷ ds) e).1) refl

pub trim-id : (xs : List ℕ) → has_space xs ≡ false → trim xs ≡ xs
unfolding trim
trim-id xs e = rw (trim_start-id xs e, trim_end-id xs e) refl

split_last-none :
    (sep : ℕ) (xs : List ℕ) → any (λ c. c == sep) xs ≡ false → split_last sep xs ≡ none
split_last-none sep [] e = refl
split_last-none sep (c ∷ cs) e =
    let p = head_tail (λ d. d == sep) c cs e in rw (split_last-none sep cs p.1, p.0) refl

pub split_last-append :
    (sep : ℕ) (xs ys : List ℕ)
    → any (λ c. c == sep) ys ≡ false
    → split_last sep (xs ++ sep ∷ ys) ≡ some (xs, ys)
split_last-append sep [] ys e = rw (split_last-none sep ys e, ==_refl sep) refl
split_last-append sep (x ∷ xs) ys e = rw (split_last-append sep xs ys e) refl

head_tail_break :
    (c x : ℕ) (xs : List ℕ)
    → has_break (c ∷ x ∷ xs) ≡ false
    → ((if c == b'-' then is_ascii_digit x else false) ≡ false) × (has_break (x ∷ xs) ≡ false)
head_tail_break c x xs e =
    head_false (if c == b'-' then is_ascii_digit x else false) (has_break (x ∷ xs)) e

-- A name in which no hyphen stands in front of a digit, a hyphen, and a version that starts with a
-- digit are found again.
pub parse_name_version-append :
    (n : List ℕ) (d : ℕ) (v : List ℕ)
    → has_break n ≡ false
    → is_ascii_digit d ≡ true
    → parse_name_version (n ++ b'-' ∷ d ∷ v) ≡ (n, d ∷ v)
parse_name_version-append [] d v e k = rw k refl
parse_name_version-append (c ∷ []) d v e k = ground (arith, k)
parse_name_version-append (c ∷ x ∷ xs) d v e k =
    let p = head_tail_break c x xs e in rw (p.0, parse_name_version-append (x ∷ xs) d v p.1 k) refl
