-- ===== src/Packages/Error/Quoting.antt =====
-- How a command line is written into a log: `format_command` of src/packages/error_utils.rs, and the
-- words that a shell reads from it.
use linux_patch_api.Prelude.{ℕ, Bool, true, List, [], ◌∷◌, ◌++◌, any, ◌==◌, if◌then◌else◌}
use linux_patch_api.Prelude.Text.{codes, is_whitespace}

-- The characters that `format_command` quotes.
abbrev pub is_meta : ℕ → Bool
is_meta c = any (λ d. c == d) (codes "'\"$`\\|&;><")

abbrev pub is_special : ℕ → Bool
is_special c = if is_whitespace c then true else is_meta c

-- `replace('\'', "'\\''")`.
unfoldable pub escape_quotes : List ℕ → List ℕ
escape_quotes [] = []
escape_quotes (c ∷ cs) =
    let rest = escape_quotes cs in
    if c == b'\'' then b'\'' ∷ b'\\' ∷ b'\'' ∷ b'\'' ∷ rest else c ∷ rest

unfoldable pub quote_arg : List ℕ → List ℕ
unfolding escape_quotes
quote_arg a = if any is_special a then b'\'' ∷ (escape_quotes a ++ b'\'' ∷ []) else a

unfoldable pub format_args : List (List ℕ) → List ℕ
unfolding quote_arg
format_args [] = []
format_args (a ∷ args) = b' ' ∷ (quote_arg a ++ format_args args)

-- `format_command`.
unfoldable pub format_command : List ℕ → List (List ℕ) → List ℕ
unfolding format_args
format_command program args = program ++ format_args args
