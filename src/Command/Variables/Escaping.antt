-- ===== src/Command/Variables/Escaping.antt =====
-- `escape_double_quoted_value` of bywaf/command/parser/variables.py, read back by `shlex.split`.
use bywaf.Prelude.{[], ◌∷◌, ◌++◌, ◌≡◌, refl, arith, Text, ok}
use bywaf.Command.Shlex.{shlex_split}
use bywaf.Command.Shlex.Quoted.{escaped_text, shlex_split-escaped_text}
use bywaf.Command.Variables.{replace_char, escape_double_quoted_value}

pub escape_double_quoted_value-escaped_text :
    (v : Text) → escape_double_quoted_value v ≡ escaped_text v
unfolding escape_double_quoted_value replace_char escaped_text
escape_double_quoted_value-escaped_text [] = refl
escape_double_quoted_value-escaped_text (c ∷ v) =
    ground (arith, escape_double_quoted_value-escaped_text v)

-- A value between double quotes, escaped as the parser escapes it, is one argument to `shlex.split`,
-- equal to the value, whatever quotes, backslashes and spaces it holds.
pub shlex_split-escape_double_quoted_value :
    (v : Text) → shlex_split (b'"' ∷ escape_double_quoted_value v ++ b'"' ∷ []) ≡ ok (v ∷ [])
shlex_split-escape_double_quoted_value v =
    rw (escape_double_quoted_value-escaped_text v) (shlex_split-escaped_text v)
