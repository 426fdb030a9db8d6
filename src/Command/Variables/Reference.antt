-- ===== src/Command/Variables/Reference.antt =====
-- A braced reference in double quotes, through `expand_variables_in_text` of
-- bywaf/command/parser/variables.py and then `shlex.split`.
use bywaf.Prelude.{
  ℕ, true, false, ◌==◌, some, [], ◌∷◌, ◌++◌, ◌≡◌, arith, Text, is_empty, contains_char, partition,
  ok, ||-false, unique_texts, without,
}
use bywaf.VarStore.{VarStore}
use bywaf.Command.Shlex.{shlex_split}
use bywaf.Command.Variables.{
  Unicode, quoted_by, escape_double_quoted_value, parse_variable_reference,
  resolve_variable_reference, toggle_double_quote, expand_reference, consume_variable_reference,
  consume_scan_char, expand_from, expand_variables_in_text,
}
use bywaf.Command.Variables.Escaping.{shlex_split-escape_double_quoted_value}

partition-append :
    (c : ℕ) (s t : Text)
    → contains_char c s ≡ false
    → partition c (s ++ c ∷ t) ≡ record { before = s; found = true; after = t }
unfolding partition contains_char
partition-append c [] t h = ground arith
partition-append c (d ∷ s) t h =
    let (h0, h') = ||-false (c == d) (contains_char c s) h in rw (h0, partition-append c s t h')

parse-braced :
    (u : Unicode) (name after : Text)
    → contains_char b'}' name ≡ false
    → is_empty name ≡ false
    → parse_variable_reference u (b'{' ∷ name ++ b'}' ∷ after) ≡ ok (some (name, after))
unfolding parse_variable_reference
parse-braced u name after h n = rw (partition-append b'}' name after h, n)

-- "${name}", in its double quotes
abbrev pub quoted_reference : Text → Text
quoted_reference name = b'"' ∷ b'$' ∷ b'{' ∷ name ++ b'}' ∷ b'"' ∷ []

module _ (u : Unicode) (store : VarStore) (commandlet name value full : Text) where
  expand_variables_in_text_quoted :
      contains_char b'}' name ≡ false
      → is_empty name ≡ false
      → resolve_variable_reference store commandlet name ≡ ok (value, full)
      → expand_variables_in_text u (quoted_reference name) store commandlet
        ≡ ok (b'"' ∷ escape_double_quoted_value value ++ b'"' ∷ [], full ∷ [])
  unfolding expand_variables_in_text expand_from consume_scan_char toggle_double_quote
      consume_variable_reference expand_reference quoted_by unique_texts without
  expand_variables_in_text_quoted h n r = rw (parse-braced u name (b'"' ∷ []) h n, r)

-- A reference "${name}" in double quotes expands to the value of the variable, and `shlex.split`
-- reads the result as one argument that is exactly that value, whatever it holds; the name that is
-- recorded is the full name under which the variable was found.
pub shlex_split-quoted_reference :
    (u : Unicode) (store : VarStore) (commandlet name value full : Text)
    → contains_char b'}' name ≡ false
    → is_empty name ≡ false
    → resolve_variable_reference store commandlet name ≡ ok (value, full)
    → (out : Text) × (expand_variables_in_text u (quoted_reference name) store commandlet
        ≡ ok (out, full ∷ []))
      × (shlex_split out ≡ ok (value ∷ []))
shlex_split-quoted_reference u store commandlet name value full h n r = (
  b'"' ∷ escape_double_quoted_value value ++ b'"' ∷ [],
  expand_variables_in_text_quoted u store commandlet name value full h n r,
  shlex_split-escape_double_quoted_value value,
)
