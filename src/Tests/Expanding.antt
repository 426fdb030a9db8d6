-- ===== src/Tests/Expanding.antt =====
-- bywaf/command/parser/variables.py at concrete texts.
use bywaf.Prelude.{
  false, [], ◌∷◌, ◌++◌, ◌≡◌, ◌≢◌, refl, Text, codes, text_eq, contains_char, ok, err, no_fuel,
}
use bywaf.VarStore.{VarStore, find_value, get}
use bywaf.Command.Shlex.{shlex_split}
use bywaf.Command.Variables.{
  Unicode, escape_double_quoted_value, first_defined, candidates_of, resolve_variable_reference,
  expand_variables_in_text,
}
use bywaf.Command.Variables.Escaping.{shlex_split-escape_double_quoted_value}
use bywaf.Command.Variables.Termination.{expand_variables_in_text-ne-no_fuel}
use bywaf.Command.Variables.Apostrophe.{expand_variables_in_text_apostrophe}
use bywaf.Command.Variables.Reference.{quoted_reference, shlex_split-quoted_reference}

abbrev ascii : Unicode
ascii = record { is_wide_alpha = λ c. false; is_wide_alnum = λ c. false }

abbrev session : VarStore
session = record { values = (codes "global.host", codes "a \"b\" \\c") ∷ [] }

expand_variables_in_text-ne-no_fuel_example :
    expand_variables_in_text ascii (codes "scan $host") session (codes "scan") ≢ err no_fuel
expand_variables_in_text-ne-no_fuel_example =
    expand_variables_in_text-ne-no_fuel ascii (codes "scan $host") session (codes "scan")

expand_variables_in_text_apostrophe_example :
    expand_variables_in_text ascii
      (b'"' ∷ codes "it" ++ b'\'' ∷ codes "s $host\"")
      session
      (codes "scan")
    ≡ ok (b'"' ∷ codes "it" ++ b'\'' ∷ codes "s $host\"", [])
unfolding contains_char
expand_variables_in_text_apostrophe_example =
    expand_variables_in_text_apostrophe ascii (codes "it") (codes "s $host\"") session
      (codes "scan") refl refl refl

shlex_split-escape_double_quoted_value_example :
    shlex_split (b'"' ∷ escape_double_quoted_value (codes "a \"b\" \\c") ++ b'"' ∷ [])
    ≡ ok (codes "a \"b\" \\c" ∷ [])
shlex_split-escape_double_quoted_value_example =
    shlex_split-escape_double_quoted_value (codes "a \"b\" \\c")

resolve_host :
    resolve_variable_reference session (codes "scan") (codes "host")
    ≡ ok (codes "a \"b\" \\c", codes "global.host")
unfolding resolve_variable_reference candidates_of first_defined get find_value text_eq
    contains_char
resolve_host = refl

shlex_split-quoted_reference_example :
    (out : Text) × (expand_variables_in_text ascii
        (quoted_reference (codes "host"))
        session
        (codes "scan")
      ≡ ok (out, codes "global.host" ∷ []))
    × (shlex_split out ≡ ok (codes "a \"b\" \\c" ∷ []))
unfolding contains_char
shlex_split-quoted_reference_example =
    shlex_split-quoted_reference ascii session (codes "scan") (codes "host") (codes "a \"b\" \\c")
      (codes "global.host") refl refl resolve_host
