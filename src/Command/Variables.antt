-- ===== src/Command/Variables.antt =====
-- bywaf/command/parser/variables.py. A position in the text is the text from there on; the pieces
-- that the scan appends to `output` are kept joined.
pub mod Escaping
pub mod Termination
pub mod Literal
pub mod Apostrophe
pub mod Reference
use bywaf.Prelude.{
  ℕ, zero, suc, ◌+◌, ◌-◌, ◌<◌, Bool, true, false, not, ◌&&◌, ◌||◌, ◌==◌, ltb, leb, if◌then◌else◌,
  Option, none, some, List, [], ◌∷◌, ◌++◌, length, is_empty, any, Text, codes, text_eq,
  unique_texts, contains_char, partition, Result, ok, err, ◌>>=◌, unterminated_reference,
  empty_reference, unknown_variable, no_fuel,
}
use bywaf.VarStore
use bywaf.VarStore.{VarStore}

-- Python's tables of the letters and of the letters and digits, beyond ASCII.
pub record Unicode : Type 0 where
  pub is_wide_alpha : ℕ → Bool
  pub is_wide_alnum : ℕ → Bool

abbrev pub is_ascii_letter : ℕ → Bool
is_ascii_letter c = (leb b'a' c && leb c b'z') || (leb b'A' c && leb c b'Z')

-- c.isalpha() or c == "_"
unfoldable pub starts_name : Unicode → ℕ → Bool
starts_name u c = (if ltb c 128 then is_ascii_letter c else u.is_wide_alpha c) || c == b'_'

-- c.isalnum() or c == "_"
unfoldable pub continues_name : Unicode → ℕ → Bool
continues_name u c =
    (if ltb c 128 then is_ascii_letter c || (leb b'0' c && leb c b'9') else u.is_wide_alnum c)
    || c == b'_'

pub record ExpansionScan : Type 0 where
  pub output : Text
  pub expanded : List Text
  pub quote : Option ℕ
  pub escaped : Bool

-- value.replace(c, replacement), for one character
unfoldable pub replace_char : ℕ → Text → Text → Text
replace_char c replacement [] = []
replace_char c replacement (d ∷ s) =
    let rest = replace_char c replacement s in if c == d then replacement ++ rest else d ∷ rest

unfoldable pub escape_double_quoted_value : Text → Text
escape_double_quoted_value value =
    replace_char b'"' (b'\\' ∷ b'"' ∷ []) (replace_char b'\\' (b'\\' ∷ b'\\' ∷ []) value)

-- The loop over the candidates: the first that has a value, with its name.
unfoldable pub first_defined : VarStore → List Text → Option (Text × Text)
first_defined store [] = none
first_defined store (candidate ∷ rest) = elim (VarStore.get store candidate) [
  | some value ↦ some (value, candidate)
  | none ↦ first_defined store rest
]

unfoldable pub candidates_of : Text → Text → List Text
candidates_of commandlet name =
    if not (contains_char b'/' name) && not (contains_char b'.' name)
    then name ∷ (commandlet ++ b'.' ∷ name) ∷ (codes "global." ++ name) ∷ []
    else name ∷ []

unfoldable pub resolve_variable_reference : VarStore → Text → Text → Result (Text × Text)
resolve_variable_reference store commandlet name =
    elim (first_defined store (candidates_of commandlet name)) [
      | some found ↦ ok found
      | none ↦ err (unknown_variable name)
    ]

-- The loop that extends a plain name, and the text behind it.
unfoldable pub take_name : Unicode → Text → Text × Text
take_name u [] = ([], [])
take_name u (c ∷ rest) =
    let more = take_name u rest in
    if continues_name u c then (c ∷ more.0, more.1) else ([], c ∷ rest)

-- What stands behind the `$`: the name and the text behind the reference.
unfoldable pub parse_variable_reference : Unicode → Text → Result (Option (Text × Text))
parse_variable_reference u [] = ok none
parse_variable_reference u (c ∷ rest) =
    if c == b'{'
    then (let braced = partition b'}' rest in
        if not braced.found
        then err unterminated_reference
        else if is_empty braced.before
        then err empty_reference
        else ok (some (braced.before, braced.after)))
    else if not (starts_name u c)
    then ok none
    else (let name = take_name u rest in ok (some (c ∷ name.0, name.1)))

abbrev pub append_output : ExpansionScan → Text → ExpansionScan
append_output scan s = record scan { output = scan.output ++ s }

unfoldable pub consume_escaped_char : ℕ → ExpansionScan → ExpansionScan
consume_escaped_char c scan = record (append_output scan (c ∷ [])) { escaped = false }

unfoldable pub begin_escape : ℕ → ExpansionScan → ExpansionScan
begin_escape c scan = record (append_output scan (c ∷ [])) { escaped = true }

unfoldable pub consume_single_quoted_char : ℕ → ExpansionScan → ExpansionScan
consume_single_quoted_char c scan = record (append_output scan (c ∷ [])) {
  quote = if c == b'\'' then none else scan.quote;
}

-- scan.quote == c
unfoldable pub quoted_by : ExpansionScan → ℕ → Bool
quoted_by scan c = elim scan.quote [ none ↦ false | some d ↦ d == c ]

unfoldable pub toggle_double_quote : ℕ → ExpansionScan → ExpansionScan
toggle_double_quote c scan = record (append_output scan (c ∷ [])) {
  quote = if quoted_by scan b'"' then none else some b'"';
}

unfoldable pub begin_single_quote : ℕ → ExpansionScan → ExpansionScan
begin_single_quote c scan = record (append_output scan (c ∷ [])) { quote = some b'\'' }

module _ (u : Unicode) (store : VarStore) (commandlet : Text) where
  unfoldable pub expand_reference : Text → Text → ExpansionScan → Result (Text × ExpansionScan)
  expand_reference name after scan = do
    found ← resolve_variable_reference store commandlet name
    let replacement = if quoted_by scan b'"' then escape_double_quoted_value found.0 else found.0
    ok (
      after,
      record scan { output = scan.output ++ replacement; expanded = scan.expanded ++ found.1 ∷ [] },
    )

  -- At a `$`, with the text behind it.
  unfoldable pub consume_variable_reference :
      ℕ → Text → ExpansionScan → Result (Text × ExpansionScan)
  consume_variable_reference c rest scan = parse_variable_reference u rest >>= elim [
    | none ↦ ok (rest, append_output scan (c ∷ []))
    | some (name, after) ↦ expand_reference name after scan
  ]

  unfoldable pub consume_scan_char : ℕ → Text → ExpansionScan → Result (Text × ExpansionScan)
  consume_scan_char c rest scan =
      if scan.escaped
      then ok (rest, consume_escaped_char c scan)
      else if c == b'\\'
      then ok (rest, begin_escape c scan)
      else if quoted_by scan b'\''
      then ok (rest, consume_single_quoted_char c scan)
      else if c == b'"'
      then ok (rest, toggle_double_quote c scan)
      else if c == b'\''
      then ok (rest, begin_single_quote c scan)
      else if c == b'$'
      then consume_variable_reference c rest scan
      else ok (rest, append_output scan (c ∷ []))

  -- The `while` loop, one round for each unit of fuel.
  unfoldable pub expand_from : ℕ → Text → ExpansionScan → Result ExpansionScan
  expand_from zero text scan = err no_fuel
  expand_from (suc fuel) [] scan = ok scan
  expand_from (suc fuel) (c ∷ rest) scan =
      consume_scan_char c rest scan >>= λ r. expand_from fuel r.0 r.1

abbrev pub start_scan : ExpansionScan
start_scan = record { output = []; expanded = []; quote = none; escaped = false }

unfoldable pub expand_variables_in_text :
    Unicode → Text → VarStore → Text → Result (Text × List Text)
expand_variables_in_text u text store commandlet = do
  scan ← expand_from u store commandlet (suc (length text)) text start_scan
  ok (scan.output, unique_texts scan.expanded)
