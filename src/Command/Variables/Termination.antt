-- ===== src/Command/Variables/Termination.antt =====
-- The end of the loop of `expand_variables_in_text` of bywaf/command/parser/variables.py.
use bywaf.Prelude.{
  ℕ, zero, suc, ◌≤◌, ◌<◌, none, some, [], ◌∷◌, ◌≡◌, ◌≢◌, ◌∙◌, ap, arith, length, Text, partition,
  Result, ok, err, no_fuel, inl, inr, Result-cases,
}
use bywaf.VarStore.{VarStore}
use bywaf.Command.Variables.{
  Unicode, ExpansionScan, start_scan, take_name, parse_variable_reference,
  resolve_variable_reference, expand_reference, consume_variable_reference, consume_scan_char,
  expand_from, expand_variables_in_text,
}

partition-length : (c : ℕ) (t : Text) → length (partition c t).after ≤ length t
unfolding partition
partition-length c [] = omega arith
partition-length c (d ∷ t) = ground (arith, partition-length c t)

take_name-length : (u : Unicode) (t : Text) → length (take_name u t).1 ≤ length t
unfolding take_name
take_name-length u [] = omega arith
take_name-length u (d ∷ t) = ground (arith, take_name-length u t)

parse-length :
    (u : Unicode) (rest name after : Text)
    → parse_variable_reference u rest ≡ ok (some (name, after))
    → length after ≤ length rest
unfolding parse_variable_reference
parse-length u [] name after h = cc
parse-length u (c ∷ rest) name after h =
    ground (arith, partition-length b'}' rest, take_name-length u rest)

parse-ne-no_fuel : (u : Unicode) (rest : Text) → parse_variable_reference u rest ≢ err no_fuel
unfolding parse_variable_reference
parse-ne-no_fuel u [] h = cc
parse-ne-no_fuel u (c ∷ rest) h = ground arith

module _ (u : Unicode) (store : VarStore) (commandlet : Text) where
  -- A round that returns leaves no more text than there was behind its character; one that raises
  -- raises an exception of the source.
  abbrev Shrinks : Text → Result (Text × ExpansionScan) → Type 0
  Shrinks rest (ok r) = length r.0 ≤ length rest
  Shrinks rest (err e) = e ≢ no_fuel

  expand_reference-Shrinks :
      (name after rest : Text) (scan : ExpansionScan)
      → length after ≤ length rest
      → Shrinks rest (expand_reference u store commandlet name after scan)
  unfolding expand_reference resolve_variable_reference
  expand_reference-Shrinks name after rest scan h = ground arith

  reference-Shrinks :
      (c : ℕ) (rest : Text) (scan : ExpansionScan)
      → Shrinks rest (consume_variable_reference u store commandlet c rest scan)
  unfolding consume_variable_reference
  reference-Shrinks c rest scan = elim (Result-cases (parse_variable_reference u rest)) [
    | inr (bad, e) ↦ rw e (λ same. parse-ne-no_fuel u rest (e ∙ ap err same))
    | inl (none, e) ↦ rw e (omega arith)
    | inl (some (name, after), e) ↦
        rw e (expand_reference-Shrinks name after rest scan (parse-length u rest name after e))
  ]

  consume-Shrinks :
      (c : ℕ) (rest : Text) (scan : ExpansionScan)
      → Shrinks rest (consume_scan_char u store commandlet c rest scan)
  unfolding consume_scan_char
  consume-Shrinks c rest scan = ground (arith, reference-Shrinks c rest scan)

  expand_from-ne-no_fuel :
      (fuel : ℕ) (text : Text) (scan : ExpansionScan)
      → length text < fuel
      → expand_from u store commandlet fuel text scan ≢ err no_fuel
  unfolding expand_from
  expand_from-ne-no_fuel zero text scan lt h = absurd (omega arith)
  expand_from-ne-no_fuel (suc fuel) [] scan lt h = cc
  expand_from-ne-no_fuel (suc fuel) (c ∷ rest) scan lt h =
      let shrinks = consume-Shrinks c rest scan in
      elim (Result-cases (consume_scan_char u store commandlet c rest scan)) [
        | inr (bad, e) ↦ (rw e at shrinks) (cc (rw e at h))
        | inl (r, e) ↦
            let less : length r.0 ≤ length rest = rw e at shrinks in
            expand_from-ne-no_fuel fuel r.0 r.1 (omega arith) (rw e at h)
      ]

-- The expansion always ends, with a text or with an exception of the source.
pub expand_variables_in_text-ne-no_fuel :
    (u : Unicode) (text : Text) (store : VarStore) (commandlet : Text)
    → expand_variables_in_text u text store commandlet ≢ err no_fuel
unfolding expand_variables_in_text
expand_variables_in_text-ne-no_fuel u text store commandlet h =
    elim (Result-cases (expand_from u store commandlet (suc (length text)) text start_scan)) [
      | inl (scan, e) ↦ cc (rw e at h)
      | inr (bad, e) ↦
          let same : bad ≡ no_fuel = cc (rw e at h) in
          expand_from-ne-no_fuel u store commandlet (suc (length text)) text start_scan
            (omega arith) (e ∙ ap err same)
    ]
