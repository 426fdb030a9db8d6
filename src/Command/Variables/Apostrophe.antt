-- ===== src/Command/Variables/Apostrophe.antt =====
-- An apostrophe inside double quotes, in `expand_variables_in_text` of
-- bywaf/command/parser/variables.py.
use bywaf.Prelude.{
  ℕ, zero, suc, ◌+◌, ◌<◌, Bool, true, false, not, ◌&&◌, ◌||◌, ◌==◌, &&-true, some, [], ◌∷◌, ◌++◌,
  ◌≡◌, refl, subst, arith, length, length-append, append-nil, Text, contains_char, ok,
}
use bywaf.VarStore.{VarStore}
use bywaf.Command.Variables.{
  Unicode, ExpansionScan, start_scan, quoted_by, toggle_double_quote, begin_single_quote,
  expand_variables_in_text,
}
use bywaf.Command.Variables.Literal.{
  copy_char, Copies, Copies-single_quoted, Copies-end, Copies-first, expand-Copies,
}

-- The characters that the scan reads as they stand inside double quotes.
abbrev pub is_plain_quoted : Text → Bool
is_plain_quoted [] = true
is_plain_quoted (c ∷ t) =
    not (c == b'"' || c == b'\'' || c == b'\\' || c == b'$') && is_plain_quoted t

module _ (u : Unicode) (store : VarStore) (commandlet : Text) where
  double_quoted :
      (c : ℕ) (scan : ExpansionScan)
      → scan.quote ≡ some b'"'
      → scan.escaped ≡ false
      → not (c == b'"' || c == b'\'' || c == b'\\' || c == b'$') ≡ true
      → ((copy_char c scan).quote ≡ some b'"')
        × ((copy_char c scan).escaped ≡ false)
        × ((b'$' == c) ≡ false)
  unfolding copy_char quoted_by
  double_quoted c scan q e h = ground arith

  apostrophe :
      (scan : ExpansionScan)
      → scan.quote ≡ some b'"'
      → scan.escaped ≡ false
      → ((copy_char b'\'' scan).quote ≡ some b'\'') × ((copy_char b'\'' scan).escaped ≡ false)
  unfolding copy_char quoted_by begin_single_quote
  apostrophe scan q e = ground arith

  -- Inside double quotes, up to an apostrophe and behind it.
  Copies-apostrophe :
      (fuel : ℕ) (before text : Text) (scan : ExpansionScan)
      → suc (length before + length text) < fuel
      → scan.quote ≡ some b'"'
      → scan.escaped ≡ false
      → is_plain_quoted before ≡ true
      → contains_char b'\'' text ≡ false
      → contains_char b'\\' text ≡ false
      → Copies u store commandlet fuel (before ++ b'\'' ∷ text) scan
  Copies-apostrophe zero before text scan lt q e plain h k = absurd (omega arith)
  Copies-apostrophe (suc fuel) [] text scan lt q e plain h k =
      let (q', e') = apostrophe scan q e in
      let same : length {A = ℕ} [] + fuel ≡ fuel = omega arith in
      Copies-first u store commandlet fuel b'\'' text scan refl (
        subst (λ t. Copies u store commandlet fuel t (copy_char b'\'' scan)) (append-nil text)
          (subst (λ f. Copies u store commandlet f (text ++ []) (copy_char b'\'' scan)) same
            (Copies-single_quoted u store commandlet fuel text [] (copy_char b'\'' scan)
              (omega arith) q' e' h k (Copies-end u store commandlet))))
  Copies-apostrophe (suc fuel) (c ∷ before) text scan lt q e plain h k =
      let (here, later) =
        &&-true (not (c == b'"' || c == b'\'' || c == b'\\' || c == b'$')) (is_plain_quoted before)
          plain in
      let (q', e', no_dollar) = double_quoted c scan q e here in
      Copies-first u store commandlet fuel c (before ++ b'\'' ∷ text) scan no_dollar
        (Copies-apostrophe fuel before text (copy_char c scan) (omega arith) q' e' later h k)

-- A text that begins with a double quote, then plain characters (no quote, backslash or `$`) and an
-- apostrophe, is left as it is with no variable expanded, whatever `$` and double quotes stand behind
-- the apostrophe, if no other apostrophe and no backslash does.
pub expand_variables_in_text_apostrophe :
    (u : Unicode) (before text : Text) (store : VarStore) (commandlet : Text)
    → is_plain_quoted before ≡ true
    → contains_char b'\'' text ≡ false
    → contains_char b'\\' text ≡ false
    → expand_variables_in_text u (b'"' ∷ before ++ b'\'' ∷ text) store commandlet
      ≡ ok (b'"' ∷ before ++ b'\'' ∷ text, [])
expand_variables_in_text_apostrophe u before text store commandlet plain h k =
    expand-Copies u store commandlet (b'"' ∷ before ++ b'\'' ∷ text) (
      Copies-first u store commandlet (suc (length (before ++ b'\'' ∷ text))) b'"'
        (before ++ b'\'' ∷ text) start_scan refl
        (Copies-apostrophe u store commandlet (suc (length (before ++ b'\'' ∷ text))) before text
          (copy_char b'"' start_scan) (omega (arith, length-append before (b'\'' ∷ text)))
          (unfold copy_char toggle_double_quote quoted_by in refl)
          (unfold copy_char toggle_double_quote quoted_by in refl) plain h k))
