-- ===== src/Command/Variables/Literal.antt =====
-- What `expand_variables_in_text` of bywaf/command/parser/variables.py leaves as it is.
use bywaf.Prelude.{
  ℕ, zero, suc, ◌+◌, ◌<◌, false, ◌||◌, ◌==◌, if◌then◌else◌, some, [], ◌∷◌, ◌++◌, ◌≡◌, refl, ◌∙◌,
  subst, arith, length, length-append, append_assoc, append-nil, Text, contains_char, ok, ||-false,
  unique_texts,
}
use native.Mathlib.Nat.{add-suc}
use bywaf.VarStore.{VarStore}
use bywaf.Command.Variables.{
  Unicode, ExpansionScan, start_scan, append_output, quoted_by, consume_escaped_char, begin_escape,
  consume_single_quoted_char, toggle_double_quote, begin_single_quote, consume_scan_char,
  expand_from, expand_variables_in_text,
}

-- What a round does to the scan at a character that begins no reference.
unfoldable pub copy_char : ℕ → ExpansionScan → ExpansionScan
copy_char c scan =
    if scan.escaped
    then consume_escaped_char c scan
    else if c == b'\\'
    then begin_escape c scan
    else if quoted_by scan b'\''
    then consume_single_quoted_char c scan
    else if c == b'"'
    then toggle_double_quote c scan
    else if c == b'\''
    then begin_single_quote c scan
    else append_output scan (c ∷ [])

copy_char-output :
    (c : ℕ) (scan : ExpansionScan)
    → ((copy_char c scan).output ≡ scan.output ++ c ∷ [])
      × ((copy_char c scan).expanded ≡ scan.expanded)
unfolding copy_char consume_escaped_char begin_escape consume_single_quoted_char toggle_double_quote
    begin_single_quote
copy_char-output c scan = ground arith

module _ (u : Unicode) (store : VarStore) (commandlet : Text) where
  -- `scan` ends with the text `t` copied behind its output, and no variable expanded.
  pub record Copies (fuel : ℕ) (t : Text) (scan : ExpansionScan) : Type 0 where
    pub after : ExpansionScan
    pub runs : expand_from u store commandlet fuel t scan ≡ ok after
    pub output : after.output ≡ scan.output ++ t
    pub expanded : after.expanded ≡ scan.expanded

  consume-copy_char :
      (c : ℕ) (rest : Text) (scan : ExpansionScan)
      → (b'$' == c) ≡ false
      → consume_scan_char u store commandlet c rest scan ≡ ok (rest, copy_char c scan)
  unfolding consume_scan_char copy_char
  consume-copy_char c rest scan h = ground arith

  Copies-nil : (fuel : ℕ) (scan : ExpansionScan) → Copies (suc fuel) [] scan
  unfolding expand_from
  Copies-nil fuel scan = record {
    after = scan;
    runs = refl;
    output = rw append-nil;
    expanded = refl;
  }

  Copies-cons :
      (fuel c : ℕ) (rest : Text) (scan next : ExpansionScan)
      → consume_scan_char u store commandlet c rest scan ≡ ok (rest, next)
      → (next.output ≡ scan.output ++ c ∷ []) × (next.expanded ≡ scan.expanded)
      → Copies fuel rest next
      → Copies (suc fuel) (c ∷ rest) scan
  unfolding expand_from
  Copies-cons fuel c rest scan next e same run = record {
    after = run.after;
    runs = rw (e, expand_from) run.runs;
    output = run.output ∙ rw (same.0, append_assoc);
    expanded = run.expanded ∙ same.1;
  }

  Copies-no_dollar :
      (fuel : ℕ) (t : Text) (scan : ExpansionScan)
      → length t < fuel
      → contains_char b'$' t ≡ false
      → Copies fuel t scan
  unfolding contains_char
  Copies-no_dollar zero t scan lt h = absurd (omega arith)
  Copies-no_dollar (suc fuel) [] scan lt h = Copies-nil fuel scan
  Copies-no_dollar (suc fuel) (c ∷ rest) scan lt h =
      let (plain, h') = ||-false (b'$' == c) (contains_char b'$' rest) h in
      Copies-cons fuel c rest scan (copy_char c scan) (consume-copy_char c rest scan plain)
        (copy_char-output c scan) (Copies-no_dollar fuel rest (copy_char c scan) (omega arith) h')

  -- Inside single quotes, up to the closing quote or a backslash.
  single_quoted :
      (c : ℕ) (rest : Text) (scan : ExpansionScan)
      → scan.quote ≡ some b'\''
      → scan.escaped ≡ false
      → ((b'\'' == c) || (b'\\' == c)) ≡ false
      → consume_scan_char u store commandlet c rest scan ≡ ok (rest, append_output scan (c ∷ []))
  unfolding consume_scan_char consume_single_quoted_char quoted_by
  single_quoted c rest scan q e h = ground arith

  -- The text `t` in single quotes, with what the closing quote brings.
  pub Copies-single_quoted :
      (fuel : ℕ) (t tail : Text) (scan : ExpansionScan)
      → length t < fuel
      → scan.quote ≡ some b'\''
      → scan.escaped ≡ false
      → contains_char b'\'' t ≡ false
      → contains_char b'\\' t ≡ false
      → ((s : ExpansionScan) (f : ℕ)
          → s.quote ≡ some b'\''
          → s.escaped ≡ false
          → Copies (length tail + suc f) tail s)
      → Copies (length tail + fuel) (t ++ tail) scan
  unfolding contains_char
  Copies-single_quoted zero t tail scan lt q e h k end = absurd (omega arith)
  Copies-single_quoted (suc fuel) [] tail scan lt q e h k end = end scan fuel q e
  Copies-single_quoted (suc fuel) (c ∷ rest) tail scan lt q e h k end =
      let (h0, h') = ||-false (b'\'' == c) (contains_char b'\'' rest) h in
      let (k0, k') = ||-false (b'\\' == c) (contains_char b'\\' rest) k in
      rw add-suc (
        Copies-cons (length tail + fuel) c (rest ++ tail) scan (append_output scan (c ∷ []))
          (single_quoted c (rest ++ tail) scan q e (rw (h0, k0))) (refl, refl)
          (Copies-single_quoted fuel rest tail (append_output scan (c ∷ [])) (omega arith) q e h' k'
            end))

  Copies-close :
      (s : ExpansionScan) (f : ℕ)
      → s.quote ≡ some b'\''
      → s.escaped ≡ false
      → Copies (1 + suc f) (b'\'' ∷ []) s
  Copies-close s f q e =
      let two : 1 + suc f ≡ suc (suc f) = omega arith in
      rw two (
        Copies-cons (suc f) b'\'' [] s (copy_char b'\'' s) (consume-copy_char b'\'' [] s refl)
          (copy_char-output b'\'' s) (Copies-nil f (copy_char b'\'' s)))

module _ (u : Unicode) (store : VarStore) (commandlet : Text) where
  pub Copies-end :
      (s : ExpansionScan) (f : ℕ)
      → s.quote ≡ some b'\''
      → s.escaped ≡ false
      → Copies u store commandlet (0 + suc f) [] s
  Copies-end s f q e =
      let one : 0 + suc f ≡ suc f = omega arith in rw one (Copies-nil u store commandlet f s)

  -- A first character that begins no reference, in front of text that is copied.
  pub Copies-first :
      (fuel c : ℕ) (rest : Text) (scan : ExpansionScan)
      → (b'$' == c) ≡ false
      → Copies u store commandlet fuel rest (copy_char c scan)
      → Copies u store commandlet (suc fuel) (c ∷ rest) scan
  Copies-first fuel c rest scan plain =
      Copies-cons u store commandlet fuel c rest scan (copy_char c scan)
        (consume-copy_char u store commandlet c rest scan plain) (copy_char-output c scan)

  pub expand-Copies :
      (text : Text)
      → Copies u store commandlet (suc (length text)) text start_scan
      → expand_variables_in_text u text store commandlet ≡ ok (text, [])
  unfolding expand_variables_in_text unique_texts
  expand-Copies text run = rw (run.runs, run.output, run.expanded)

-- A text without `$` is left as it is, whatever its quotes and escapes, and no variable is
-- recorded as expanded.
pub expand_variables_in_text_no_dollar :
    (u : Unicode) (text : Text) (store : VarStore) (commandlet : Text)
    → contains_char b'$' text ≡ false
    → expand_variables_in_text u text store commandlet ≡ ok (text, [])
expand_variables_in_text_no_dollar u text store commandlet h =
    expand-Copies u store commandlet text
      (Copies-no_dollar u store commandlet (suc (length text)) text start_scan (omega arith) h)

-- Text in single quotes is left as it is, `$` and all, and no variable is recorded as expanded, if
-- it holds no single quote and no backslash.
pub expand_variables_in_text_single_quoted :
    (u : Unicode) (text : Text) (store : VarStore) (commandlet : Text)
    → contains_char b'\'' text ≡ false
    → contains_char b'\\' text ≡ false
    → expand_variables_in_text u (b'\'' ∷ text ++ b'\'' ∷ []) store commandlet
      ≡ ok (b'\'' ∷ text ++ b'\'' ∷ [], [])
unfolding copy_char begin_single_quote quoted_by
expand_variables_in_text_single_quoted u text store commandlet h k =
    let fuel : 1 + suc (length text) ≡ suc (length (text ++ b'\'' ∷ [])) =
      rw (length-append {A = ℕ} text) (omega arith) in
    expand-Copies u store commandlet (b'\'' ∷ text ++ b'\'' ∷ []) (
      Copies-first u store commandlet (suc (length (text ++ b'\'' ∷ []))) b'\'' (text ++ b'\'' ∷ [])
        start_scan refl
        (subst (λ f. Copies u store commandlet f (text ++ b'\'' ∷ []) (copy_char b'\'' start_scan))
          fuel
          (Copies-single_quoted u store commandlet (suc (length text)) text (b'\'' ∷ [])
            (copy_char b'\'' start_scan) (omega arith) refl refl h k
            (Copies-close u store commandlet))))
