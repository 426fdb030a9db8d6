-- ===== src/EventFilter/Selector.antt =====
-- The text of a selector, and parse_selector_expression of bywaf/event/filters.py.
use bywaf.Prelude.{
  Bool, true, false, not, ◌&&◌, List, [], ◌∷◌, ◌++◌, all, map, is_empty, ◌≡◌, refl, sym, ◌∙◌, ap,
  arith, Text, text_eq, text_eq_iff, codes, contains_char, starts_with, is_space, lstrip, rstrip,
  strip, split_on, append-nil, append_assoc, ok,
}
use bywaf.EventFilter.Matching.{
  SelectorExpression, add_selector, collect_selectors, no_selector, parse_selector_expression,
}

abbrev pub bang : Text → Text
bang v = b'!' ∷ v

rstrip_idem : (s : Text) → rstrip (rstrip s) ≡ rstrip s
unfolding rstrip
rstrip_idem [] = refl
rstrip_idem (c ∷ s) = ground (arith, rstrip_idem s)

rstrip-of-strip : (v : Text) → strip v ≡ v → rstrip v ≡ v
unfolding strip
rstrip-of-strip v h = ap rstrip (sym h) ∙ rstrip_idem (lstrip v) ∙ h

pub strip-bang : (v : Text) → strip v ≡ v → strip (bang v) ≡ bang v
unfolding strip lstrip rstrip is_space
strip-bang v h = ground (arith, rstrip-of-strip v h)

-- The values between commas.
unfoldable pub join_commas : List Text → Text
join_commas [] = []
join_commas (v ∷ []) = v
join_commas (v ∷ w ∷ rest) = v ++ b',' ∷ join_commas (w ∷ rest)

split_on-alone : (v : Text) → contains_char b',' v ≡ false → split_on b',' v ≡ v ∷ []
unfolding split_on contains_char
split_on-alone [] h = refl
split_on-alone (c ∷ v) h = ground (arith, h, split_on-alone v)

split_on-append :
    (v s : Text)
    → contains_char b',' v ≡ false
    → split_on b',' (v ++ b',' ∷ s) ≡ v ∷ split_on b',' s
unfolding split_on contains_char
split_on-append [] s h = refl
split_on-append (c ∷ v) s h = ground (arith, h, split_on-append v s)

split_on-join_commas :
    (v : Text) (rest : List Text)
    → all (λ w. not (contains_char b',' w)) (v ∷ rest) ≡ true
    → split_on b',' (join_commas (v ∷ rest)) ≡ v ∷ rest
unfolding join_commas
split_on-join_commas v [] h = split_on-alone v (ground (arith, h))
split_on-join_commas v (w ∷ rest) h =
    split_on-append v (join_commas (w ∷ rest)) (ground (arith, h))
    ∙ ap (λ l. v ∷ l) (split_on-join_commas w rest (ground (arith, h)))

-- A value that a selector can name: not empty, without a comma, and without blanks at its ends.
abbrev pub is_clean : Text → Bool
is_clean v = text_eq (strip v) v && not (is_empty v) && not (contains_char b',' v)

-- One that is not read as an exclusion.
abbrev pub is_plain : Text → Bool
is_plain v = is_clean v && not (starts_with (codes "!") v)

-- The text of a selector.
abbrev pub selector_text : SelectorExpression → Text
selector_text s = join_commas (s.include ++ map bang s.exclude)

add_selector-plain :
    (v : Text) (s : SelectorExpression)
    → is_plain v ≡ true
    → add_selector v s ≡ ok (record s { include = s.include ++ v ∷ [] })
unfolding add_selector
add_selector-plain v s h = ground (arith, h, text_eq_iff (strip v) v)

pub add_selector-bang :
    (v : Text) (s : SelectorExpression)
    → strip v ≡ v
    → is_empty v ≡ false
    → add_selector (bang v) s ≡ ok (record s { exclude = s.exclude ++ v ∷ [] })
unfolding add_selector starts_with
add_selector-bang v s h full = ground (arith, strip-bang v h, h, full)

collect_selectors-plain :
    (vs rest : List Text) (s : SelectorExpression)
    → all is_plain vs ≡ true
    → collect_selectors (vs ++ rest) s
      ≡ collect_selectors rest (record s { include = s.include ++ vs })
unfolding collect_selectors
collect_selectors-plain [] rest s h = rw (append-nil s.include) refl
collect_selectors-plain (v ∷ vs) rest s h = ground (
  arith,
  h,
  add_selector-plain v s,
  collect_selectors-plain vs rest (record s { include = s.include ++ v ∷ [] }),
  append_assoc s.include (v ∷ []) vs,
)

collect_selectors-bang :
    (vs : List Text) (s : SelectorExpression)
    → all is_clean vs ≡ true
    → collect_selectors (map bang vs) s ≡ ok (record s { exclude = s.exclude ++ vs })
unfolding collect_selectors
collect_selectors-bang [] s h = rw (append-nil s.exclude) refl
collect_selectors-bang (v ∷ vs) s h = ground (
  arith,
  h,
  add_selector-bang v s,
  text_eq_iff (strip v) v,
  collect_selectors-bang vs (record s { exclude = s.exclude ++ v ∷ [] }),
  append_assoc s.exclude (v ∷ []) vs,
)

no_commas :
    (include exclude : List Text)
    → all is_plain include ≡ true
    → all is_clean exclude ≡ true
    → all (λ w. not (contains_char b',' w)) (include ++ map bang exclude) ≡ true
unfolding contains_char
no_commas [] [] h k = refl
no_commas [] (v ∷ exclude) h k = ground (arith, k, no_commas [] exclude refl)
no_commas (v ∷ include) exclude h k = ground (arith, h, no_commas include exclude)

split_on-selector_text :
    (values : List Text)
    → is_empty values ≡ false
    → all (λ w. not (contains_char b',' w)) values ≡ true
    → split_on b',' (join_commas values) ≡ values
split_on-selector_text [] h k = cc
split_on-selector_text (v ∷ rest) h k = split_on-join_commas v rest k

full_chunks :
    (s : SelectorExpression)
    → (is_empty s.include && is_empty s.exclude) ≡ false
    → is_empty (s.include ++ map bang s.exclude) ≡ false
full_chunks s h = by_values s.include s.exclude h
  where
    by_values :
        (include exclude : List Text)
        → (is_empty include && is_empty exclude) ≡ false
        → is_empty (include ++ map bang exclude) ≡ false
    by_values [] [] k = cc
    by_values [] (v ∷ exclude) k = refl
    by_values (v ∷ include) exclude k = refl

-- A selector is read back from its text, the included values and behind them the excluded ones with a
-- `!`, if it has a value and all of them are clean: not empty, without a comma and without blanks at
-- their ends, the included ones also without a `!` in front.
pub parse_selector_expression-selector_text :
    (s : SelectorExpression)
    → (is_empty s.include && is_empty s.exclude) ≡ false
    → all is_plain s.include ≡ true
    → all is_clean s.exclude ≡ true
    → parse_selector_expression (selector_text s) ≡ ok s
unfolding parse_selector_expression
parse_selector_expression-selector_text s full plain clean =
    rw
      (split_on-selector_text (s.include ++ map bang s.exclude) (full_chunks s full)
        (no_commas s.include s.exclude plain clean))
      (rw (collect_selectors-plain s.include (map bang s.exclude) no_selector plain) (
        rw (collect_selectors-bang s.exclude (record no_selector { include = s.include }) clean)
          (ground (arith, full))))
