-- ===== src/EventFilter/Excluded.antt =====
-- What the exclusions of a filter keep out: event_matches_payload_filters of bywaf/event/filters.py.
use bywaf.Prelude.{
  ℕ, Bool, true, false, ◌&&◌, ◌||◌, Option, List, [], ◌∷◌, ◌++◌, any, keep, is_empty, ◌≡◌, ◌≢◌,
  refl, sym, ◌∙◌, ap, drop, subst, arith, Text, text_eq, text_eq_iff, text_eq_refl, mem_text,
  mem_text-append, strip, split_on, ok, >>=-eq-ok, inl, inr, Bool-cases,
}
use bywaf.EventFilter.Payload.{Json, is_value, payload_filter_values}
use bywaf.EventFilter.Matching.{
  SelectorExpression, add_selector, collect_selectors, no_selector, parse_selector_expression,
  selector_value_matches, any_matches, selector_matches_texts,
}
use bywaf.EventFilter.{
  Event, Filters, texts_of, selector_matches_values, event_matches_payload_filters,
}
use bywaf.EventFilter.Selector.{bang, add_selector-bang}

add_selector_mono :
    (raw v : Text) (s t : SelectorExpression)
    → add_selector raw s ≡ ok t
    → mem_text v s.exclude ≡ true
    → mem_text v t.exclude ≡ true
unfolding add_selector
add_selector_mono raw v s t h m =
    ground (arith, h, m, mem_text-append v s.exclude (strip (drop 1 (strip raw)) ∷ []))

collect_selectors_mono :
    (chunks : List Text) (v : Text) (s t : SelectorExpression)
    → collect_selectors chunks s ≡ ok t
    → mem_text v s.exclude ≡ true
    → mem_text v t.exclude ≡ true
unfolding collect_selectors
collect_selectors_mono [] v s t h m = ground (arith, h, m)
collect_selectors_mono (raw ∷ rest) v s t h m =
    let (u, added, k) = >>=-eq-ok (add_selector raw s) (collect_selectors rest) h in
    collect_selectors_mono rest v u t k (add_selector_mono raw v s u added m)

collect_selectors-excluded :
    (chunks : List Text) (v : Text) (s t : SelectorExpression)
    → strip v ≡ v
    → is_empty v ≡ false
    → mem_text (bang v) chunks ≡ true
    → collect_selectors chunks s ≡ ok t
    → mem_text v t.exclude ≡ true
unfolding collect_selectors mem_text
collect_selectors-excluded [] v s t stripped full m h = cc
collect_selectors-excluded (raw ∷ rest) v s t stripped full m h =
    let (u, added, k) = >>=-eq-ok (add_selector raw s) (collect_selectors rest) h in
    elim (Bool-cases (text_eq (bang v) raw)) [
      | inl same ↦
          let e : bang v ≡ raw = (text_eq_iff (bang v) raw).0 same in
          let put : ok u ≡ ok (record s { exclude = s.exclude ++ v ∷ [] }) =
            sym added ∙ ap (λ r. add_selector r s) (sym e) ∙ add_selector-bang v s stripped full in
          collect_selectors_mono rest v u t k
            (ground (arith, put, mem_text-append v s.exclude (v ∷ []), text_eq_refl v))
      | inr other ↦ collect_selectors-excluded rest v u t stripped full (ground (arith, m, other)) k
    ]

parse_selector_expression-excluded :
    (raw v : Text) (t : SelectorExpression)
    → strip v ≡ v
    → is_empty v ≡ false
    → mem_text (bang v) (split_on b',' raw) ≡ true
    → parse_selector_expression raw ≡ ok t
    → mem_text v t.exclude ≡ true
unfolding parse_selector_expression
parse_selector_expression-excluded raw v t stripped full m h =
    let (u, collected, k) = >>=-eq-ok (collect_selectors (split_on b',' raw) no_selector) _ h in
    let same : u ≡ t = ground (arith, k) in
    subst (λ s. mem_text v s.exclude ≡ true) same
      (collect_selectors-excluded (split_on b',' raw) v no_selector u stripped full m collected)

keep_idem : (values : List Json) → keep is_value (keep is_value values) ≡ keep is_value values
keep_idem [] = refl
keep_idem (v ∷ rest) = ground (arith, keep_idem rest)

module _ (wide : ℕ → Option ℕ) (in_network : Text → Text → Bool) (value_str : Json → Text) where
  any-value :
      (value : Text) (patterns : List Text)
      → mem_text value patterns ≡ true
      → any (selector_value_matches wide in_network value) patterns ≡ true
  unfolding mem_text selector_value_matches
  any-value value [] m = cc
  any-value value (p ∷ patterns) m = ground (arith, m, any-value value patterns)

  any_matches-both :
      (v : Text) (values patterns : List Text)
      → mem_text v values ≡ true
      → mem_text v patterns ≡ true
      → any_matches wide in_network values patterns ≡ true
  unfolding any_matches mem_text
  any_matches-both v [] patterns m k = cc
  any_matches-both v (w ∷ values) patterns m k =
      ground
        (arith, m, k, any_matches-both v values patterns, any-value v patterns k, text_eq_iff v w)

  selector-excluded :
      (selector : SelectorExpression) (v : Text) (texts : List Text)
      → mem_text v texts ≡ true
      → mem_text v selector.exclude ≡ true
      → selector_matches_texts wide in_network selector texts ≡ false
  unfolding selector_matches_texts
  selector-excluded selector v texts m k =
      ground (arith, any_matches-both v texts selector.exclude m k)

  -- The filter is one of the filters.
  abbrev pub has_filter : Text → Text → Filters → Bool
  has_filter key raw [] = false
  has_filter key raw ((k, r) ∷ rest) = (text_eq key k && text_eq raw r) || has_filter key raw rest

  -- The texts of an event's values under a key.
  abbrev pub event_texts : Event → Text → List Text
  event_texts event key =
      texts_of wide in_network value_str (payload_filter_values event.payload key)

  values-excluded :
      (event : Event) (key v : Text) (selector : SelectorExpression)
      → mem_text v (event_texts event key) ≡ true
      → mem_text v selector.exclude ≡ true
      → selector_matches_values wide in_network value_str selector
          (payload_filter_values event.payload key)
        ≡ false
  unfolding selector_matches_values payload_filter_values
  values-excluded event key v selector m k =
      rw keep_idem (selector-excluded selector v (event_texts event key) m k)

-- An exclusion keeps out every event that has the excluded value: if one of the filters has `!v` among
-- its values, for a text v that is not empty and has no blanks at its ends, and the event has the text v
-- under that filter's key, then whatever the other values and filters are, the answer is not that the
-- event matches (it is no, or the exception of a filter that does not parse).
pub event_matches_payload_filters-excluded :
    (wide : ℕ → Option ℕ) (in_network : Text → Text → Bool) (value_str : Json → Text)
    (event : Event) (filters : Filters) (key raw v : Text)
    → has_filter wide in_network value_str key raw filters ≡ true
    → strip v ≡ v
    → is_empty v ≡ false
    → mem_text (bang v) (split_on b',' raw) ≡ true
    → mem_text v (event_texts wide in_network value_str event key) ≡ true
    → event_matches_payload_filters wide in_network value_str event filters ≢ ok true
unfolding event_matches_payload_filters
event_matches_payload_filters-excluded wide in_network value_str event [] key raw v f stripped full
      m t h =
    cc
event_matches_payload_filters-excluded wide in_network value_str event ((k, r) ∷ rest) key raw v f
      stripped full m t h =
    let (selector, parsed, e) = >>=-eq-ok (parse_selector_expression r) _ h in
    elim (Bool-cases (text_eq key k && text_eq raw r)) [
      | inl here ↦
          let same_key : key ≡ k = ground (arith, here, text_eq_iff key k) in
          let same_raw : raw ≡ r = ground (arith, here, text_eq_iff raw r) in
          let excluded =
            parse_selector_expression-excluded raw v selector stripped full m
              (ap parse_selector_expression same_raw ∙ parsed) in
          let no =
            subst
              (λ q.
                selector_matches_values wide in_network value_str selector
                  (payload_filter_values event.payload q)
                ≡ false)
              same_key
              (values-excluded wide in_network value_str event key v selector t excluded) in
          ground (arith, e, no)
      | inr elsewhere ↦
          event_matches_payload_filters-excluded wide in_network value_str event rest key raw v
            (ground (arith, f, elsewhere)) stripped full m t (ground (arith, e))
    ]
