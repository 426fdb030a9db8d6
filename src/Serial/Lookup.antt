-- ===== src/Serial/Lookup.antt =====
-- resolve_serial_match of bywaf/db/support.py.
use bywaf.Prelude.{
  Bool, true, false, ◌&&◌, Option, none, some, List, [], ◌∷◌, keep, ◌≡◌, refl, sym, ◌∙◌, arith,
  Text, text_eq, text_eq_iff, text_eq_refl, mem_text, mem_text-sorted_set, sorted_set, distinct,
  distinct-sorted_set, Result, ok, err,
}
use bywaf.Serial.{WideUpper, serial_matches, only_match, resolve_serial_match}

mem_text-keep :
    (p : Text → Bool) (k : Text) (l : List Text) → mem_text k (keep p l) ≡ (mem_text k l && p k)
unfolding mem_text
mem_text-keep p k [] = refl
mem_text-keep p k (x ∷ l) = ground (arith, mem_text-keep p k l, text_eq_iff k x)

mem_text-matches :
    (wide : WideUpper) (query w : Text) (values : List Text)
    → mem_text w (sorted_set (keep (λ value. serial_matches wide value query) values))
      ≡ (mem_text w values && serial_matches wide w query)
mem_text-matches wide query w values =
    mem_text-sorted_set w (keep (λ value. serial_matches wide value query) values)
    ∙ mem_text-keep (λ value. serial_matches wide value query) w values

module _ (wide : WideUpper) (query : Text) where
  -- A known serial that the query matches.
  abbrev pub is_match : List Text → Text → Bool
  is_match values w = mem_text w values && serial_matches wide w query

  -- What a result says of the matches among the serials.
  abbrev pub Resolves : List Text → Result (Option Text) → Type 0
  Resolves values (ok none) = (w : Text) → is_match values w ≡ false
  Resolves values (ok (some found)) = (w : Text) → is_match values w ≡ text_eq w found
  Resolves values (err e) =
      (a : Text) × (b : Text) × (is_match values a ≡ true)
      × (is_match values b ≡ true)
      × (text_eq a b ≡ false)

  only_match-Resolves :
      (values matches : List Text)
      → ((w : Text) → mem_text w matches ≡ is_match values w)
      → distinct matches ≡ true
      → Resolves values (only_match wide query matches)
  unfolding only_match mem_text distinct
  only_match-Resolves values [] same d = λ w. sym (same w)
  only_match-Resolves values (x ∷ []) same d = λ w. ground (arith, same w)
  only_match-Resolves values (x ∷ y ∷ l) same d = (
    x,
    y,
    ground (arith, same x, text_eq_refl x),
    ground (arith, same y, text_eq_refl y),
    ground (arith, d),
  )

-- Of the known serials that the query matches, the only one is the result; there is no result
-- exactly if there is none, and the lookup is refused only if there are two.
pub resolve_serial_match_lem :
    (wide : WideUpper) (query : Text) (values : List Text)
    → Resolves wide query values (resolve_serial_match wide query values)
unfolding resolve_serial_match
resolve_serial_match_lem wide query values =
    only_match-Resolves wide query values
      (sorted_set (keep (λ value. serial_matches wide value query) values))
      (λ w. mem_text-matches wide query w values)
      (distinct-sorted_set (keep (λ value. serial_matches wide value query) values))
