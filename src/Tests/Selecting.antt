-- ===== src/Tests/Selecting.antt =====
-- bywaf/command/parser/selectors.py at concrete arguments.
use bywaf.Prelude.{
  true, false, some, List, [], ◌∷◌, ◌≡◌, ◌≢◌, refl, any, Text, codes, text_eq, partition, ok, err,
  no_fuel,
}
use bywaf.Command.Selectors.{
  Selectors, default_context_selectors, assign, context_selector_key, context_selector_assignment,
  require_replay_source, peel_from_group, apply_bool_selector, peel_from, peel_context_selectors,
  peel_background_marker,
}
use bywaf.Command.Selectors.Context.{
  is_framework_token, narrows_source, peel_context_selectors-IsClean,
}
use bywaf.Command.Selectors.Loop.{peel_context_selectors-ne-no_fuel}

selector_defs : Unit {0}
unfolding text_eq partition assign context_selector_key context_selector_assignment
    require_replay_source peel_from_group apply_bool_selector peel_from peel_context_selectors
    peel_background_marker
selector_defs = tt

abbrev replay : List Text
replay =
    codes "--from" ∷ codes "step=4" ∷ codes "topic=host.found" ∷ codes "--yes" ∷ codes "80" ∷ []

abbrev replay_selectors : Selectors
replay_selectors = record default_context_selectors {
  step = some (codes "4");
  topic = some (codes "host.found");
  approved = codes "true";
}

peel_replay : peel_context_selectors replay ≡ ok (codes "80" ∷ [], replay_selectors)
unfolding selector_defs
peel_replay = refl

-- A quoted `&` reaches the parser's test without its quotes.
peel_joined_ampersand :
    peel_background_marker (codes "scan" ∷ codes "x&" ∷ []) ≡ (codes "scan" ∷ codes "x" ∷ [], true)
unfolding selector_defs
peel_joined_ampersand = refl

peel_context_selectors-IsClean_example :
    (any is_framework_token (codes "80" ∷ []) ≡ false) × (narrows_source replay_selectors ≡ true)
peel_context_selectors-IsClean_example =
    peel_context_selectors-IsClean replay (codes "80" ∷ []) replay_selectors peel_replay

peel_context_selectors-ne-no_fuel_example : peel_context_selectors replay ≢ err no_fuel
peel_context_selectors-ne-no_fuel_example = peel_context_selectors-ne-no_fuel replay

abbrev tested : List Text
tested = codes "a" ∷ codes "--test" ∷ codes "b" ∷ []
