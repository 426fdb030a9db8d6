-- ===== src/Command/Selectors.antt =====
-- bywaf/command/parser/selectors.py
pub mod Context
pub mod Loop
use bywaf.Prelude.{
  ℕ, zero, suc, ◌+◌, ◌-◌, Bool, true, false, not, ◌&&◌, ◌||◌, ◌==◌, if◌then◌else◌, Option, none,
  some, is_some, List, [], ◌∷◌, ◌++◌, take, drop, length, is_empty, last?, init, any, Text, codes,
  text_eq, mem_text, starts_with, partition, rstrip, Result, ok, err, ◌>>=◌, ◌>>◌, requires_value,
  from_requires_source, topic_only_narrows, from_key_requires_value, no_fuel,
}
use bywaf.Command.Quoting.{Quoting, outside, reaches, next_quoting}
use bywaf.Command.PipelineSyntax.{is_space_at, normalize_final_text}

-- COMMANDLET_TEXT_SELECTORS
abbrev pub commandlet_text_selectors : List (Text × List Text)
commandlet_text_selectors =
    (codes "artifact", codes "name" ∷ codes "note" ∷ [])
    ∷ (codes "bundle", codes "name" ∷ [])
    ∷ (codes "key", codes "name" ∷ [])
    ∷ (codes "report", codes "name" ∷ codes "note" ∷ [])
    ∷ (codes "search", codes "name" ∷ codes "note" ∷ [])
    ∷ []

-- table.get(commandlet, frozenset())
unfoldable pub selectors_of : List (Text × List Text) → Text → List Text
selectors_of [] commandlet = []
selectors_of ((name, keys) ∷ rest) commandlet =
    if text_eq name commandlet then keys else selectors_of rest commandlet

unfoldable pub commandlet_owns_text_selector : Option Text → Text → Bool
commandlet_owns_text_selector none key = false
commandlet_owns_text_selector (some commandlet) key =
    mem_text key (selectors_of commandlet_text_selectors commandlet)

-- The source reads `tokens[-1]`; its caller tests that there is a token.
unfoldable pub peel_background_marker : List Text → List Text × Bool
peel_background_marker tokens = elim (last? tokens) [
  | none ↦ (tokens, false)
  | some last ↦ if text_eq last (codes "&") then (init tokens, true) else elim (last? last) [
    | none ↦ (tokens, false)
    | some c ↦
        if c == b'&'
        then if not (is_empty (init last))
          then (init tokens ++ init last ∷ [], true)
          else (init tokens, true)
        else (tokens, false)
  ]
]

-- The loop of `find_unquoted_text_selector`, over the characters from `index` on.
unfoldable pub find_selector_from : Text → Text → Text → ℕ → Quoting → Option ℕ
find_selector_from text needle [] index q = none
find_selector_from text needle (c ∷ rest) index q =
    let later = find_selector_from text needle rest (index + 1) (next_quoting q c) in
    if not (reaches q c)
    then later
    else if starts_with needle (c ∷ rest) && (index == 0 || is_space_at text (index - 1))
    then some index
    else later

unfoldable pub find_unquoted_text_selector : Text → Text → Option ℕ
find_unquoted_text_selector text key = find_selector_from text (key ++ b'=' ∷ []) text 0 outside

unfoldable pub peel_final_text_selector : Text → Text → Result (Text × Option Text)
peel_final_text_selector text key = elim (find_unquoted_text_selector text key) [
  | none ↦ ok (text, none)
  | some index ↦
      let value = normalize_final_text (drop (index + length key + 1) text) in
      if is_empty value then err (requires_value key) else ok (rstrip (take index text), some value)
]

-- The keys of the dictionary of selectors that a `--from` group assigns.
pub data SelectorKey : Type 0 where
  from_step from_pipeline from_job from_topic : SelectorKey

pub record Selectors : Type 0 where
  pub step : Option Text
  pub pipeline : Option Text
  pub job : Option Text
  pub topic : Option Text
  pub plan_only : Text
  pub approved : Text

abbrev pub default_context_selectors : Selectors
default_context_selectors = record {
  step = none;
  pipeline = none;
  job = none;
  topic = none;
  plan_only = codes "false";
  approved = codes "false";
}

-- selectors[key] = value
unfoldable pub assign : SelectorKey → Text → Selectors → Selectors
assign from_step value s = record s { step = some value }
assign from_pipeline value s = record s { pipeline = some value }
assign from_job value s = record s { job = some value }
assign from_topic value s = record s { topic = some value }

-- CONTEXT_SELECTOR_KEYS.get(key)
unfoldable pub context_selector_key : Text → Option SelectorKey
context_selector_key key =
    if text_eq key (codes "pipeline")
    then some from_pipeline
    else if text_eq key (codes "job")
    then some from_job
    else if text_eq key (codes "step")
    then some from_step
    else if text_eq key (codes "topic")
    then some from_topic
    else none

unfoldable pub context_selector_assignment : Text → Result (Option (SelectorKey × Text))
context_selector_assignment token =
    let parts = partition b'=' token in
    if not parts.found then ok none else elim (context_selector_key parts.before) [
      | none ↦ ok none
      | some selector ↦
          if is_empty parts.after
          then err (from_key_requires_value parts.before)
          else ok (some (selector, parts.after))
    ]

abbrev is_source : SelectorKey → Bool
is_source from_topic = false
is_source _ = true

unfoldable pub require_replay_source : List SelectorKey → Result (Unit {0})
require_replay_source seen =
    if is_empty seen
    then err from_requires_source
    else if any is_source seen
    then ok tt
    else err topic_only_narrows

-- `start` and the returned index are the arguments from there on.
unfoldable pub peel_from_group :
    List Text → Selectors → List SelectorKey → Result (List Text × Selectors)
peel_from_group [] selectors seen = do require_replay_source seen; ok ([], selectors)
peel_from_group (token ∷ rest) selectors seen = context_selector_assignment token >>= elim [
  | none ↦ (do require_replay_source seen; ok (token ∷ rest, selectors))
  | some (key, value) ↦ peel_from_group rest (assign key value selectors) (key ∷ seen)
]

-- The selectors after a flag, and `none` for a token that is no flag.
unfoldable pub apply_bool_selector : Text → Selectors → Option Selectors
apply_bool_selector token selectors =
    if text_eq token (codes "--test")
    then some (record selectors { plan_only = codes "true" })
    else if text_eq token (codes "--yes")
    then some (record selectors { approved = codes "true" })
    else none

-- The loop of `peel_context_selectors`, over the arguments from `index` on. Each round reads at
-- least one, so fuel beyond their number is enough.
unfoldable pub peel_from : ℕ → List Text → List Text → Selectors → Result (List Text × Selectors)
peel_from zero args cleaned selectors = err no_fuel
peel_from (suc fuel) [] cleaned selectors = ok (cleaned, selectors)
peel_from (suc fuel) (token ∷ rest) cleaned selectors = elim (text_eq token (codes "--from")) [
  | true ↦ peel_from_group rest selectors [] >>= λ r. peel_from fuel r.0 cleaned r.1
  | false ↦ elim (apply_bool_selector token selectors) [
    | some s ↦ peel_from fuel rest cleaned s
    | none ↦ peel_from fuel rest (cleaned ++ token ∷ []) selectors
  ]
]

unfoldable pub peel_context_selectors : List Text → Result (List Text × Selectors)
peel_context_selectors args = peel_from (suc (length args)) args [] default_context_selectors
