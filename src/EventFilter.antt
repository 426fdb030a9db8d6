-- ===== src/EventFilter.antt =====
-- Filters and the order of events: bywaf/event/filters.py.
pub mod Payload
pub mod Matching
pub mod Selector
pub mod Excluded
pub mod Rows
use bywaf.Prelude.{
  ℕ, suc, ◌-◌, ◌==◌, Bool, true, false, not, ◌&&◌, ◌||◌, leb, if◌then◌else◌, Option, none, some,
  List, [], ◌∷◌, ◌++◌, all, any, keep, is_empty, length, take, drop, Text, text_eq, text_le, codes,
  mem_text, contains_char, starts_with, strip, partition, Partition, split_on, Result, ok, err,
  ◌>>=◌, bad_event_sort, bad_filter, empty_selector_value, empty_excluded_value,
  requires_selector_value, ℤ, pos, negsuc, int_le, int_of,
}
use bywaf.VarStore.{Values, set_value}
use bywaf.EventFilter.Payload.{Json, null, string, scalar, Fields, is_value, payload_filter_values}
use bywaf.EventFilter.Matching.{
  SelectorExpression, parse_selector_expression, selector_matches_texts,
}

-- An event, as far as the filters read it.
pub record Event : Type 0 where
  pub id : Option ℕ
  pub topic : Text
  pub source : Text
  pub payload : Fields

abbrev pub Filters : Type 0
Filters = List (Text × Text)

abbrev sort_alias : Text → Text
sort_alias raw =
    if text_eq raw (codes "transport")
    then codes "protocol"
    else if text_eq raw (codes "status")
    then codes "state"
    else raw

abbrev sort_keys : List Text
sort_keys =
    codes "time"
    ∷ codes "id"
    ∷ codes "host"
    ∷ codes "protocol"
    ∷ codes "state"
    ∷ codes "topic"
    ∷ codes "source"
    ∷ []

unfoldable pub parse_event_sort : Text → Result Text
parse_event_sort raw =
    let key = sort_alias raw in if mem_text key sort_keys then ok key else err bad_event_sort

-- The loop of parse_payload_filter_tokens.
unfoldable pub collect_filters : List Text → Values → Result Filters
collect_filters [] filters = ok filters
collect_filters (token ∷ rest) filters =
    let parts = partition b'=' token in
    let later = collect_filters rest (set_value filters parts.before parts.after) in
    if not parts.found || is_empty parts.before || is_empty parts.after
    then err bad_filter
    else later

unfoldable pub parse_payload_filter_tokens : List Text → Result Filters
parse_payload_filter_tokens tokens = collect_filters tokens []

-- `wide` is the value of a decimal digit beyond ASCII, and `in_network` is ipaddress' test of an
-- address and a network.
module _ (wide : ℕ → Option ℕ) (in_network : Text → Text → Bool) where
  -- `value_str` is `str` of a list or a dictionary.
  module _ (value_str : Json → Text) where
    abbrev pub str : Json → Text
    str (string s) = s
    str (scalar s) = s
    str v = value_str v

    unfoldable pub texts_of : List Json → List Text
    texts_of [] = []
    texts_of (v ∷ rest) = str v ∷ texts_of rest

    unfoldable pub selector_matches_values : SelectorExpression → List Json → Bool
    selector_matches_values selector values =
        selector_matches_texts wide in_network selector (texts_of (keep is_value values))

    unfoldable pub event_matches_payload_filters : Event → Filters → Result Bool
    event_matches_payload_filters event [] = ok true
    event_matches_payload_filters event ((key, raw_values) ∷ rest) =
        parse_selector_expression raw_values >>= λ selector.
        if not (selector_matches_values selector (payload_filter_values event.payload key))
        then ok false
        else event_matches_payload_filters event rest

    -- The loop over the events; without filters, each of them matches.
    unfoldable pub filter_events_by_payload : List Event → Filters → Result (List Event)
    filter_events_by_payload [] filters = ok []
    filter_events_by_payload (event ∷ rest) filters =
        event_matches_payload_filters event filters >>= λ matches.
        filter_events_by_payload rest filters >>= λ later.
        ok (if matches then event ∷ later else later)

    -- The loop stops at the first event that matches.
    unfoldable pub any_event_matches : List Event → Filters → Result Bool
    any_event_matches [] filters = ok false
    any_event_matches (event ∷ rest) filters =
        event_matches_payload_filters event filters >>= λ matches.
        if matches then ok true else any_event_matches rest filters

    unfoldable pub any_event_matches_filters : List Event → Filters → Result Bool
    any_event_matches_filters events filters =
        if is_empty filters then ok true else any_event_matches events filters

    abbrev first_text : List Json → Text
    first_text [] = []
    first_text (v ∷ rest) = str v

    abbrev id_or_zero : Option ℕ → ℕ
    id_or_zero none = 0
    id_or_zero (some n) = n

    unfoldable pub event_sort_value : Event → Text → Text × ℕ
    event_sort_value event sort_key = (
      if text_eq sort_key (codes "topic")
          then event.topic
          else if text_eq sort_key (codes "source")
          then event.source
          else first_text (payload_filter_values event.payload sort_key),
      id_or_zero event.id,
    )

    -- The order of the pairs.
    unfoldable pub value_le : Text × ℕ → Text × ℕ → Bool
    value_le (s, i) (t, j) = if text_eq s t then leb i j else text_le s t

    abbrev pub row_le : Text → Event → Event → Bool
    row_le sort_key a b = value_le (event_sort_value a sort_key) (event_sort_value b sort_key)

    unfoldable pub insert_row : Text → Event → List Event → List Event
    insert_row sort_key x [] = x ∷ []
    insert_row sort_key x (y ∷ l) =
        let rest = insert_row sort_key x l in if row_le sort_key x y then x ∷ y ∷ l else y ∷ rest

    unfoldable pub sort_rows : Text → List Event → List Event
    sort_rows sort_key [] = []
    sort_rows sort_key (x ∷ l) = insert_row sort_key x (sort_rows sort_key l)

    -- rows[:limit]
    unfoldable pub slice_to : ℤ → List Event → List Event
    slice_to (pos n) rows = take n rows
    slice_to (negsuc n) rows = take (length rows - suc n) rows

    abbrev pub is_log_order : Text → Bool
    is_log_order sort_key = mem_text sort_key (codes "time" ∷ codes "id" ∷ [])

    unfoldable pub select_event_rows : List Event → Filters → Text → ℤ → Result (List Event)
    select_event_rows events filters sort_key limit =
        filter_events_by_payload events filters >>= λ rows.
        ok (slice_to limit (if is_log_order sort_key then rows else sort_rows sort_key rows))
