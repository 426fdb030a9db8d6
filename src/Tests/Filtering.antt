-- ===== src/Tests/Filtering.antt =====
-- bywaf/event/filters.py and bywaf/utils.py at concrete texts.
use bywaf.Prelude.{
  ℕ, Bool, true, false, none, some, List, [], ◌∷◌, ◌≡◌, ◌≢◌, refl, all, any, is_empty, Option, Text,
  codes, text_eq, text_le, mem_text, contains_char, starts_with, partition, split_on, strip, lstrip,
  rstrip, is_space, ok, pos, ℤ, int_eq, int_le, mem_int, next_int, gap, ints_from, int_range,
  digit_value, digits_value, signed_value, int_of, digits_of, int_text,
}
use bywaf.Utilities.{
  is_port, chunk_ports, collect_ports, without_int, unique_ints, parse_ports, parse_octet,
  parse_octet_range, parse_octets, is_ipv4_range, before_each, product, dotted, expand_ipv4_range,
  host_candidates,
}
use bywaf.Utilities.Ports.{names_port, distinct_ints, parse_ports_lem}
use bywaf.Utilities.Hosts.{IsExpansion, host_candidates-full}
use bywaf.EventFilter.Payload.{
  Json, string, object, field, no_fields, field_of, items_of, walk, value_at_path, flatten_values,
  payload_filter_values,
}
use bywaf.EventFilter.Matching.{
  SelectorExpression, add_selector, collect_selectors, parse_selector_expression, rpartition,
  ascii_octet, address_parts, ipv4_octet_range_matches, selector_value_matches, any_matches,
  selector_matches_texts,
}
use bywaf.EventFilter.{
  Event, Filters, texts_of, selector_matches_values, event_matches_payload_filters,
  filter_events_by_payload, event_sort_value, value_le, insert_row, sort_rows, slice_to,
  select_event_rows,
}
use bywaf.EventFilter.Selector.{join_commas, parse_selector_expression-selector_text}
use bywaf.EventFilter.Excluded.{event_matches_payload_filters-excluded}
use bywaf.EventFilter.Rows.{IsSelection, select_event_rows-IsSelection}

text_defs : Unit {0}
unfolding text_eq text_le mem_text contains_char starts_with partition split_on strip lstrip rstrip
    is_space
text_defs = tt

int_defs : Unit {0}
unfolding text_defs int_eq int_le mem_int next_int gap ints_from int_range digit_value digits_value
    signed_value int_of
int_defs = tt

abbrev ascii : ℕ → Option ℕ
ascii c = none

abbrev web_ports : List ℤ
web_ports = pos 80 ∷ pos 8000 ∷ pos 8001 ∷ []

web_ports_parsed : parse_ports ascii (codes "80,8000-8001,80") ≡ ok web_ports
unfolding int_defs chunk_ports collect_ports without_int unique_ints parse_ports
web_ports_parsed = refl

parse_ports_lem_example :
    ((p : ℤ)
      → mem_int p web_ports
        ≡ any (λ chunk. names_port ascii chunk p) (split_on b',' (codes "80,8000-8001,80")))
    × (distinct_ints web_ports ≡ true)
    × (all (is_port ascii) web_ports ≡ true)
parse_ports_lem_example = parse_ports_lem ascii (codes "80,8000-8001,80") web_ports web_ports_parsed

abbrev is_ascii_digit : ℕ → Bool
is_ascii_digit c = contains_char c (codes "0123456789")

abbrev four_hosts : List Text
four_hosts = codes "10.0.1.5" ∷ codes "10.0.1.6" ∷ codes "10.0.2.5" ∷ codes "10.0.2.6" ∷ []

hosts_parsed :
    host_candidates ascii is_ascii_digit (λ v. none) (codes "10.0.1-2.5-6") ≡ ok four_hosts
unfolding int_defs digits_of int_text parse_octet parse_octet_range parse_octets is_ipv4_range
    before_each product dotted expand_ipv4_range host_candidates
hosts_parsed = refl

host_candidates-full_example :
    (is_empty four_hosts ≡ false) × IsExpansion ascii (codes "10.0.1-2.5-6") four_hosts
unfolding int_defs is_ipv4_range
host_candidates-full_example =
    host_candidates-full ascii is_ascii_digit (λ v. none) (codes "10.0.1-2.5-6") four_hosts
      hosts_parsed

abbrev net_but_one : SelectorExpression
net_but_one = record {
  include = codes "10.0.0.0/24" ∷ codes "local" ∷ [];
  exclude = codes "10.0.0.5" ∷ [];
}

parse_selector_expression-selector_text_example :
    parse_selector_expression (codes "10.0.0.0/24,local,!10.0.0.5") ≡ ok net_but_one
unfolding text_defs join_commas
parse_selector_expression-selector_text_example =
    parse_selector_expression-selector_text net_but_one refl refl refl

abbrev no_network : Text → Text → Bool
no_network value pattern = false

abbrev nothing_shown : Json → Text
nothing_shown v = []

abbrev found : Text → Event
found host = record {
  id = some 4;
  topic = codes "host.found";
  source = codes "scan";
  payload =
      field (codes "target") (object (field (codes "host") (string host) no_fields)) no_fields;
}

filter_defs : Unit {0}
unfolding int_defs field_of items_of walk value_at_path flatten_values payload_filter_values
    add_selector collect_selectors parse_selector_expression rpartition ascii_octet address_parts
    ipv4_octet_range_matches selector_value_matches any_matches selector_matches_texts texts_of
    selector_matches_values event_matches_payload_filters filter_events_by_payload event_sort_value
    value_le insert_row sort_rows slice_to select_event_rows
filter_defs = tt

abbrev hosts_but_one : Filters
hosts_but_one = (codes "host", codes "10.0.0.1-9,!10.0.0.5") ∷ []

event_matches_payload_filters-excluded_example :
    event_matches_payload_filters ascii no_network nothing_shown
      (found (codes "10.0.0.5"))
      hosts_but_one
    ≢ ok true
unfolding filter_defs
event_matches_payload_filters-excluded_example =
    event_matches_payload_filters-excluded ascii no_network nothing_shown (found (codes "10.0.0.5"))
      hosts_but_one (codes "host") (codes "10.0.0.1-9,!10.0.0.5") (codes "10.0.0.5") refl refl refl
      refl refl

abbrev seen : List Event
seen = found (codes "10.0.0.7") ∷ found (codes "10.0.0.5") ∷ found (codes "10.0.0.2") ∷ []

abbrev rows : List Event
rows = found (codes "10.0.0.2") ∷ found (codes "10.0.0.7") ∷ []

rows_selected :
    select_event_rows ascii no_network nothing_shown seen hosts_but_one (codes "host") (pos 5)
    ≡ ok rows
unfolding filter_defs
rows_selected = refl

select_event_rows-IsSelection_example :
    IsSelection ascii no_network nothing_shown seen hosts_but_one (codes "host") 5 rows
select_event_rows-IsSelection_example =
    select_event_rows-IsSelection ascii no_network nothing_shown seen hosts_but_one (codes "host") 5
      rows rows_selected
