-- ===== src/EventFilter/Matching.antt =====
-- Selector expressions of bywaf/event/filters.py: parse_selector_expression, and the match of one with
-- the texts of some values.
use bywaf.Prelude.{
  ℕ, ◌==◌, Bool, true, false, not, ◌&&◌, ◌||◌, leb, if◌then◌else◌, Option, none, some, List, [],
  ◌∷◌, ◌++◌, all, any, is_empty, length, drop, Text, text_eq, codes, contains_char, starts_with,
  strip, partition, Partition, split_on, Result, ok, err, ◌>>=◌, empty_selector_value,
  empty_excluded_value, requires_selector_value, ℤ, pos, int_le, int_of,
}

pub record SelectorExpression : Type 0 where
  pub include : List Text
  pub exclude : List Text

-- One value of a selector, put with those before it.
unfoldable pub add_selector : Text → SelectorExpression → Result SelectorExpression
add_selector raw_value s =
    let value = strip raw_value in
    let excluded = strip (drop 1 value) in
    if is_empty value
    then err empty_selector_value
    else if starts_with (codes "!") value
    then (if is_empty excluded
        then err empty_excluded_value
        else ok (record s { exclude = s.exclude ++ excluded ∷ [] }))
    else ok (record s { include = s.include ++ value ∷ [] })

unfoldable pub collect_selectors : List Text → SelectorExpression → Result SelectorExpression
collect_selectors [] s = ok s
collect_selectors (raw_value ∷ rest) s =
    add_selector raw_value s >>= λ s'. collect_selectors rest s'

abbrev pub no_selector : SelectorExpression
no_selector = record { include = []; exclude = [] }

unfoldable pub parse_selector_expression : Text → Result SelectorExpression
parse_selector_expression raw_values =
    collect_selectors (split_on b',' raw_values) no_selector >>= λ s.
    if is_empty s.include && is_empty s.exclude then err requires_selector_value else ok s

-- text.rpartition(separator)
unfoldable pub rpartition : ℕ → Text → Partition
rpartition separator [] = record { before = []; found = false; after = [] }
rpartition separator (c ∷ s) =
    let r = rpartition separator s in
    if r.found
    then record { before = c ∷ r.before; found = true; after = r.after }
    else record { before = []; found = c == separator; after = if c == separator then s else c ∷ s }

-- An octet as ipaddress reads it: at most three ASCII digits, without a leading zero.
unfoldable pub ascii_octet : Text → Bool
ascii_octet s =
    not (is_empty s)
    && leb (length s) 3
    && all (λ c. leb b'0' c && leb c b'9') s
    && (length s == 1 || not (starts_with (codes "0") s))
    && at_most_255 (int_of (λ c. none) s)
  where
    at_most_255 : Option ℤ → Bool
    at_most_255 none = false
    at_most_255 (some n) = int_le n (pos 255)

-- The first three octets of an IPv4 address, joined by dots, and the last; ip_address(value) is of
-- version 4 exactly if there are such.
unfoldable pub address_parts : List Text → Option (Text × Text)
address_parts (a ∷ b ∷ c ∷ d ∷ []) =
    if ascii_octet a && ascii_octet b && ascii_octet c && ascii_octet d
    then some (a ++ b'.' ∷ b ++ b'.' ∷ c, d)
    else none
address_parts _ = none

abbrev within : Option ℤ → Option ℤ → Option ℤ → Bool
within (some start) (some stop) (some last) =
    int_le (pos 0) start
    && int_le start stop
    && int_le stop (pos 255)
    && int_le start last
    && int_le last stop
within _ _ _ = false

-- `wide` is the value of a decimal digit beyond ASCII.
module _ (wide : ℕ → Option ℕ) where
  unfoldable pub ipv4_octet_range_matches : Text → Text → Bool
  ipv4_octet_range_matches value pattern =
      let ends = rpartition b'.' pattern in
      let range = partition b'-' ends.after in
      if not (contains_char b'-' pattern) || not ends.found || not range.found
      then false
      else (elim (address_parts (split_on b'.' value)) [
        | none ↦ false
        | some (prefix, last) ↦
            text_eq prefix ends.before
            && within (int_of wide range.before) (int_of wide range.after) (int_of wide last)
      ])

  -- `in_network` is ipaddress' test of an address and a network, false for a ValueError.
  module _ (in_network : Text → Text → Bool) where
    unfoldable pub selector_value_matches : Text → Text → Bool
    selector_value_matches value pattern =
        text_eq value pattern
        || ipv4_octet_range_matches value pattern
        || (contains_char b'/' pattern && in_network value pattern)

    -- any(... for value in values for pattern in patterns)
    unfoldable pub any_matches : List Text → List Text → Bool
    any_matches values patterns = any (λ value. any (selector_value_matches value) patterns) values

    unfoldable pub selector_matches_texts : SelectorExpression → List Text → Bool
    selector_matches_texts selector text_values =
        if is_empty text_values
        then false
        else if not (is_empty selector.include) && not (any_matches text_values selector.include)
        then false
        else not (any_matches text_values selector.exclude)
