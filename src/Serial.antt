-- ===== src/Serial.antt =====
-- Durable serials: crockford_base32, new_serial and the lookup by a prefix of bywaf/db/support.py.
pub mod Encoding
pub mod Lookup
use bywaf.Prelude.{
  ℕ, zero, suc, ◌+◌, ◌-◌, ◌/◌, ◌%◌, Bool, true, false, not, ◌&&◌, ◌||◌, ◌==◌, ltb, leb,
  if◌then◌else◌, Option, none, some, List, [], ◌∷◌, ◌++◌, keep, get_elem?, Text, text_eq, codes,
  contains_char, starts_with, partition, Partition, sorted_set, Result, ok, err, ambiguous_serial,
}
use bywaf.Graph.Check.{replace}

abbrev pub crockford_alphabet : Text
crockford_alphabet = codes "0123456789ABCDEFGHJKMNPQRSTVWXYZ"

abbrev pub serial_body_length : ℕ
serial_body_length = 26

-- CROCKFORD_BASE32_ALPHABET[remainder]
unfoldable pub digit_char : ℕ → ℕ
digit_char d = elim (get_elem? crockford_alphabet d) [ none ↦ 0 | some c ↦ c ]

-- The loop: the characters, the last digit first.
unfoldable pub base32_chars : ℕ → ℕ → Text
base32_chars zero value = []
base32_chars (suc n) value = digit_char (value % 32) ∷ base32_chars n (value / 32)

-- "".join(reversed(chars))
unfoldable pub reversed : Text → Text
reversed [] = []
reversed (c ∷ s) = reversed s ++ c ∷ []

unfoldable pub crockford_base32 : ℕ → ℕ → Text
crockford_base32 length value = reversed (base32_chars length value)

-- new_serial, given the 128 random bits, with `is_alnum` for `str.isalnum` of one character
unfoldable pub keep_alnum : (ℕ → Bool) → Text → Text
keep_alnum is_alnum [] = []
keep_alnum is_alnum (c ∷ s) = (if is_alnum c then c else b'-') ∷ keep_alnum is_alnum s

-- s.lstrip("-") and s.rstrip("-")
unfoldable pub lstrip_dashes : Text → Text
lstrip_dashes [] = []
lstrip_dashes (c ∷ s) = let rest = lstrip_dashes s in if c == b'-' then rest else c ∷ s

unfoldable pub new_serial : (ℕ → Bool) → Text → ℕ → Text
new_serial is_alnum prefix random =
    let stripped = lstrip_dashes (keep_alnum is_alnum prefix) in
    reversed (lstrip_dashes (reversed stripped))
    ++ codes "-"
    ++ crockford_base32 serial_body_length random

-- Upper case beyond ASCII, where one character may become several.
abbrev pub WideUpper : Type 0
WideUpper = ℕ → Text

unfoldable pub upper : WideUpper → Text → Text
upper wide [] = []
upper wide (c ∷ s) =
    (if ltb c 128 then (if leb b'a' c && leb c b'z' then (c - 32) ∷ [] else c ∷ []) else wide c)
    ++ upper wide s

unfoldable pub serial_body : Text → Text
serial_body value = let parts = partition b'-' value in if parts.found then parts.after else value

module _ (wide : WideUpper) where
  unfoldable pub normalize_serial_lookup : Text → Text
  normalize_serial_lookup value =
      replace b'O' b'0' (replace b'L' b'1' (replace b'I' b'1' (upper wide value)))

  unfoldable pub serial_matches : Text → Text → Bool
  serial_matches stored query =
      let stored_normal = normalize_serial_lookup stored in
      let query_normal = normalize_serial_lookup query in
      if text_eq stored_normal query_normal
      then true
      else if contains_char b'-' query_normal
      then starts_with query_normal stored_normal
      else starts_with query_normal (serial_body stored_normal)

  -- The only match, or None where there is none.
  unfoldable pub only_match : Text → List Text → Result (Option Text)
  only_match query [] = ok none
  only_match query (found ∷ []) = ok (some found)
  only_match query (found ∷ other ∷ rest) = err (ambiguous_serial query)

  unfoldable pub resolve_serial_match : Text → List Text → Result (Option Text)
  resolve_serial_match query values =
      only_match query (sorted_set (keep (λ value. serial_matches value query) values))
