-- ===== src/Utilities.antt =====
-- Ports and ranges of addresses: bywaf/utils.py.
pub mod Ports
pub mod Octets
pub mod Parts
pub mod Products
pub mod Hosts
use bywaf.Prelude.{
  ℕ, Bool, true, false, not, ◌&&◌, ◌||◌, ◌==◌, if◌then◌else◌, Option, none, some, List, [], ◌∷◌,
  ◌++◌, all, any, map, is_empty, length, Text, contains_char, strip, partition, Partition, split_on,
  Result, ok, err, ◌>>=◌, bad_integer, port_out_of_range, bad_octet, octet_out_of_range,
  descending_octets, ℤ, pos, int_eq, int_le, mem_int, int_range, int_of, int_text, bad_ipv4_range,
}

-- A call of int that raises.
abbrev int_or_raise : Option ℤ → Result ℤ
int_or_raise none = err bad_integer
int_or_raise (some n) = ok n

-- dict.fromkeys(ports)
unfoldable pub without_int : ℤ → List ℤ → List ℤ
without_int k [] = []
without_int k (x ∷ l) = let kept = without_int k l in if int_eq k x then kept else x ∷ kept

unfoldable pub unique_ints : List ℤ → List ℤ
unique_ints [] = []
unique_ints (x ∷ l) = x ∷ without_int x (unique_ints l)

-- `wide` is the value of a decimal digit beyond ASCII.
module _ (wide : ℕ → Option ℕ) where
  abbrev pub parse_int : Text → Result ℤ
  parse_int text = int_or_raise (int_of wide text)

  -- What one chunk adds to the list.
  unfoldable pub chunk_ports : Text → Result (List ℤ)
  chunk_ports chunk =
      let ends = partition b'-' chunk in
      if ends.found
      then (parse_int ends.before >>= λ start.
          parse_int ends.after >>= λ end. ok (int_range start end))
      else if not (is_empty (strip chunk))
      then (parse_int chunk >>= λ port. ok (port ∷ []))
      else ok []

  unfoldable pub collect_ports : List Text → Result (List ℤ)
  collect_ports [] = ok []
  collect_ports (chunk ∷ rest) =
      chunk_ports chunk >>= λ ports. collect_ports rest >>= λ later. ok (ports ++ later)

  abbrev pub is_port : ℤ → Bool
  is_port port = int_le (pos 1) port && int_le port (pos 65535)

  unfoldable pub parse_ports : Text → Result (List ℤ)
  parse_ports value = collect_ports (split_on b',' value) >>= λ ports.
      if all is_port ports then ok (unique_ints ports) else err port_out_of_range

  -- `is_digit` is the test of a character that `str.isdigit` makes.
  module _ (is_digit : ℕ → Bool) where
    unfoldable pub parse_octet : Text → Result ℤ
    parse_octet value =
        if is_empty value || not (all is_digit value)
        then err (bad_octet value)
        else parse_int value >>= λ octet.
            if int_le (pos 0) octet && int_le octet (pos 255)
            then ok octet
            else err (octet_out_of_range value)

    unfoldable pub parse_octet_range : Text → Result (List ℤ)
    parse_octet_range value =
        let ends = partition b'-' value in
        if ends.found
        then (parse_octet ends.before >>= λ start. parse_octet ends.after >>= λ end.
            if int_le start end then ok (int_range start end) else err (descending_octets value))
        else parse_octet value >>= λ octet. ok (octet ∷ [])

    unfoldable pub parse_octets : List Text → Result (List (List ℤ))
    parse_octets [] = ok []
    parse_octets (part ∷ rest) =
        parse_octet_range part >>= λ octets. parse_octets rest >>= λ later. ok (octets ∷ later)

unfoldable pub is_ipv4_range : Text → Bool
is_ipv4_range value =
    let parts = split_on b'.' value in length parts == 4 && any (contains_char b'-') parts

-- itertools.product
abbrev each_after : List (List ℤ) → ℤ → List (List ℤ)
each_after combos octet = map (λ combo. octet ∷ combo) combos

unfoldable pub before_each : List ℤ → List (List ℤ) → List (List ℤ)
before_each [] combos = []
before_each (octet ∷ octets) combos = each_after combos octet ++ before_each octets combos

unfoldable pub product : List (List ℤ) → List (List ℤ)
product [] = [] ∷ []
product (octets ∷ rest) = before_each octets (product rest)

-- ".".join(str(part) for part in combo)
unfoldable pub dotted : List ℤ → Text
dotted [] = []
dotted (octet ∷ []) = int_text octet
dotted (octet ∷ other ∷ rest) = int_text octet ++ b'.' ∷ dotted (other ∷ rest)

-- What ipaddress says of a network: its address and its hosts, and none for a ValueError.
abbrev pub Networks : Type 0
Networks = Text → Option (Text × List Text)

abbrev pub hosts_or_address : Text × List Text → List Text
hosts_or_address (address, []) = address ∷ []
hosts_or_address (address, host ∷ hosts) = host ∷ hosts

module _ (wide : ℕ → Option ℕ) (is_digit : ℕ → Bool) where
  unfoldable pub expand_ipv4_range : Text → Result (List Text)
  expand_ipv4_range value =
      let parts = split_on b'.' value in
      if not (length parts == 4)
      then err (bad_ipv4_range value)
      else parse_octets wide is_digit parts >>= λ octets. ok (map dotted (product octets))

  unfoldable pub host_candidates : Networks → Text → Result (List Text)
  host_candidates network value =
      if is_ipv4_range value
      then expand_ipv4_range value
      else ok (elim (network value) [ none ↦ value ∷ [] | some found ↦ hosts_or_address found ])
