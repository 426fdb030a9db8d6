-- ===== src/Utilities/Parts.antt =====
-- The octets that a part of an address writes, and those that parse_octet_range of bywaf/utils.py
-- gives.
use bywaf.Prelude.{
  ℕ, suc, ◌-◌, Bool, true, false, ◌&&◌, if◌then◌else◌, Option, none, some, List, [], ◌∷◌, length,
  ◌≡◌, refl, subst, arith, Text, partition, ok, >>=-eq-ok, inl, inr, Bool-cases, Option-cases, ℤ,
  pos, negsuc, int_eq, int_le, mem_int, int_range, int_of, mem_int-int_range, length-int_range,
}
use bywaf.Utilities.{parse_octet, parse_octet_range}
use bywaf.Utilities.Octets.{is_octet, parse_octet-is_octet}

module _ (wide : ℕ → Option ℕ) where
  abbrev between_ends : Option ℤ → Option ℤ → ℤ → Bool
  between_ends (some a) (some b) n = int_le a n && int_le n b
  between_ends _ _ n = false

  abbrev is_written : Option ℤ → ℤ → Bool
  is_written none n = false
  is_written (some a) n = int_eq n a

  -- The part writes the octet: between the ends of a range, or alone.
  abbrev pub writes_octet : Text → ℤ → Bool
  writes_octet part n =
      let ends = partition b'-' part in
      if ends.found
      then between_ends (int_of wide ends.before) (int_of wide ends.after) n
      else is_written (int_of wide part) n

  abbrev range_size : Option ℤ → Option ℤ → ℕ
  range_size (some (pos a)) (some (pos b)) = suc (b - a)
  range_size _ _ = 0

  -- How many octets the part writes: one more than the difference of a range's ends, or one.
  abbrev pub octet_count : Text → ℕ
  octet_count part =
      let ends = partition b'-' part in
      if ends.found then range_size (int_of wide ends.before) (int_of wide ends.after) else 1

  module _ (is_digit : ℕ → Bool) where
    parse_octet-int_of :
        (value : Text) (n : ℤ) → parse_octet wide is_digit value ≡ ok n → int_of wide value ≡ some n
    unfolding parse_octet
    parse_octet-int_of value n h = elim (Option-cases (int_of wide value)) [
      | inl bad ↦ absurd (ground (arith, h, bad))
      | inr (m, parsed) ↦ ground (arith, h, parsed)
    ]

    is_octet-size :
        (a b : ℤ)
        → is_octet a ≡ true
        → is_octet b ≡ true
        → int_le a b ≡ true
        → length (int_range a b) ≡ range_size (some a) (some b)
    unfolding int_le
    is_octet-size (pos a) (pos b) ha hb h = length-int_range a b h
    is_octet-size (pos a) (negsuc b) ha hb h = cc
    is_octet-size (negsuc a) b ha hb h = cc

    -- A part gives the octets that it writes, and as many as it writes.
    pub parse_octet_range-writes_octet :
        (part : Text) (octets : List ℤ)
        → parse_octet_range wide is_digit part ≡ ok octets
        → ((n : ℤ) → mem_int n octets ≡ writes_octet part n) × (length octets ≡ octet_count part)
    unfolding parse_octet_range mem_int
    parse_octet_range-writes_octet part octets h = elim (Bool-cases (partition b'-' part).found) [
      | inl range ↦
          let (a, first, k) =
            >>=-eq-ok (parse_octet wide is_digit (partition b'-' part).before) _ (rw range at h) in
          let (b, last, k') =
            >>=-eq-ok (parse_octet wide is_digit (partition b'-' part).after) _ k in
          let ordered : int_le a b ≡ true = ground (arith, k') in
          let same : int_range a b ≡ octets = ground (arith, k') in
          let low = parse_octet-int_of (partition b'-' part).before a first in
          let high = parse_octet-int_of (partition b'-' part).after b last in
          (
            λ n.
                subst (λ l. mem_int n l ≡ writes_octet part n) same
                  (rw (range, low, high) (mem_int-int_range n a b)),
            subst (λ l. length l ≡ octet_count part) same
                (rw (range, low, high)
                  (is_octet-size a b
                    (parse_octet-is_octet wide is_digit (partition b'-' part).before a first)
                    (parse_octet-is_octet wide is_digit (partition b'-' part).after b last)
                    ordered)),
          )
      | inr one ↦
          let (n, parsed, k) = >>=-eq-ok (parse_octet wide is_digit part) _ (rw one at h) in
          let same : n ∷ [] ≡ octets = ground (arith, k) in
          let alone = parse_octet-int_of part n parsed in
          (
            λ m. subst (λ l. mem_int m l ≡ writes_octet part m) same (ground (arith, one, alone)),
            subst (λ l. length l ≡ octet_count part) same (rw one refl),
          )
    ]
