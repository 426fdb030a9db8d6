-- ===== src/Utilities/Octets.antt =====
-- What parse_octet_range of bywaf/utils.py returns.
use bywaf.Prelude.{
  ℕ, Bool, true, false, not, ◌&&◌, ◌||◌, if◌then◌else◌, Option, List, all, is_empty, ◌≡◌, subst,
  arith, Text, partition, ok, err, octet_out_of_range, >>=-eq-ok, inl, inr, Bool-cases, ℤ, pos,
  int_le, int_range, int_le_trans, all-int_range, is_empty-int_range,
}
use bywaf.Utilities.{parse_int, parse_octet, parse_octet_range}

abbrev pub is_octet : ℤ → Bool
is_octet n = int_le (pos 0) n && int_le n (pos 255)

module _ (wide : ℕ → Option ℕ) (is_digit : ℕ → Bool) where
  pub parse_octet-is_octet :
      (value : Text) (n : ℤ) → parse_octet wide is_digit value ≡ ok n → is_octet n ≡ true
  unfolding parse_octet
  parse_octet-is_octet value n h = elim (Bool-cases (is_empty value || not (all is_digit value))) [
    | inl bad ↦ absurd (ground (arith, h, bad))
    | inr good ↦
        let (m, parsed, k) =
          >>=-eq-ok (parse_int wide value)
            (λ n. if is_octet n then ok n else err (octet_out_of_range value)) (rw good at h) in
        ground (arith, k)
  ]

-- A part of an address that parses gives at least one octet, and all of them are from 0 to 255.
pub parse_octet_range_bounds :
    (wide : ℕ → Option ℕ) (is_digit : ℕ → Bool) (value : Text) (octets : List ℤ)
    → parse_octet_range wide is_digit value ≡ ok octets
    → (is_empty octets ≡ false) × (all is_octet octets ≡ true)
unfolding parse_octet_range
parse_octet_range_bounds wide is_digit value octets h =
    elim (Bool-cases (partition b'-' value).found) [
      | inl range ↦
          let (a, first, k) = >>=-eq-ok _ _ (rw range at h) in
          let (b, last, k') = >>=-eq-ok _ _ k in
          let ordered : int_le a b ≡ true = ground (arith, k') in
          let same : int_range a b ≡ octets = ground (arith, k') in
          (
            subst (λ l. is_empty l ≡ false) same (is_empty-int_range a b ordered),
            subst (λ l. all is_octet l ≡ true) same
                (all-int_range is_octet a b λ p low high.
                  between a b p low high
                    (parse_octet-is_octet wide is_digit (partition b'-' value).before a first)
                    (parse_octet-is_octet wide is_digit (partition b'-' value).after b last)),
          )
      | inr one ↦
          let (n, parsed, k) = >>=-eq-ok _ _ (rw one at h) in
          let octet = parse_octet-is_octet wide is_digit value n parsed in ground (arith, k, octet)
    ]
  where
    between :
        (a b p : ℤ)
        → int_le a p ≡ true
        → int_le p b ≡ true
        → is_octet a ≡ true
        → is_octet b ≡ true
        → is_octet p ≡ true
    between a b p low high ha hb =
        ground (arith, ha, hb, int_le_trans (pos 0) a p, int_le_trans p b (pos 255), low, high)
