-- ===== src/Utilities/Hosts.antt =====
-- What host_candidates of bywaf/utils.py returns.
use bywaf.Prelude.{
  ◌&&◌, ap₂, mem_int, mem_text, ℕ, ◌*◌, Bool, true, false, not, ◌||◌, ◌==◌, Option, none, some,
  List, [], ◌∷◌, map, is_empty, length, ◌≡◌, refl, sym, ◌∙◌, ap, subst, arith, Text, split_on, ok,
  >>=-eq-ok, ℤ, Bool-cases, inl, inr,
}
use bywaf.Utilities.{
  parse_octet_range, parse_octets, is_ipv4_range, product, dotted, Networks, expand_ipv4_range,
  hosts_or_address, host_candidates,
}
use bywaf.Utilities.Products.{spanned, chosen, length-map, length-product, mem_text-product}
use bywaf.Utilities.Octets.{parse_octet_range_bounds}
use bywaf.Utilities.Parts.{writes_octet, octet_count, parse_octet_range-writes_octet}

is_empty-product :
    (wide : ℕ → Option ℕ) (is_digit : ℕ → Bool) (parts : List Text) (octets : List (List ℤ))
    → parse_octets wide is_digit parts ≡ ok octets
    → (spanned octets == 0) ≡ false
unfolding parse_octets spanned
is_empty-product wide is_digit [] octets h =
    let same : [] ≡ octets = ground (arith, h) in subst (λ o. (spanned o == 0) ≡ false) same refl
is_empty-product wide is_digit (part ∷ rest) octets h =
    let (l, first, k) = >>=-eq-ok (parse_octet_range wide is_digit part) _ h in
    let (later, others, k') =
      >>=-eq-ok (parse_octets wide is_digit rest) (λ later. ok (l ∷ later)) k in
    let same : l ∷ later ≡ octets = ground (arith, k') in
    let (full, bounded) = parse_octet_range_bounds wide is_digit part l first in
    subst (λ o. (spanned o == 0) ≡ false) same
      (no_zero l (spanned later) full (is_empty-product wide is_digit rest later others))
  where
    no_zero :
        (l : List ℤ) (n : ℕ) → is_empty l ≡ false → (n == 0) ≡ false → (length l * n == 0) ≡ false
    no_zero [] n full h = cc
    no_zero (x ∷ l) n full h = ground (arith, h)

is_empty-of-length : (l : List Text) (n : ℕ) → length l ≡ n → (n == 0) ≡ false → is_empty l ≡ false
is_empty-of-length [] n e h = ground (arith, e, h)
is_empty-of-length (x ∷ l) n e h = refl

-- The addresses that the parts of a text span: the product of the numbers of their octets.
unfoldable pub span_size : (ℕ → Option ℕ) → List Text → ℕ
span_size wide [] = 1
span_size wide (part ∷ rest) = octet_count wide part * span_size wide rest

-- The parts write the octets, one each.
unfoldable pub writes_octets : (ℕ → Option ℕ) → List Text → List ℤ → Bool
writes_octets wide [] [] = true
writes_octets wide [] (n ∷ combo) = false
writes_octets wide (part ∷ rest) [] = false
writes_octets wide (part ∷ rest) (n ∷ combo) =
    writes_octet wide part n && writes_octets wide rest combo

module _ (wide : ℕ → Option ℕ) (is_digit : ℕ → Bool) where
  parse_octets-writes_octets :
      (parts : List Text) (octets : List (List ℤ))
      → parse_octets wide is_digit parts ≡ ok octets
      → ((combo : List ℤ) → chosen octets combo ≡ writes_octets wide parts combo)
        × (spanned octets ≡ span_size wide parts)
  unfolding parse_octets spanned span_size
  parse_octets-writes_octets [] octets h =
      let same : [] ≡ octets = ground (arith, h) in
      (
        λ combo. subst (λ o. chosen o combo ≡ writes_octets wide [] combo) same (nothing combo),
        subst (λ o. spanned o ≡ span_size wide []) same refl,
      )
    where
      nothing : (combo : List ℤ) → chosen [] combo ≡ writes_octets wide [] combo
      nothing [] = unfold chosen writes_octets in refl
      nothing (n ∷ combo) = unfold chosen writes_octets in refl
  parse_octets-writes_octets (part ∷ rest) octets h =
      let (l, first, k) = >>=-eq-ok (parse_octet_range wide is_digit part) _ h in
      let (later, others, k') =
        >>=-eq-ok (parse_octets wide is_digit rest) (λ later. ok (l ∷ later)) k in
      let same : l ∷ later ≡ octets = ground (arith, k') in
      let (members, size) = parse_octet_range-writes_octet wide is_digit part l first in
      let (members', size') = parse_octets-writes_octets rest later others in
      (
        λ combo.
            subst (λ o. chosen o combo ≡ writes_octets wide (part ∷ rest) combo) same
              (each l later members members' combo),
        subst (λ o. spanned o ≡ span_size wide (part ∷ rest)) same (ap₂ (λ m n. m * n) size size'),
      )
    where
      each :
          (l : List ℤ) (later : List (List ℤ))
          → ((n : ℤ) → mem_int n l ≡ writes_octet wide part n)
          → ((combo : List ℤ) → chosen later combo ≡ writes_octets wide rest combo)
          → (combo : List ℤ) → chosen (l ∷ later) combo ≡ writes_octets wide (part ∷ rest) combo
      each l later members members' [] = unfold chosen writes_octets in refl
      each l later members members' (n ∷ combo) =
          unfold chosen writes_octets in ap₂ (λ a b. a && b) (members n) (members' combo)

-- The hosts are those of a range of addresses: as many as its parts span, and among them each
-- address whose octets its parts write.
pub record IsExpansion (wide : ℕ → Option ℕ) (value : Text) (hosts : List Text) : Type 0 where
  pub size : length hosts ≡ span_size wide (split_on b'.' value)
  pub complete :
      (combo : List ℤ)
      → (not (writes_octets wide (split_on b'.' value) combo) || mem_text (dotted combo) hosts)
        ≡ true

expand_ipv4_range-IsExpansion :
    (wide : ℕ → Option ℕ) (is_digit : ℕ → Bool) (value : Text) (hosts : List Text)
    → expand_ipv4_range wide is_digit value ≡ ok hosts
    → IsExpansion wide value hosts × (is_empty hosts ≡ false)
unfolding expand_ipv4_range
expand_ipv4_range-IsExpansion wide is_digit value hosts h =
    elim (Bool-cases (length (split_on b'.' value) == 4)) [
      | inr other ↦ absurd (ground (arith, h, other))
      | inl four ↦
          let (octets, parsed, k) =
            >>=-eq-ok (parse_octets wide is_digit (split_on b'.' value))
              (λ octets. ok (map dotted (product octets))) (rw four at h) in
          let same : map dotted (product octets) ≡ hosts = ground (arith, k) in
          let (members, counted) =
            parse_octets-writes_octets wide is_digit (split_on b'.' value) octets parsed in
          let size : length hosts ≡ spanned octets =
            ap length (sym same) ∙ length-map dotted (product octets) ∙ length-product octets in
          (
            record {
              size = size ∙ counted;
              complete = λ combo.
                  subst
                    (λ l.
                      (not (writes_octets wide (split_on b'.' value) combo)
                        || mem_text (dotted combo) l)
                      ≡ true)
                    same (ground (arith, members combo, mem_text-product dotted octets combo));
            },
            is_empty-of-length hosts (spanned octets) size
                (is_empty-product wide is_digit (split_on b'.' value) octets parsed),
          )
    ]

-- What is asked of the hosts of a text: of a range of addresses, that they are its addresses.
abbrev pub Expands : Bool → (ℕ → Option ℕ) → Text → List Text → Type 0
Expands true wide value hosts = IsExpansion wide value hosts
Expands false wide value hosts = Unit {0}

-- Where no exception is raised there is at least one host. The hosts of a range of addresses are as
-- many as the octets that its parts write span, counted from the ends that are written, and each
-- address that is made of octets which the parts write is among them.
pub host_candidates-full :
    (wide : ℕ → Option ℕ) (is_digit : ℕ → Bool) (network : Networks) (value : Text)
    (hosts : List Text)
    → host_candidates wide is_digit network value ≡ ok hosts
    → (is_empty hosts ≡ false) × Expands (is_ipv4_range value) wide value hosts
unfolding host_candidates
host_candidates-full wide is_digit network value hosts h = elim (Bool-cases (is_ipv4_range value)) [
  | inl range ↦
      let (expands, full) =
        expand_ipv4_range-IsExpansion wide is_digit value hosts (rw range at h) in
      (full, rw range expands)
  | inr other ↦ (by_network (network value) (rw other at h), rw other tt)
]
  where
    by_network :
        (o : Option (Text × List Text))
        → ok (elim o [ none ↦ value ∷ [] | some found ↦ hosts_or_address found ]) ≡ ok hosts
        → is_empty hosts ≡ false
    by_network none e = ground (arith, e)
    by_network (some (address, [])) e = ground (arith, e)
    by_network (some (address, host ∷ l)) e = ground (arith, e)
