-- ===== src/Utilities/Ports.antt =====
-- What parse_ports of bywaf/utils.py returns.
use bywaf.Prelude.{
  ℕ, Bool, true, false, not, ◌&&◌, ◌||◌, if◌then◌else◌, Option, none, some, List, [], ◌∷◌, ◌++◌,
  all, any, is_empty, ◌≡◌, refl, ◌∙◌, subst, arith, Text, strip, partition, split_on, ok, ◌>>=◌,
  >>=-eq-ok, ℤ, int_eq, int_le, mem_int, mem_int-int_range, int_eq_iff, int_of,
}
use bywaf.Utilities.{chunk_ports, collect_ports, is_port, without_int, unique_ints, parse_ports}

mem_int-append : (p : ℤ) (l m : List ℤ) → mem_int p (l ++ m) ≡ (mem_int p l || mem_int p m)
unfolding mem_int
mem_int-append p [] m = refl
mem_int-append p (x ∷ l) m = ground (arith, mem_int-append p l m)

mem_int-without_int :
    (p k : ℤ) (l : List ℤ) → mem_int p (without_int k l) ≡ (not (int_eq k p) && mem_int p l)
unfolding mem_int without_int
mem_int-without_int p k [] = ground arith
mem_int-without_int p k (x ∷ l) =
    ground (arith, mem_int-without_int p k l, int_eq_iff k x, int_eq_iff p x, int_eq_iff k p)

mem_int-unique_ints : (p : ℤ) (l : List ℤ) → mem_int p (unique_ints l) ≡ mem_int p l
unfolding mem_int unique_ints
mem_int-unique_ints p [] = refl
mem_int-unique_ints p (x ∷ l) = ground (
  arith,
  mem_int-without_int p x (unique_ints l),
  mem_int-unique_ints p l,
  int_eq_iff x p,
  int_eq_iff p x,
)

abbrev pub distinct_ints : List ℤ → Bool
distinct_ints [] = true
distinct_ints (x ∷ l) = not (mem_int x l) && distinct_ints l

distinct-without_int :
    (k : ℤ) (l : List ℤ) → distinct_ints l ≡ true → distinct_ints (without_int k l) ≡ true
unfolding without_int
distinct-without_int k [] h = refl
distinct-without_int k (x ∷ l) h =
    ground (arith, h, distinct-without_int k l, mem_int-without_int x k l)

distinct-unique_ints : (l : List ℤ) → distinct_ints (unique_ints l) ≡ true
unfolding unique_ints
distinct-unique_ints [] = refl
distinct-unique_ints (x ∷ l) = ground (
  arith,
  mem_int-without_int x x (unique_ints l),
  int_eq_iff x x,
  distinct-without_int x (unique_ints l) (distinct-unique_ints l),
)

all-without_int :
    (f : ℤ → Bool) (k : ℤ) (l : List ℤ) → all f l ≡ true → all f (without_int k l) ≡ true
unfolding without_int
all-without_int f k [] h = refl
all-without_int f k (x ∷ l) h = ground (arith, h, all-without_int f k l)

all-unique_ints : (f : ℤ → Bool) (l : List ℤ) → all f l ≡ true → all f (unique_ints l) ≡ true
unfolding unique_ints
all-unique_ints f [] h = refl
all-unique_ints f (x ∷ l) h =
    ground (arith, h, all-without_int f x (unique_ints l), all-unique_ints f l)

module _ (wide : ℕ → Option ℕ) where
  -- A port lies between two integers that are written, or is one.
  abbrev lies_between : Option ℤ → Option ℤ → ℤ → Bool
  lies_between none b p = false
  lies_between (some a) none p = false
  lies_between (some a) (some b) p = int_le a p && int_le p b

  abbrev is_int : Option ℤ → ℤ → Bool
  is_int none p = false
  is_int (some a) p = int_eq p a

  -- The chunk names the port: by `start-end`, or alone.
  abbrev pub names_port : Text → ℤ → Bool
  names_port chunk p =
      let ends = partition b'-' chunk in
      if ends.found
      then lies_between (int_of wide ends.before) (int_of wide ends.after) p
      else not (is_empty (strip chunk)) && is_int (int_of wide chunk) p

  chunk_ports-names_port :
      (chunk : Text) (ports : List ℤ) (p : ℤ)
      → chunk_ports wide chunk ≡ ok ports
      → mem_int p ports ≡ names_port chunk p
  unfolding chunk_ports mem_int
  chunk_ports-names_port chunk ports p h = by_ends (partition b'-' chunk).found refl
    where
      by_ends : (b : Bool) → (partition b'-' chunk).found ≡ b → mem_int p ports ≡ names_port chunk p
      by_ends true e =
          between (int_of wide (partition b'-' chunk).before)
            (int_of wide (partition b'-' chunk).after) refl refl
        where
          between :
              (a b : Option ℤ)
              → int_of wide (partition b'-' chunk).before ≡ a
              → int_of wide (partition b'-' chunk).after ≡ b
              → mem_int p ports ≡ names_port chunk p
          between none b x y = absurd (ground (arith, h, e, x))
          between (some a) none x y = absurd (ground (arith, h, e, x, y))
          between (some a) (some b) x y = ground (arith, h, e, x, y, mem_int-int_range p a b)
      by_ends false e = alone (int_of wide chunk) refl
        where
          alone : (a : Option ℤ) → int_of wide chunk ≡ a → mem_int p ports ≡ names_port chunk p
          alone none x = ground (arith, h, e, x)
          alone (some a) x = ground (arith, h, e, x)

  collect_ports-names_port :
      (chunks : List Text) (ports : List ℤ) (p : ℤ)
      → collect_ports wide chunks ≡ ok ports
      → mem_int p ports ≡ any (λ chunk. names_port chunk p) chunks
  unfolding collect_ports mem_int
  collect_ports-names_port [] ports p h = ground (arith, h)
  collect_ports-names_port (chunk ∷ rest) ports p h =
      let (l, first, k) =
        >>=-eq-ok (chunk_ports wide chunk)
          (λ ports. collect_ports wide rest >>= λ later. ok (ports ++ later)) h in
      let (m, later, k') = >>=-eq-ok (collect_ports wide rest) (λ later. ok (l ++ later)) k in
      let same : l ++ m ≡ ports = cc in
      subst (λ x. mem_int p x ≡ any (λ c. names_port c p) (chunk ∷ rest)) same
        (ground (
          arith,
          mem_int-append p l m,
          chunk_ports-names_port chunk l p first,
          collect_ports-names_port rest m p later,
        ))

-- The ports that a text parses to are exactly those that one of its chunks names, each of them once,
-- and all of them are from 1 to 65535.
pub parse_ports_lem :
    (wide : ℕ → Option ℕ) (value : Text) (ports : List ℤ)
    → parse_ports wide value ≡ ok ports
    → ((p : ℤ) → mem_int p ports ≡ any (λ chunk. names_port wide chunk p) (split_on b',' value))
      × (distinct_ints ports ≡ true)
      × (all (is_port wide) ports ≡ true)
unfolding parse_ports
parse_ports_lem wide value ports h =
    let (l, collected, k) = >>=-eq-ok _ _ h in
    let in_range : all (is_port wide) l ≡ true = ground (arith, k) in
    let same : unique_ints l ≡ ports = ground (arith, k) in
    (
      λ p.
          subst (λ x. mem_int p x ≡ any (λ c. names_port wide c p) (split_on b',' value)) same
            (mem_int-unique_ints p l
              ∙ collect_ports-names_port wide (split_on b',' value) l p collected),
      subst (λ x. distinct_ints x ≡ true) same (distinct-unique_ints l),
      subst (λ x. all (is_port wide) x ≡ true) same (all-unique_ints (is_port wide) l in_range),
    )
