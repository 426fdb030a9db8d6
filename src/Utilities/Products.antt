-- ===== src/Utilities/Products.antt =====
-- The product of lists that bywaf/utils.py takes from itertools: its length, and its members.
use bywaf.Prelude.{
  ℕ, ◌*◌, ◌&&◌, Bool, true, false, List, [], ◌∷◌, ◌++◌, map, length, length-append, ◌≡◌, refl, ◌∙◌,
  ap, subst, arith, Text, text_eq_refl, mem_text, mem_text-append, ℤ, mem_int, int_eq, int_eq_iff,
  &&-true, Bool-cases, inl, inr,
}
use bywaf.Utilities.{before_each, product}

-- How many addresses the ranges of the octets span.
unfoldable pub spanned : List (List ℤ) → ℕ
spanned [] = 1
spanned (octets ∷ rest) = length octets * spanned rest

pub length-map : {A B : Type 0} (f : A → B) (l : List A) → length (map f l) ≡ length l
length-map f [] = refl
length-map f (x ∷ l) = ground (arith, length-map f l)

length-before_each :
    (octets : List ℤ) (combos : List (List ℤ))
    → length (before_each octets combos) ≡ length octets * length combos
unfolding before_each
length-before_each [] combos = omega arith
length-before_each (octet ∷ octets) combos =
    length-append (map (λ combo. octet ∷ combo) combos) (before_each octets combos)
    ∙ ground (arith, length-map (λ combo. octet ∷ combo) combos, length-before_each octets combos)

pub length-product : (octets : List (List ℤ)) → length (product octets) ≡ spanned octets
unfolding product spanned
length-product [] = refl
length-product (l ∷ rest) =
    length-before_each l (product rest) ∙ ap (λ n. length l * n) (length-product rest)

-- One octet of each list.
unfoldable pub chosen : List (List ℤ) → List ℤ → Bool
chosen [] [] = true
chosen [] (n ∷ combo) = false
chosen (octets ∷ rest) [] = false
chosen (octets ∷ rest) (n ∷ combo) = mem_int n octets && chosen rest combo

map-map :
    {A B C : Type 0} (g : B → C) (f : A → B) (l : List A) → map g (map f l) ≡ map (λ x. g (f x)) l
map-map g f [] = refl
map-map g f (x ∷ l) = ap (λ m. g (f x) ∷ m) (map-map g f l)

map-append : {A B : Type 0} (f : A → B) (l m : List A) → map f (l ++ m) ≡ map f l ++ map f m
map-append f [] m = refl
map-append f (x ∷ l) m = ap (λ r. f x ∷ r) (map-append f l m)

mem_text-before_each :
    (f : List ℤ → Text) (k : Text) (n : ℤ) (octets : List ℤ) (combos : List (List ℤ))
    → mem_int n octets ≡ true
    → mem_text k (map (λ combo. f (n ∷ combo)) combos) ≡ true
    → mem_text k (map f (before_each octets combos)) ≡ true
unfolding before_each mem_int
mem_text-before_each f k n [] combos m h = cc
mem_text-before_each f k n (octet ∷ octets) combos m h =
    rw (map-append, map-map, mem_text-append)
      (elim (Bool-cases (int_eq n octet)) [
        | inl same ↦
            let e : n ≡ octet = (int_eq_iff n octet).0 same in
            let here : mem_text k (map (λ combo. f (octet ∷ combo)) combos) ≡ true =
              subst (λ o. mem_text k (map (λ combo. f (o ∷ combo)) combos) ≡ true) e h in
            ground (arith, here)
        | inr other ↦
            let later = mem_text-before_each f k n octets combos (ground (arith, m, other)) h in
            ground (arith, later)
      ])

pub mem_text-product :
    (f : List ℤ → Text) (octets : List (List ℤ)) (combo : List ℤ)
    → chosen octets combo ≡ true
    → mem_text (f combo) (map f (product octets)) ≡ true
unfolding product chosen mem_text
mem_text-product f [] [] h = rw text_eq_refl
mem_text-product f [] (n ∷ combo) h = cc
mem_text-product f (octets ∷ rest) [] h = cc
mem_text-product f (octets ∷ rest) (n ∷ combo) h =
    let (here, later) = &&-true (mem_int n octets) (chosen rest combo) h in
    mem_text-before_each f (f (n ∷ combo)) n octets (product rest) here
      (mem_text-product (λ c. f (n ∷ c)) rest combo later)
