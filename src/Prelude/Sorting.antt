-- ===== src/Prelude/Sorting.antt =====
-- Python's `sorted` and `set` on texts, compared by their code points.
use mathlib.Core.Path.{◌≡◌, refl}
use mathlib.Core.Bool.{Bool, true, false, not, ◌&&◌, ◌||◌}
use mathlib.Core.List.{List, [], ◌∷◌, ◌++◌}
use native.Mathlib.Omega.{arith}
use bywaf.Prelude.Tests.{ltb, ◌==◌, if◌then◌else◌}
use bywaf.Prelude.Texts.{Text, text_eq, text_eq_iff, text_eq_refl, mem_text}

-- s <= t
unfoldable pub text_le : Text → Text → Bool
text_le [] t = true
text_le (c ∷ s) [] = false
text_le (c ∷ s) (d ∷ t) = ltb c d || (c == d && text_le s t)

unfoldable pub insert_text : Text → List Text → List Text
insert_text x [] = x ∷ []
insert_text x (y ∷ l) = let rest = insert_text x l in if text_le x y then x ∷ y ∷ l else y ∷ rest

-- sorted(texts)
unfoldable pub sort_texts : List Text → List Text
sort_texts [] = []
sort_texts (x ∷ l) = insert_text x (sort_texts l)

unfoldable pub without : Text → List Text → List Text
without name [] = []
without name (j ∷ rest) = let kept = without name rest in if text_eq name j then kept else j ∷ kept

-- dict.fromkeys(names): each name once, where it stands first
unfoldable pub unique_texts : List Text → List Text
unique_texts [] = []
unique_texts (name ∷ rest) = name ∷ without name (unique_texts rest)

-- sorted(set(texts))
unfoldable pub sorted_set : List Text → List Text
sorted_set values = sort_texts (unique_texts values)

mem_text-insert_text :
    (k x : Text) (l : List Text) → mem_text k (insert_text x l) ≡ (text_eq k x || mem_text k l)
unfolding insert_text mem_text
mem_text-insert_text k x [] = refl
mem_text-insert_text k x (y ∷ l) = ground (arith, mem_text-insert_text k x l)

-- Sorting keeps the elements.
pub mem_text-sort_texts : (k : Text) (l : List Text) → mem_text k (sort_texts l) ≡ mem_text k l
unfolding sort_texts mem_text
mem_text-sort_texts k [] = refl
mem_text-sort_texts k (x ∷ l) =
    ground (arith, mem_text-insert_text k x (sort_texts l), mem_text-sort_texts k l)

mem_text-without :
    (k n : Text) (l : List Text) → mem_text k (without n l) ≡ (not (text_eq n k) && mem_text k l)
unfolding without mem_text
mem_text-without k n [] = ground arith
mem_text-without k n (j ∷ l) =
    ground (arith, mem_text-without k n l, text_eq_iff n j, text_eq_iff n k, text_eq_iff k j)

pub mem_text-unique_texts : (k : Text) (l : List Text) → mem_text k (unique_texts l) ≡ mem_text k l
unfolding unique_texts mem_text
mem_text-unique_texts k [] = refl
mem_text-unique_texts k (x ∷ l) = ground (
  arith,
  mem_text-without k x (unique_texts l),
  mem_text-unique_texts k l,
  text_eq_iff k x,
  text_eq_iff x k,
)

pub mem_text-sorted_set : (k : Text) (l : List Text) → mem_text k (sorted_set l) ≡ mem_text k l
unfolding sorted_set
mem_text-sorted_set k l = rw (mem_text-sort_texts, mem_text-unique_texts)

unfoldable pub distinct : List Text → Bool
distinct [] = true
distinct (x ∷ l) = not (mem_text x l) && distinct l

distinct-insert_text :
    (x : Text) (l : List Text)
    → mem_text x l ≡ false
    → distinct l ≡ true
    → distinct (insert_text x l) ≡ true
unfolding insert_text mem_text distinct
distinct-insert_text x [] h d = refl
distinct-insert_text x (y ∷ l) h d = ground (
  arith,
  h,
  d,
  distinct-insert_text x l,
  mem_text-insert_text y x l,
  text_eq_iff x y,
  text_eq_iff y x,
)

distinct-sort_texts : (l : List Text) → distinct l ≡ true → distinct (sort_texts l) ≡ true
unfolding sort_texts distinct
distinct-sort_texts [] d = refl
distinct-sort_texts (x ∷ l) d =
    distinct-insert_text x (sort_texts l) (ground (arith, d, mem_text-sort_texts x l))
      (distinct-sort_texts l (ground (arith, d)))

distinct-without : (n : Text) (l : List Text) → distinct l ≡ true → distinct (without n l) ≡ true
unfolding without distinct
distinct-without n [] d = refl
distinct-without n (x ∷ l) d = ground (arith, d, distinct-without n l, mem_text-without x n l)

distinct-unique_texts : (l : List Text) → distinct (unique_texts l) ≡ true
unfolding unique_texts distinct
distinct-unique_texts [] = refl
distinct-unique_texts (x ∷ l) = ground (
  arith,
  mem_text-without x x (unique_texts l),
  text_eq_refl x,
  distinct-without x (unique_texts l) (distinct-unique_texts l),
)

-- A set that is sorted has each element once.
pub distinct-sorted_set : (l : List Text) → distinct (sorted_set l) ≡ true
unfolding sorted_set
distinct-sorted_set l = distinct-sort_texts (unique_texts l) (distinct-unique_texts l)

pub mem_text-append :
    (k : Text) (l m : List Text) → mem_text k (l ++ m) ≡ (mem_text k l || mem_text k m)
unfolding mem_text
mem_text-append k [] m = refl
mem_text-append k (x ∷ l) m = ground (arith, mem_text-append k l m)
