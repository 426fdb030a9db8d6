-- ===== src/Prelude/Integers.antt =====
-- Python's integers: `int` of a text, the order, and `range`.
use Prim.Native.Nat.{ℕ, zero, suc, ◌+◌, ◌-◌, ◌*◌, ◌/◌, ◌%◌}
use mathlib.Core.Path.{◌≡◌, refl, sym, subst, ◌∙◌}
use mathlib.Core.Logic.{◌↔◌}
use mathlib.Core.Bool.{Bool, true, false, ◌&&◌, ◌||◌}
use mathlib.Core.Option.{Option, none, some}
use mathlib.Core.List.{List, [], ◌∷◌, ◌++◌}
use native.Mathlib.Omega.{arith}
use bywaf.Prelude.Tests.{ltb, leb, ◌==◌, if◌then◌else◌, &&-true}
use bywaf.Prelude.Lists.{all, is_empty, length}
use bywaf.Prelude.Texts.{Text, strip}

pub data ℤ : Type 0 where
  pos negsuc : ℕ → ℤ

-- a == b
unfoldable pub int_eq : ℤ → ℤ → Bool
int_eq (pos a) (pos b) = a == b
int_eq (pos a) (negsuc b) = false
int_eq (negsuc a) (pos b) = false
int_eq (negsuc a) (negsuc b) = a == b

-- a <= b
unfoldable pub int_le : ℤ → ℤ → Bool
int_le (pos a) (pos b) = leb a b
int_le (pos a) (negsuc b) = false
int_le (negsuc a) (pos b) = true
int_le (negsuc a) (negsuc b) = leb b a

unfoldable pub mem_int : ℤ → List ℤ → Bool
mem_int k [] = false
mem_int k (x ∷ l) = int_eq k x || mem_int k l

-- a + 1
unfoldable pub next_int : ℤ → ℤ
next_int (pos a) = pos (suc a)
next_int (negsuc zero) = pos zero
next_int (negsuc (suc a)) = negsuc a

-- b - a, and 0 where a > b
unfoldable pub gap : ℤ → ℤ → ℕ
gap (pos a) (pos b) = b - a
gap (pos a) (negsuc b) = 0
gap (negsuc a) (pos b) = b + suc a
gap (negsuc a) (negsuc b) = a - b

-- The integers from `a` on, in their order.
unfoldable pub ints_from : ℤ → ℕ → List ℤ
ints_from a zero = []
ints_from a (suc n) = a ∷ ints_from (next_int a) n

-- range(a, b + 1)
unfoldable pub int_range : ℤ → ℤ → List ℤ
int_range a b = if int_le a b then ints_from a (suc (gap a b)) else []

mem_int-step :
    (p a : ℤ) (n : ℕ)
    → (int_eq p a || (int_le (next_int a) p && ltb (gap (next_int a) p) n))
      ≡ (int_le a p && ltb (gap a p) (suc n))
unfolding int_eq int_le next_int gap
mem_int-step (pos p) (pos a) n = ground arith
mem_int-step (pos p) (negsuc zero) n = ground arith
mem_int-step (pos p) (negsuc (suc a)) n = ground arith
mem_int-step (negsuc p) (pos a) n = ground arith
mem_int-step (negsuc p) (negsuc zero) n = ground arith
mem_int-step (negsuc p) (negsuc (suc a)) n = ground arith

mem_int-ints_from : (p a : ℤ) (n : ℕ) → mem_int p (ints_from a n) ≡ (int_le a p && ltb (gap a p) n)
unfolding mem_int ints_from
mem_int-ints_from p a zero = ground arith
mem_int-ints_from p a (suc n) = rw (mem_int-ints_from p (next_int a) n) (mem_int-step p a n)

gap-le :
    (a b p : ℤ)
    → (int_le a b && (int_le a p && ltb (gap a p) (suc (gap a b)))) ≡ (int_le a p && int_le p b)
unfolding int_le gap
gap-le (pos a) (pos b) (pos p) = ground arith
gap-le (pos a) (pos b) (negsuc p) = ground arith
gap-le (pos a) (negsuc b) (pos p) = ground arith
gap-le (pos a) (negsuc b) (negsuc p) = ground arith
gap-le (negsuc a) (pos b) (pos p) = ground arith
gap-le (negsuc a) (pos b) (negsuc p) = ground arith
gap-le (negsuc a) (negsuc b) (pos p) = ground arith
gap-le (negsuc a) (negsuc b) (negsuc p) = ground arith

-- A range has the integers between its ends.
pub mem_int-int_range : (p a b : ℤ) → mem_int p (int_range a b) ≡ (int_le a p && int_le p b)
unfolding int_range mem_int
mem_int-int_range p a b = ground (arith, mem_int-ints_from p a (suc (gap a b)), gap-le a b p)

int_eq_lem : (a b : ℤ) → int_eq a b ≡ true → a ≡ b
unfolding int_eq
int_eq_lem (pos a) (pos b) h = ground (arith, h)
int_eq_lem (pos a) (negsuc b) h = cc
int_eq_lem (negsuc a) (pos b) h = cc
int_eq_lem (negsuc a) (negsuc b) h = ground (arith, h)

int_eq_refl : (a : ℤ) → int_eq a a ≡ true
unfolding int_eq
int_eq_refl (pos a) = ground arith
int_eq_refl (negsuc a) = ground arith

pub int_eq_iff : (a b : ℤ) → (int_eq a b ≡ true) ↔ (a ≡ b)
int_eq_iff a b = (int_eq_lem a b, λ e. subst (λ c. int_eq a c ≡ true) e (int_eq_refl a))

all-of-mem_int :
    (f : ℤ → Bool) (l : List ℤ) → ((p : ℤ) → mem_int p l ≡ true → f p ≡ true) → all f l ≡ true
unfolding mem_int
all-of-mem_int f [] h = refl
all-of-mem_int f (x ∷ l) h =
    rw (h x (ground (arith, int_eq_refl x))) (all-of-mem_int f l (λ p m. h p (ground (arith, m))))

pub all-int_range :
    (f : ℤ → Bool) (a b : ℤ)
    → ((p : ℤ) → int_le a p ≡ true → int_le p b ≡ true → f p ≡ true)
    → all f (int_range a b) ≡ true
all-int_range f a b h = all-of-mem_int f (int_range a b) λ p m.
    let (low, high) = &&-true (int_le a p) (int_le p b) (sym (mem_int-int_range p a b) ∙ m) in
    h p low high

pub is_empty-int_range : (a b : ℤ) → int_le a b ≡ true → is_empty (int_range a b) ≡ false
unfolding int_range ints_from
is_empty-int_range a b h = ground (arith, h)

-- The value of a decimal digit, given that of the digits beyond ASCII.
unfoldable pub digit_value : (ℕ → Option ℕ) → ℕ → Option ℕ
digit_value wide c =
    if leb b'0' c && leb c b'9' then some (c - 48) else if ltb c 128 then none else wide c

-- The digits, with single underscores between them; `after_digit` is whether a digit stands before.
unfoldable pub digits_value : (ℕ → Option ℕ) → Bool → ℕ → Text → Option ℕ
digits_value wide after_digit value [] = if after_digit then some value else none
digits_value wide after_digit value (c ∷ s) = elim (digit_value wide c) [
  | some d ↦ digits_value wide true (10 * value + d) s
  | none ↦ if c == b'_' && after_digit then digits_value wide false value s else none
]

abbrev positive : Option ℕ → Option ℤ
positive none = none
positive (some n) = some (pos n)

abbrev negative : Option ℕ → Option ℤ
negative none = none
negative (some zero) = some (pos zero)
negative (some (suc n)) = some (negsuc n)

-- int(text), and none for a ValueError. The limit on the number of digits is left out.
unfoldable pub signed_value : (ℕ → Option ℕ) → Text → Option ℤ
signed_value wide [] = none
signed_value wide (c ∷ s) =
    if c == b'-'
    then negative (digits_value wide false 0 s)
    else if c == b'+'
    then positive (digits_value wide false 0 s)
    else positive (digits_value wide false 0 (c ∷ s))

unfoldable pub int_of : (ℕ → Option ℕ) → Text → Option ℤ
int_of wide text = signed_value wide (strip text)

pub int_le_trans : (a b c : ℤ) → int_le a b ≡ true → int_le b c ≡ true → int_le a c ≡ true
unfolding int_le
int_le_trans (pos a) (pos b) (pos c) h k = ground (arith, h, k)
int_le_trans (pos a) (pos b) (negsuc c) h k = k
int_le_trans (pos a) (negsuc b) c h k = cc
int_le_trans (negsuc a) b (pos c) h k = refl
int_le_trans (negsuc a) (pos b) (negsuc c) h k = cc
int_le_trans (negsuc a) (negsuc b) (negsuc c) h k = ground (arith, h, k)

-- The decimal digits of a number, on fuel, of which each digit takes one.
unfoldable pub digits_of : ℕ → ℕ → Text
digits_of zero n = []
digits_of (suc fuel) n =
    let rest = digits_of fuel (n / 10) in
    if ltb n 10 then (48 + n) ∷ [] else rest ++ (48 + n % 10) ∷ []

-- str(a); a number has no more digits than its value, so the fuel is enough.
unfoldable pub int_text : ℤ → Text
int_text (pos n) = digits_of (suc n) n
int_text (negsuc n) = b'-' ∷ digits_of (suc (suc n)) (suc n)

length-ints_from : (a : ℤ) (n : ℕ) → length (ints_from a n) ≡ n
unfolding ints_from
length-ints_from a zero = refl
length-ints_from a (suc n) = ground (arith, length-ints_from (next_int a) n)

-- From one integer to another that is no less there are one more than their difference.
pub length-int_range : (a b : ℕ) → leb a b ≡ true → length (int_range (pos a) (pos b)) ≡ suc (b - a)
unfolding int_range int_le gap
length-int_range a b h = rw h (length-ints_from (pos a) (suc (b - a)))
