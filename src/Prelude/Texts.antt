-- ===== src/Prelude/Texts.antt =====
-- Python's `str` as the list of its code points, with the methods that the source calls.
use Prim.Native.Nat.{ℕ}
use Prim.Native.Char.{code}
use Prim.Native.String.{String}
use mathlib.Core.Path.{◌≡◌, refl, ap₂}
use mathlib.Core.Logic.{◌↔◌}
use mathlib.Core.Bool.{Bool, true, false, ◌&&◌, ◌||◌}
use mathlib.Core.List.{List, [], ◌∷◌, ◌++◌}
use native.Mathlib.Omega.{arith}
use bywaf.Prelude.Tests.{leb, ◌==◌, if◌then◌else◌, ==_iff, &&-true}
use bywaf.Prelude.Lists.{length, drop, is_empty}

abbrev pub Text : Type 0
Text = List ℕ

-- The code points of a literal.
abbrev pub codes : String → Text
codes String.[] = []
codes (String.◌∷◌ c s) = code c ∷ codes s

-- a == b
unfoldable pub text_eq : Text → Text → Bool
text_eq [] [] = true
text_eq [] (d ∷ t) = false
text_eq (c ∷ s) [] = false
text_eq (c ∷ s) (d ∷ t) = c == d && text_eq s t

pub text_eq_refl : (s : Text) → text_eq s s ≡ true
unfolding text_eq
text_eq_refl [] = refl
text_eq_refl (c ∷ s) = ground (arith, text_eq_refl s)

pub eq-of-text_eq : (s t : Text) → text_eq s t ≡ true → s ≡ t
unfolding text_eq
eq-of-text_eq [] [] h = refl
eq-of-text_eq [] (d ∷ t) h = cc
eq-of-text_eq (c ∷ s) [] h = cc
eq-of-text_eq (c ∷ s) (d ∷ t) h =
    let (p, q) = &&-true (c == d) (text_eq s t) h in
    ap₂ (λ (x : ℕ) (y : Text). x ∷ y) ((==_iff c d).0 p) (eq-of-text_eq s t q)

pub text_eq_iff : (s t : Text) → (text_eq s t ≡ true) ↔ (s ≡ t)
text_eq_iff s t = (eq-of-text_eq s t, λ e. rw e (text_eq_refl t))

pub text_eq_comm : (s t : Text) → text_eq s t ≡ text_eq t s
unfolding text_eq
text_eq_comm [] [] = refl
text_eq_comm [] (d ∷ t) = refl
text_eq_comm (c ∷ s) [] = refl
text_eq_comm (c ∷ s) (d ∷ t) = ground (arith, text_eq_comm s t)

-- c.isspace() for one character: the code points that Python classes as white space.
unfoldable pub is_space : ℕ → Bool
is_space c =
    (leb 9 c && leb c 13)
    || (leb 28 c && leb c 32)
    || c == 0x85
    || c == 0xa0
    || c == 0x1680
    || (leb 0x2000 c && leb c 0x200a)
    || c == 0x2028
    || c == 0x2029
    || c == 0x202f
    || c == 0x205f
    || c == 0x3000

-- s.lstrip()
unfoldable pub lstrip : Text → Text
lstrip [] = []
lstrip (c ∷ s) = let rest = lstrip s in if is_space c then rest else c ∷ s

-- s.rstrip()
unfoldable pub rstrip : Text → Text
rstrip [] = []
rstrip (c ∷ s) = let rest = rstrip s in if is_empty rest && is_space c then [] else c ∷ rest

-- s.strip()
unfoldable pub strip : Text → Text
strip s = rstrip (lstrip s)

-- s.startswith(prefix)
unfoldable pub starts_with : Text → Text → Bool
starts_with [] s = true
starts_with (c ∷ p) [] = false
starts_with (c ∷ p) (d ∷ s) = c == d && starts_with p s

-- c in s, for one character
unfoldable pub contains_char : ℕ → Text → Bool
contains_char c [] = false
contains_char c (d ∷ s) = c == d || contains_char c s

-- s.partition(c) for one character: what stands before, whether `c` was found, what stands after
pub record Partition : Type 0 where
  pub before : Text
  pub found : Bool
  pub after : Text

unfoldable pub partition : ℕ → Text → Partition
partition c [] = record { before = []; found = false; after = [] }
partition c (d ∷ s) =
    let rest = partition c s in
    if c == d
    then record { before = []; found = true; after = s }
    else record { before = d ∷ rest.before; found = rest.found; after = rest.after }

-- A character in front of the first of some texts.
abbrev pub onto_first : ℕ → List Text → List Text
onto_first c [] = (c ∷ []) ∷ []
onto_first c (s ∷ rest) = (c ∷ s) ∷ rest

-- s.split(c) for one character
unfoldable pub split_on : ℕ → Text → List Text
split_on c [] = [] ∷ []
split_on c (d ∷ s) = let rest = split_on c s in if c == d then [] ∷ rest else onto_first d rest

-- k in texts
unfoldable pub mem_text : Text → List Text → Bool
mem_text k [] = false
mem_text k (j ∷ l) = text_eq k j || mem_text k l

-- A prefix test holds exactly of the texts that begin with the prefix.
pub starts_with-append : (p s : Text) → starts_with p (p ++ s) ≡ true
unfolding starts_with
starts_with-append [] s = refl
starts_with-append (c ∷ p) s = ground (arith, starts_with-append p s)

pub append-of-starts_with : (p s : Text) → starts_with p s ≡ true → p ++ drop (length p) s ≡ s
unfolding starts_with
append-of-starts_with [] s h = refl
append-of-starts_with (c ∷ p) [] h = cc
append-of-starts_with (c ∷ p) (d ∷ s) h =
    let (e, r) = &&-true (c == d) (starts_with p s) h in
    ap₂ (λ (x : ℕ) (y : Text). x ∷ y) ((==_iff c d).0 e) (append-of-starts_with p s r)
