-- ===== src/Prelude/Strip.antt =====
-- `strip`, `rstrip` and the last character of a text that is given by its parts.
use Prim.Native.Nat.{ℕ}
use mathlib.Core.Path.{◌≡◌, refl, ap}
use mathlib.Core.Bool.{true, false}
use mathlib.Core.List.{List, [], ◌∷◌, ◌++◌}
use mathlib.Core.Option.{some}
use native.Mathlib.Omega.{arith}
use bywaf.Prelude.Lists.{all, length, get_elem?, last?, init}
use bywaf.Prelude.Texts.{Text, is_space, rstrip}

pub rstrip-blank : (ws : Text) → all is_space ws ≡ true → rstrip ws ≡ []
unfolding rstrip
rstrip-blank [] h = refl
rstrip-blank (c ∷ ws) h = ground (arith, rstrip-blank ws)

pub rstrip-append_blank :
    (s : Text) (c : ℕ) (ws : Text)
    → is_space c ≡ false
    → all is_space ws ≡ true
    → rstrip (s ++ c ∷ ws) ≡ s ++ c ∷ []
unfolding rstrip
rstrip-append_blank [] c ws hc h = ground (arith, rstrip-blank ws)
rstrip-append_blank (d ∷ []) c ws hc h = ground (arith, rstrip-append_blank [] c ws hc h)
rstrip-append_blank (d ∷ e ∷ s) c ws hc h = ground (arith, rstrip-append_blank (e ∷ s) c ws hc h)

pub rstrip-snoc_blank : (s : Text) (c : ℕ) → is_space c ≡ true → rstrip (s ++ c ∷ []) ≡ rstrip s
unfolding rstrip
rstrip-snoc_blank [] c h = ground arith
rstrip-snoc_blank (d ∷ s) c h = ground (arith, rstrip-snoc_blank s c h)

pub last?-snoc {ℓ} : {A : Type ℓ} (s : List A) (c : A) → last? (s ++ c ∷ []) ≡ some c
last?-snoc [] c = refl
last?-snoc (d ∷ []) c = refl
last?-snoc (d ∷ e ∷ s) c = last?-snoc (e ∷ s) c

pub init-snoc {ℓ} : {A : Type ℓ} (s : List A) (c : A) → init (s ++ c ∷ []) ≡ s
init-snoc [] c = refl
init-snoc (d ∷ []) c = refl
init-snoc (d ∷ e ∷ s) c = ap (λ l. d ∷ l) (init-snoc (e ∷ s) c)

pub get_elem?-append : (s : Text) (c : ℕ) (t : Text) → get_elem? (s ++ c ∷ t) (length s) ≡ some c
get_elem?-append [] c t = refl
get_elem?-append (d ∷ s) c t = get_elem?-append s c t
