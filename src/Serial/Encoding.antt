-- ===== src/Serial/Encoding.antt =====
-- crockford_base32 of bywaf/db/support.py.
use bywaf.Prelude.{
  ℕ, zero, suc, ◌*◌, ◌/◌, ◌%◌, ◌^◌, ◌<◌, Bool, true, ◌&&◌, ◌==◌, if◌then◌else◌, [], ◌∷◌, ◌++◌, all,
  length, length-append, ◌≡◌, refl, sym, ◌∙◌, ap, arith, Text, contains_char, append-nil,
  append_assoc,
}
use bywaf.Serial.{crockford_alphabet, digit_char, base32_chars, reversed, crockford_base32}

-- The place of a character in a text.
index_of : ℕ → Text → ℕ
index_of c [] = 0
index_of c (d ∷ s) = let later = index_of c s in if c == d then 0 else suc later

all_below : ℕ → (ℕ → Bool) → Bool
all_below zero p = true
all_below (suc n) p = p n && all_below n p

below : (n : ℕ) (p : ℕ → Bool) (x : ℕ) → all_below n p ≡ true → x < n → p x ≡ true
unfolding all_below
below zero p x h lt = absurd (omega arith)
below (suc n) p x h lt = ground (arith, h, below n p x)

digit_table :
    all_below 32 (λ d.
      index_of (digit_char d) crockford_alphabet == d
      && contains_char (digit_char d) crockford_alphabet)
    ≡ true
unfolding all_below index_of digit_char contains_char
digit_table = refl

digit_char-injective : (d e : ℕ) → d < 32 → e < 32 → digit_char d ≡ digit_char e → d ≡ e
digit_char-injective d e hd he h =
    let p = below 32 _ d digit_table hd in
    let q = below 32 _ e digit_table he in ground (arith, p, q, h)

digit_char-listed : (d : ℕ) → d < 32 → contains_char (digit_char d) crockford_alphabet ≡ true
digit_char-listed d h = let p = below 32 _ d digit_table h in ground (arith, p)

pow_suc : (n : ℕ) → 32 ^ suc n ≡ 32 * 32 ^ n
pow_suc n = omega arith

base32_chars-injective :
    (n v w : ℕ) → v < 32 ^ n → w < 32 ^ n → base32_chars n v ≡ base32_chars n w → v ≡ w
unfolding base32_chars
base32_chars-injective zero v w hv hw h = omega arith
base32_chars-injective (suc n) v w hv hw h =
    let first : digit_char (v % 32) ≡ digit_char (w % 32) = cc in
    let others : base32_chars n (v / 32) ≡ base32_chars n (w / 32) = cc in
    let last : v % 32 ≡ w % 32 =
      digit_char-injective (v % 32) (w % 32) (omega arith) (omega arith) first in
    let front : v / 32 ≡ w / 32 =
      base32_chars-injective n (v / 32) (w / 32) (omega (arith, pow_suc n))
        (omega (arith, pow_suc n)) others in
    omega (arith, last, front)

reversed-append : (s t : Text) → reversed (s ++ t) ≡ reversed t ++ reversed s
unfolding reversed
reversed-append [] t = sym (append-nil (reversed t))
reversed-append (c ∷ s) t =
    ap (λ l. l ++ c ∷ []) (reversed-append s t) ∙ append_assoc (reversed t) (reversed s) (c ∷ [])

reversed-reversed : (s : Text) → reversed (reversed s) ≡ s
unfolding reversed
reversed-reversed [] = refl
reversed-reversed (c ∷ s) =
    reversed-append (reversed s) (c ∷ []) ∙ ap (λ (l : Text). c ∷ l) (reversed-reversed s)

length-reversed : (s : Text) → length (reversed s) ≡ length s
unfolding reversed
length-reversed [] = refl
length-reversed (c ∷ s) =
    omega (arith, length-append {A = ℕ} (reversed s) (c ∷ []), length-reversed s)

length-base32_chars : (n v : ℕ) → length (base32_chars n v) ≡ n
unfolding base32_chars
length-base32_chars zero v = refl
length-base32_chars (suc n) v = ap suc (length-base32_chars n (v / 32))

-- In the alphabet.
abbrev pub is_base32 : Text → Bool
is_base32 s = all (λ c. contains_char c crockford_alphabet) s

is_base32-append : (s t : Text) → is_base32 (s ++ t) ≡ (is_base32 s && is_base32 t)
is_base32-append [] t = refl
is_base32-append (c ∷ s) t = ground (arith, is_base32-append s t)

is_base32-chars : (n v : ℕ) → is_base32 (base32_chars n v) ≡ true
unfolding base32_chars
is_base32-chars zero v = refl
is_base32-chars (suc n) v =
    rw (digit_char-listed (v % 32) (omega arith)) (is_base32-chars n (v / 32))

is_base32-reversed : (s : Text) → is_base32 (reversed s) ≡ is_base32 s
unfolding reversed
is_base32-reversed [] = refl
is_base32-reversed (c ∷ s) =
    ground (arith, is_base32-append (reversed s) (c ∷ []), is_base32-reversed s)

-- Whatever the number, its text has exactly the given length, and only characters of the alphabet.
pub crockford_base32_bounds :
    (n v : ℕ) → (length (crockford_base32 n v) ≡ n) × (is_base32 (crockford_base32 n v) ≡ true)
unfolding crockford_base32
crockford_base32_bounds n v = (
  length-reversed (base32_chars n v) ∙ length-base32_chars n v,
  is_base32-reversed (base32_chars n v) ∙ is_base32-chars n v,
)

-- Numbers that fit the length, as 128 random bits fit the 26 characters of a serial, have different
-- texts: numbers below 32 ^ n with the same text of length n are equal.
pub crockford_base32-injective :
    (n v w : ℕ) → v < 32 ^ n → w < 32 ^ n → crockford_base32 n v ≡ crockford_base32 n w → v ≡ w
unfolding crockford_base32
crockford_base32-injective n v w hv hw h = base32_chars-injective n v w hv hw (
    sym (reversed-reversed (base32_chars n v))
    ∙ ap reversed h
    ∙ reversed-reversed (base32_chars n w))
