-- ===== src/Prelude/Errors.antt =====
-- Python's exceptions as values. A `ValueError` and a `PermissionError` are told apart by the
-- constructor, and by the message that the source raises it with.
use mathlib.Core.Path.{◌≡◌, refl, subst}
use mathlib.Core.List.{List}
use mathlib.Core.Bool.{Bool, true, false}
use mathlib.Core.Logic.{◌⊎◌, inl, inr}
use Prim.Native.Nat.{ℕ}

-- The message, with the texts that the source formats into it.
pub data Error : Type 0 where
  no_closing_quotation no_escaped_character empty_command empty_pipeline : Error
  requires_value unknown_variable : List ℕ → Error
  unterminated_reference empty_reference : Error
  from_requires_source topic_only_narrows : Error
  from_key_requires_value : List ℕ → Error
  unqualified_names_only bad_provider_scope : Error
  provider_variable_not_declared : List ℕ → Error
  undeclared_capability database_action_denied : List ℕ → Error
  invalid_dependencies missing_commandlets : List (List ℕ) → Error
  manifest_mismatch : List ℕ → List ℕ → Error
  bad_filter no_unique_serial unknown_action_mode missing_argument : Error
  bad_integer port_out_of_range empty_selector_value empty_excluded_value requires_selector_value
        bad_event_sort :
      Error
  bad_octet octet_out_of_range descending_octets bad_ipv4_range bad_manifest : List ℕ → Error
  invalid_catalog_path requires_plugins_cycle missing_key unknown_database_action ambiguous_serial :
      List ℕ → Error
  -- No exception of the source: a loop that recurs on fuel has none left.
  no_fuel : Error

pub data Result {ℓ} (A : Type ℓ) : Type ℓ where
  ok : A → Result A
  err : Error → Result A

abbrev pub is_ok {ℓ} : {A : Type ℓ} → Result A → Bool
is_ok (ok x) = true
is_ok (err e) = false

infixl 5 ◌>>=◌
abbrev pub ◌>>=◌ {ℓ κ} : {A : Type ℓ} {B : Type κ} → Result A → (A → Result B) → Result B
err raised >>= next = err raised
ok x >>= next = next x

infixl 5 ◌>>◌
abbrev pub ◌>>◌ {ℓ} : {B : Type ℓ} → Result (Unit {0}) → Result B → Result B
first >> then_ = first >>= λ done. then_

pub Result-cases {ℓ} :
    {A : Type ℓ} (r : Result A) → ((a : A) × (r ≡ ok a)) ⊎ ((e : Error) × (r ≡ err e))
Result-cases (ok a) = inl (a, refl)
Result-cases (err e) = inr (e, refl)

-- A chain that returns `y` has a first action that returns.
pub >>=-eq-ok {ℓ κ} :
    {A : Type ℓ} {B : Type κ} (r : Result A) (next : A → Result B) {y : B}
    → (r >>= next) ≡ ok y
    → (x : A) × (r ≡ ok x) × (next x ≡ ok y)
>>=-eq-ok (err raised) next e = cc
>>=-eq-ok (ok x) next e = (x, refl, e)

-- A result that satisfies `P` wherever it is one.
pub data Ensures {ℓ κ} {A : Type ℓ} (P : A → Type κ) : Result A → Type (ℓ ⊔ κ) where
  returns : {a : A} → P a → Ensures P (ok a)
  raises : {e : Error} → Ensures P (err e)

pub Ensures-bind {ℓ κ μ} :
    {A : Type ℓ} {B : Type κ} (P : B → Type μ) (m : Result A) (f : A → Result B)
    → ((a : A) → m ≡ ok a → Ensures P (f a))
    → Ensures P (m >>= f)
Ensures-bind P (ok a) f k = k a refl
Ensures-bind P (err e) f k = raises

abbrev Holds {ℓ κ} : {A : Type ℓ} (P : A → Type κ) → Result A → Type κ
Holds P (ok a) = P a
Holds P (err e) = Unit

Ensures-Holds {ℓ κ} : {A : Type ℓ} (P : A → Type κ) {r : Result A} → Ensures P r → Holds P r
Ensures-Holds P (returns p) = p
Ensures-Holds P raises = tt

pub Ensures-ok {ℓ κ} :
    {A : Type ℓ} (P : A → Type κ) (r : Result A) (a : A) → Ensures P r → r ≡ ok a → P a
Ensures-ok P r a h e = subst (Holds P) e (Ensures-Holds P h)

-- What holds of a result holds of a weaker predicate.
pub Ensures-imp {ℓ κ μ} :
    {A : Type ℓ} (P : A → Type κ) (Q : A → Type μ) (r : Result A)
    → ((a : A) → P a → Q a)
    → Ensures P r
    → Ensures Q r
Ensures-imp P Q (ok a) f h = returns (f a (Ensures-ok P (ok a) a h refl))
Ensures-imp P Q (err e) f h = raises

pub bind_assoc {ℓ κ μ} :
    {A : Type ℓ} {B : Type κ} {C : Type μ} (r : Result A) (f : A → Result B) (g : B → Result C)
    → ((r >>= f) >>= g) ≡ (r >>= λ x. f x >>= g)
bind_assoc (ok x) f g = refl
bind_assoc (err e) f g = refl
