-- ===== src/Capability/Database.antt =====
-- The database actions of bywaf/plugin/capabilities.py that are inferred from capabilities.
use bywaf.Prelude.{
  Bool, true, false, not, ◌&&◌, ◌||◌, subst, inl, inr, Bool-cases, eq-of-text_eq, Option, some,
  List, [], ◌∷◌, ◌≡◌, refl, ◌∙◌, arith, any, Text, text_eq, mem_text,
}
use bywaf.Capability.{
  DatabaseAction, view, write, manage, Actions, no_actions, add_action, collect_actions, listed,
  db_actions_for_caps, has_action, database_action_for_capability, database_action_allowed,
}

abbrev pub includes : DatabaseAction → Actions → Bool
includes view s = s.has_view
includes write s = s.has_write
includes manage s = s.has_manage

-- The capability needs exactly this action.
abbrev pub needs : DatabaseAction → Option DatabaseAction → Bool
needs view (some view) = true
needs write (some write) = true
needs manage (some manage) = true
needs _ _ = false

pub includes-listed : (a : DatabaseAction) (s : Actions) → has_action a (listed s) ≡ includes a s
unfolding listed mem_text text_eq
includes-listed view s = ground arith
includes-listed write s = ground arith
includes-listed manage s = ground arith

pub includes-add_action :
    (a : DatabaseAction) (o : Option DatabaseAction) (s : Actions)
    → includes a (add_action o s) ≡ (needs a o || includes a s)
unfolding add_action
includes-add_action view o s = ground arith
includes-add_action write o s = ground arith
includes-add_action manage o s = ground arith

collect-cons :
    (c : Text) (rest : List Text) (s : Actions)
    → collect_actions (c ∷ rest) s
      ≡ collect_actions rest (add_action (database_action_for_capability c) s)
unfolding collect_actions database_action_for_capability add_action
collect-cons c rest s = ground arith

includes-collect_actions :
    (a : DatabaseAction) (capabilities : List Text) (s : Actions)
    → includes a (collect_actions capabilities s)
      ≡ (any (λ c. needs a (database_action_for_capability c)) capabilities || includes a s)
includes-collect_actions a [] s = unfold collect_actions in refl
includes-collect_actions a (c ∷ rest) s = rw (collect-cons c rest s) (
    includes-collect_actions a rest (add_action (database_action_for_capability c) s)
    ∙ (rw (includes-add_action a (database_action_for_capability c) s) (
        swap (any (λ c. needs a (database_action_for_capability c)) rest)
          (needs a (database_action_for_capability c)) (includes a s))))
  where
    swap : (x y z : Bool) → (x || (y || z)) ≡ ((y || x) || z)
    swap x y z = ground arith

pub or_none : (a : DatabaseAction) (x : Bool) → (x || includes a no_actions) ≡ x
or_none view x = ground arith
or_none write x = ground arith
or_none manage x = ground arith

-- An action is inferred from a commandlet's capabilities exactly when one of them needs it.
pub db_actions_for_caps_lem :
    (a : DatabaseAction) (capabilities : List Text)
    → has_action a (db_actions_for_caps capabilities)
      ≡ any (λ c. needs a (database_action_for_capability c)) capabilities
unfolding db_actions_for_caps
db_actions_for_caps_lem a capabilities =
    includes-listed a (collect_actions capabilities no_actions)
    ∙ (includes-collect_actions a capabilities no_actions
        ∙ or_none a (any (λ c. needs a (database_action_for_capability c)) capabilities))

any-of-mem_text :
    (p : Text → Bool) (c : Text) (l : List Text) → mem_text c l ≡ true → p c ≡ true → any p l ≡ true
unfolding mem_text
any-of-mem_text p c [] h e = cc
any-of-mem_text p c (x ∷ l) h e = elim (Bool-cases (text_eq c x)) [
  | inl same ↦ let px : p x ≡ true = subst (λ t. p t ≡ true) (eq-of-text_eq c x same) e in rw px
  | inr other ↦ ground (arith, any-of-mem_text p c l (rw (other, mem_text) at h) e)
]

allowed-of-has_action :
    (r : DatabaseAction) (allowed : List Text)
    → has_action r allowed ≡ true
    → database_action_allowed r allowed ≡ true
unfolding database_action_allowed
allowed-of-has_action view allowed h = rw h
allowed-of-has_action write allowed h = rw h
allowed-of-has_action manage allowed h = h

-- The actions inferred from a list of capabilities allow the database action that any of these
-- capabilities needs.
pub database_action_allowed-db_actions_for_caps :
    (capability : Text) (capabilities : List Text) (r : DatabaseAction)
    → mem_text capability capabilities ≡ true
    → database_action_for_capability capability ≡ some r
    → database_action_allowed r (db_actions_for_caps capabilities) ≡ true
database_action_allowed-db_actions_for_caps capability capabilities r h e =
    allowed-of-has_action r (db_actions_for_caps capabilities) (
      db_actions_for_caps_lem r capabilities
      ∙ any-of-mem_text (λ c. needs r (database_action_for_capability c)) capability capabilities h
          (rw e (needs-self r)))
  where
    needs-self : (r : DatabaseAction) → needs r (some r) ≡ true
    needs-self view = refl
    needs-self write = refl
    needs-self manage = refl

-- What is allowed for a stronger action is allowed for each weaker one: `manage` includes `write`,
-- and `write` includes `view`.
pub database_action_allowed_mono :
    (allowed : List Text)
    → ((database_action_allowed manage allowed && not (database_action_allowed write allowed))
        ≡ false)
      × ((database_action_allowed write allowed && not (database_action_allowed view allowed))
          ≡ false)
unfolding database_action_allowed
database_action_allowed_mono allowed = ground arith
