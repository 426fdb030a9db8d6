-- ===== src/Arguments/Actions.antt =====
-- effective_database_actions of bywaf/runner/stages/arguments.py.
use bywaf.Prelude.{
  Bool, false, ◌&&◌, ◌||◌, if◌then◌else◌, Option, none, some, is_some, List, [], ◌∷◌, all, any, ◌≡◌,
  refl, ◌∙◌, arith, Text, text_eq, mem_text, Result, ok, err, is_ok, text_eq_iff, text_eq_comm,
  ◌>>=◌, unknown_database_action,
}
use bywaf.Capability.{
  DatabaseAction, view, write, manage, Actions, no_actions, add_action, action_name, listed,
  has_action,
}
use bywaf.Capability.Database.{includes, needs, includes-listed, includes-add_action, or_none}

unfoldable pub named_action : Text → Option DatabaseAction
named_action name =
    if text_eq name (action_name view)
    then some view
    else if text_eq name (action_name write)
    then some write
    else if text_eq name (action_name manage)
    then some manage
    else none

-- `str(action)` of each action that the classifier, or else the spec, gives.
unfoldable pub collect_named : List Text → Actions → Result Actions
collect_named [] seen = ok seen
collect_named (name ∷ rest) seen = elim (named_action name) [
  | none ↦ err (unknown_database_action name)
  | some action ↦ collect_named rest (add_action (some action) seen)
]

unfoldable pub effective_database_actions : List Text → Result (List Text)
effective_database_actions actions = collect_named actions no_actions >>= λ seen. ok (listed seen)

-- The name is that of the action.
abbrev pub names : DatabaseAction → Text → Bool
names action name = needs action (named_action name)

distinct :
    (text_eq (action_name view) (action_name write) ≡ false)
    × (text_eq (action_name view) (action_name manage) ≡ false)
    × (text_eq (action_name write) (action_name manage) ≡ false)
unfolding text_eq
distinct = (refl, refl, refl)

names_eq : (a : DatabaseAction) (name : Text) → names a name ≡ text_eq (action_name a) name
unfolding named_action
names_eq view name = ground (arith, text_eq_comm name (action_name view))
names_eq write name = ground (
  arith,
  text_eq_comm name (action_name write),
  text_eq_iff name (action_name view),
  text_eq_comm (action_name view) (action_name write),
  distinct,
)
names_eq manage name = ground (
  arith,
  text_eq_comm name (action_name manage),
  text_eq_iff name (action_name view),
  text_eq_iff name (action_name write),
  text_eq_comm (action_name view) (action_name manage),
  text_eq_comm (action_name write) (action_name manage),
  distinct,
)

collect_named-includes :
    (a : DatabaseAction) (actions : List Text) (seen r : Actions)
    → collect_named actions seen ≡ ok r
    → includes a r ≡ (any (names a) actions || includes a seen)
unfolding collect_named
collect_named-includes a [] seen r h = ground (arith, h)
collect_named-includes a (name ∷ rest) seen r h =
    by_name (named_action name) refl (collect_named-includes a rest)
  where
    by_name :
        (o : Option DatabaseAction)
        → named_action name ≡ o
        → ((seen r : Actions)
            → collect_named rest seen ≡ ok r
            → includes a r ≡ (any (names a) rest || includes a seen))
        → includes a r ≡ (any (names a) (name ∷ rest) || includes a seen)
    by_name none e ih = absurd (ground (arith, h, e))
    by_name (some action) e ih = ground (
      arith,
      ih (add_action (some action) seen) r (rw (e, collect_named) at h),
      includes-add_action a (some action) seen,
      e,
    )

accepted :
    (actions : List Text) (seen : Actions)
    → is_ok (collect_named actions seen >>= λ r. ok (listed r))
      ≡ all (λ name. is_some (named_action name)) actions
unfolding collect_named
accepted [] seen = refl
accepted (name ∷ rest) seen = by_name (named_action name) refl (accepted rest)
  where
    by_name :
        (o : Option DatabaseAction)
        → named_action name ≡ o
        → ((s : Actions)
            → is_ok (collect_named rest s >>= λ r. ok (listed r))
              ≡ all (λ n. is_some (named_action n)) rest)
        → is_ok (collect_named (name ∷ rest) seen >>= λ r. ok (listed r))
          ≡ all (λ n. is_some (named_action n)) (name ∷ rest)
    by_name none e ih = ground (arith, e)
    by_name (some action) e ih = ground (arith, e, ih (add_action (some action) seen))

any-names :
    (a : DatabaseAction) (actions : List Text) → any (names a) actions ≡ has_action a actions
unfolding mem_text
any-names a [] = refl
any-names a (name ∷ rest) = ground (arith, names_eq a name, any-names a rest)

-- Whether an action is among the effective ones.
abbrev pub has_effective : DatabaseAction → Result (List Text) → Bool
has_effective action (ok actions) = has_action action actions
has_effective action (err e) = false

-- Names are accepted exactly if each is the name of an action, and then the actions that are
-- effective are exactly those that are named.
pub effective_database_actions_lem :
    (actions : List Text) (action : DatabaseAction)
    → (is_ok (effective_database_actions actions)
        ≡ all (λ name. is_some (named_action name)) actions)
      × (has_effective action (effective_database_actions actions)
          ≡ (is_ok (effective_database_actions actions) && has_action action actions))
unfolding effective_database_actions
effective_database_actions_lem actions a =
    (accepted actions no_actions, by_result (collect_named actions no_actions) refl)
  where
    by_result :
        (r : Result Actions)
        → collect_named actions no_actions ≡ r
        → has_effective a (collect_named actions no_actions >>= λ seen. ok (listed seen)) ≡ (
            is_ok (collect_named actions no_actions >>= λ seen. ok (listed seen))
            && has_action a actions)
    by_result (err e) h = rw h
    by_result (ok seen) h = rw h (
        includes-listed a seen
        ∙ collect_named-includes a actions no_actions seen h
        ∙ or_none a (any (names a) actions)
        ∙ any-names a actions)
