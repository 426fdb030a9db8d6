-- ===== src/VarStore.antt =====
-- bywaf/varstore.py: the session's variables, and the view of them that one commandlet has.
pub mod Scopes
use bywaf.Prelude.{
  Bool, true, false, not, ◌&&◌, ◌||◌, ◌==◌, if◌then◌else◌, Option, none, some, is_some, List, [],
  ◌∷◌, ◌++◌, Text, codes, text_eq, mem_text, contains_char, is_empty, Result, ok, err, ◌>>=◌,
  unqualified_names_only, bad_provider_scope, provider_variable_not_declared,
}

-- A Python `dict` of texts: keys in the order of their first assignment.
abbrev pub Values : Type 0
Values = List (Text × Text)

unfoldable pub find_value : Values → Text → Option Text
find_value [] key = none
find_value ((k, v) ∷ rest) key = if text_eq k key then some v else find_value rest key

unfoldable pub set_value : Values → Text → Text → Values
set_value [] key value = (key, value) ∷ []
set_value ((k, v) ∷ rest) key value =
    if text_eq k key then (k, value) ∷ rest else (k, v) ∷ set_value rest key value

pub record VarStore : Type 0 where
  pub values : Values

-- VarStore.get, with `default` None
unfoldable pub get : VarStore → Text → Option Text
get store key = find_value store.values key

-- VarStore.set, for a value that is text
unfoldable pub set : VarStore → Text → Text → VarStore
set store key value = record { values = set_value store.values key value }

-- VarStore.update_prefixed
unfoldable pub update_prefixed : VarStore → Text → Values → VarStore
update_prefixed store prefix [] = store
update_prefixed store prefix ((key, value) ∷ rest) =
    let scoped = prefix ++ b'.' ∷ key in
    update_prefixed (if is_some (get store scoped) then store else set store scoped value) prefix
      rest

-- value if it is there, else the default
abbrev pub or_default : Option Text → Option Text → Option Text
or_default none default = default
or_default (some v) default = some v

pub record ScopedVarStore : Type 0 where
  pub store : VarStore
  pub scope : Text
  pub provider_scope : Text
  pub provider_variables : List Text
  pub run_values : Values

-- scope.rsplit("/", 1)[0] where there is a slash, and the scope itself where there is none
unfoldable pub provider_scope_for : Text → Text
provider_scope_for [] = []
provider_scope_for (c ∷ rest) =
    if contains_char b'/' rest
    then c ∷ provider_scope_for rest
    else if b'/' == c
    then []
    else c ∷ rest

unfoldable pub is_unqualified : Text → Bool
is_unqualified key = not (contains_char b'/' key || contains_char b'.' key)

-- ScopedVarStore.scoped_key
unfoldable pub scoped_key : Text → Text → Result Text
scoped_key scope key =
    if is_unqualified key then ok (scope ++ b'.' ∷ key) else err unqualified_names_only

abbrev starts_slash : Text → Bool
starts_slash [] = false
starts_slash (c ∷ rest) = b'/' == c

-- "//" in scope
unfoldable pub has_double_slash : Text → Bool
has_double_slash [] = false
has_double_slash (c ∷ rest) = (b'/' == c && starts_slash rest) || has_double_slash rest

unfoldable pub provider_scoped_key : Text → Text → Result Text
provider_scoped_key provider_scope key =
    if is_empty provider_scope
      || contains_char b'.' provider_scope
      || has_double_slash provider_scope
    then err bad_provider_scope
    else if is_unqualified key
    then ok (provider_scope ++ b'.' ∷ key)
    else err unqualified_names_only

-- `if scoped in run_values: return run_values[scoped]`, else the session's value or the default
unfoldable pub read_scoped : ScopedVarStore → Text → Option Text → Option Text
read_scoped view scoped default = elim (find_value view.run_values scoped) [
  | some v ↦ some v
  | none ↦ or_default (get view.store scoped) default
]

-- ScopedVarStore.get
unfoldable pub get_local : ScopedVarStore → Text → Option Text → Result (Option Text)
get_local view key default = do
  scoped ← scoped_key view.scope key
  ok (read_scoped view scoped default)

-- ScopedVarStore.set
unfoldable pub set_local : ScopedVarStore → Text → Text → Result ScopedVarStore
set_local view key value = do
  scoped ← scoped_key view.scope key
  ok (record view { store = set view.store scoped value })

-- ScopedVarStore.get_global
unfoldable pub get_global : ScopedVarStore → Text → Option Text → Option Text
get_global view key default = read_scoped view (codes "global." ++ key) default

-- ScopedVarStore.get_provider
unfoldable pub get_provider : ScopedVarStore → Text → Option Text → Result (Option Text)
get_provider view key default =
    if not (mem_text key view.provider_variables)
    then err (provider_variable_not_declared key)
    else do
      scoped ← provider_scoped_key view.provider_scope key
      ok (read_scoped view scoped default)

-- ScopedVarStore.__init__: an empty or absent `provider_scope` is the one that owns the scope
unfoldable pub scoped_store : VarStore → Text → Option Text → List Text → Values → ScopedVarStore
scoped_store store scope provider_scope provider_variables run_values = record {
  store = store;
  scope = scope;
  provider_scope = elim provider_scope [
    | none ↦ provider_scope_for scope
    | some p ↦ if is_empty p then provider_scope_for scope else p
  ];
  provider_variables = provider_variables;
  run_values = run_values;
}
