-- ===== src/VarStore/Scopes.antt =====
-- The namespaces of bywaf/varstore.py.
use bywaf.Prelude.{
  none, suc, true, false, if◌then◌else◌, Option, some, is_some, [], ◌∷◌, ◌++◌, ◌≡◌, ◌≢◌, refl, sym,
  ◌∙◌, ap, subst, arith, Text, map, length, drop, text_eq, text_eq_iff, text_eq_refl, contains_char,
  ok, Result-cases, >>=-eq-ok, inl, inr,
}
use bywaf.VarStore.{
  Values, VarStore, ScopedVarStore, find_value, set_value, get, set, update_prefixed, or_default,
  scoped_key, is_unqualified, read_scoped, get_local, set_local,
}

pub find_value-set_value :
    (m : Values) (key value j : Text)
    → find_value (set_value m key value) j ≡ (if text_eq key j then some value else find_value m j)
unfolding find_value set_value
find_value-set_value [] key value j = refl
find_value-set_value ((k, v) ∷ m) key value j = ground (
  arith,
  find_value-set_value m key value j,
  text_eq_iff k key,
  text_eq_iff k j,
  text_eq_iff key j,
)

pub get-set :
    (store : VarStore) (key value j : Text)
    → get (set store key value) j ≡ (if text_eq key j then some value else get store j)
unfolding get set
get-set store key value j = find_value-set_value store.values key value j

get-set_missing :
    (store : VarStore) (full value key : Text) (rest : Option Text)
    → or_default (get (if is_some (get store full) then store else set store full value) key) rest
      ≡ or_default (get store key) (if text_eq full key then some value else rest)
get-set_missing store full value key rest =
    ground (arith, get-set store full value key, text_eq_iff full key)

-- The variables that `values` gives under a prefix.
abbrev pub prefixed : Text → Values → Values
prefixed prefix values = map (λ entry. (prefix ++ b'.' ∷ entry.0, entry.1)) values

-- Loading defaults under a prefix never changes a variable that is set: every variable reads as
-- before if it had a value, and as the first default of its name if it had none.
pub update_prefixed_lem :
    (store : VarStore) (prefix : Text) (values : Values) (key : Text)
    → get (update_prefixed store prefix values) key
      ≡ or_default (get store key) (find_value (prefixed prefix values) key)
unfolding update_prefixed find_value
update_prefixed_lem store prefix [] key = ground arith
update_prefixed_lem store prefix ((k, v) ∷ values) key =
    let full = prefix ++ b'.' ∷ k in
    update_prefixed_lem (if is_some (get store full) then store else set store full v) prefix values
      key
    ∙ get-set_missing store full v key (find_value (prefixed prefix values) key)

contains_char-dot : (s t : Text) → contains_char b'.' (s ++ b'.' ∷ t) ≡ true
unfolding contains_char
contains_char-dot [] t = refl
contains_char-dot (c ∷ s) t = ground (arith, contains_char-dot s t)

-- What stands before the last dot.
before_dot : Text → Text
before_dot [] = []
before_dot (c ∷ t) = if contains_char b'.' t then c ∷ before_dot t else []

before_dot-append : (s t : Text) → contains_char b'.' t ≡ false → before_dot (s ++ b'.' ∷ t) ≡ s
unfolding before_dot
before_dot-append [] t h = rw h
before_dot-append (c ∷ s) t h = rw (contains_char-dot s t, before_dot-append s t h)

drop-append_dot : (s t : Text) → drop (suc (length s)) (s ++ b'.' ∷ t) ≡ t
drop-append_dot [] t = refl
drop-append_dot (c ∷ s) t = drop-append_dot s t

scoped_key-parts :
    (scope key full : Text)
    → scoped_key scope key ≡ ok full
    → (full ≡ scope ++ b'.' ∷ key) × (contains_char b'.' key ≡ false)
unfolding scoped_key is_unqualified
scoped_key-parts scope key full h = ground arith

scope-before_dot :
    (scope key full : Text) → scoped_key scope key ≡ ok full → before_dot full ≡ scope
scope-before_dot scope key full h =
    let (e, d) = scoped_key-parts scope key full h in rw e (before_dot-append scope key d)

-- Two scoped keys are the same storage key only if both the scope and the name are the same.
pub scoped_key-injective :
    (s t k j full : Text) → scoped_key s k ≡ ok full → scoped_key t j ≡ ok full → (s ≡ t) × (k ≡ j)
scoped_key-injective s t k j full h g =
    let e : s ≡ t = sym (scope-before_dot s k full h) ∙ scope-before_dot t j full g in
    let p = (scoped_key-parts s k full h).0 in
    let r = (scoped_key-parts t j full g).0 in
    let same : s ++ b'.' ∷ k ≡ s ++ b'.' ∷ j =
      sym p ∙ subst (λ x. full ≡ x ++ b'.' ∷ j) (sym e) r in
    (
      e,
      sym (drop-append_dot s k)
          ∙ (ap (λ (x : Text). drop (suc (length s)) x) same ∙ drop-append_dot s j),
    )

set_local-parts :
    (view after : ScopedVarStore) (key value : Text)
    → set_local view key value ≡ ok after
    → (full : Text) × (scoped_key view.scope key ≡ ok full)
      × (after ≡ record view { store = set view.store full value })
unfolding set_local
set_local-parts view after key value h =
    let (full, e, r) =
      >>=-eq-ok (scoped_key view.scope key)
        (λ full. ok (record view { store = set view.store full value })) h in
    (full, e, ground (arith, r))

ok_injective : {A : Type 0} {x y : A} → ok x ≡ ok y → x ≡ y
ok_injective h = cc

read_scoped-set :
    (view : ScopedVarStore) (full value : Text) (default : Option Text)
    → find_value view.run_values full ≡ none
    → read_scoped (record view { store = set view.store full value }) full default ≡ some value
unfolding read_scoped
read_scoped-set view full value default empty =
    ground (arith, empty, get-set view.store full value full, text_eq_refl full)

get-set_ne :
    (store : VarStore) (full value j : Text) → full ≢ j → get (set store full value) j ≡ get store j
get-set_ne store full value j ne = ground (arith, get-set store full value j, text_eq_iff full j)

read_scoped-store :
    (view : ScopedVarStore) (a b : VarStore) (full : Text) (default : Option Text)
    → get a full ≡ get b full
    → read_scoped (record view { store = a }) full default
      ≡ read_scoped (record view { store = b }) full default
unfolding read_scoped
read_scoped-store view a b full default h = ground arith

-- A variable that a commandlet has set reads back as the value set, whatever the default, if the
-- run holds no value of its own under the variable's storage key.
pub get_local-set_local :
    (view after : ScopedVarStore) (key value full : Text) (default : Option Text)
    → scoped_key view.scope key ≡ ok full
    → find_value view.run_values full ≡ none
    → set_local view key value ≡ ok after
    → get_local after key default ≡ ok (some value)
unfolding get_local
get_local-set_local view after key value full default named free h =
    let (f, e, r) = set_local-parts view after key value h in
    let same : f ≡ full = ok_injective (sym e ∙ named) in
    rw (r, named, same) (ap ok (read_scoped-set view full value default free))

-- Setting a variable in one scope changes nothing that a view with another scope, over the same
-- session's variables, reads by its own names: the value, the default or the error is as before.
pub get_local-set_local_ne :
    (view after other : ScopedVarStore) (key value j : Text) (default : Option Text)
    → other.scope ≢ view.scope
    → set_local view key value ≡ ok after
    → get_local (record other { store = after.store }) j default
      ≡ get_local (record other { store = view.store }) j default
unfolding get_local
get_local-set_local_ne view after other key value j default ne h =
    let (full, e, r) = set_local-parts view after key value h in
    elim (Result-cases (scoped_key other.scope j)) [
      | inr (bad, e') ↦ rw e'
      | inl (theirs, e') ↦
          let differ : full ≢ theirs = λ same. ne (
            sym (scope-before_dot other.scope j theirs e')
            ∙ (ap before_dot (sym same) ∙ scope-before_dot view.scope key full e)) in
          let kept : get after.store theirs ≡ get view.store theirs =
            rw r (get-set_ne view.store full value theirs differ) in
          rw e' (ap ok (read_scoped-store other after.store view.store theirs default kept))
    ]
