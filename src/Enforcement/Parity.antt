-- ===== src/Enforcement/Parity.antt =====
-- What enforce_plugin_manifest of bywaf/registry/manifest/enforcement.py lets through.
use bywaf.Prelude.{
  Bool, true, false, ◌||◌, Option, none, some, List, [], ◌∷◌, is_empty, ◌≡◌, ◌⊎◌, refl, ◌∙◌, subst,
  arith, Text, text_eq, text_eq_iff, sort_texts, Result, ok, err, ◌>>◌, >>=-eq-ok, inl, inr,
  Bool-cases,
}
use bywaf.Enforcement.{
  row_or, ManifestRows, Commandlet, same_set, require_exact_set, require_optional_set, OptionView,
  secret_names, manifest_secret_options, enforce_commandlet_entry, hydrate_spec_from_manifest,
  by_name, missing_names, hydrated, enforce_each, enforce_plugin_manifest,
}

exact :
    (name label : Text) (a b : List Text)
    → require_exact_set name label a b ≡ ok tt
    → same_set a b ≡ true
unfolding require_exact_set
exact name label a b h = ground (arith, h)

optional :
    (name label : Text) (a b : List Text)
    → require_optional_set name label a b ≡ ok tt
    → (is_empty a || same_set a b) ≡ true
unfolding require_optional_set
optional name label a b h = ground (arith, h)

first_ok : (m k : Result (Unit {0})) → (m >> k) ≡ ok tt → (m ≡ ok tt) × (k ≡ ok tt)
first_ok (ok tt) k h = (refl, h)
first_ok (err e) k h = cc

module _ {O A : Type 0} (view : OptionView O) (argument_eq : A → A → Bool)
    (manifest : ManifestRows O A) where
  -- The commandlet has the name, and uses what the manifest declares for it: the security fields are
  -- the same sets, and the topics are the declared ones where any are declared.
  pub record Matches (name : Text) (plugin : Commandlet O A) : Type 0 where
    pub named : plugin.name ≡ name
    pub capabilities : same_set (row_or manifest.capabilities name []) plugin.capabilities ≡ true
    pub database_actions :
        same_set (row_or manifest.database_actions name []) plugin.database_actions ≡ true
    pub consumes :
        (is_empty (row_or manifest.consumes name [])
          || same_set (row_or manifest.consumes name []) plugin.consumes)
        ≡ true
    pub emits :
        (is_empty (row_or manifest.emits name [])
          || same_set (row_or manifest.emits name []) plugin.emits)
        ≡ true
    pub secret_options :
        same_set
          (manifest_secret_options view argument_eq manifest name)
          (secret_names view argument_eq plugin.options)
        ≡ true
    pub provider_variables :
        same_set (row_or manifest.provider_variables name []) plugin.provider_variables ≡ true
    pub secret_provider_variables :
        same_set (row_or manifest.secret_vars name []) plugin.secret_provider_variables ≡ true

  -- The commandlets are those of the names, in their order, and each matches.
  abbrev pub Exposes : List Text → List (Commandlet O A) → Type 0
  Exposes [] [] = Unit
  Exposes [] (c ∷ cs) = ⊥
  Exposes (n ∷ ns) [] = ⊥
  Exposes (n ∷ ns) (c ∷ cs) = Matches n c × Exposes ns cs

  entry-Matches :
      (plugin : Commandlet O A) (name : Text)
      → plugin.name ≡ name
      → enforce_commandlet_entry view argument_eq manifest plugin name ≡ ok tt
      → Matches name plugin
  unfolding enforce_commandlet_entry
  entry-Matches plugin name e h =
      let (h1, r1) = first_ok _ _ h in
      let (h2, r2) = first_ok _ _ r1 in
      let (h3, r3) = first_ok _ _ r2 in
      let (h4, r4) = first_ok _ _ r3 in
      let (h5, r5) = first_ok _ _ r4 in
      let (h6, r6) = first_ok _ _ r5 in
      let (h7, r7) = first_ok _ _ r6 in
      let (h8, h9) = first_ok _ _ r7 in
      record {
        named = e;
        capabilities = exact name _ _ _ h1;
        database_actions = exact name _ _ _ h2;
        consumes = optional name _ _ _ h3;
        emits = optional name _ _ _ h4;
        secret_options = exact name _ _ _ h7;
        provider_variables = exact name _ _ _ h8;
        secret_provider_variables = exact name _ _ _ h9;
      }

  by_name-name :
      (plugins : List (Commandlet O A)) (name : Text) (c : Commandlet O A)
      → by_name view argument_eq plugins name ≡ some c
      → c.name ≡ name
  unfolding by_name
  by_name-name [] name c h = cc
  by_name-name (p ∷ ps) name c h =
      later (by_name view argument_eq ps name) refl (by_name-name ps name c)
    where
      later :
          (o : Option (Commandlet O A))
          → by_name view argument_eq ps name ≡ o
          → (by_name view argument_eq ps name ≡ some c → c.name ≡ name)
          → c.name ≡ name
      later (some q) e ih = ih (ground (arith, h, e))
      later none e ih = kept (Bool-cases (text_eq p.name name))
        where
          kept : (text_eq p.name name ≡ true) ⊎ (text_eq p.name name ≡ false) → c.name ≡ name
          kept (inl same) = ground (arith, h, e, same, text_eq_iff p.name name)
          kept (inr other) = absurd (ground (arith, h, e, other))

  name-hydrated :
      (b : Bool) (name : Text) (plugin : Commandlet O A)
      → (hydrated view argument_eq b manifest name plugin).name ≡ plugin.name
  unfolding hydrate_spec_from_manifest
  name-hydrated true name plugin = refl
  name-hydrated false name plugin = refl

  enforce_each-Exposes :
      (b : Bool) (plugins : List (Commandlet O A)) (names : List Text) (cs : List (Commandlet O A))
      → enforce_each view argument_eq b manifest plugins names ≡ ok cs
      → Exposes names cs
  unfolding enforce_each
  enforce_each-Exposes b plugins [] [] h = tt
  enforce_each-Exposes b plugins [] (c ∷ cs) h = cc
  enforce_each-Exposes b plugins (n ∷ ns) cs h =
      found (by_name view argument_eq plugins n) refl (enforce_each-Exposes b plugins ns) h
    where
      found :
          (o : Option (Commandlet O A))
          → by_name view argument_eq plugins n ≡ o
          → ((l : List (Commandlet O A))
              → enforce_each view argument_eq b manifest plugins ns ≡ ok l
              → Exposes ns l)
          → enforce_each view argument_eq b manifest plugins (n ∷ ns) ≡ ok cs
          → Exposes (n ∷ ns) cs
      found none e ih k = absurd (ground (arith, e, k))
      found (some p) e ih k =
          let (done, entered, k') = >>=-eq-ok _ _ (rw (e, enforce_each) at k) in
          let (l, rest, k'') = >>=-eq-ok _ _ k' in
          let same : hydrated view argument_eq b manifest n p ∷ l ≡ cs = cc in
          subst (Exposes (n ∷ ns)) same (
            entry-Matches (hydrated view argument_eq b manifest n p) n
                (name-hydrated b n p ∙ by_name-name plugins n p e) entered,
            ih l rest,
          )

-- Loading exposes exactly the commandlets that the manifest declares, in the order of their names,
-- and only if each uses what the manifest declares for it: the same capabilities, database actions,
-- secret options and provider variables, and the same topics where the manifest declares any. This
-- holds with and without the hydration of the specs.
pub enforce_plugin_manifest-Exposes :
    {O A : Type 0} (view : OptionView O) (argument_eq : A → A → Bool) (hydrate_specs : Bool)
    (manifest : ManifestRows O A) (plugins exposed : List (Commandlet O A))
    → enforce_plugin_manifest view argument_eq hydrate_specs manifest plugins ≡ ok exposed
    → Exposes view argument_eq manifest (sort_texts manifest.commandlets) exposed
unfolding enforce_plugin_manifest
enforce_plugin_manifest-Exposes view argument_eq hydrate_specs manifest plugins exposed h =
    elim (Bool-cases
      (is_empty (sort_texts (missing_names view argument_eq plugins manifest.commandlets)))) [
        | inl all_there ↦
            enforce_each-Exposes view argument_eq manifest hydrate_specs plugins
              (sort_texts manifest.commandlets) exposed (ground (arith, h, all_there))
        | inr some_missing ↦ absurd (ground (arith, h, some_missing))
      ]
