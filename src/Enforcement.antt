-- ===== src/Enforcement.antt =====
-- The comparison of a plugin's manifest with its code after the import:
-- bywaf/registry/manifest/enforcement.py.
pub mod Parity
use bywaf.Prelude.{
  Bool, true, false, not, ◌&&◌, ◌||◌, if◌then◌else◌, Option, none, some, is_some, List, [], ◌∷◌,
  ◌++◌, all, keep, is_empty, map, Text, text_eq, codes, mem_text, sort_texts, Result, ok, err,
  ◌>>=◌, ◌>>◌, missing_commandlets, manifest_mismatch,
}

-- A field that a manifest keeps for each commandlet.
abbrev pub Rows : Type 0 → Type 0
Rows A = List (Text × A)

-- rows.get(name)
unfoldable pub row : {A : Type 0} → Rows A → Text → Option A
row [] name = none
row ((k, v) ∷ rest) name = if text_eq k name then some v else row rest name

-- rows.get(name, default)
abbrev pub row_or : {A : Type 0} → Rows A → Text → A → A
row_or rows name default = elim (row rows name) [ none ↦ default | some v ↦ v ]

-- What the comparison reads of a manifest, over the types of its option and argument rows.
pub record ManifestRows (O A : Type 0) : Type 0 where
  pub commandlets : List Text
  pub capabilities : Rows (List Text)
  pub database_actions : Rows (List Text)
  pub consumes : Rows (List Text)
  pub emits : Rows (List Text)
  pub options : Rows (List O)
  pub arguments : Rows (List A)
  pub secret_options : Rows (List Text)
  pub provider_variables : Rows (List Text)
  pub secret_vars : Rows (List Text)

-- A loaded commandlet, by its spec.
pub record Commandlet (O A : Type 0) : Type 0 where
  pub name : Text
  pub capabilities : List Text
  pub database_actions : List Text
  pub consumes : List Text
  pub emits : List Text
  pub options : List O
  pub arguments : List A
  pub provider_variables : List Text
  pub secret_provider_variables : List Text

-- set(a) == set(b)
unfoldable pub same_set : List Text → List Text → Bool
same_set a b = all (λ x. mem_text x b) a && all (λ x. mem_text x a) b

unfoldable pub require_exact_set : Text → Text → List Text → List Text → Result (Unit {0})
require_exact_set name label manifest_values code_values =
    if same_set manifest_values code_values then ok tt else err (manifest_mismatch label name)

unfoldable pub require_optional_set : Text → Text → List Text → List Text → Result (Unit {0})
require_optional_set name label manifest_values code_values =
    if not (is_empty manifest_values) && not (same_set manifest_values code_values)
    then err (manifest_mismatch label name)
    else ok tt

-- The equality of the rows' tuples.
unfoldable pub same_rows : {A : Type 0} → (A → A → Bool) → List A → List A → Bool
same_rows eq [] [] = true
same_rows eq [] (y ∷ ys) = false
same_rows eq (x ∷ xs) [] = false
same_rows eq (x ∷ xs) (y ∷ ys) = eq x y && same_rows eq xs ys

unfoldable pub require_optional_sequence :
    {A : Type 0} → (A → A → Bool) → Text → Text → List A → List A → Result (Unit {0})
require_optional_sequence eq name label manifest_values code_values =
    if not (is_empty manifest_values) && not (same_rows eq manifest_values code_values)
    then err (manifest_mismatch label name)
    else ok tt

-- values or fallback
abbrev pub or_list : {A : Type 0} → List A → List A → List A
or_list values fallback = if is_empty values then fallback else values

-- What is read of an option row, and its equality.
pub record OptionView (O : Type 0) : Type 0 where
  pub option_name : O → Text
  pub is_secret : O → Bool
  pub option_eq : O → O → Bool

module _ {O A : Type 0} (view : OptionView O) (argument_eq : A → A → Bool) where
  unfoldable pub secret_names : List O → List Text
  secret_names [] = []
  secret_names (option ∷ rest) =
      let others = secret_names rest in
      if view.is_secret option then view.option_name option ∷ others else others

  unfoldable pub manifest_secret_options : ManifestRows O A → Text → List Text
  manifest_secret_options manifest name =
      row_or manifest.secret_options name [] ++ secret_names (row_or manifest.options name [])

  unfoldable pub enforce_commandlet_entry :
      ManifestRows O A → Commandlet O A → Text → Result (Unit {0})
  enforce_commandlet_entry manifest plugin name = do
    require_exact_set name (codes "capabilities") (row_or manifest.capabilities name [])
        plugin.capabilities
    require_exact_set name (codes "database_actions") (row_or manifest.database_actions name [])
        plugin.database_actions
    require_optional_set name (codes "consumes") (row_or manifest.consumes name []) plugin.consumes
    require_optional_set name (codes "emits") (row_or manifest.emits name []) plugin.emits
    require_optional_sequence view.option_eq name (codes "options")
        (row_or manifest.options name []) plugin.options
    require_optional_sequence argument_eq name (codes "arguments")
        (row_or manifest.arguments name []) plugin.arguments
    require_exact_set name (codes "secret_options") (manifest_secret_options manifest name)
        (secret_names plugin.options)
    require_exact_set name (codes "provider_variables") (row_or manifest.provider_variables name [])
        plugin.provider_variables
    require_exact_set name (codes "secret_provider_variables") (row_or manifest.secret_vars name [])
        plugin.secret_provider_variables

  unfoldable pub hydrate_spec_from_manifest :
      ManifestRows O A → Text → Commandlet O A → Commandlet O A
  hydrate_spec_from_manifest manifest name spec = record spec {
    capabilities = row_or manifest.capabilities name spec.capabilities;
    database_actions = row_or manifest.database_actions name spec.database_actions;
    consumes = or_list (row_or manifest.consumes name spec.consumes) spec.consumes;
    emits = or_list (row_or manifest.emits name spec.emits) spec.emits;
    options = or_list (row_or manifest.options name spec.options) spec.options;
    arguments = or_list (row_or manifest.arguments name spec.arguments) spec.arguments;
    provider_variables = row_or manifest.provider_variables name spec.provider_variables;
    secret_provider_variables = row_or manifest.secret_vars name spec.secret_provider_variables;
  }

  -- by_name[name]: of two commandlets with one name the later is kept
  unfoldable pub by_name : List (Commandlet O A) → Text → Option (Commandlet O A)
  by_name [] name = none
  by_name (plugin ∷ rest) name = elim (by_name rest name) [
    | some later ↦ some later
    | none ↦ if text_eq plugin.name name then some plugin else none
  ]

  unfoldable pub missing_names : List (Commandlet O A) → List Text → List Text
  missing_names plugins names = keep (λ name. not (is_some (by_name plugins name))) names

  -- `if hydrate_specs`
  abbrev pub hydrated : Bool → ManifestRows O A → Text → Commandlet O A → Commandlet O A
  hydrated hydrate_specs manifest name plugin =
      if hydrate_specs then hydrate_spec_from_manifest manifest name plugin else plugin

  -- The loop over the declared names, with the commandlets that are returned.
  unfoldable pub enforce_each :
      Bool → ManifestRows O A → List (Commandlet O A) → List Text → Result (List (Commandlet O A))
  enforce_each hydrate_specs manifest plugins [] = ok []
  enforce_each hydrate_specs manifest plugins (name ∷ rest) = elim (by_name plugins name) [
    | none ↦ err (missing_commandlets (name ∷ []))
    | some found ↦
        enforce_commandlet_entry manifest (hydrated hydrate_specs manifest name found) name
        >>= λ done. enforce_each hydrate_specs manifest plugins rest >>= λ later.
            ok (hydrated hydrate_specs manifest name found ∷ later)
  ]

  unfoldable pub enforce_plugin_manifest :
      Bool → ManifestRows O A → List (Commandlet O A) → Result (List (Commandlet O A))
  enforce_plugin_manifest hydrate_specs manifest plugins =
      let missing = sort_texts (missing_names plugins manifest.commandlets) in
      let names = sort_texts manifest.commandlets in
      if not (is_empty missing)
      then err (missing_commandlets missing)
      else enforce_each hydrate_specs manifest plugins names
