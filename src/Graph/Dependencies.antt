-- ===== src/Graph/Dependencies.antt =====
-- validate_manifest_dependencies of bywaf/registry/graph/builder.py.
use bywaf.Prelude.{
  Bool, true, false, not, ◌&&◌, ◌||◌, ◌==◌, Option, none, some, List, [], ◌∷◌, ◌++◌, map, all,
  is_empty, length, ◌≡◌, refl, arith, Text, text_eq, is_ok,
}
use bywaf.Graph.Node.{PluginManifest, Manifests, manifest_of}
use bywaf.Graph.{ManifestRelationshipGraph, providers_for_schema}
use bywaf.Graph.Check.{
  provider_in_graph, plugin_errors, schema_errors, dependency_errors, all_errors, graph_or_built,
  selected_of, validate_manifest_dependencies,
}

module _ (is_builtin : Text → Bool) (graph : ManifestRelationshipGraph) where
  -- The plugin is another one, and the graph has it.
  abbrev pub has_plugin : Text → Text → Bool
  has_plugin provider dependency =
      not (text_eq dependency provider) && provider_in_graph graph dependency

  -- The framework has the schema, or exactly one plugin provides it.
  abbrev pub has_schema : Text → Bool
  has_schema topic = is_builtin topic || length (providers_for_schema graph topic) == 1

  abbrev pub is_satisfied : Text → Option PluginManifest → Bool
  is_satisfied provider none = true
  is_satisfied provider (some manifest) =
      all (has_plugin provider) manifest.requires_plugins
      && all has_schema manifest.requires_schemas

  is_empty-append {ℓ} :
      {A : Type ℓ} (xs ys : List A) → is_empty (xs ++ ys) ≡ (is_empty xs && is_empty ys)
  is_empty-append [] ys = refl
  is_empty-append (x ∷ xs) ys = refl

  is_empty-map {ℓ κ} :
      {A : Type ℓ} {B : Type κ} (f : A → B) (xs : List A) → is_empty (map f xs) ≡ is_empty xs
  is_empty-map f [] = refl
  is_empty-map f (x ∷ xs) = refl

  is_empty-length {ℓ} : {A : Type ℓ} (xs : List A) → is_empty xs ≡ true → (length xs == 1) ≡ false
  is_empty-length [] h = refl
  is_empty-length (x ∷ xs) h = cc

  is_empty-plugin_errors :
      (provider : Text) (dependencies : List Text)
      → is_empty (plugin_errors graph provider dependencies)
        ≡ all (has_plugin provider) dependencies
  unfolding plugin_errors
  is_empty-plugin_errors provider [] = refl
  is_empty-plugin_errors provider (dependency ∷ rest) =
      ground (arith, is_empty-plugin_errors provider rest)

  is_empty-schema_errors :
      (topics : List Text)
      → is_empty (schema_errors is_builtin graph topics) ≡ all has_schema topics
  unfolding schema_errors
  is_empty-schema_errors [] = refl
  is_empty-schema_errors (topic ∷ rest) =
      ground
        (arith, is_empty-schema_errors rest, is_empty-length (providers_for_schema graph topic))

  is_empty-all_errors :
      (manifests : Manifests) (selected : List Text)
      → is_empty (all_errors is_builtin manifests graph selected)
        ≡ all (λ p. is_satisfied p (manifest_of manifests p)) selected
  unfolding all_errors dependency_errors
  is_empty-all_errors manifests [] = refl
  is_empty-all_errors manifests (provider ∷ rest) =
      step (is_empty-all_errors manifests rest) (manifest_of manifests provider) refl
    where
      step :
          is_empty (all_errors is_builtin manifests graph rest)
            ≡ all (λ p. is_satisfied p (manifest_of manifests p)) rest
          → (found : Option PluginManifest) → manifest_of manifests provider ≡ found
          → is_empty (all_errors is_builtin manifests graph (provider ∷ rest))
            ≡ all (λ p. is_satisfied p (manifest_of manifests p)) (provider ∷ rest)
      step ih none e = rw e ih
      step ih (some manifest) e = rw (
        e, is_empty-append, is_empty-map, is_empty-append, is_empty-plugin_errors,
        is_empty-schema_errors, ih,
      )

-- The check returns exactly when every selected plugin that has a manifest requires only plugins
-- other than itself that the graph has, and only schemas that the framework has or that exactly one
-- plugin provides; otherwise it raises.
pub validate_manifest_dependencies_lem :
    (is_builtin : Text → Bool) (manifests : Manifests) (graph : Option ManifestRelationshipGraph)
    (providers : Option (List Text))
    → is_ok (validate_manifest_dependencies is_builtin manifests graph providers)
      ≡ all
          (λ p.
            is_satisfied is_builtin (graph_or_built manifests graph) p (manifest_of manifests p))
          (selected_of manifests providers)
unfolding validate_manifest_dependencies
validate_manifest_dependencies_lem is_builtin manifests graph providers = ground (
  arith,
  is_empty-all_errors is_builtin (graph_or_built manifests graph) manifests
      (selected_of manifests providers),
)
