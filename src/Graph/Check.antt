-- ===== src/Graph/Check.antt =====
-- The check of the hard dependencies in bywaf/registry/graph/builder.py.
use bywaf.Prelude.{
  ℕ, Bool, false, not, ◌||◌, ◌==◌, if◌then◌else◌, Option, none, some, List, [], ◌∷◌, ◌++◌, map,
  is_empty, length, Text, text_eq, codes, sort_texts, Result, ok, err, invalid_dependencies,
}
use bywaf.Graph.Node.{PluginManifest, Manifests, manifest_of, ManifestGraphNode}
use bywaf.Graph.{ManifestRelationshipGraph, providers_for_schema, build_manifest_graph}

-- provider in graph.nodes
unfoldable pub has_node : List (Text × ManifestGraphNode) → Text → Bool
has_node [] provider = false
has_node ((p, node) ∷ rest) provider = text_eq p provider || has_node rest provider

-- text.replace(old, new), for single characters
unfoldable pub replace : ℕ → ℕ → Text → Text
replace old new [] = []
replace old new (c ∷ s) = (if c == old then new else c) ∷ replace old new s

unfoldable pub provider_in_graph : ManifestRelationshipGraph → Text → Bool
provider_in_graph graph provider =
    has_node graph.nodes provider
    || has_node graph.nodes (replace b'/' b'.' provider)
    || has_node graph.nodes (replace b'.' b'/' provider)

-- ", ".join(texts)
unfoldable pub join_comma : List Text → Text
join_comma [] = []
join_comma (s ∷ rest) = if is_empty rest then s else s ++ codes ", " ++ join_comma rest

unfoldable pub plugin_errors : ManifestRelationshipGraph → Text → List Text → List Text
plugin_errors graph provider [] = []
plugin_errors graph provider (dependency ∷ rest) =
    let later = plugin_errors graph provider rest in
    if text_eq dependency provider
    then (codes "requires_plugins self-dependency: " ++ dependency) ∷ later
    else if not (provider_in_graph graph dependency)
    then (codes "missing required plugin: " ++ dependency) ∷ later
    else later

abbrev pub labelled : Text → Text → Text
labelled provider message = provider ++ codes ": " ++ message

abbrev pub keys : Manifests → List Text
keys [] = []
keys ((p, manifest) ∷ rest) = p ∷ keys rest

-- graph or build_manifest_graph(manifests)
abbrev pub graph_or_built : Manifests → Option ManifestRelationshipGraph → ManifestRelationshipGraph
graph_or_built manifests none = build_manifest_graph manifests
graph_or_built manifests (some graph) = graph

abbrev pub selected_of : Manifests → Option (List Text) → List Text
selected_of manifests none = sort_texts (keys manifests)
selected_of manifests (some providers) = providers

-- `is_builtin` is whether event_schema finds a schema of the framework for the topic.
module _ (is_builtin : Text → Bool) where
  unfoldable pub schema_errors : ManifestRelationshipGraph → List Text → List Text
  schema_errors graph [] = []
  schema_errors graph (topic ∷ rest) =
      let later = schema_errors graph rest in
      let providers = providers_for_schema graph topic in
      if is_builtin topic
      then later
      else if is_empty providers
      then (codes "missing required schema: " ++ topic) ∷ later
      else if length providers == 1
      then later
      else (codes "ambiguous required schema "
          ++ topic
          ++ codes ": providers "
          ++ join_comma providers)
        ∷ later

  unfoldable pub dependency_errors : Text → PluginManifest → ManifestRelationshipGraph → List Text
  dependency_errors provider manifest graph =
      plugin_errors graph provider manifest.requires_plugins
      ++ schema_errors graph manifest.requires_schemas

  -- The loop over the selected providers.
  unfoldable pub all_errors : Manifests → ManifestRelationshipGraph → List Text → List Text
  all_errors manifests graph [] = []
  all_errors manifests graph (provider ∷ rest) =
      elim (manifest_of manifests provider) [
        | none ↦ []
        | some manifest ↦ map (labelled provider) (dependency_errors provider manifest graph)
      ]
      ++ all_errors manifests graph rest

  unfoldable pub validate_manifest_dependencies :
      Manifests → Option ManifestRelationshipGraph → Option (List Text) → Result (Unit {0})
  validate_manifest_dependencies manifests graph providers =
      let errors =
        all_errors manifests (graph_or_built manifests graph) (selected_of manifests providers) in
      if is_empty errors then ok tt else err (invalid_dependencies errors)
