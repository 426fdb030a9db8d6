-- ===== src/Graph/Schemas.antt =====
-- The lookups of bywaf/registry/graph/model.py against the manifests that the graph was built from.
use bywaf.Prelude.{
  Bool, true, false, ◌&&◌, ◌||◌, List, [], ◌∷◌, any, any-append, ◌≡◌, refl, ◌∙◌, arith, Text,
  text_eq, text_eq_iff, codes, mem_text, mem_text-sort_texts,
}
use bywaf.Graph.Node.{PluginManifest, Manifests, ManifestGraphNode, node_from_manifest}
use bywaf.Graph.{
  relationship_groups, edges_of, group_edges, optional_values, hard_edges, relationships_from_node,
  sort_edges, providers_for_schema, nodes_of, all_edges, build_manifest_graph,
}
use bywaf.Graph.Index.{any-sort_edges, is_edge, mem_text-tuple_map}

any-edges_of :
    (provider kind : Text) (hard : Bool) (values : List Text) (wanted target source : Text)
    → any (is_edge wanted target source) (edges_of provider kind hard values)
      ≡ (text_eq kind wanted && text_eq source provider && mem_text target values)
unfolding edges_of mem_text
any-edges_of provider kind hard [] wanted target source = ground arith
any-edges_of provider kind hard (value ∷ values) wanted target source = ground (
  arith,
  any-edges_of provider kind hard values wanted target source,
  text_eq_iff value target,
  text_eq_iff target value,
)

-- The values that a list of groups holds under one kind.
abbrev holds_value : Text → Text → List (Text × List Text) → Bool
holds_value wanted target [] = false
holds_value wanted target ((kind, values) ∷ rest) =
    (text_eq kind wanted && mem_text target values) || holds_value wanted target rest

any-group_edges :
    (provider : Text) (groups : List (Text × List Text)) (wanted target source : Text)
    → any (is_edge wanted target source) (group_edges provider groups)
      ≡ (text_eq source provider && holds_value wanted target groups)
unfolding group_edges
any-group_edges provider [] wanted target source = ground arith
any-group_edges provider ((kind, values) ∷ rest) wanted target source = ground (
  arith,
  any-append (is_edge wanted target source) (edges_of provider kind false values)
      (group_edges provider rest),
  any-edges_of provider kind false values wanted target source,
  any-group_edges provider rest wanted target source,
)

or_false : (b : Bool) → (b || false) ≡ b
or_false b = ground arith

holds_value-schemas :
    (node : ManifestGraphNode) (topic : Text)
    → holds_value (codes "provides_schema") topic (relationship_groups node)
      ≡ mem_text topic node.schemas
unfolding relationship_groups text_eq
holds_value-schemas node topic = or_false (mem_text topic node.schemas)

other_kinds :
    (text_eq (codes "requires_bywaf") (codes "provides_schema") ≡ false)
    × (text_eq (codes "requires_schema") (codes "provides_schema") ≡ false)
    × (text_eq (codes "requires_plugin") (codes "provides_schema") ≡ false)
unfolding text_eq
other_kinds = (refl, refl, refl)

any-other :
    (provider kind : Text) (hard : Bool) (values : List Text) (topic source : Text)
    → text_eq kind (codes "provides_schema") ≡ false
    → any (is_edge (codes "provides_schema") topic source) (edges_of provider kind hard values)
      ≡ false
any-other provider kind hard values topic source h =
    any-edges_of provider kind hard values (codes "provides_schema") topic source ∙ rw h refl

any-hard_edges :
    (provider : Text) (node : ManifestGraphNode) (topic source : Text)
    → any (is_edge (codes "provides_schema") topic source) (hard_edges provider node) ≡ false
unfolding hard_edges
any-hard_edges provider node topic source = rw (
  any-append,
  any-append,
  any-other provider (codes "requires_bywaf") true (optional_values node.requires_bywaf) topic
      source other_kinds.0,
  any-other provider (codes "requires_schema") true node.requires_schemas topic source
      other_kinds.1,
  any-other provider (codes "requires_plugin") true node.requires_plugins topic source
      other_kinds.2,
)

any-relationships_from_node :
    (provider : Text) (node : ManifestGraphNode) (topic source : Text)
    → any (is_edge (codes "provides_schema") topic source) (relationships_from_node provider node)
      ≡ (text_eq source provider && mem_text topic node.schemas)
unfolding relationships_from_node
any-relationships_from_node provider node topic source = rw (
  any-append,
  any-hard_edges provider node topic source,
  any-group_edges provider (relationship_groups node) (codes "provides_schema") topic source,
  holds_value-schemas node topic,
)

schemas-node_from_manifest :
    (provider : Text) (manifest : PluginManifest) (topic : Text)
    → mem_text topic (node_from_manifest provider manifest).schemas
      ≡ mem_text topic manifest.event_schemas
unfolding node_from_manifest
schemas-node_from_manifest provider manifest topic =
    mem_text-sort_texts topic manifest.event_schemas

-- The manifest is the source's, and declares the schema.
abbrev pub declares_schema : Text → Text → Text × PluginManifest → Bool
declares_schema source topic (provider, manifest) =
    text_eq source provider && mem_text topic manifest.event_schemas

any-all_edges :
    (manifests : Manifests) (topic source : Text)
    → any (is_edge (codes "provides_schema") topic source) (all_edges (nodes_of manifests))
      ≡ any (declares_schema source topic) manifests
unfolding all_edges nodes_of
any-all_edges [] topic source = refl
any-all_edges ((provider, manifest) ∷ rest) topic source = rw (
  any-append,
  any-relationships_from_node provider (node_from_manifest provider manifest) topic source,
  schemas-node_from_manifest provider manifest topic,
  any-all_edges rest topic source,
)

-- A graph that is built from manifests names a plugin as a provider of a schema exactly when the
-- plugin's manifest declares an event schema for the topic.
pub providers_for_schema-build_manifest_graph :
    (manifests : Manifests) (topic source : Text)
    → mem_text source (providers_for_schema (build_manifest_graph manifests) topic)
      ≡ any (declares_schema source topic) manifests
unfolding providers_for_schema build_manifest_graph
providers_for_schema-build_manifest_graph manifests topic source =
    mem_text-tuple_map (codes "provides_schema") topic source
      (sort_edges (all_edges (nodes_of manifests)))
    ∙ any-sort_edges (is_edge (codes "provides_schema") topic source)
        (all_edges (nodes_of manifests))
    ∙ any-all_edges manifests topic source
