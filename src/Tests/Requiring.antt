-- ===== src/Tests/Requiring.antt =====
-- bywaf/registry/graph at concrete manifests.
use bywaf.Prelude.{
  true, false, none, List, [], ◌∷◌, ◌≡◌, refl, any, all, Text, codes, text_eq, text_le, mem_text,
  sort_texts, insert_text, unique_texts, without, sorted_set, starts_with, is_ok,
}
use bywaf.Graph.Node.{
  PluginManifest, Manifests, manifest_of, flatten, db_topics, traits_from_manifest,
  node_from_manifest,
}
use bywaf.Graph.{
  relationship_groups, edges_of, group_edges, optional_values, hard_edges, relationships_from_node,
  key_le, edge_key, insert_edge, sort_edges, lookup, append_source, collect_sources, insert_item,
  sort_items, tuple_map, providers_for_schema, nodes_of, all_edges, build_manifest_graph,
}
use bywaf.Graph.Check.{
  has_node, replace, provider_in_graph, plugin_errors, schema_errors, dependency_errors, all_errors,
  graph_or_built, selected_of, validate_manifest_dependencies,
}
use bywaf.Graph.Schemas.{declares_schema, providers_for_schema-build_manifest_graph}
use bywaf.Graph.Dependencies.{is_satisfied, validate_manifest_dependencies_lem}

-- All that a run of these functions opens.
graph_defs : Unit {0}
unfolding text_eq text_le mem_text sort_texts insert_text unique_texts without sorted_set
    starts_with manifest_of flatten db_topics traits_from_manifest node_from_manifest
    relationship_groups edges_of group_edges optional_values hard_edges relationships_from_node
    key_le edge_key insert_edge sort_edges lookup append_source collect_sources insert_item
    sort_items tuple_map providers_for_schema nodes_of all_edges build_manifest_graph has_node
    replace provider_in_graph plugin_errors schema_errors dependency_errors all_errors
    validate_manifest_dependencies
graph_defs = tt

abbrev manifest_with : List Text → List Text → List Text → PluginManifest
manifest_with plugins required declared = record {
  commandlets = [];
  requires_bywaf = none;
  requires_schemas = required;
  requires_plugins = plugins;
  event_schemas = declared;
  commandlet_consumes = [];
  commandlet_emits = [];
  commandlet_capabilities = [];
  triggers = [];
  commandlet_provider_variables = [];
  commandlet_secret_vars = [];
  commandlet_secret_options = [];
  native = true;
  library_backed = false;
  process_wrapped = false;
  service = false;
  roles = [];
}

abbrev scanners : Manifests
scanners =
    (codes "http/auth", manifest_with [] [] (codes "login" ∷ []))
    ∷ (codes "scan", manifest_with (codes "http.auth" ∷ []) (codes "login" ∷ []) [])
    ∷ []

login_provided :
    providers_for_schema (build_manifest_graph scanners) (codes "login") ≡ codes "http/auth" ∷ []
unfolding graph_defs
login_provided = refl

scanners_valid : is_ok (validate_manifest_dependencies (λ topic. false) scanners none none) ≡ true
unfolding graph_defs
scanners_valid = refl

providers_for_schema-build_manifest_graph_example :
    mem_text
      (codes "http/auth")
      (providers_for_schema (build_manifest_graph scanners) (codes "login"))
    ≡ any (declares_schema (codes "http/auth") (codes "login")) scanners
providers_for_schema-build_manifest_graph_example =
    providers_for_schema-build_manifest_graph scanners (codes "login") (codes "http/auth")

validate_manifest_dependencies_lem_example :
    is_ok (validate_manifest_dependencies (λ topic. false) scanners none none)
    ≡ all
        (λ p.
          is_satisfied (λ topic. false) (graph_or_built scanners none) p (manifest_of scanners p))
        (selected_of scanners none)
validate_manifest_dependencies_lem_example =
    validate_manifest_dependencies_lem (λ topic. false) scanners none none
