-- ===== src/Tests/Loading.antt =====
-- bywaf/registry/dependencies.py and bywaf/registry/manifest/enforcement.py at concrete manifests.
use bywaf.Prelude.{
  true, false, none, some, List, [], ◌∷◌, ◌≡◌, ◌≢◌, refl, all, Text, codes, text_eq, text_le,
  mem_text, sort_texts, insert_text, without, unique_texts, sorted_set, split_on, starts_with, ok,
  err, no_fuel,
}
use bywaf.Capability.{ends_with}
use bywaf.Graph.Node.{
  PluginManifest, Manifests, manifest_of, flatten, db_topics, traits_from_manifest,
  node_from_manifest,
}
use bywaf.Graph.Check.{
  replace, keys, has_node, provider_in_graph, plugin_errors, schema_errors, dependency_errors,
  all_errors, validate_manifest_dependencies,
}
use bywaf.LoadOrder.{
  normalize_catalog_path, Entries, entry_of, visit_each, visit_manifest, visit, visit_requested,
  visit_rest, topological_filesystem_entries,
}
use bywaf.LoadOrder.Visiting.{IsLoadOrder}
use bywaf.LoadOrder.Closure.{
  Files, file_of, filesystem_manifest, normalize_all, enqueue, add_provider, turn, close,
  total_dependencies, set_manifest, merged, ordered_closure, fs_manifest_dep_closure,
}
use bywaf.LoadOrder.Closed.{fs_manifest_dep_closure-IsLoadOrder}
use bywaf.LoadOrder.Closing.{fs_manifest_dep_closure-ne-no_fuel}
use bywaf.VarStore.{set_value}
use bywaf.Graph.{
  relationship_groups, edges_of, group_edges, optional_values, hard_edges, relationships_from_node,
  key_le, edge_key, insert_edge, sort_edges, lookup, append_source, collect_sources, insert_item,
  sort_items, tuple_map, providers_for_schema, nodes_of, all_edges, build_manifest_graph,
}
use bywaf.Graph.Dependencies.{is_satisfied}
use bywaf.Enforcement.{
  row, ManifestRows, Commandlet, same_set, require_exact_set, require_optional_set, same_rows,
  require_optional_sequence, OptionView, secret_names, manifest_secret_options,
  enforce_commandlet_entry, hydrate_spec_from_manifest, by_name, missing_names, enforce_each,
  enforce_plugin_manifest,
}
use bywaf.Enforcement.Parity.{Exposes, enforce_plugin_manifest-Exposes}

-- All that a run of these functions opens.
load_defs : Unit {0}
unfolding text_eq text_le mem_text sort_texts insert_text without split_on starts_with ends_with
    manifest_of replace normalize_catalog_path entry_of visit_each visit_manifest visit
    visit_requested visit_rest topological_filesystem_entries
load_defs = tt

closure_defs : Unit {0}
unfolding file_of filesystem_manifest normalize_all enqueue add_provider turn close
    total_dependencies set_manifest merged ordered_closure fs_manifest_dep_closure set_value
    unique_texts sorted_set flatten db_topics traits_from_manifest node_from_manifest
    relationship_groups edges_of group_edges optional_values hard_edges relationships_from_node
    key_le edge_key insert_edge sort_edges lookup append_source collect_sources insert_item
    sort_items tuple_map providers_for_schema nodes_of all_edges build_manifest_graph has_node
    provider_in_graph plugin_errors schema_errors dependency_errors all_errors
    validate_manifest_dependencies
closure_defs = tt

abbrev requiring : List Text → PluginManifest
requiring plugins = record {
  commandlets = [];
  requires_bywaf = none;
  requires_schemas = [];
  requires_plugins = plugins;
  event_schemas = [];
  commandlet_consumes = [];
  commandlet_emits = [];
  commandlet_capabilities = [];
  triggers = [];
  commandlet_provider_variables = [];
  commandlet_secret_vars = [];
  commandlet_secret_options = [];
  native = true;
  library_backed = false;
  process_wrapped = false;
  service = false;
  roles = [];
}

abbrev chain : Manifests
chain =
    (codes "a/scan", requiring (codes "b.auth" ∷ codes "built.in" ∷ []))
    ∷ (codes "b/auth", requiring [])
    ∷ []

abbrev itself : Entries
itself = (codes "a/scan", codes "a/scan") ∷ (codes "b/auth", codes "b/auth") ∷ []

-- The dependency comes first, also where it is not requested.
dependency_first :
    topological_filesystem_entries chain itself (codes "a.scan" ∷ [])
    ≡ ok (codes "b/auth" ∷ codes "a/scan" ∷ [])
unfolding load_defs
dependency_first = refl

-- The directories of the plugin root, one of whose manifests nothing requires.
abbrev plugin_root : Files
plugin_root =
    (codes "a/scan", some (requiring (codes "b.auth" ∷ [])))
    ∷ (codes "b/auth", some (requiring []))
    ∷ (codes "c", none)
    ∷ []

abbrev local : Manifests
local = (codes "a/scan", requiring (codes "b.auth" ∷ [])) ∷ (codes "b/auth", requiring []) ∷ []

local_closed :
    fs_manifest_dep_closure (λ topic. false) [] plugin_root (codes "a.scan" ∷ [])
    ≡ ok (codes "b/auth" ∷ codes "a/scan" ∷ [], local)
unfolding load_defs closure_defs
local_closed = refl

fs_manifest_dep_closure-IsLoadOrder_example :
    IsLoadOrder local (codes "b/auth" ∷ codes "a/scan" ∷ [])
    × (all (λ provider. mem_text provider (codes "b/auth" ∷ codes "a/scan" ∷ [])) (keys local)
        ≡ true)
    × (all
          (λ p.
            is_satisfied
              (λ topic. false)
              (build_manifest_graph (merged [] local))
              p
              (manifest_of local p))
          (keys local)
        ≡ true)
fs_manifest_dep_closure-IsLoadOrder_example =
    fs_manifest_dep_closure-IsLoadOrder (λ topic. false) [] plugin_root (codes "a.scan" ∷ [])
      (codes "b/auth" ∷ codes "a/scan" ∷ []) local local_closed

abbrev circle : Files
circle =
    (codes "a", some (requiring (codes "b" ∷ [])))
    ∷ (codes "b", some (requiring (codes "a" ∷ [])))
    ∷ []

fs_manifest_dep_closure-ne-no_fuel_example :
    fs_manifest_dep_closure (λ topic. false) [] circle (codes "a" ∷ []) ≢ err no_fuel
fs_manifest_dep_closure-ne-no_fuel_example =
    fs_manifest_dep_closure-ne-no_fuel (λ topic. false) [] circle (codes "a" ∷ [])

enforce_defs : Unit {0}
unfolding text_eq text_le mem_text sort_texts insert_text row same_set require_exact_set
    require_optional_set same_rows require_optional_sequence secret_names manifest_secret_options
    enforce_commandlet_entry hydrate_spec_from_manifest by_name missing_names enforce_each
    enforce_plugin_manifest
enforce_defs = tt

abbrev rows : ManifestRows Text Text
rows = record {
  commandlets = codes "scan" ∷ [];
  capabilities = (codes "scan", codes "network.connect" ∷ codes "audit" ∷ []) ∷ [];
  database_actions = [];
  consumes = [];
  emits = [];
  options = [];
  arguments = [];
  secret_options = (codes "scan", codes "password" ∷ []) ∷ [];
  provider_variables = [];
  secret_vars = [];
}

abbrev scan : Commandlet Text Text
scan = record {
  name = codes "scan";
  capabilities = codes "audit" ∷ codes "network.connect" ∷ [];
  database_actions = [];
  consumes = codes "host.found" ∷ [];
  emits = [];
  options = codes "password" ∷ [];
  arguments = [];
  provider_variables = [];
  secret_provider_variables = [];
}

-- Options by their names, all of them secret.
abbrev by_text : OptionView Text
by_text = record { option_name = λ o. o; is_secret = λ o. true; option_eq = text_eq }

scan_exposed : enforce_plugin_manifest by_text text_eq false rows (scan ∷ []) ≡ ok (scan ∷ [])
unfolding enforce_defs
scan_exposed = refl

enforce_plugin_manifest-Exposes_example :
    Exposes by_text text_eq rows (sort_texts rows.commandlets) (scan ∷ [])
enforce_plugin_manifest-Exposes_example =
    enforce_plugin_manifest-Exposes by_text text_eq false rows (scan ∷ []) (scan ∷ []) scan_exposed
