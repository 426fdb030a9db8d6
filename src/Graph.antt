-- ===== src/Graph.antt =====
-- The graph of what the plugins' manifests declare: bywaf/registry/graph/model.py and the functions
-- of bywaf/registry/graph/builder.py that build it and check the dependencies.
pub mod Node
pub mod Check
pub mod Index
pub mod Schemas
pub mod Dependencies
use bywaf.Prelude.{
  ℕ, suc, Bool, true, false, not, ◌&&◌, ◌||◌, ◌==◌, if◌then◌else◌, Option, none, some, is_some,
  List, [], ◌∷◌, ◌++◌, map, is_empty, keep, length, Text, text_eq, text_le, codes, sort_texts,
  Result, ok, err, invalid_dependencies,
}
use bywaf.Graph.Node.{PluginManifest, Manifests, manifest_of, ManifestGraphNode, node_from_manifest}

pub record ManifestRelationship : Type 0 where
  pub source : Text
  pub kind : Text
  pub target : Text
  pub hard : Bool
  pub detail : Text

abbrev pub relation : Text → Text → Bool → Text → ManifestRelationship
relation source kind hard target = record {
  source = source;
  kind = kind;
  target = target;
  hard = hard;
  detail = [];
}

unfoldable pub relationship_groups : ManifestGraphNode → List (Text × List Text)
relationship_groups node =
    (codes "provides_commandlet", node.commandlets)
    ∷ (codes "provides_schema", node.schemas)
    ∷ (codes "consumes_topic", node.consumes)
    ∷ (codes "emits_topic", node.emits)
    ∷ (codes "uses_capability", node.capabilities)
    ∷ (codes "reads_topic", node.database_reads)
    ∷ (codes "writes_topic", node.database_writes)
    ∷ (codes "provides_trigger", node.triggers)
    ∷ (codes "trigger_watches_topic", node.trigger_topics)
    ∷ (codes "trigger_runs_command", node.trigger_actions)
    ∷ (codes "uses_provider_variable", node.provider_variables)
    ∷ (codes "uses_secret_provider_variable", node.secret_provider_variables)
    ∷ (codes "uses_secret_option", node.secret_options)
    ∷ (codes "has_trait", node.traits)
    ∷ (codes "has_role", node.roles)
    ∷ []

-- One edge for each value.
unfoldable pub edges_of : Text → Text → Bool → List Text → List ManifestRelationship
edges_of provider kind hard [] = []
edges_of provider kind hard (value ∷ rest) =
    relation provider kind hard value ∷ edges_of provider kind hard rest

-- The loop over the relationship groups.
unfoldable pub group_edges : Text → List (Text × List Text) → List ManifestRelationship
group_edges provider [] = []
group_edges provider ((kind, values) ∷ rest) =
    edges_of provider kind false values ++ group_edges provider rest

unfoldable pub optional_values : Option Text → List Text
optional_values none = []
optional_values (some v) = v ∷ []

-- The hard requirements of a node, in the order in which their edges are added.
unfoldable pub hard_edges : Text → ManifestGraphNode → List ManifestRelationship
hard_edges provider node =
    edges_of provider (codes "requires_bywaf") true (optional_values node.requires_bywaf)
    ++ edges_of provider (codes "requires_schema") true node.requires_schemas
    ++ edges_of provider (codes "requires_plugin") true node.requires_plugins

unfoldable pub relationships_from_node : Text → ManifestGraphNode → List ManifestRelationship
relationships_from_node provider node =
    hard_edges provider node ++ group_edges provider (relationship_groups node)

-- a <= b for tuples of texts
unfoldable pub key_le : List Text → List Text → Bool
key_le [] k = true
key_le (a ∷ j) [] = false
key_le (a ∷ j) (b ∷ k) = if text_eq a b then key_le j k else text_le a b

unfoldable pub edge_key : ManifestRelationship → List Text
edge_key edge = edge.source ∷ edge.kind ∷ edge.target ∷ edge.detail ∷ []

unfoldable pub insert_edge :
    ManifestRelationship → List ManifestRelationship → List ManifestRelationship
insert_edge edge [] = edge ∷ []
insert_edge edge (e ∷ rest) =
    let later = insert_edge edge rest in
    if key_le (edge_key edge) (edge_key e) then edge ∷ e ∷ rest else e ∷ later

-- sorted(edges, key=edge_key)
unfoldable pub sort_edges : List ManifestRelationship → List ManifestRelationship
sort_edges [] = []
sort_edges (edge ∷ rest) = insert_edge edge (sort_edges rest)

abbrev pub Index : Type 0
Index = List (Text × List Text)

-- mapping.get(key, ())
unfoldable pub lookup : Index → Text → List Text
lookup [] key = []
lookup ((k, values) ∷ rest) key = if text_eq k key then values else lookup rest key

-- mapping.setdefault(target, []).append(source)
unfoldable pub append_source : Index → Text → Text → Index
append_source [] target source = (target, source ∷ []) ∷ []
append_source ((k, values) ∷ rest) target source =
    let later = append_source rest target source in
    if text_eq k target then (k, values ++ source ∷ []) ∷ rest else (k, values) ∷ later

-- The loop of tuple_map.
unfoldable pub collect_sources : Text → List ManifestRelationship → Index → Index
collect_sources kind [] mapping = mapping
collect_sources kind (edge ∷ rest) mapping =
    collect_sources kind rest
      (if text_eq edge.kind kind then append_source mapping edge.target edge.source else mapping)

-- sorted(mapping.items()), for a mapping, whose keys differ
unfoldable pub insert_item : Text → List Text → Index → Index
insert_item key values [] = (key, values) ∷ []
insert_item key values ((k, v) ∷ rest) =
    let later = insert_item key values rest in
    if text_le key k then (key, values) ∷ (k, v) ∷ rest else (k, v) ∷ later

-- The sorted mapping, with the sources of each target sorted.
unfoldable pub sort_items : Index → Index
sort_items [] = []
sort_items ((k, values) ∷ rest) = insert_item k (sort_texts values) (sort_items rest)

unfoldable pub tuple_map : List ManifestRelationship → Text → Index
tuple_map edges kind = sort_items (collect_sources kind edges [])

-- The loop over the edges that provide a commandlet: a later edge replaces an earlier one.
unfoldable pub last_provider : Text → List ManifestRelationship → Option Text → Option Text
last_provider commandlet [] found = found
last_provider commandlet (edge ∷ rest) found = last_provider commandlet rest (
    if text_eq edge.kind (codes "provides_commandlet") && text_eq edge.target commandlet
    then some edge.source
    else found)

pub record ManifestRelationshipGraph : Type 0 where
  pub nodes : List (Text × ManifestGraphNode)
  pub edges : List ManifestRelationship

unfoldable pub providers_for_schema : ManifestRelationshipGraph → Text → List Text
providers_for_schema graph topic = lookup (tuple_map graph.edges (codes "provides_schema")) topic

unfoldable pub producers_for_topic : ManifestRelationshipGraph → Text → List Text
producers_for_topic graph topic = lookup (tuple_map graph.edges (codes "emits_topic")) topic

unfoldable pub consumers_for_topic : ManifestRelationshipGraph → Text → List Text
consumers_for_topic graph topic = lookup (tuple_map graph.edges (codes "consumes_topic")) topic

unfoldable pub provider_for_commandlet : ManifestRelationshipGraph → Text → Option Text
provider_for_commandlet graph commandlet = last_provider commandlet graph.edges none

unfoldable pub relationships_for : ManifestRelationshipGraph → Text → List ManifestRelationship
relationships_for graph provider =
    keep (λ (edge : ManifestRelationship). text_eq edge.source provider) graph.edges

unfoldable pub nodes_of : Manifests → List (Text × ManifestGraphNode)
nodes_of [] = []
nodes_of ((provider, manifest) ∷ rest) =
    (provider, node_from_manifest provider manifest) ∷ nodes_of rest

-- The loop over the nodes.
unfoldable pub all_edges : List (Text × ManifestGraphNode) → List ManifestRelationship
all_edges [] = []
all_edges ((provider, node) ∷ rest) = relationships_from_node provider node ++ all_edges rest

unfoldable pub build_manifest_graph : Manifests → ManifestRelationshipGraph
build_manifest_graph manifests = record {
  nodes = nodes_of manifests;
  edges = sort_edges (all_edges (nodes_of manifests));
}
