-- ===== src/LoadOrder/Closure.antt =====
-- The filesystem plugins that are loaded with the configured ones: fs_manifest_dep_closure of
-- bywaf/registry/dependencies.py.
use bywaf.Prelude.{
  ℕ, zero, suc, ◌+◌, Bool, false, ◌||◌, if◌then◌else◌, Option, none, some, is_some, List, [], ◌∷◌,
  ◌++◌, length, Text, text_eq, mem_text, Result, ok, err, ◌>>=◌, no_fuel, bad_manifest,
}
use bywaf.VarStore.{set_value}
use bywaf.Graph.{ManifestRelationshipGraph, build_manifest_graph}
use bywaf.Graph.Node.{PluginManifest, Manifests}
use bywaf.Graph.Check.{provider_in_graph, keys, validate_manifest_dependencies}
use bywaf.LoadOrder.{normalize_catalog_path, Entries, has_manifest, topological_filesystem_entries}

-- The directories under the plugin root that have a bywaf.plugin.toml, with the manifest it parses to,
-- or none where parse_plugin_manifest raises.
abbrev pub Files : Type 0
Files = List (Text × Option PluginManifest)

unfoldable pub file_of : Files → Text → Option (Option PluginManifest)
file_of [] directory = none
file_of ((d, parsed) ∷ rest) directory =
    if text_eq d directory then some parsed else file_of rest directory

-- filesystem_manifest_path, and the file there
unfoldable pub filesystem_manifest : Files → Text → Text → Option (Option PluginManifest)
filesystem_manifest files entry provider =
    let file = file_of files provider in if is_some file then file else file_of files entry

pub record Closure : Type 0 where
  pub queue : List Text
  pub manifests : Manifests
  pub provider_entries : Entries

-- {normalize_catalog_path(item) for item in queue}
unfoldable pub normalize_all : List Text → Result (List Text)
normalize_all [] = ok []
normalize_all (item ∷ rest) = normalize_catalog_path item >>= λ provider.
    normalize_all rest >>= λ later. ok (provider ∷ later)

module _ (files : Files) (base_graph : ManifestRelationshipGraph) where
  -- Whether a dependency is put in the queue.
  abbrev pub is_wanted : Manifests → List Text → Text → Bool
  is_wanted manifests queued_providers provider =
      if has_manifest manifests provider || mem_text provider queued_providers
      then false
      else if provider_in_graph base_graph provider
      then false
      else is_some (file_of files provider)

  -- The loop over a manifest's dependencies.
  unfoldable pub enqueue : Manifests → List Text → List Text → List Text → Result (List Text)
  enqueue manifests queued_providers [] queue = ok queue
  enqueue manifests queued_providers (dependency ∷ rest) queue =
      normalize_catalog_path dependency >>= λ provider.
      enqueue manifests queued_providers rest
        (if is_wanted manifests queued_providers provider then queue ++ provider ∷ [] else queue)

  -- What the loop does with an entry whose provider is new, given the file of its manifest.
  unfoldable pub add_provider :
      Text → List Text → Option (Option PluginManifest) → Closure → Result Closure
  add_provider provider queue none s = ok (record s {
    queue = queue;
    provider_entries = set_value s.provider_entries provider provider;
  })
  add_provider provider queue (some none) s = err (bad_manifest provider)
  add_provider provider queue (some (some manifest)) s =
      let manifests = s.manifests ++ (provider, manifest) ∷ [] in
      normalize_all queue >>= λ queued_providers.
      enqueue manifests queued_providers manifest.requires_plugins queue >>= λ queue'. ok (record {
        queue = queue';
        manifests = manifests;
        provider_entries = set_value s.provider_entries provider provider;
      })

  -- One turn of the loop.
  unfoldable pub turn : Text → List Text → Closure → Result Closure
  turn entry queue s = normalize_catalog_path entry >>= λ provider.
      if has_manifest s.manifests provider
      then ok (record s { queue = queue })
      else add_provider provider queue (filesystem_manifest files entry provider) s

  -- The loop. A turn takes an entry from the queue, and puts there at most the dependencies of one
  -- file that was not read before.
  unfoldable pub close : ℕ → Closure → Result Closure
  close zero s = err no_fuel
  close (suc fuel) s = elim s.queue [
    | [] ↦ ok s
    | entry ∷ queue ↦ turn entry queue s >>= λ s'. close fuel s'
  ]

abbrev pub dependency_count : Option PluginManifest → ℕ
dependency_count none = 0
dependency_count (some manifest) = length manifest.requires_plugins

unfoldable pub total_dependencies : Files → ℕ
total_dependencies [] = 0
total_dependencies ((directory, parsed) ∷ rest) = dependency_count parsed + total_dependencies rest

abbrev pub closure_fuel : Files → List Text → ℕ
closure_fuel files entries = suc (length entries + total_dependencies files)

-- {**base, **manifests}
unfoldable pub set_manifest : Manifests → Text → PluginManifest → Manifests
set_manifest [] provider manifest = (provider, manifest) ∷ []
set_manifest ((p, m) ∷ rest) provider manifest =
    if text_eq p provider
    then (p, manifest) ∷ rest
    else (p, m) ∷ set_manifest rest provider manifest

unfoldable pub merged : Manifests → Manifests → Manifests
merged base [] = base
merged base ((provider, manifest) ∷ rest) = merged (set_manifest base provider manifest) rest

abbrev pub start_closure : List Text → Closure
start_closure entries = record { queue = entries; manifests = []; provider_entries = [] }

-- The validation and the order of what the loop has found.
unfoldable pub ordered_closure :
    (Text → Bool) → Manifests → List Text → Closure → Result (List Text × Manifests)
ordered_closure is_builtin base entries s =
    validate_manifest_dependencies is_builtin s.manifests
      (some (build_manifest_graph (merged base s.manifests))) (some (keys s.manifests))
    >>= λ valid.
        topological_filesystem_entries s.manifests s.provider_entries entries >>= λ ordered.
        ok (ordered, s.manifests)

-- `base` are the manifests of the bundled plugins, and `is_builtin` is whether the framework has a
-- schema for a topic.
unfoldable pub fs_manifest_dep_closure :
    (Text → Bool) → Manifests → Files → List Text → Result (List Text × Manifests)
fs_manifest_dep_closure is_builtin base files entries =
    close files (build_manifest_graph base) (closure_fuel files entries) (start_closure entries)
    >>= λ s. ordered_closure is_builtin base entries s
