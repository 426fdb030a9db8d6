-- ===== src/Graph/Node.antt =====
-- Parsed manifests, and the nodes that bywaf/registry/graph/builder.py makes of them.
use bywaf.Prelude.{
  Bool, if◌then◌else◌, Option, none, some, List, [], ◌∷◌, ◌++◌, map, keep, drop, length, Text,
  text_eq, codes, starts_with, sort_texts, sorted_set,
}

-- A trigger, as far as the graph reads it.
pub record ManifestTrigger : Type 0 where
  pub name : Text
  pub topic : Text
  pub action_command : Text

-- A field that is kept for each commandlet.
abbrev pub ByCommandlet : Type 0
ByCommandlet = List (Text × List Text)

-- What the graph reads of a manifest; `event_schemas` are the topics of the schemas.
pub record PluginManifest : Type 0 where
  pub commandlets : List Text
  pub requires_bywaf : Option Text
  pub requires_schemas : List Text
  pub requires_plugins : List Text
  pub event_schemas : List Text
  pub commandlet_consumes : ByCommandlet
  pub commandlet_emits : ByCommandlet
  pub commandlet_capabilities : ByCommandlet
  pub triggers : List ManifestTrigger
  pub commandlet_provider_variables : ByCommandlet
  pub commandlet_secret_vars : ByCommandlet
  pub commandlet_secret_options : ByCommandlet
  pub native : Bool
  pub library_backed : Bool
  pub process_wrapped : Bool
  pub service : Bool
  pub roles : List Text

abbrev pub Manifests : Type 0
Manifests = List (Text × PluginManifest)

-- manifests.get(provider)
unfoldable pub manifest_of : Manifests → Text → Option PluginManifest
manifest_of [] provider = none
manifest_of ((p, manifest) ∷ rest) provider =
    if text_eq p provider then some manifest else manifest_of rest provider

pub record ManifestGraphNode : Type 0 where
  pub provider : Text
  pub commandlets : List Text
  pub requires_bywaf : Option Text
  pub requires_schemas : List Text
  pub requires_plugins : List Text
  pub schemas : List Text
  pub consumes : List Text
  pub emits : List Text
  pub capabilities : List Text
  pub database_reads : List Text
  pub database_writes : List Text
  pub triggers : List Text
  pub trigger_topics : List Text
  pub trigger_actions : List Text
  pub provider_variables : List Text
  pub secret_provider_variables : List Text
  pub secret_options : List Text
  pub traits : List Text
  pub roles : List Text

-- flatten(field.values())
unfoldable pub flatten : ByCommandlet → List Text
flatten [] = []
flatten ((commandlet, values) ∷ rest) = values ++ flatten rest

unfoldable pub db_topics : List Text → Text → List Text
db_topics capabilities prefix =
    sort_texts (map (drop (length prefix)) (keep (starts_with prefix) capabilities))

abbrev trait : Bool → Text → List Text
trait b name = if b then name ∷ [] else []

unfoldable pub traits_from_manifest : PluginManifest → List Text
traits_from_manifest manifest = sort_texts (
    trait manifest.native (codes "native")
    ++ trait manifest.library_backed (codes "library_backed")
    ++ trait manifest.process_wrapped (codes "process_wrapped")
    ++ trait manifest.service (codes "service"))

unfoldable pub node_from_manifest : Text → PluginManifest → ManifestGraphNode
node_from_manifest provider manifest =
    let capabilities = sorted_set (flatten manifest.commandlet_capabilities) in
    record {
      provider = provider;
      commandlets = sort_texts manifest.commandlets;
      requires_bywaf = manifest.requires_bywaf;
      requires_schemas = sort_texts manifest.requires_schemas;
      requires_plugins = sort_texts manifest.requires_plugins;
      schemas = sort_texts manifest.event_schemas;
      consumes = sorted_set (flatten manifest.commandlet_consumes);
      emits = sorted_set (flatten manifest.commandlet_emits);
      capabilities = capabilities;
      database_reads = db_topics capabilities (codes "db.read:");
      database_writes = db_topics capabilities (codes "db.write:");
      triggers = sort_texts (map (λ (t : ManifestTrigger). t.name) manifest.triggers);
      trigger_topics = sorted_set (map (λ (t : ManifestTrigger). t.topic) manifest.triggers);
      trigger_actions =
          sorted_set (map (λ (t : ManifestTrigger). t.action_command) manifest.triggers);
      provider_variables = sorted_set (flatten manifest.commandlet_provider_variables);
      secret_provider_variables = sorted_set (flatten manifest.commandlet_secret_vars);
      secret_options = sorted_set (flatten manifest.commandlet_secret_options);
      traits = traits_from_manifest manifest;
      roles = sort_texts manifest.roles;
    }
