-- ===== src/Tests/Capabilities.antt =====
-- bywaf/plugin/capabilities.py at concrete names.
use bywaf.Prelude.{List, [], ◌∷◌, ◌≡◌, any, Text, codes}
use bywaf.Capability.{
  CommandSpec, view, database_action_for_capability, has_action, db_actions_for_caps,
}
use bywaf.Capability.Database.{needs, db_actions_for_caps_lem}

abbrev scanner : CommandSpec
scanner = record {
  capabilities = codes "network.connect" ∷ [];
  consumes = codes "host.found" ∷ [];
  emits = codes "port.open" ∷ [];
}

abbrev reading : List Text
reading = codes "network.connect" ∷ codes "db.read:host.found" ∷ []

db_actions_for_caps_lem_example :
    has_action view (db_actions_for_caps reading)
    ≡ any (λ c. needs view (database_action_for_capability c)) reading
db_actions_for_caps_lem_example = db_actions_for_caps_lem view reading
