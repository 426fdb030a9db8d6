-- ===== src/Capability.antt =====
-- bywaf/plugin/capabilities.py: capability names, and what declares, implies and allows them.
pub mod Declared
pub mod Database
use bywaf.Prelude.{
  ℕ, ◌-◌, Bool, true, false, not, ◌&&◌, ◌||◌, if◌then◌else◌, Option, none, some, is_some, List, [],
  ◌∷◌, ◌++◌, map, any, keep, drop, length, Text, init, codes, text_eq, mem_text, starts_with,
  sorted_set,
}

-- s.endswith(suffix)
unfoldable pub ends_with : Text → Text → Bool
ends_with suffix s = text_eq suffix (drop (length s - length suffix) s)

-- s.removeprefix(prefix), for a text that begins with it
unfoldable pub remove_prefix : Text → Text → Text
remove_prefix prefix s = drop (length prefix) s

abbrev pub Table : Type 0
Table = List (Text × Text)

unfoldable pub table_get : Table → Text → Option Text
table_get [] key = none
table_get ((k, v) ∷ rest) key = if text_eq k key then some v else table_get rest key

-- The first entry whose key is a prefix.
unfoldable pub prefix_get : Table → Text → Option Text
prefix_get [] topic = none
prefix_get ((prefix, capability) ∷ rest) topic =
    if starts_with prefix topic then some capability else prefix_get rest topic

abbrev pub request_capability_map : Table
request_capability_map =
    (codes "framework.console.output.requested", codes "framework.console.output")
    ∷ (codes "framework.console.alert.requested", codes "framework.console.alert")
    ∷ (codes "framework.file.page.requested", codes "framework.file.page")
    ∷ (codes "framework.process.run.requested", codes "framework.process.run")
    ∷ (codes "framework.process.stream.requested", codes "framework.process.stream")
    ∷ (codes "framework.render.table.requested", codes "framework.render.table")
    ∷ (codes "shell.prompt.requested", codes "framework.prompt.change")
    ∷ []

abbrev pub request_prefix_caps : Table
request_prefix_caps =
    (codes "plugin.progress.", codes "plugin.progress")
    ∷ (codes "framework.job.", codes "framework.job.control")
    ∷ (codes "framework.pipeline.", codes "framework.pipeline.control")
    ∷ []

unfoldable pub framework_request_capability : Text → Option Text
framework_request_capability topic = elim (table_get request_capability_map topic) [
  | some exact ↦ some exact
  | none ↦ elim (prefix_get request_prefix_caps topic) [
    | some capability ↦ some capability
    | none ↦
        if starts_with (codes "framework.") topic && ends_with (codes ".requested") topic
        then some (codes "framework.request")
        else none
  ]
]

-- One round of the loop of `capability_declared`.
unfoldable pub declares : Text → Text → Bool
declares declaration capability =
    text_eq capability declaration
    || (ends_with (codes ":*") declaration && starts_with (init declaration) capability)

unfoldable pub capability_declared : Text → List Text → Bool
capability_declared capability [] = false
capability_declared capability (declaration ∷ rest) =
    declares declaration capability || capability_declared capability rest

-- DATABASE_ACTIONS, from the weakest to the strongest
pub data DatabaseAction : Type 0 where
  view write manage : DatabaseAction

unfoldable pub database_action_for_capability : Text → Option DatabaseAction
database_action_for_capability capability =
    if starts_with (codes "db.manage") capability || starts_with (codes "db.raw") capability
    then some manage
    else if starts_with (codes "db.write:") capability
    then some write
    else if starts_with (codes "db.read:") capability
    then some view
    else none

-- A set of actions.
pub record Actions : Type 0 where
  pub has_view : Bool
  pub has_write : Bool
  pub has_manage : Bool

abbrev pub no_actions : Actions
no_actions = record { has_view = false; has_write = false; has_manage = false }

unfoldable pub add_action : Option DatabaseAction → Actions → Actions
add_action none s = s
add_action (some view) s = record s { has_view = true }
add_action (some write) s = record s { has_write = true }
add_action (some manage) s = record s { has_manage = true }

-- The loop of `db_actions_for_caps`, whose tests are those of `database_action_for_capability`.
unfoldable pub collect_actions : List Text → Actions → Actions
collect_actions [] actions = actions
collect_actions (capability ∷ rest) actions = collect_actions rest (
    if starts_with (codes "db.manage") capability || starts_with (codes "db.raw") capability
    then add_action (some manage) actions
    else if starts_with (codes "db.write:") capability
    then add_action (some write) actions
    else if starts_with (codes "db.read:") capability
    then add_action (some view) actions
    else actions)

abbrev pub action_name : DatabaseAction → Text
action_name view = codes "view"
action_name write = codes "write"
action_name manage = codes "manage"

-- tuple(action for action in DATABASE_ACTIONS if action in actions)
unfoldable pub listed : Actions → List Text
listed actions =
    (if actions.has_view then action_name view ∷ [] else [])
    ++ ((if actions.has_write then action_name write ∷ [] else [])
        ++ (if actions.has_manage then action_name manage ∷ [] else []))

unfoldable pub db_actions_for_caps : List Text → List Text
db_actions_for_caps capabilities = listed (collect_actions capabilities no_actions)

abbrev pub has_action : DatabaseAction → List Text → Bool
has_action action allowed = mem_text (action_name action) allowed

unfoldable pub database_action_allowed : DatabaseAction → List Text → Bool
database_action_allowed view allowed =
    has_action view allowed || has_action write allowed || has_action manage allowed
database_action_allowed write allowed = has_action write allowed || has_action manage allowed
database_action_allowed manage allowed = has_action manage allowed

-- The parts of a `CommandSpec` that capabilities come from.
pub record CommandSpec : Type 0 where
  pub capabilities : List Text
  pub consumes : List Text
  pub emits : List Text

abbrev pub db_read : Text → Text
db_read topic = codes "db.read:" ++ topic

abbrev pub db_write : Text → Text
db_write topic = codes "db.write:" ++ topic

-- tuple(sorted(capabilities)), a set that is built from the three fields
unfoldable pub implied_capabilities : CommandSpec → List Text
implied_capabilities spec =
    sorted_set (spec.capabilities ++ (map db_read spec.consumes ++ map db_write spec.emits))
