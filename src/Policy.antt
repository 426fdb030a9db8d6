-- ===== src/Policy.antt =====
-- bywaf/plugin/context/policy.py: the capability policy of a commandlet's context. The audit set
-- `_audited_capabilities` and the event log are the state; what a method writes before it raises
-- stays written.
pub mod Enforcement
pub mod Log
pub mod Modes
use bywaf.Prelude.{
  ℕ, suc, ◌+◌, Bool, true, false, not, ◌&&◌, ◌||◌, ltb, leb, if◌then◌else◌, Option, none, some,
  is_some, List, [], ◌∷◌, ◌++◌, length, is_empty, Text, codes, text_eq, mem_text, strip, Error,
  Result, ok, err, undeclared_capability, database_action_denied,
}
use bywaf.Capability.{
  framework_request_capability, capability_declared, database_action_for_capability,
  database_action_allowed,
}

pub data Mode : Type 0 where
  off audit warn enforce : Mode

-- Lower case beyond ASCII, where one character may become several.
abbrev pub WideLower : Type 0
WideLower = ℕ → Text

unfoldable pub lower : WideLower → Text → Text
lower wide [] = []
lower wide (c ∷ s) =
    (if ltb c 128 then (if leb b'A' c && leb c b'Z' then (c + 32) ∷ [] else c ∷ []) else wide c)
    ++ lower wide s

-- `configured or fallback`
abbrev pub or_text : Option Text → Text → Text
or_text none fallback = fallback
or_text (some s) fallback = if is_empty s then fallback else s

unfoldable pub mode_named : Text → Mode
mode_named s =
    if text_eq s (codes "off")
    then off
    else if text_eq s (codes "warn")
    then warn
    else if text_eq s (codes "enforce")
    then enforce
    else audit

-- The property `capability_mode`, from the global variable and from the metadata.
unfoldable pub capability_mode : WideLower → Option Text → Option Text → Mode
capability_mode wide configured metadata =
    mode_named (lower wide (strip (or_text configured (or_text metadata (codes "audit")))))

-- What does not change while the commandlet runs.
pub record Context : Type 0 where
  pub has_db : Bool
  pub mode : Mode
  pub declared_capabilities : List Text
  pub database_actions : List Text

-- The payload of a capability event.
pub record Usage : Type 0 where
  pub capability : Text
  pub declared : Bool
  pub request_event_id : Option ℕ

pub data Event : Type 0 where
  -- a framework request, with its topic
  requested : Text → Event
  -- plugin.capability.used, plugin.capability.missing
  used missing : Usage → Event

-- The key of the audit set; its other parts are the same for all keys of one context.
pub record AuditKey : Type 0 where
  pub capability : Text
  pub declared : Bool

pub record State : Type 0 where
  pub events : List Event
  pub audited : List AuditKey

abbrev same_bool : Bool → Bool → Bool
same_bool true b = b
same_bool false b = not b

unfoldable pub mem_key : Text → Bool → List AuditKey → Bool
mem_key capability declared [] = false
mem_key capability declared (k ∷ rest) =
    (text_eq capability k.capability && same_bool declared k.declared)
    || mem_key capability declared rest

-- `_db.publish`, which appends an event and gives it the next id
unfoldable pub publish : Event → State → State
publish event s = record s { events = s.events ++ event ∷ [] }

unfoldable pub next_id : State → ℕ
next_id s = suc (length s.events)

-- A method returns or raises, and leaves a state.
abbrev pub Step : Type 0 → Type 0
Step A = Result A × State

module _ (context : Context) where
  -- Whether `enforce_database_action_policy` raises.
  unfoldable pub database_action_denies : Text → Bool
  database_action_denies capability = elim (database_action_for_capability capability) [
    | none ↦ false
    | some required ↦ not (
        is_empty context.database_actions
        || database_action_allowed required context.database_actions)
  ]

  -- The two events of a use, and the exception that `enforce` raises behind the second.
  unfoldable pub record_usage : Usage → State → Step (Unit {0})
  record_usage usage s = if usage.declared then (ok tt, publish (used usage) s) else (
    elim context.mode [ enforce ↦ err (undeclared_capability usage.capability) | _ ↦ ok tt ],
    publish (missing usage) (publish (used usage) s),
  )

  -- `request_event_id is None`: a use that the set already holds is passed over.
  unfoldable pub audit_once : Text → Bool → State → Step (Unit {0})
  audit_once capability declared s =
      if mem_key capability declared s.audited
      then (ok tt, s)
      else record_usage
          (record { capability = capability; declared = declared; request_event_id = none })
          (record s {
            audited = record { capability = capability; declared = declared } ∷ s.audited;
          })

  unfoldable pub audit_with : Text → Option ℕ → Bool → State → Step (Unit {0})
  audit_with capability none declared s = audit_once capability declared s
  audit_with capability (some id) declared s =
      record_usage
        (record { capability = capability; declared = declared; request_event_id = some id }) s

  unfoldable pub audit_capability : Text → Option ℕ → State → Step (Unit {0})
  audit_capability capability request_event_id s =
      if not context.has_db then (ok tt, s) else elim context.mode [
        | off ↦ (ok tt, s)
        | _ ↦
            if database_action_denies capability
            then (err (database_action_denied capability), s)
            else audit_with capability request_event_id
                (capability_declared capability context.declared_capabilities) s
      ]

  -- The test before the request is written.
  unfoldable pub denies_request : Text → Bool
  denies_request capability = elim context.mode [
    | enforce ↦ not (capability_declared capability context.declared_capabilities)
    | _ ↦ false
  ]

  -- From the writing of the request event on.
  unfoldable pub write_request : Text → Option Text → State → Step (Option ℕ)
  write_request topic none s = (ok (some (next_id s)), publish (requested topic) s)
  write_request topic (some capability) s =
      let id = next_id s in
      let r = audit_capability capability (some id) (publish (requested topic) s) in
      (elim r.0 [ ok done ↦ ok (some id) | err e ↦ err e ], r.1)

  abbrev proceed : Step (Unit {0}) → (State → Step (Option ℕ)) → Step (Option ℕ)
  proceed r next = elim r.0 [ ok done ↦ next r.1 | err e ↦ (err e, r.1) ]

  unfoldable pub request_with : Text → Option Text → State → Step (Option ℕ)
  request_with topic none s = write_request topic none s
  request_with topic (some capability) s =
      if denies_request capability
      then proceed (audit_capability capability none s) (write_request topic (some capability))
      else write_request topic (some capability) s

  unfoldable pub request : Text → State → Step (Option ℕ)
  request topic s =
      if not context.has_db
      then (ok none, s)
      else request_with topic (framework_request_capability topic) s
