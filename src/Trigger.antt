-- ===== src/Trigger.antt =====
-- The triggers of bywaf/triggers.py: a rule fires on an event of the log that is newer than the
-- rule's cursor. The rows of `trigger_state` are Trigger/Cursor.antt, and the test of one event is
-- Trigger/Matching.antt.
pub mod Matching
pub mod Cursor
pub mod Scanning
pub mod Firing
pub mod Enabling
use bywaf.Prelude.{
  ℕ, suc, ◌+◌, ◌<◌, Bool, true, false, not, ◌&&◌, ◌||◌, ◌==◌, ltb, leb, if◌then◌else◌, Option, none,
  some, List, [], ◌∷◌, ◌++◌, any, take, keep, is_empty, Text, text_eq, codes, mem_text, strip,
  sort_texts, Result, ok, err, ◌>>=◌, ◌>>◌, missing_argument, unknown_action_mode, map,
}
use bywaf.Job.{Job, Jobs, list_jobs}
use bywaf.Trigger.Cursor.{TriggerRow, trigger_cursor, update_trigger_state}
use bywaf.Trigger.Matching.{
  Value, text, number, Payload, Event, TriggerSpec, trigger_id, trigger_matches, trigger_payload,
}

-- The (trigger, event) pairs of fired_session_trigger_events.
pub record FireKey : Type 0 where
  pub trigger : Text
  pub event : ℕ

unfoldable pub has_fired : Text → ℕ → List FireKey → Bool
has_fired id event [] = false
has_fired id event (k ∷ rest) =
    (text_eq id k.trigger && event == k.event) || has_fired id event rest

-- What the functions read and write of the runner and its database.
pub record Session : Type 0 where
  pub events : List Event
  pub next_event_id : ℕ
  pub trigger_rows : List TriggerRow
  pub cursors : List (Text × ℕ)
  pub fired : List FireKey
  pub enabled : List Text
  pub jobs : Jobs
  pub session_service_job_ids : List ℕ

unfoldable pub publish_event : Text → Payload → Text → Session → Session
publish_event topic payload source s = record s {
  events =
      s.events
      ++ record { id = s.next_event_id; topic = topic; source = source; payload = payload } ∷ [];
  next_event_id = suc s.next_event_id;
}

-- db.events_matching, for a topic: the rows are in the order of their ids
unfoldable pub events_matching : Text → ℕ → ℕ → List Event → List Event
events_matching topic after_id limit events =
    take limit (keep (λ (e : Event). ltb after_id e.id && text_eq e.topic topic) events)

unfoldable pub find_cursor : List (Text × ℕ) → Text → Option ℕ
find_cursor [] id = none
find_cursor ((k, n) ∷ rest) id = if text_eq k id then some n else find_cursor rest id

unfoldable pub set_cursor : List (Text × ℕ) → Text → ℕ → List (Text × ℕ)
set_cursor [] id n = (id, n) ∷ []
set_cursor ((k, m) ∷ rest) id n =
    let later = set_cursor rest id n in if text_eq k id then (k, n) ∷ rest else (k, m) ∷ later

-- max
abbrev pub max_id : ℕ → ℕ → ℕ
max_id a b = if leb a b then b else a

module _ (value_str : Value → Text) where
  -- The loop over the new events: the latest id seen, and the event on which the trigger fires.
  unfoldable pub scan_events : TriggerSpec → Session → List Event → ℕ → Result (ℕ × Option Event)
  scan_events trigger s [] latest_seen = ok (latest_seen, none)
  scan_events trigger s (event ∷ rest) latest_seen =
      let later = scan_events trigger s rest (max_id latest_seen event.id) in
      if has_fired (trigger_id trigger) event.id s.fired
      then later
      else trigger_matches value_str trigger s.jobs event
        >>= elim [ false ↦ later | true ↦ ok (max_id latest_seen event.id, some event) ]

-- runner.trigger_event_cursors.get(trigger_id, db.trigger_cursor(trigger_id))
unfoldable pub current_cursor : TriggerSpec → Session → ℕ
current_cursor trigger s = elim (find_cursor s.cursors (trigger_id trigger)) [
  | none ↦ trigger_cursor s.trigger_rows (trigger_id trigger)
  | some n ↦ n
]

unfoldable pub fired_payload : TriggerSpec → Event → Payload
fired_payload trigger event =
    trigger_payload trigger
    ++ (codes "trigger_event_id", number event.id)
      ∷ (codes "trigger_event_topic", text event.topic)
      ∷ (codes "trigger_event_source", text event.source)
      ∷ []

-- What the body of the loop does on a match.
unfoldable pub fire : TriggerSpec → Event → Session → Session
fire trigger event s =
    let id = trigger_id trigger in
    let s' =
      publish_event (codes "framework.trigger.fired") (fired_payload trigger event)
        (codes "framework")
        (record s { fired = record { trigger = id; event = event.id } ∷ s.fired }) in
    record s' {
      trigger_rows = update_trigger_state id true (some event.id) (some event.id) s'.trigger_rows;
    }

-- What follows the loop.
unfoldable pub move_cursor : TriggerSpec → Bool → ℕ → ℕ → Session → Session
move_cursor trigger fired after_id latest_seen s =
    let id = trigger_id trigger in
    record s {
      cursors = set_cursor s.cursors id latest_seen;
      trigger_rows =
          if not fired && not (latest_seen == after_id)
          then update_trigger_state id true (some latest_seen) none s.trigger_rows
          else s.trigger_rows;
    }

abbrev pub conclude : TriggerSpec → Session → ℕ → ℕ → Option Event → Bool × Session
conclude trigger s after_id latest_seen none =
    (false, move_cursor trigger false after_id latest_seen s)
conclude trigger s after_id latest_seen (some event) =
    (true, move_cursor trigger true after_id latest_seen (fire trigger event s))

-- An exception of `trigger_matches` leaves the session as it was.
unfoldable pub framework_trigger_fired :
    (Value → Text) → TriggerSpec → Session → Result (Bool × Session)
framework_trigger_fired value_str trigger s =
    let after_id = current_cursor trigger s in
    scan_events value_str trigger s (events_matching trigger.topic after_id 10000 s.events) after_id
    >>= λ r. ok (conclude trigger s after_id r.0 r.1)

-- runner.trigger_event_cursors.setdefault, under `if cursor`
unfoldable pub default_cursor : Text → ℕ → List (Text × ℕ) → List (Text × ℕ)
default_cursor id cursor cursors =
    if cursor == 0
    then cursors
    else elim (find_cursor cursors id) [ none ↦ set_cursor cursors id cursor | some n ↦ cursors ]

unfoldable pub enable_session_trigger : TriggerSpec → Session → Session
enable_session_trigger trigger s =
    let id = trigger_id trigger in
    let cursor = trigger_cursor s.trigger_rows id in
    if mem_text id s.enabled
    then s
    else publish_event (codes "framework.trigger.enabled") (trigger_payload trigger)
        (codes "framework")
        (record s {
          enabled = id ∷ s.enabled;
          cursors = default_cursor id cursor s.cursors;
          trigger_rows = update_trigger_state id true (some cursor) none s.trigger_rows;
        })

-- triggers_by_id.get(trigger_id), where a later trigger hides an earlier one
unfoldable pub find_trigger : List TriggerSpec → Text → Option TriggerSpec
find_trigger [] id = none
find_trigger (trigger ∷ rest) id = elim (find_trigger rest id) [
  | some later ↦ some later
  | none ↦ if text_eq (trigger_id trigger) id then some trigger else none
]

unfoldable pub disabled_payload : List TriggerSpec → Text → Payload
disabled_payload triggers id = elim (find_trigger triggers id) [
  | some trigger ↦ trigger_payload trigger
  | none ↦ (codes "trigger_id", text id) ∷ []
]

-- The loop over the enabled triggers.
unfoldable pub disable_all : List TriggerSpec → List Text → Session → Session
disable_all triggers [] s = s
disable_all triggers (id ∷ rest) s = disable_all triggers rest (
    publish_event (codes "framework.trigger.disabled") (disabled_payload triggers id)
      (codes "framework")
      (record s { trigger_rows = update_trigger_state id false none none s.trigger_rows }))

unfoldable pub disable_session_triggers : List TriggerSpec → Session → Session
disable_session_triggers triggers s =
    if is_empty s.enabled
    then s
    else let s' = disable_all triggers (sort_texts s.enabled) s in record s' { enabled = [] }

-- The runner's own operations, which start the action: `execute` runs a command line, and
-- `start_background` also returns the job id of the event that it published.
pub record Runner : Type 0 where
  pub execute : Text → Session → Result Session
  pub start_background : Text → Session → Result (Option ℕ × Session)

abbrev pub add_service : Option ℕ → Session → Session
add_service none s = s
add_service (some job_id) s = record s {
  session_service_job_ids = job_id ∷ s.session_service_job_ids;
}

unfoldable pub start_trigger_action : Runner → TriggerSpec → Session → Result Session
start_trigger_action runner trigger s =
    let is_mode = text_eq trigger.action_mode in
    let is_service = is_mode (codes "service") in
    if not (is_service || is_mode (codes "background") || is_mode (codes "foreground"))
    then err unknown_action_mode
    else if is_mode (codes "foreground")
    then runner.execute trigger.action_command s
    else if is_service
        && any (λ (job : Job). text_eq job.command_line trigger.action_command)
            (list_jobs true s.jobs)
    then ok s
    else runner.start_background trigger.action_command s >>= λ r.
        ok (if is_service then add_service r.0 r.1 else r.1)
