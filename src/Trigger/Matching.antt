-- ===== src/Trigger/Matching.antt =====
-- The trigger rules of bywaf/specs/trigger.py, the events they watch, and `trigger_matches` and
-- `trigger_payload` of bywaf/triggers.py.
use bywaf.Prelude.{
  ℕ, Bool, true, false, not, ◌&&◌, ◌==◌, if◌then◌else◌, Option, none, some, List, [], ◌∷◌, ◌++◌,
  any, is_empty, Text, text_eq, codes, mem_text, strip, Result, ok, err, ◌>>=◌, missing_argument,
}
use bywaf.Command.Shlex.{shlex_split}
use bywaf.Job.{Job, Jobs, list_jobs}

-- What a payload holds.
pub data Value : Type 0 where
  text : Text → Value
  number : ℕ → Value
  flag : Bool → Value
  texts : List Text → Value
  pairs : List (Text × Text) → Value
  -- None, a negative number, a fraction, or a structure
  other : Text → Value

abbrev pub Payload : Type 0
Payload = List (Text × Value)

unfoldable pub payload_get : Payload → Text → Option Value
payload_get [] key = none
payload_get ((k, v) ∷ rest) key = if text_eq k key then some v else payload_get rest key

pub record Event : Type 0 where
  pub id : ℕ
  pub topic : Text
  pub source : Text
  pub payload : Payload

-- A trigger, with the provider that registered it.
pub record TriggerSpec : Type 0 where
  pub name : Text
  pub topic : Text
  pub action_command : Text
  pub description : Text
  pub action_mode : Text
  pub capability : Option Text
  pub payload_equals : List (Text × Text)
  pub active_job : Bool
  pub exclude_commandlets : List Text
  pub suppress_self_trigger : Bool
  pub provider : Option Text

-- trigger_id of the registry
unfoldable pub trigger_id : TriggerSpec → Text
trigger_id trigger = elim trigger.provider [
  | none ↦ trigger.name
  | some provider ↦ provider ++ b'.' ∷ trigger.name
]

-- The first word of the action's command line.
unfoldable pub trigger_action_name : TriggerSpec → Result Text
trigger_action_name trigger =
    if is_empty (strip trigger.action_command)
    then ok []
    else shlex_split trigger.action_command
      >>= elim [ [] ↦ err missing_argument | name ∷ rest ↦ ok name ]

-- The parts of `trigger_payload` that every trigger has.
unfoldable pub base_payload : TriggerSpec → Payload
base_payload trigger =
    (codes "trigger_id", text (trigger_id trigger))
    ∷ (codes "name", text trigger.name)
    ∷ (codes "topic", text trigger.topic)
    ∷ (codes "action_command", text trigger.action_command)
    ∷ (codes "action_mode", text trigger.action_mode)
    ∷ (codes "description", text trigger.description)
    ∷ (codes "active_job", flag trigger.active_job)
    ∷ (codes "payload_equals", pairs trigger.payload_equals)
    ∷ (codes "exclude_commandlets", texts trigger.exclude_commandlets)
    ∷ (codes "suppress_self_trigger", flag trigger.suppress_self_trigger)
    ∷ []

-- A key that is present only with a value.
abbrev pub optional : Text → Option Text → Payload
optional key none = []
optional key (some v) = (key, text v) ∷ []

unfoldable pub trigger_payload : TriggerSpec → Payload
trigger_payload trigger =
    base_payload trigger
    ++ optional (codes "provider") trigger.provider
    ++ optional (codes "capability") trigger.capability

-- The value is this text.
abbrev pub is_text : Text → Option Value → Bool
is_text expected (some (text t)) = text_eq t expected
is_text expected _ = false

-- `isinstance(job_id, int)` with the id of a job; True and False are 1 and 0
abbrev pub as_job_id : Option Value → Option ℕ
as_job_id (some (number n)) = some n
as_job_id (some (flag b)) = some (if b then 1 else 0)
as_job_id _ = none

abbrev pub mem_text_value : Option Value → List Text → Bool
mem_text_value (some (text t)) names = mem_text t names
mem_text_value _ names = false

-- `value_str` is Python's `str` on a value that is no text.
module _ (value_str : Value → Text) where
  abbrev pub shown : Option Value → Text
  shown none = []
  shown (some (text t)) = t
  shown (some v) = value_str v

  -- The loop over payload_equals.
  unfoldable pub payload_matches : Payload → List (Text × Text) → Bool
  payload_matches payload [] = true
  payload_matches payload ((key, expected) ∷ rest) =
      text_eq (shown (payload_get payload key)) expected && payload_matches payload rest

  -- The capability, the expected values and the excluded commandlets.
  unfoldable pub accepts_payload : TriggerSpec → Payload → Bool
  accepts_payload trigger payload =
      elim trigger.capability [
        | none ↦ true
        | some capability ↦ is_text capability (payload_get payload (codes "capability"))
      ]
      && payload_matches payload trigger.payload_equals
      && not (mem_text_value (payload_get payload (codes "commandlet")) trigger.exclude_commandlets)

  unfoldable pub active_job_matches : TriggerSpec → Jobs → Payload → Bool
  active_job_matches trigger jobs payload =
      if not trigger.active_job
      then true
      else elim (as_job_id (payload_get payload (codes "job_id"))) [
        | none ↦ false
        | some job_id ↦ any (λ (job : Job). job.id == job_id) (list_jobs true jobs)
      ]

  unfoldable pub is_self_triggered : TriggerSpec → Event → Result Bool
  is_self_triggered trigger event =
      if trigger.suppress_self_trigger
      then (trigger_action_name trigger >>= λ name. ok (text_eq event.source name))
      else ok false

  unfoldable pub trigger_matches : TriggerSpec → Jobs → Event → Result Bool
  trigger_matches trigger jobs event =
      if not (accepts_payload trigger event.payload)
      then ok false
      else is_self_triggered trigger event >>= λ self.
          ok (not self && active_job_matches trigger jobs event.payload)
