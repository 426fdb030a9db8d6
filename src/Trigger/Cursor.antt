-- ===== src/Trigger/Cursor.antt =====
-- The table `trigger_state` and the operations of bywaf/db/triggers.py on it.
use bywaf.Prelude.{
  ℕ, Bool, if◌then◌else◌, Option, none, some, List, [], ◌∷◌, Text, text_eq, ◌≡◌, refl, arith,
  text_eq_iff,
}

pub record TriggerRow : Type 0 where
  pub name : Text
  pub enabled : Bool
  pub last_event_id : ℕ
  pub last_fired_event_id : Option ℕ

unfoldable pub trigger_cursor : List TriggerRow → Text → ℕ
trigger_cursor [] name = 0
trigger_cursor (row ∷ rest) name =
    if text_eq row.name name then row.last_event_id else trigger_cursor rest name

-- COALESCE
abbrev pub coalesce : Option ℕ → Option ℕ → Option ℕ
coalesce none old = old
coalesce (some n) old = some n

-- INSERT ... ON CONFLICT(name) DO UPDATE
unfoldable pub upsert : TriggerRow → List TriggerRow → List TriggerRow
upsert new [] = new ∷ []
upsert new (row ∷ rest) =
    let later = upsert new rest in
    if text_eq row.name new.name
    then record new {
      last_fired_event_id = coalesce new.last_fired_event_id row.last_fired_event_id;
    }
      ∷ rest
    else row ∷ later

unfoldable pub update_trigger_state :
    Text → Bool → Option ℕ → Option ℕ → List TriggerRow → List TriggerRow
update_trigger_state name enabled last_event_id last_fired_event_id rows =
    upsert
      (record {
        name = name;
        enabled = enabled;
        last_event_id = elim last_event_id [ none ↦ trigger_cursor rows name | some n ↦ n ];
        last_fired_event_id = last_fired_event_id;
      })
      rows

pub trigger_cursor-upsert :
    (new : TriggerRow) (rows : List TriggerRow) (name : Text)
    → trigger_cursor (upsert new rows) name
      ≡ (if text_eq new.name name then new.last_event_id else trigger_cursor rows name)
unfolding trigger_cursor upsert
trigger_cursor-upsert new [] name = refl
trigger_cursor-upsert new (row ∷ rest) name = ground (
  arith,
  trigger_cursor-upsert new rest name,
  text_eq_iff row.name new.name,
  text_eq_iff row.name name,
  text_eq_iff new.name name,
)

-- Enabling or disabling a trigger without a cursor leaves every trigger's cursor as it is.
pub trigger_cursor-update_trigger_state :
    (name : Text) (enabled : Bool) (fired : Option ℕ) (rows : List TriggerRow) (other : Text)
    → trigger_cursor (update_trigger_state name enabled none fired rows) other
      ≡ trigger_cursor rows other
unfolding update_trigger_state
trigger_cursor-update_trigger_state name enabled fired rows other = ground (
  arith,
  trigger_cursor-upsert
      (record {
        name = name;
        enabled = enabled;
        last_event_id = trigger_cursor rows name;
        last_fired_event_id = fired;
      })
      rows other,
  text_eq_iff name other,
)
