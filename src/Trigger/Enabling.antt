-- ===== src/Trigger/Enabling.antt =====
-- enable_session_trigger and disable_session_triggers of bywaf/triggers.py.
use bywaf.Prelude.{
  true, false, none, List, [], ◌∷◌, is_empty, ◌≡◌, refl, ◌∙◌, arith, Text, text_eq_refl, mem_text,
  sort_texts, Bool-cases, inl, inr,
}
use bywaf.Trigger.Cursor.{trigger_cursor, trigger_cursor-update_trigger_state}
use bywaf.Trigger.{
  Session, publish_event, enable_session_trigger, disable_all, disable_session_triggers,
}
use bywaf.Trigger.Matching.{TriggerSpec, trigger_id}

enabled-enable_session_trigger :
    (trigger : TriggerSpec) (s : Session)
    → mem_text (trigger_id trigger) (enable_session_trigger trigger s).enabled ≡ true
unfolding enable_session_trigger publish_event mem_text
enabled-enable_session_trigger trigger s = ground (arith, text_eq_refl (trigger_id trigger))

enable_session_trigger-enabled :
    (trigger : TriggerSpec) (s : Session)
    → mem_text (trigger_id trigger) s.enabled ≡ true
    → enable_session_trigger trigger s ≡ s
unfolding enable_session_trigger
enable_session_trigger-enabled trigger s h = rw h

-- Enabling a trigger that the session has enabled changes nothing: neither the log nor the cursors.
pub enable_session_trigger-twice :
    (trigger : TriggerSpec) (s : Session)
    → enable_session_trigger trigger (enable_session_trigger trigger s)
      ≡ enable_session_trigger trigger s
enable_session_trigger-twice trigger s =
    enable_session_trigger-enabled trigger (enable_session_trigger trigger s)
      (enabled-enable_session_trigger trigger s)

disable_all-cursor :
    (triggers : List TriggerSpec) (ids : List Text) (s : Session) (name : Text)
    → trigger_cursor (disable_all triggers ids s).trigger_rows name
      ≡ trigger_cursor s.trigger_rows name
unfolding disable_all publish_event
disable_all-cursor triggers [] s name = refl
disable_all-cursor triggers (id ∷ rest) s name =
    disable_all-cursor triggers rest _ name
    ∙ trigger_cursor-update_trigger_state id false none s.trigger_rows name

-- Ending a session disables every trigger, and keeps the durable cursor of each, so that the next
-- session goes on where this one stopped.
pub disable_session_triggers-cursor :
    (triggers : List TriggerSpec) (s : Session) (name : Text)
    → ((disable_session_triggers triggers s).enabled ≡ [])
      × (trigger_cursor (disable_session_triggers triggers s).trigger_rows name
          ≡ trigger_cursor s.trigger_rows name)
unfolding disable_session_triggers
disable_session_triggers-cursor triggers s name = elim (Bool-cases (is_empty s.enabled)) [
  | inl nothing ↦ rw nothing (ground (arith, nothing), refl)
  | inr something ↦ rw something (refl, disable_all-cursor triggers (sort_texts s.enabled) s name)
]
