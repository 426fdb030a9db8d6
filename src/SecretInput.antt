-- ===== src/SecretInput.antt =====
-- The key handlers of bywaf/secret/input/prompt.py, which edit a command line with a hidden value.
-- The value and its place are SecretInput/State.antt.
pub mod State
pub mod Hiding
use bywaf.Prelude.{
  ℕ, suc, ◌+◌, ◌-◌, ◌==◌, Bool, true, false, not, ◌&&◌, ◌||◌, ltb, leb, if◌then◌else◌, Option, none,
  some, List, [], ◌∷◌, ◌++◌, all, is_empty, last?, init, length, take, drop, Text, text_eq, codes,
  mem_text, Result, ok, err,
}
use bywaf.SecretInput.State.{
  redacted_value, Buffer, Editor, PromptSecretSpan, Prompt, Relation, no_span, left_adjacent,
  before, at_start, inside, at_end, right_adjacent, after, relation_to, cursor_relation, is_focused,
  set_focus, put_value, open_secret_assignment_name, leave_after, leave_before, focus_span,
  open_span, open_span_if_needed, cut_buffer, drop_span, forget_if_editing_prefix, edit,
  delete_before_cursor, delete_at_cursor,
}

pub data Action : Type 0 where
  -- `=`, with whether secret blocks are enabled
  equals : Bool → Action
  left right clear backspace delete escape : Action
  -- a key of the binding for any key, with its name and its data
  typed : Text → Text → Action

-- The keys that have a binding of their own, which prompt_toolkit prefers to the one for any key.
abbrev pub bound_keys : List Text
bound_keys =
    codes "="
    ∷ codes "left"
    ∷ codes "right"
    ∷ codes "backspace"
    ∷ codes "c-h"
    ∷ codes "delete"
    ∷ codes "escape"
    ∷ []

abbrev pub is_bound : Text → Bool
is_bound key = mem_text key bound_keys

-- Whether the action's binding is called: its filter holds, and the key is no other binding's.
unfoldable pub is_allowed : Action → Prompt → Bool
is_allowed clear s = is_focused s.span
is_allowed escape s = is_focused s.span
is_allowed (typed key data_) s = is_focused s.span && not (is_bound key)
is_allowed _ s = true

abbrev pub is_tab : Text → Text → Bool
is_tab key data_ = text_eq key (codes "tab") || text_eq key (codes "c-i") || text_eq data_ (9 ∷ [])

abbrev pub is_enter : Text → Text → Bool
is_enter key data_ =
    text_eq key (codes "enter") || text_eq data_ (13 ∷ []) || text_eq data_ (10 ∷ [])

module _ (editor : Editor) where
  unfoldable pub open_secret_block : Bool → Prompt → Prompt
  open_secret_block enabled s =
      let s' = edit (editor.insert_text (codes "=")) s in
      if enabled then open_span_if_needed editor s' else s'

  -- What an arrow key does at the span's edge, and inside it.
  unfoldable pub move_left : Relation → PromptSecretSpan → Prompt → Prompt
  move_left at_end span s = focus_span s
  move_left inside span s = edit (editor.set_cursor (span.start - 1)) s
  move_left _ span s = edit editor.cursor_left s

  unfoldable pub handle_secret_left : Prompt → Prompt
  handle_secret_left s = elim s.span [
    | none ↦ edit editor.cursor_left s
    | some span ↦
        if span.focused then leave_before editor s else move_left (cursor_relation s) span s
  ]

  unfoldable pub move_right : Relation → PromptSecretSpan → Prompt → Prompt
  move_right at_start span s = focus_span s
  move_right left_adjacent span s = focus_span s
  move_right inside span s = edit (editor.set_cursor span.end) s
  move_right _ span s = edit editor.cursor_right s

  unfoldable pub handle_secret_right : Prompt → Prompt
  handle_secret_right s = elim s.span [
    | none ↦ edit editor.cursor_right s
    | some span ↦
        if span.focused then leave_after editor s else move_right (cursor_relation s) span s
  ]

  abbrev pub clear_value : Prompt → Prompt
  clear_value s = record s { span = put_value [] s.span }

  unfoldable pub clear_focused_secret : Prompt → Prompt
  clear_focused_secret s = if is_focused s.span then clear_value s else s

  abbrev pub is_at : Relation → Relation → Bool
  is_at at_start at_start = true
  is_at at_end at_end = true
  is_at _ _ = false

  unfoldable pub handle_secret_backspace : Prompt → Prompt
  handle_secret_backspace s =
      if is_at at_end (cursor_relation s)
      then clear_value (focus_span s)
      else delete_before_cursor editor s

  unfoldable pub handle_secret_delete : Prompt → Prompt
  handle_secret_delete s =
      if is_at at_start (cursor_relation s)
      then clear_value (focus_span s)
      else delete_at_cursor editor s

  -- `is_printable` is Python's test of a character.
  module _ (is_printable : ℕ → Bool) where
    abbrev pub is_secret_text : Text → Bool
    is_secret_text data_ = not (is_empty data_) && all is_printable data_

    unfoldable pub append_value : Text → Option PromptSecretSpan → Option PromptSecretSpan
    append_value data_ none = none
    append_value data_ (some span) =
        if span.focused && is_secret_text data_
        then some (record span { value = span.value ++ data_ })
        else some span

    unfoldable pub handle_focused_secret_text : Text → Text → Prompt → Prompt
    handle_focused_secret_text key data_ s =
        if is_tab key data_
        then leave_after editor s
        else if is_enter key data_
        then edit editor.validate_and_handle (leave_after editor s)
        else record s { span = append_value data_ s.span }

    unfoldable pub handle : Action → Prompt → Prompt
    handle (equals enabled) s = open_secret_block enabled s
    handle left s = handle_secret_left s
    handle right s = handle_secret_right s
    handle clear s = clear_focused_secret s
    handle backspace s = handle_secret_backspace s
    handle delete s = handle_secret_delete s
    handle escape s = leave_after editor s
    handle (typed key data_) s = handle_focused_secret_text key data_ s

    unfoldable pub press : Action → Prompt → Prompt
    press action s = if is_allowed action s then handle action s else s

    unfoldable pub press_all : List Action → Prompt → Prompt
    press_all [] s = s
    press_all (action ∷ rest) s = press_all rest (press action s)
