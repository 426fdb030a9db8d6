-- ===== src/SecretInput/State.antt =====
-- PromptSecretInputState of bywaf/secret/input/state.py. What it only writes to the terminal is left
-- out.
use bywaf.Prelude.{
  ℕ, ◌+◌, ◌-◌, ◌==◌, Bool, true, false, not, ◌||◌, ltb, leb, if◌then◌else◌, Option, none, some,
  List, [], ◌∷◌, ◌++◌, is_empty, last?, init, length, take, drop, Text, text_eq, codes, mem_text,
  ok, err,
}
use bywaf.Command.Shlex.{shlex_split}
use bywaf.Capability.{ends_with}

abbrev pub redacted_value : Text
redacted_value = codes "[REDACTED]"

-- The parts of prompt_toolkit's Buffer that are read.
pub record Buffer : Type 0 where
  pub text : Text
  pub cursor : ℕ

-- prompt_toolkit's own operations on a buffer.
pub record Editor : Type 0 where
  pub insert_text : Text → Buffer → Buffer
  pub set_text : Text → Buffer → Buffer
  pub set_cursor : ℕ → Buffer → Buffer
  pub cursor_left : Buffer → Buffer
  pub cursor_right : Buffer → Buffer
  pub delete_before : Buffer → Buffer
  pub delete_at : Buffer → Buffer
  pub validate_and_handle : Buffer → Buffer

pub record PromptSecretSpan : Type 0 where
  pub name : Text
  pub start : ℕ
  pub end : ℕ
  pub value : Text
  pub focused : Bool

-- The state and the buffer that a handler changes.
pub record Prompt : Type 0 where
  pub span : Option PromptSecretSpan
  pub buffer : Buffer

-- Where the cursor is, with respect to the span.
pub data Relation : Type 0 where
  no_span left_adjacent before at_start inside at_end right_adjacent after : Relation

unfoldable pub relation_to : PromptSecretSpan → ℕ → Relation
relation_to span pos =
    if pos + 1 == span.start
    then left_adjacent
    else if ltb pos span.start
    then before
    else if pos == span.start
    then at_start
    else if ltb pos span.end
    then inside
    else if pos == span.end
    then at_end
    else if pos == span.end + 1
    then right_adjacent
    else after

unfoldable pub cursor_relation : Prompt → Relation
cursor_relation s = elim s.span [ none ↦ no_span | some span ↦ relation_to span s.buffer.cursor ]

abbrev pub is_focused : Option PromptSecretSpan → Bool
is_focused none = false
is_focused (some span) = span.focused

-- focus and clear_focus
abbrev pub set_focus : Bool → Option PromptSecretSpan → Option PromptSecretSpan
set_focus b none = none
set_focus b (some span) = some (record span { focused = b })

abbrev pub put_value : Text → Option PromptSecretSpan → Option PromptSecretSpan
put_value value none = none
put_value value (some span) = some (record span { value = value })

-- name or None
abbrev pub nonempty : Text → Option Text
nonempty name = if is_empty name then none else some name

-- The name in `name=`.
unfoldable pub assigned_name : Option Text → Option Text
assigned_name none = none
assigned_name (some assignment) =
    if not (ends_with (codes "=") assignment) then none else nonempty (init assignment)

abbrev pub is_secret_flag : Option Text → Bool
is_secret_flag none = false
is_secret_flag (some token) = text_eq token (codes "--secret")

abbrev pub is_variable_command : List Text → Bool
is_variable_command [] = false
is_variable_command (token ∷ rest) = mem_text token (codes "set" ∷ codes "setg" ∷ [])

-- The tokens of the text, the last two of which are read.
unfoldable pub open_assignment : List Text → Option Text
open_assignment tokens =
    if not (is_variable_command tokens) || ltb (length tokens) 3
    then none
    else if is_secret_flag (last? (init tokens))
    then assigned_name (last? tokens)
    else if is_secret_flag (last? tokens)
    then assigned_name (last? (init tokens))
    else none

unfoldable pub open_secret_assignment_name : Text → Option Text
open_secret_assignment_name text_before_cursor = elim (shlex_split text_before_cursor) [
  | ok tokens ↦ open_assignment tokens
  | err e ↦ none
]

-- values_for_command: the name and the value, if the span still shows the redaction
unfoldable pub values_for_command : Text → Option PromptSecretSpan → List (Text × Text)
values_for_command text none = []
values_for_command text (some span) =
    if text_eq (take (span.end - span.start) (drop span.start text)) redacted_value
    then (span.name, span.value) ∷ []
    else []

unfoldable pub focus_span : Prompt → Prompt
focus_span s = record s { span = set_focus true s.span }

abbrev pub min : ℕ → ℕ → ℕ
min a b = if leb a b then a else b

abbrev pub edit : (Buffer → Buffer) → Prompt → Prompt
edit change s = record s { buffer = change s.buffer }

module _ (editor : Editor) where
  -- max(0, span.start - 1) is span.start - 1, since `-` stops at 0
  unfoldable pub leave_after : Prompt → Prompt
  leave_after s = elim s.span [
    | none ↦ s
    | some span ↦ record {
      span = some (record span { focused = false });
      buffer = editor.set_cursor span.end s.buffer;
    }
  ]

  unfoldable pub leave_before : Prompt → Prompt
  leave_before s = elim s.span [
    | none ↦ s
    | some span ↦ record {
      span = some (record span { focused = false });
      buffer = editor.set_cursor (span.start - 1) s.buffer;
    }
  ]

  unfoldable pub open_span : Text → Prompt → Prompt
  open_span name s =
      let start = s.buffer.cursor in
      record {
        span = some (record {
          name = name;
          start = start;
          end = start + length redacted_value;
          value = [];
          focused = true;
        });
        buffer = editor.set_cursor start (editor.insert_text redacted_value s.buffer);
      }

  unfoldable pub open_span_if_needed : Prompt → Prompt
  open_span_if_needed s = elim (open_secret_assignment_name (take s.buffer.cursor s.buffer.text)) [
    | none ↦ s
    | some name ↦ open_span name s
  ]

  -- buffer.text[:start] + buffer.text[end:], and the cursor kept inside
  unfoldable pub cut_buffer : PromptSecretSpan → Buffer → Buffer
  cut_buffer span buffer =
      let cut = editor.set_text (take span.start buffer.text ++ drop span.end buffer.text) buffer in
      editor.set_cursor (min cut.cursor (length cut.text)) cut

  unfoldable pub drop_span : Prompt → Prompt
  drop_span s = elim s.span [
    | none ↦ s
    | some span ↦ record { span = none; buffer = cut_buffer span s.buffer }
  ]

  unfoldable pub forget_if_editing_prefix : Prompt → Prompt
  forget_if_editing_prefix s = elim s.span [
    | none ↦ s
    | some span ↦ if leb s.buffer.cursor span.start then drop_span s else s
  ]

  unfoldable pub delete_before_cursor : Prompt → Prompt
  delete_before_cursor s = edit editor.delete_before (forget_if_editing_prefix s)

  unfoldable pub delete_at_cursor : Prompt → Prompt
  delete_at_cursor s = edit editor.delete_at (elim s.span [
    | none ↦ s
    | some span ↦ if ltb s.buffer.cursor span.start then drop_span s else s
  ])
