-- ===== src/SecretInput/Hiding.antt =====
-- What the visible prompt of bywaf/secret/input shows of the hidden value.
use bywaf.Prelude.{
  ◌&&◌, not, true, ℕ, Bool, Option, List, [], ◌∷◌, ◌≡◌, refl, sym, ◌∙◌, ap, arith, Text,
}
use bywaf.SecretInput.State.{
  Buffer, Editor, PromptSecretSpan, Prompt, relation_to, cursor_relation, put_value, leave_after,
  leave_before, focus_span, open_span, open_span_if_needed, cut_buffer, drop_span,
  forget_if_editing_prefix, delete_before_cursor, delete_at_cursor,
}
use bywaf.SecretInput.{
  is_bound, Action, equals, left, right, clear, backspace, delete, escape, typed, is_allowed,
  is_tab, is_enter, open_secret_block, move_left, handle_secret_left, move_right,
  handle_secret_right, clear_focused_secret, handle_secret_backspace, handle_secret_delete,
  append_value, handle_focused_secret_text, handle, press, press_all,
}

-- The prompt without the hidden value: the buffer, and the span's name, place and focus.
abbrev pub visible : Prompt → Prompt
visible s = record s { span = put_value [] s.span }

abbrev at : Option PromptSecretSpan → Buffer → Prompt
at o b = record { span = o; buffer = b }

module _ (editor : Editor) where
  -- A handler reads the hidden value only to write the hidden value.
  abbrev IsBlind : (Prompt → Prompt) → Type 0
  IsBlind f = (s : Prompt) → visible (f s) ≡ visible (f (visible s))

  leave_after-IsBlind : IsBlind (leave_after editor)
  unfolding leave_after
  leave_after-IsBlind s = ground arith

  leave_before-IsBlind : IsBlind (leave_before editor)
  unfolding leave_before
  leave_before-IsBlind s = ground arith

  handle_secret_left-IsBlind : IsBlind (handle_secret_left editor)
  unfolding handle_secret_left leave_before move_left cursor_relation relation_to focus_span
  handle_secret_left-IsBlind s = ground arith

  handle_secret_right-IsBlind : IsBlind (handle_secret_right editor)
  unfolding handle_secret_right leave_after move_right cursor_relation relation_to focus_span
  handle_secret_right-IsBlind s = ground arith

  clear_focused_secret-IsBlind : IsBlind (clear_focused_secret editor)
  unfolding clear_focused_secret
  clear_focused_secret-IsBlind s = ground arith

  open_secret_block-IsBlind : (enabled : Bool) → IsBlind (open_secret_block editor enabled)
  unfolding open_secret_block open_span_if_needed open_span
  open_secret_block-IsBlind enabled s = ground arith

  delete_before_cursor-IsBlind : IsBlind (delete_before_cursor editor)
  unfolding delete_before_cursor forget_if_editing_prefix drop_span cut_buffer
  delete_before_cursor-IsBlind s = ground arith

  delete_at_cursor-IsBlind : IsBlind (delete_at_cursor editor)
  unfolding delete_at_cursor drop_span cut_buffer
  delete_at_cursor-IsBlind s = ground arith

  handle_secret_backspace-IsBlind : IsBlind (handle_secret_backspace editor)
  unfolding handle_secret_backspace cursor_relation relation_to focus_span
  handle_secret_backspace-IsBlind s = ground (arith, delete_before_cursor-IsBlind s)

  handle_secret_delete-IsBlind : IsBlind (handle_secret_delete editor)
  unfolding handle_secret_delete cursor_relation relation_to focus_span
  handle_secret_delete-IsBlind s = ground (arith, delete_at_cursor-IsBlind s)

  module _ (is_printable : ℕ → Bool) where
    typed-IsBlind :
        (key data_ : Text) → IsBlind (handle_focused_secret_text editor is_printable key data_)
    unfolding handle_focused_secret_text leave_after append_value
    typed-IsBlind key data_ s = ground arith

    handle-IsBlind : (action : Action) → IsBlind (handle editor is_printable action)
    unfolding handle
    handle-IsBlind (equals enabled) s = open_secret_block-IsBlind enabled s
    handle-IsBlind left s = handle_secret_left-IsBlind s
    handle-IsBlind right s = handle_secret_right-IsBlind s
    handle-IsBlind clear s = clear_focused_secret-IsBlind s
    handle-IsBlind backspace s = handle_secret_backspace-IsBlind s
    handle-IsBlind delete s = handle_secret_delete-IsBlind s
    handle-IsBlind escape s = leave_after-IsBlind s
    handle-IsBlind (typed key data_) s = typed-IsBlind key data_ s

    is_allowed-visible :
        (action : Action) (s : Prompt) → is_allowed action (visible s) ≡ is_allowed action s
    unfolding is_allowed
    is_allowed-visible (equals enabled) s = refl
    is_allowed-visible left s = refl
    is_allowed-visible right s = refl
    is_allowed-visible clear s = ground arith
    is_allowed-visible backspace s = refl
    is_allowed-visible delete s = refl
    is_allowed-visible escape s = ground arith
    is_allowed-visible (typed key data_) s = ground arith

    visible-visible : (s : Prompt) → visible (visible s) ≡ visible s
    visible-visible s = ground arith

    press-IsBlind : (action : Action) → IsBlind (press editor is_printable action)
    unfolding press
    press-IsBlind action s =
        ground (arith, is_allowed-visible action s, handle-IsBlind action s, visible-visible s)

    -- A key that is only typed into the hidden value.
    abbrev pub is_typing : Text → Text → Bool
    is_typing key data_ = not (is_bound key) && not (is_tab key data_) && not (is_enter key data_)

    -- The same action, or two keys of which each only types into the hidden value.
    pub data Alike : Action → Action → Type 0 where
      same : (action : Action) → Alike action action
      secret :
          (key data_ key' data' : Text)
          → is_typing key data_ ≡ true
          → is_typing key' data' ≡ true
          → Alike (typed key data_) (typed key' data')

    abbrev pub AllAlike : List Action → List Action → Type 0
    AllAlike [] [] = Unit
    AllAlike [] (b ∷ bs) = ⊥
    AllAlike (a ∷ as_) [] = ⊥
    AllAlike (a ∷ as_) (b ∷ bs) = Alike a b × AllAlike as_ bs

    typed-visible :
        (key data_ : Text) (s : Prompt)
        → is_typing key data_ ≡ true
        → visible (press editor is_printable (typed key data_) s) ≡ visible s
    unfolding press handle handle_focused_secret_text append_value is_allowed
    typed-visible key data_ s h = ground arith

    Alike-visible :
        (a b : Action) (s : Prompt)
        → Alike a b
        → visible (press editor is_printable a s) ≡ visible (press editor is_printable b s)
    Alike-visible a b s (same _) = refl
    Alike-visible a b s (secret key data_ key' data' h h') =
        typed-visible key data_ s h ∙ sym (typed-visible key' data' s h')

    press-visible :
        (a b : Action) (s t : Prompt)
        → Alike a b
        → visible s ≡ visible t
        → visible (press editor is_printable a s) ≡ visible (press editor is_printable b t)
    press-visible a b s t alike e =
        press-IsBlind a s
        ∙ ap (λ p. visible (press editor is_printable a p)) e
        ∙ sym (press-IsBlind a t)
        ∙ Alike-visible a b t alike

-- Two prompts that look the same still look the same after any two key sequences that differ only in
-- keys typed into a focused span, where such a key has no binding of its own (it is not `=`, left,
-- right, backspace, delete or escape) and is neither tab nor enter: they have the same buffer, and a
-- span of the same name, place and focus.
pub press_all-visible :
    (editor : Editor) (is_printable : ℕ → Bool) (actions others : List Action) (s t : Prompt)
    → AllAlike editor is_printable actions others
    → visible s ≡ visible t
    → visible (press_all editor is_printable actions s)
      ≡ visible (press_all editor is_printable others t)
unfolding press_all
press_all-visible editor is_printable [] [] s t alike e = e
press_all-visible editor is_printable [] (b ∷ bs) s t alike e = absurd alike
press_all-visible editor is_printable (a ∷ as_) [] s t alike e = absurd alike
press_all-visible editor is_printable (a ∷ as_) (b ∷ bs) s t alike e =
    press_all-visible editor is_printable as_ bs (press editor is_printable a s)
      (press editor is_printable b t) alike.1 (press-visible editor is_printable a b s t alike.0 e)
