-- ===== src/Command/Shlex.antt =====
-- Python's `shlex.split(text)` in its default mode (POSIX, split on white space, no comments): the
-- source only calls it. `lex` is a machine with one step for each character.
pub mod Quoted
use bywaf.Prelude.{
  ℕ, Bool, true, false, not, ◌&&◌, ◌||◌, ◌==◌, if◌then◌else◌, Option, none, some, List, [], ◌∷◌,
  ◌++◌, Text, Error, Result, ok, err, no_closing_quotation, no_escaped_character,
}

pub data LexState : Type 0 where
  between in_word escaped_word : LexState
  in_quote escaped_quote : ℕ → LexState

-- shlex.whitespace
unfoldable pub is_blank : ℕ → Bool
is_blank c = c == 32 || c == 9 || c == 13 || c == 10

unfoldable pub is_quote : ℕ → Bool
is_quote c = c == b'\'' || c == b'"'

-- The state after one character, the token so far, and a token that is complete.
pub record Lexed : Type 0 where
  pub state : LexState
  pub token : Text
  pub emitted : Option Text

unfoldable pub lex_step : LexState → Text → ℕ → Lexed
lex_step between token c =
    if is_blank c
    then record { state = between; token = token; emitted = none }
    else if c == b'\\'
    then record { state = escaped_word; token = token; emitted = none }
    else if is_quote c
    then record { state = in_quote c; token = token; emitted = none }
    else record { state = in_word; token = c ∷ []; emitted = none }
lex_step in_word token c =
    if is_blank c
    then record { state = between; token = []; emitted = some token }
    else if is_quote c
    then record { state = in_quote c; token = token; emitted = none }
    else if c == b'\\'
    then record { state = escaped_word; token = token; emitted = none }
    else record { state = in_word; token = token ++ c ∷ []; emitted = none }
lex_step (in_quote d) token c =
    if c == d
    then record { state = in_word; token = token; emitted = none }
    else if c == b'\\' && d == b'"'
    then record { state = escaped_quote d; token = token; emitted = none }
    else record { state = in_quote d; token = token ++ c ∷ []; emitted = none }
lex_step escaped_word token c = record { state = in_word; token = token ++ c ∷ []; emitted = none }
lex_step (escaped_quote d) token c =
    if not (c == b'\\') && not (c == d)
    then record { state = in_quote d; token = token ++ b'\\' ∷ c ∷ []; emitted = none }
    else record { state = in_quote d; token = token ++ c ∷ []; emitted = none }

-- What the end of the text makes of the state.
unfoldable pub lex_end : LexState → Text → Result (List Text)
lex_end between token = ok []
lex_end in_word token = ok (token ∷ [])
lex_end escaped_word token = err no_escaped_character
lex_end (in_quote d) token = err no_closing_quotation
lex_end (escaped_quote d) token = err no_escaped_character

unfoldable pub emit : Option Text → Result (List Text) → Result (List Text)
emit none r = r
emit (some token) (ok tokens) = ok (token ∷ tokens)
emit (some token) (err e) = err e

unfoldable pub lex : Text → LexState → Text → Result (List Text)
lex [] state token = lex_end state token
lex (c ∷ rest) state token =
    let step = lex_step state token c in emit step.emitted (lex rest step.state step.token)

unfoldable pub shlex_split : Text → Result (List Text)
shlex_split text = lex text between []
