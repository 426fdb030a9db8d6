-- ===== src/Command/Shlex/Quoted.antt =====
-- A text escaped for double quotes, read by `shlex.split`.
use bywaf.Prelude.{
  ℕ, ◌||◌, ◌==◌, if◌then◌else◌, [], ◌∷◌, ◌++◌, ◌≡◌, refl, ◌∙◌, ap, arith, Text, ok, append_assoc,
  append-nil,
}
use bywaf.Command.Shlex.{
  LexState, in_quote, is_quote, is_blank, lex, lex_step, lex_end, emit, shlex_split,
}

-- Backslashes and double quotes, each behind a backslash.
abbrev pub escape_char : ℕ → Text
escape_char c = if c == b'\\' || c == b'"' then b'\\' ∷ c ∷ [] else c ∷ []

unfoldable pub escaped_text : Text → Text
escaped_text [] = []
escaped_text (c ∷ v) = escape_char c ++ escaped_text v

lex-escape_char :
    (c : ℕ) (rest token : Text)
    → lex (escape_char c ++ rest) (in_quote b'"') token ≡ lex rest (in_quote b'"') (token ++ c ∷ [])
unfolding lex lex_step emit
lex-escape_char c rest token = ground arith

lex-escaped_text :
    (v rest token : Text)
    → lex (escaped_text v ++ rest) (in_quote b'"') token ≡ lex rest (in_quote b'"') (token ++ v)
lex-escaped_text [] rest token = unfold escaped_text in rw append-nil
lex-escaped_text (c ∷ v) rest token =
    ap (λ (t : Text). lex t (in_quote b'"') token) (escaped_text-cons c v rest)
    ∙ (lex-escape_char c (escaped_text v ++ rest) token
        ∙ (lex-escaped_text v rest (token ++ c ∷ []) ∙ rw append_assoc))
  where
    escaped_text-cons :
        (c : ℕ) (v rest : Text)
        → escaped_text (c ∷ v) ++ rest ≡ escape_char c ++ (escaped_text v ++ rest)
    escaped_text-cons c v rest =
        unfold escaped_text in append_assoc (escape_char c) (escaped_text v) rest

-- A text in double quotes, escaped, is one token: the text itself.
pub shlex_split-escaped_text :
    (v : Text) → shlex_split (b'"' ∷ escaped_text v ++ b'"' ∷ []) ≡ ok (v ∷ [])
unfolding shlex_split
shlex_split-escaped_text v = open_quote ∙ (lex-escaped_text v (b'"' ∷ []) [] ∙ close_quote)
  where
    open_quote :
        lex (b'"' ∷ escaped_text v ++ b'"' ∷ []) LexState.between []
        ≡ lex (escaped_text v ++ b'"' ∷ []) (in_quote b'"') []
    open_quote = unfold lex lex_step emit is_blank is_quote in refl

    close_quote : lex (b'"' ∷ []) (in_quote b'"') v ≡ ok (v ∷ [])
    close_quote = unfold lex lex_step lex_end emit in refl
