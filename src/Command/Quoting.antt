-- ===== src/Command/Quoting.antt =====
-- The quote and escape tests with which every scanner of bywaf/command begins: an escaped character
-- is passed over, a backslash escapes the next one, and quotes are opened and closed.
use bywaf.Prelude.{
  ℕ, Bool, true, false, not, ◌||◌, ◌==◌, if◌then◌else◌, Option, none, some, is_some, [], ◌∷◌, ◌++◌,
  ◌≡◌, refl, Text,
}

-- The scanners' variables `quote` and `escaped`.
pub record Quoting : Type 0 where
  pub quote : Option ℕ
  pub escaped : Bool

abbrev pub outside : Quoting
outside = record { quote = none; escaped = false }

-- The tests of one iteration: `some q` where the iteration ends by `continue` with the state `q`,
-- `none` where the character stands outside quotes and goes on to the tests below.
unfoldable pub scan_char : Quoting → ℕ → Option Quoting
scan_char q c =
    if q.escaped
    then some (record q { escaped = false })
    else if c == b'\\'
    then some (record q { escaped = true })
    else (elim q.quote [
      | some d ↦ some (if c == d then record q { quote = none } else q)
      | none ↦ if c == b'\'' || c == b'"' then some (record q { quote = some c }) else none
    ])

-- Whether the character stands outside quotes, unescaped, and is no quote or backslash itself.
unfoldable pub reaches : Quoting → ℕ → Bool
reaches q c = not (is_some (scan_char q c))

abbrev pub after_char : Option Quoting → Quoting → Quoting
after_char (some r) q = r
after_char none q = q

-- The state after one iteration.
unfoldable pub next_quoting : Quoting → ℕ → Quoting
next_quoting q c = after_char (scan_char q c) q

-- The state after a whole text.
unfoldable pub quoting_after : Quoting → Text → Quoting
quoting_after q [] = q
quoting_after q (c ∷ t) = quoting_after (next_quoting q c) t

-- The characters of a text that stand outside quotes and are not escaped.
unfoldable pub top_level : Quoting → Text → Text
top_level q [] = []
top_level q (c ∷ t) =
    let rest = top_level (next_quoting q c) t in if reaches q c then c ∷ rest else rest

pub quoting_after-append :
    (q : Quoting) (s t : Text) → quoting_after q (s ++ t) ≡ quoting_after (quoting_after q s) t
unfolding quoting_after
quoting_after-append q [] t = refl
quoting_after-append q (c ∷ s) t = quoting_after-append (next_quoting q c) s t
