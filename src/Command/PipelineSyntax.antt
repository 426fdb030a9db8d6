-- ===== src/Command/PipelineSyntax.antt =====
-- bywaf/command/pipeline_syntax.py
pub mod Split
pub mod Background
pub mod Names
use bywaf.Prelude.{
  ℕ, zero, suc, ◌+◌, ◌-◌, Bool, true, false, not, ◌&&◌, ◌||◌, ◌==◌, if◌then◌else◌, Option, none,
  some, is_some, List, [], ◌∷◌, ◌++◌, take, drop, length, get_elem?, is_empty, Text, ok, err, strip,
  rstrip, last?, is_space,
}
use bywaf.Command.Shlex.{shlex_split}
use bywaf.Command.Quoting.{Quoting, outside, reaches, next_quoting}

-- " ".join(tokens)
unfoldable pub join_spaces : List Text → Text
join_spaces [] = []
join_spaces (t ∷ []) = t
join_spaces (t ∷ u ∷ l) = t ++ b' ' ∷ join_spaces (u ∷ l)

-- The loop of `is_quoted_position`, over the characters from `index` on.
unfoldable pub is_quoted_from : Text → ℕ → Quoting → ℕ → Bool
is_quoted_from [] index q position = false
is_quoted_from (c ∷ rest) index q position =
    let later = is_quoted_from rest (index + 1) (next_quoting q c) position in
    if index == position then is_some q.quote else later

unfoldable pub is_quoted_position : Text → ℕ → Bool
is_quoted_position text position = is_quoted_from text 0 outside position

-- text.endswith("&")
unfoldable pub ends_with_ampersand : Text → Bool
ends_with_ampersand text = elim (last? text) [ none ↦ false | some c ↦ c == b'&' ]

-- text[index].isspace(), for an index that the caller has tested
unfoldable pub is_space_at : Text → ℕ → Bool
is_space_at text index = elim (get_elem? text index) [ none ↦ false | some c ↦ is_space c ]

unfoldable pub peel_pipeline_background : Text → Text × Bool
peel_pipeline_background command_line =
    let stripped = rstrip command_line in
    let amp_index = length stripped - 1 in
    if not (ends_with_ampersand stripped)
    then (command_line, false)
    else if amp_index == 0 || not (is_space_at stripped (amp_index - 1))
    then (command_line, false)
    else if is_quoted_position stripped amp_index
    then (command_line, false)
    else (rstrip (take amp_index stripped), true)

-- command_line[start:index]
abbrev pub slice : Text → ℕ → ℕ → Text
slice text start index = take (index - start) (drop start text)

-- `if part: parts.append(part)`
unfoldable pub append_part : List Text → Text → List Text
append_part parts part = if is_empty part then parts else parts ++ part ∷ []

-- `char == "|"`, at a character that no quote and no escape holds
unfoldable pub opens_stage : Quoting → ℕ → Bool
opens_stage q c = reaches q c && c == b'|'

-- The loop of `split_pipeline_raw`, over the characters from `index` on; it ends with `parts` and
-- `start`.
unfoldable pub split_from : Text → Text → ℕ → ℕ → Quoting → List Text → List Text × ℕ
split_from line [] index start q parts = (parts, start)
split_from line (c ∷ rest) index start q parts =
    let cut = opens_stage q c in
    let part = strip (slice line start index) in
    split_from line rest (index + 1) (if cut then index + 1 else start) (next_quoting q c)
      (if cut then append_part parts part else parts)

unfoldable pub split_pipeline_raw : Text → List Text × Bool
split_pipeline_raw command_line =
    let (line, background) = peel_pipeline_background command_line in
    let (parts, start) = split_from line line 0 0 outside [] in
    (append_part parts (strip (drop start line)), background)

-- `index + 1 < len(command_line) and command_line[index + 1].isspace()`
unfoldable pub next_is_space : Text → Bool
next_is_space [] = false
next_is_space (c ∷ rest) = is_space c

unfoldable pub find_colon_from : Text → ℕ → Quoting → Option ℕ
find_colon_from [] index q = none
find_colon_from (c ∷ rest) index q =
    let later = find_colon_from rest (index + 1) (next_quoting q c) in
    if not (reaches q c)
    then later
    else if c == b'|'
    then none
    else if c == b':' && next_is_space rest
    then some index
    else later

unfoldable pub find_pipeline_name_colon : Text → Option ℕ
find_pipeline_name_colon command_line = find_colon_from command_line 0 outside

unfoldable pub normalize_final_text : Text → Text
normalize_final_text raw_value =
    let stripped = strip raw_value in
    if is_empty stripped
    then []
    else (elim (shlex_split stripped) [ ok tokens ↦ join_spaces tokens | err e ↦ stripped ])

unfoldable pub peel_pipeline_name_prefix : Text → Text × Option Text
peel_pipeline_name_prefix command_line = elim (find_pipeline_name_colon command_line) [
  | none ↦ (command_line, none)
  | some index ↦
      let display_name = normalize_final_text (take index command_line) in
      let command = strip (drop (index + 1) command_line) in
      if is_empty display_name || is_empty command
      then (command_line, none)
      else (command, some display_name)
]
