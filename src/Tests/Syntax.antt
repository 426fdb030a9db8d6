-- ===== src/Tests/Syntax.antt =====
-- bywaf/command/pipeline_syntax.py at concrete lines.
use bywaf.Prelude.{
  true, false, if◌then◌else◌, some, is_some, List, [], ◌∷◌, ◌++◌, ◌≡◌, refl, All, Text, codes,
  strip, lstrip, rstrip, is_space, text_eq,
}
use bywaf.Command.Shlex.{is_blank, is_quote, lex_step, lex_end, emit, lex, shlex_split}
use bywaf.Command.Quoting.{outside, scan_char, reaches, next_quoting, quoting_after, top_level}
use bywaf.Command.PipelineSyntax.{
  join_spaces, is_quoted_from, is_quoted_position, ends_with_ampersand, is_space_at,
  peel_pipeline_background, append_part, opens_stage, split_from, split_pipeline_raw, next_is_space,
  find_colon_from, find_pipeline_name_colon, normalize_final_text, peel_pipeline_name_prefix,
}
use bywaf.Command.PipelineSyntax.Split.{
  join_pipes, parts_of, NoOpenPipe, OpenCuts, split_pipeline_raw-pieces,
}
use bywaf.Command.PipelineSyntax.Background.{peel_pipeline_background_lem}

-- All that a run of these functions opens.
syntax_defs : Unit {0}
unfolding is_blank is_quote lex_step lex_end emit lex shlex_split scan_char reaches next_quoting
    quoting_after top_level join_spaces is_quoted_from is_quoted_position ends_with_ampersand
    is_space_at peel_pipeline_background append_part opens_stage split_from split_pipeline_raw
    next_is_space find_colon_from find_pipeline_name_colon normalize_final_text
    peel_pipeline_name_prefix strip lstrip rstrip is_space text_eq
syntax_defs = tt

abbrev quoted_pipe : Text
quoted_pipe = codes "probe 'a|b' | save &"

split_quoted_pipe : split_pipeline_raw quoted_pipe ≡ (codes "probe 'a|b'" ∷ codes "save" ∷ [], true)
unfolding syntax_defs
split_quoted_pipe = refl

split_pipeline_raw-pieces_example :
    (ps : List Text) × (join_pipes ps ≡ (peel_pipeline_background quoted_pipe).0)
    × All NoOpenPipe ps
    × OpenCuts ps
    × ((split_pipeline_raw quoted_pipe).0 ≡ parts_of ps)
    × ((split_pipeline_raw quoted_pipe).1 ≡ (peel_pipeline_background quoted_pipe).1)
split_pipeline_raw-pieces_example = split_pipeline_raw-pieces quoted_pipe

peel_pipeline_background_lem_example :
    peel_pipeline_background (codes "scan" ++ b' ' ∷ b'&' ∷ codes " ") ≡ (
      if is_some (quoting_after outside (codes "scan" ++ b' ' ∷ [])).quote
      then (codes "scan" ++ b' ' ∷ b'&' ∷ codes " ", false)
      else (rstrip (codes "scan"), true))
unfolding is_space
peel_pipeline_background_lem_example =
    peel_pipeline_background_lem (codes "scan") b' ' (codes " ") refl refl

peel_web : peel_pipeline_name_prefix (codes "web: scan x") ≡ (codes "scan x", some (codes "web"))
unfolding syntax_defs
peel_web = refl
