-- ===== src/Tests/Parsing.antt =====
-- bywaf/command/parser/__init__.py at a concrete line.
use bywaf.Prelude.{
  true, false, none, some, List, [], ◌∷◌, ◌≡◌, refl, All, Text, codes, text_eq, mem_text, strip,
  lstrip, rstrip, is_space, starts_with, contains_char, partition, unique_texts, without, ok,
}
use bywaf.VarStore.{find_value, get}
use bywaf.Command.Shlex.{is_blank, is_quote, lex_step, lex_end, emit, lex, shlex_split}
use bywaf.Command.Quoting.{scan_char, reaches, next_quoting}
use bywaf.Command.PipelineSyntax.{
  join_spaces, is_quoted_from, is_quoted_position, ends_with_ampersand, is_space_at,
  peel_pipeline_background, append_part, opens_stage, split_from, split_pipeline_raw, next_is_space,
  find_colon_from, find_pipeline_name_colon, normalize_final_text, peel_pipeline_name_prefix,
}
use bywaf.Command.Selectors.{
  selectors_of, commandlet_owns_text_selector, peel_background_marker, find_selector_from,
  find_unquoted_text_selector, peel_final_text_selector, assign, context_selector_key,
  context_selector_assignment, require_replay_source, peel_from_group, apply_bool_selector,
  peel_from, peel_context_selectors,
}
use bywaf.Command.Variables.{
  starts_name, continues_name, replace_char, escape_double_quoted_value, first_defined,
  candidates_of, resolve_variable_reference, take_name, parse_variable_reference, quoted_by,
  consume_escaped_char, begin_escape, consume_single_quoted_char, toggle_double_quote,
  begin_single_quote, expand_reference, consume_variable_reference, consume_scan_char, expand_from,
  expand_variables_in_text,
}
use bywaf.Command.Parser.{
  CommandInvocation, Pipeline, ParserContext, provisional_command_name, invocation_with_background,
  peel_text_selector, expand_stage, peel_background, build_invocation, resolve_commandlet,
  parse_invocation, parse_parts, mark_last, parse_pipeline,
}
use bywaf.Command.Parser.Background.{
  Marked, IsFramed, parse_pipeline-IsFramed, parse_pipeline-background,
}

parser_defs : Unit {0}
unfolding text_eq mem_text strip lstrip rstrip is_space starts_with contains_char partition
    unique_texts without find_value get is_blank is_quote lex_step lex_end emit lex shlex_split
    scan_char reaches next_quoting join_spaces is_quoted_from is_quoted_position ends_with_ampersand
    is_space_at peel_pipeline_background append_part opens_stage split_from split_pipeline_raw
    next_is_space find_colon_from find_pipeline_name_colon normalize_final_text
    peel_pipeline_name_prefix selectors_of commandlet_owns_text_selector peel_background_marker
    find_selector_from find_unquoted_text_selector peel_final_text_selector assign
    context_selector_key context_selector_assignment require_replay_source peel_from_group
    apply_bool_selector peel_from peel_context_selectors starts_name continues_name replace_char
    escape_double_quoted_value first_defined candidates_of resolve_variable_reference take_name
    parse_variable_reference quoted_by consume_escaped_char begin_escape consume_single_quoted_char
    toggle_double_quote begin_single_quote expand_reference consume_variable_reference
    consume_scan_char expand_from expand_variables_in_text provisional_command_name
    invocation_with_background peel_text_selector expand_stage peel_background build_invocation
    resolve_commandlet parse_invocation parse_parts mark_last parse_pipeline
parser_defs = tt

abbrev session : ParserContext
session = record {
  unicode = record { is_wide_alpha = λ c. false; is_wide_alnum = λ c. false };
  varstore = some (record { values = (codes "global.host", codes "h1") ∷ [] });
  command_resolver = none;
  command_scope_resolver = none;
}

abbrev line : Text
line = codes "find a | scan $host --test name=web &"

abbrev find_stage : CommandInvocation
find_stage = record {
  name = codes "find";
  args = codes "a" ∷ [];
  background = false;
  from_step = none;
  from_pipeline = none;
  from_job = none;
  from_topic = none;
  replay_after_id = 0;
  note = none;
  display_name = none;
  variable_expansions = [];
  expanded_text = none;
  plan_only = false;
  approved = false;
}

abbrev scan_stage : CommandInvocation
scan_stage = record find_stage {
  name = codes "scan";
  args = codes "h1" ∷ [];
  background = true;
  display_name = some (codes "web");
  variable_expansions = codes "global.host" ∷ [];
  expanded_text = some (codes "scan h1 --test");
  plan_only = true;
}

abbrev parsed : Pipeline
parsed = record { commands = find_stage ∷ scan_stage ∷ []; background = true; display_name = none }

parse_line : parse_pipeline session line ≡ ok parsed
unfolding parser_defs
parse_line = refl

-- The last stage alone is in the foreground, and the same otherwise.
parse_foreground :
    parse_invocation session (codes "scan $host --test name=web")
    ≡ ok (record scan_stage { background = false })
unfolding parser_defs
parse_foreground = refl

parse_pipeline-IsFramed_example : All IsFramed parsed.commands
parse_pipeline-IsFramed_example = parse_pipeline-IsFramed session line parsed parse_line

parse_pipeline-background_example :
    (stages : List CommandInvocation) × (parse_parts session
        (split_pipeline_raw (peel_pipeline_name_prefix line).0).0
      ≡ ok stages)
    × Marked (split_pipeline_raw (peel_pipeline_name_prefix line).0).1 stages parsed
parse_pipeline-background_example = parse_pipeline-background session line parsed parse_line
