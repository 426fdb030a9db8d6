-- ===== src/Command/Parser.antt =====
-- bywaf/command/parser/__init__.py: one stage of a pipeline, and a whole pipeline.
pub mod Background
use bywaf.Prelude.{
  ℕ, Bool, true, false, not, ◌&&◌, ◌||◌, if◌then◌else◌, Option, none, some, List, [], ◌∷◌, ◌++◌,
  any, init, last?, is_empty, Text, codes, text_eq, Error, Result, ok, err, ◌>>=◌, empty_command,
  empty_pipeline,
}
use bywaf.VarStore.{VarStore}
use bywaf.Command.Shlex.{shlex_split}
use bywaf.Command.PipelineSyntax.{peel_pipeline_name_prefix, split_pipeline_raw}
use bywaf.Command.Selectors.{
  Selectors, commandlet_owns_text_selector, peel_background_marker, peel_final_text_selector,
  peel_context_selectors,
}
use bywaf.Command.Variables.{Unicode, expand_variables_in_text}

pub record CommandInvocation : Type 0 where
  pub name : Text
  pub args : List Text
  pub background : Bool
  pub from_step : Option Text
  pub from_pipeline : Option Text
  pub from_job : Option Text
  pub from_topic : Option Text
  pub replay_after_id : ℕ
  pub note : Option Text
  pub display_name : Option Text
  pub variable_expansions : List Text
  pub expanded_text : Option Text
  pub plan_only : Bool
  pub approved : Bool

pub record Pipeline : Type 0 where
  pub commands : List CommandInvocation
  pub background : Bool
  pub display_name : Option Text

-- The first token, and `None` where the text does not split or has none.
unfoldable pub provisional_command_name : Text → Option Text
provisional_command_name text = elim (shlex_split text) [
  | err e ↦ none
  | ok tokens ↦ elim tokens [ [] ↦ none | token ∷ rest ↦ some token ]
]

-- A copy with `background` set. The constructor call of the source leaves three fields out, so
-- they have their defaults.
unfoldable pub invocation_with_background : CommandInvocation → CommandInvocation
invocation_with_background invocation = record invocation { background = true }

-- What the parser takes besides the text: the variables, if there are any, and the callbacks
-- `command_resolver` and `command_scope_resolver`, if they are given.
pub record ParserContext : Type 0 where
  pub unicode : Unicode
  pub varstore : Option VarStore
  pub command_resolver : Option (Text → Text)
  pub command_scope_resolver : Option (Text → Text)

abbrev pub apply_resolver : Option (Text → Text) → Text → Text
apply_resolver none name = name
apply_resolver (some resolve) name = resolve name

-- Peels `name=` or `note=`, unless the commandlet owns that word.
unfoldable pub peel_text_selector : Option Text → Text → Text → Result (Text × Option Text)
peel_text_selector commandlet text key =
    if commandlet_owns_text_selector commandlet key
    then ok (text, none)
    else peel_final_text_selector text key

-- The text after variable expansion, the names that were expanded, and the text again if it
-- changed.
pub record Expansion : Type 0 where
  pub text : Text
  pub names : List Text
  pub changed : Option Text

unfoldable pub expand_stage : ParserContext → Option Text → Text → Result Expansion
expand_stage context none text = ok (record { text = text; names = []; changed = none })
expand_stage context (some commandlet) text = elim context.varstore [
  | none ↦ ok (record { text = text; names = []; changed = none })
  | some store ↦
      expand_variables_in_text context.unicode text store
        (apply_resolver context.command_scope_resolver commandlet)
      >>= λ r. ok (record {
        text = r.0;
        names = r.1;
        changed = if text_eq r.0 text then none else some r.0;
      })
]

-- `if tokens: tokens, background = peel_background_marker(tokens)`
unfoldable pub peel_background : List Text → List Text × Bool
peel_background tokens = if is_empty tokens then (tokens, false) else peel_background_marker tokens

-- The value of `CommandInvocation(...)` once the tokens are peeled.
unfoldable pub build_invocation :
    List Text → Bool → Option Text → Option Text → Expansion → Result CommandInvocation
build_invocation [] background display_name text_note expansion = err empty_command
build_invocation (name ∷ args) background display_name text_note expansion =
    peel_context_selectors args >>= λ peeled. ok (record {
      name = name;
      args = peeled.0;
      background = background;
      from_step = peeled.1.step;
      from_pipeline = peeled.1.pipeline;
      from_job = peeled.1.job;
      from_topic = peeled.1.topic;
      replay_after_id = 0;
      note = text_note;
      display_name = display_name;
      variable_expansions = expansion.names;
      expanded_text = expansion.changed;
      plan_only = text_eq peeled.1.plan_only (codes "true");
      approved = text_eq peeled.1.approved (codes "true");
    })

-- The commandlet by whose name the selectors are peeled.
unfoldable pub resolve_commandlet : ParserContext → Option Text → Option Text
resolve_commandlet context none = none
resolve_commandlet context (some c) = some (apply_resolver context.command_resolver c)

unfoldable pub parse_invocation : ParserContext → Text → Result CommandInvocation
parse_invocation context text =
    let commandlet = provisional_command_name text in
    let for_selectors = resolve_commandlet context commandlet in
    do
      named ← peel_text_selector for_selectors text (codes "name")
      noted ← peel_text_selector for_selectors named.0 (codes "note")
      expansion ← expand_stage context commandlet noted.0
      tokens ← shlex_split expansion.text
      let peeled = peel_background tokens
      build_invocation peeled.0 peeled.1 named.1 noted.1 expansion

-- [parse_invocation(part) for part in parts]: the first error ends it
unfoldable pub parse_parts : ParserContext → List Text → Result (List CommandInvocation)
parse_parts context [] = ok []
parse_parts context (part ∷ rest) = parse_invocation context part >>= λ invocation.
    parse_parts context rest >>= λ invocations. ok (invocation ∷ invocations)

-- `commands[-1] = invocation_with_background(commands[-1])`, if `background and commands`
unfoldable pub mark_last : Bool → List CommandInvocation → List CommandInvocation
mark_last background commands =
    if background
    then (elim (last? commands) [
      | none ↦ commands
      | some last ↦ init commands ++ invocation_with_background last ∷ []
    ])
    else commands

unfoldable pub parse_pipeline : ParserContext → Text → Result Pipeline
parse_pipeline context command_line =
    let named = peel_pipeline_name_prefix command_line in
    let split = split_pipeline_raw named.0 in
    if is_empty split.0
    then err empty_pipeline
    else (parse_parts context split.0 >>= λ parsed.
        let commands = mark_last split.1 parsed in
        ok (record {
          commands = commands;
          background = any (λ c. c.background) commands;
          display_name = named.1;
        }))
