-- ===== src/Command/Parser/Background.antt =====
-- `parse_pipeline` and `parse_invocation` of bywaf/command/parser/__init__.py: what a parsed
-- pipeline is made of, and what a trailing `&` does to it.
use bywaf.Prelude.{
  Bool, true, false, not, ◌||◌, if◌then◌else◌, Option, is_some, List, [], ◌∷◌, ◌++◌, ◌≡◌, ◌≢◌, refl,
  sym, ◌∙◌, ap, subst, arith, any, any-append, All, length, is_empty, Text, codes, ok, >>=-eq-ok,
  inl, inr, Bool-cases, last?-snoc, init-snoc, snoc_view, All-append, All-append_left,
  All-append_right, Ensures, returns, raises, Ensures-bind, Ensures-ok,
}
use bywaf.Command.Selectors.{peel_context_selectors}
use bywaf.Command.Selectors.Context.{is_framework_token, peel_context_selectors-IsClean}
use bywaf.Command.Shlex.{shlex_split}
use bywaf.Command.PipelineSyntax.{peel_pipeline_name_prefix, split_pipeline_raw}
use bywaf.Command.Parser.{
  CommandInvocation, Pipeline, ParserContext, Expansion, invocation_with_background,
  build_invocation, parse_invocation, resolve_commandlet, provisional_command_name,
  peel_text_selector, expand_stage, peel_background, parse_parts, mark_last, parse_pipeline,
}

-- No framework token among the arguments, and a replay source beside a topic.
pub record IsFramed (c : CommandInvocation) : Type 0 where
  pub plain : any is_framework_token c.args ≡ false
  pub narrow :
      (not (is_some c.from_topic)
        || (is_some c.from_step || is_some c.from_pipeline || is_some c.from_job))
      ≡ true

build_invocation-IsFramed :
    (tokens : List Text) (background : Bool) (display_name text_note : Option Text)
    (expansion : Expansion)
    → Ensures IsFramed (build_invocation tokens background display_name text_note expansion)
unfolding build_invocation
build_invocation-IsFramed [] background display_name text_note expansion = raises
build_invocation-IsFramed (name ∷ args) background display_name text_note expansion =
    Ensures-bind IsFramed (peel_context_selectors args) _ λ peeled e.
      let clean = peel_context_selectors-IsClean args peeled.0 peeled.1 e in
      returns (record { plain = clean.0; narrow = clean.1 })

parse_invocation-Ensures :
    (context : ParserContext) (text : Text) → Ensures IsFramed (parse_invocation context text)
unfolding parse_invocation
parse_invocation-Ensures context text =
    let selecting = resolve_commandlet context (provisional_command_name text) in
    Ensures-bind IsFramed (peel_text_selector selecting text (codes "name")) _ λ named _.
      Ensures-bind IsFramed (peel_text_selector selecting named.0 (codes "note")) _ λ noted _.
        Ensures-bind IsFramed (expand_stage context (provisional_command_name text) noted.0) _
          λ expansion _. Ensures-bind IsFramed (shlex_split expansion.text) _ λ tokens _.
            let peeled = peel_background tokens in
            build_invocation-IsFramed peeled.0 peeled.1 named.1 noted.1 expansion

parse_parts-Ensures :
    (context : ParserContext) (parts : List Text)
    → Ensures (All IsFramed) (parse_parts context parts)
unfolding parse_parts
parse_parts-Ensures context [] = returns tt
parse_parts-Ensures context (part ∷ rest) =
    let ih = parse_parts-Ensures context rest in
    Ensures-bind (All IsFramed) (parse_invocation context part) _ λ c e.
      Ensures-bind (All IsFramed) (parse_parts context rest) _ λ cs es. returns (
        Ensures-ok IsFramed _ c (parse_invocation-Ensures context part) e,
        Ensures-ok (All IsFramed) _ cs ih es,
      )

marked-IsFramed : (c : CommandInvocation) → IsFramed c → IsFramed (invocation_with_background c)
unfolding invocation_with_background
marked-IsFramed c h = record { plain = h.plain; narrow = h.narrow }

mark_last-snoc :
    (background : Bool) (ys : List CommandInvocation) (y : CommandInvocation)
    → mark_last background (ys ++ y ∷ [])
      ≡ ys ++ (if background then invocation_with_background y else y) ∷ []
unfolding mark_last
mark_last-snoc true ys y = rw (last?-snoc, init-snoc)
mark_last-snoc false ys y = refl

mark_last-IsFramed :
    (background : Bool) (cs : List CommandInvocation)
    → All IsFramed cs
    → All IsFramed (mark_last background cs)
mark_last-IsFramed background [] h = unfold mark_last in ground arith
mark_last-IsFramed background (c ∷ cs) h =
    let (ys, y, e) = snoc_view c cs in
    let h' : All IsFramed (ys ++ y ∷ []) = subst (All IsFramed) e h in
    let last : IsFramed (if background then invocation_with_background y else y) =
      marked_if background y (All-append_right IsFramed ys (y ∷ []) h').0 in
    rw (e, mark_last-snoc background ys y)
      (All-append IsFramed ys _ (All-append_left IsFramed ys (y ∷ []) h') (last, tt))
  where
    marked_if :
        (b : Bool) (y : CommandInvocation)
        → IsFramed y
        → IsFramed (if b then invocation_with_background y else y)
    marked_if true y h = marked-IsFramed y h
    marked_if false y h = h

parts_of_pipeline :
    (context : ParserContext) (line : Text) (p : Pipeline)
    → parse_pipeline context line ≡ ok p
    → (parsed : List CommandInvocation) × (is_empty
          (split_pipeline_raw (peel_pipeline_name_prefix line).0).0
        ≡ false)
      × (parse_parts context (split_pipeline_raw (peel_pipeline_name_prefix line).0).0 ≡ ok parsed)
      × (p.commands ≡ mark_last (split_pipeline_raw (peel_pipeline_name_prefix line).0).1 parsed)
      × (p.background ≡ any (λ c. c.background) p.commands)
unfolding parse_pipeline
parts_of_pipeline context line p h =
    elim (Bool-cases (is_empty (split_pipeline_raw (peel_pipeline_name_prefix line).0).0)) [
      | inl none_left ↦ cc (rw (none_left, parse_pipeline) at h)
      | inr parts ↦
          let (parsed, e, r) =
            >>=-eq-ok
              (parse_parts context (split_pipeline_raw (peel_pipeline_name_prefix line).0).0) _
              (rw (parts, parse_pipeline) at h) in
          (parsed, parts, e, ground (arith, r), ground (arith, r))
    ]

-- In a parsed pipeline no stage keeps a `--from`, `--test` or `--yes` among its arguments, and no
-- stage has a topic without a step, a pipeline or a job to replay.
pub parse_pipeline-IsFramed :
    (context : ParserContext) (line : Text) (p : Pipeline)
    → parse_pipeline context line ≡ ok p
    → All IsFramed p.commands
parse_pipeline-IsFramed context line p h =
    let (parsed, n, e, c, b) = parts_of_pipeline context line p h in
    rw c (
      mark_last-IsFramed _ parsed
        (Ensures-ok (All IsFramed) _ parsed (parse_parts-Ensures context _) e))

-- What a pipeline is, given the stages that its parts parse to.
abbrev pub Marked : Bool → List CommandInvocation → Pipeline → Type 0
Marked true parsed p =
    (front : List CommandInvocation) × (last : CommandInvocation) × (parsed ≡ front ++ last ∷ [])
    × (p.commands ≡ front ++ record last { background = true } ∷ [])
    × (p.background ≡ true)
Marked false parsed p = (p.commands ≡ parsed) × (p.background ≡ any (λ c. c.background) parsed)

length-ne-zero : (parts : List Text) → is_empty parts ≡ false → length parts ≢ 0
length-ne-zero [] n h = cc
length-ne-zero (x ∷ xs) n h = omega arith

length-parse_parts :
    (context : ParserContext) (parts : List Text) (parsed : List CommandInvocation)
    → parse_parts context parts ≡ ok parsed
    → length parsed ≡ length parts
unfolding parse_parts
length-parse_parts context [] parsed h = ground arith
length-parse_parts context (part ∷ rest) parsed h =
    let (c, e, h1) = >>=-eq-ok (parse_invocation context part) _ h in
    let (cs, es, r) = >>=-eq-ok (parse_parts context rest) _ h1 in
    let ih = length-parse_parts context rest cs es in
    let same : c ∷ cs ≡ parsed = cc in
    omega (arith, ih, ap (λ (l : List CommandInvocation). length l) same)

-- The stages of a pipeline are its parts, parsed. Without a trailing `&` they are left as they are;
-- with one, the pipeline and its last stage run in the background, and that is all that changes: the
-- stages in front are as parsed, and the last one differs from what its part parses to only in being
-- marked.
pub parse_pipeline-background :
    (context : ParserContext) (line : Text) (p : Pipeline)
    → parse_pipeline context line ≡ ok p
    → (parsed : List CommandInvocation) × (parse_parts context
          (split_pipeline_raw (peel_pipeline_name_prefix line).0).0
        ≡ ok parsed)
      × Marked (split_pipeline_raw (peel_pipeline_name_prefix line).0).1 parsed p
parse_pipeline-background context line p h =
    let (parsed, n, e, c, b) = parts_of_pipeline context line p h in
    (
      parsed,
      e,
      by_mark (split_pipeline_raw (peel_pipeline_name_prefix line).0).1 parsed n
          (length-parse_parts context _ parsed e) c b,
    )
  where
    by_mark :
        (background : Bool) (parsed : List CommandInvocation)
        → is_empty (split_pipeline_raw (peel_pipeline_name_prefix line).0).0 ≡ false
        → length parsed ≡ length (split_pipeline_raw (peel_pipeline_name_prefix line).0).0
        → p.commands ≡ mark_last background parsed
        → p.background ≡ any (λ c. c.background) p.commands
        → Marked background parsed p
    by_mark false parsed n len c b =
        let same : p.commands ≡ parsed = c ∙ (unfold mark_last in refl) in
        (same, b ∙ ap (any (λ (d : CommandInvocation). d.background)) same)
    by_mark true [] n len c b = absurd (length-ne-zero _ n (sym len))
    by_mark true (x ∷ xs) n len c b =
        let (ys, y, e) = snoc_view x xs in
        let cmds : p.commands ≡ ys ++ record y { background = true } ∷ [] =
          c ∙ (unfold invocation_with_background in rw (e, mark_last-snoc true ys y)) in
        (
          ys,
          y,
          e,
          cmds,
          b
              ∙ (rw
                  (
                    cmds,
                    any-append (λ (c : CommandInvocation). c.background) ys
                        (record y { background = true } ∷ []),
                  )
                  (ground arith)),
        )
