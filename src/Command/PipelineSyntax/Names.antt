-- ===== src/Command/PipelineSyntax/Names.antt =====
-- `find_pipeline_name_colon` and `peel_pipeline_name_prefix` of bywaf/command/pipeline_syntax.py.
use bywaf.Prelude.{
  ℕ, suc, ◌+◌, true, false, ◌&&◌, ◌==◌, some, [], ◌∷◌, ◌++◌, ◌≡◌, refl, ◌∙◌, ap, arith, inl, inr,
  Text, take, drop, length, is_empty, is_space, strip, contains_char, take-append, Bool-cases,
  Option-cases,
}
use bywaf.Command.Quoting.{
  Quoting, outside, reaches, next_quoting, scan_char, quoting_after, top_level,
}
use bywaf.Command.PipelineSyntax.{
  next_is_space, find_colon_from, find_pipeline_name_colon, normalize_final_text,
  peel_pipeline_name_prefix,
}

-- `rest`, scanned from the state `q`, is `pre`, a colon outside quotes, a white space and `post`,
-- with no open pipe in `pre`.
pub record ColonAt (q : Quoting) (rest : Text) (offset : ℕ) : Type 0 where
  pub pre : Text
  pub mark : ℕ
  pub post : Text
  pub split : rest ≡ pre ++ b':' ∷ mark ∷ post
  pub at : offset ≡ length pre
  pub closed : quoting_after q pre ≡ outside
  pub spaced : is_space mark ≡ true
  pub no_pipe : contains_char b'|' (top_level q pre) ≡ false

reaches-outside : (q : Quoting) (c : ℕ) → reaches q c ≡ true → q ≡ outside
unfolding reaches scan_char
reaches-outside q c h = ground arith

ColonAt-here :
    (q : Quoting) (c : ℕ) (rest : Text)
    → reaches q c ≡ true
    → (c == b':' && next_is_space rest) ≡ true
    → ColonAt q (c ∷ rest) 0
unfolding next_is_space quoting_after top_level contains_char
ColonAt-here q c [] hr h = ground arith
ColonAt-here q c (d ∷ rest) hr h = record {
  pre = [];
  mark = d;
  post = rest;
  split = ground arith;
  at = refl;
  closed = reaches-outside q c hr;
  spaced = ground arith;
  no_pipe = refl;
}

ColonAt-cons :
    (q : Quoting) (c : ℕ) (rest : Text) (k : ℕ)
    → (reaches q c && c == b'|') ≡ false
    → ColonAt (next_quoting q c) rest k
    → ColonAt q (c ∷ rest) (suc k)
unfolding quoting_after top_level contains_char
ColonAt-cons q c rest k h found = record {
  pre = c ∷ found.pre;
  mark = found.mark;
  post = found.post;
  split = ap (λ (t : Text). c ∷ t) found.split;
  at = ap suc found.at;
  closed = found.closed;
  spaced = found.spaced;
  no_pipe = ground (arith, found.no_pipe);
}

find_colon_from_lem :
    (rest : Text) (index : ℕ) (q : Quoting) (i : ℕ)
    → find_colon_from rest index q ≡ some i
    → (k : ℕ) × (i ≡ index + k) × ColonAt q rest k
unfolding find_colon_from
find_colon_from_lem [] index q i h = cc
find_colon_from_lem (c ∷ rest) index q i h =
    let ih = find_colon_from_lem rest (index + 1) (next_quoting q c) i in
    let later =
      λ (b : (reaches q c && c == b'|') ≡ false)
          (e : find_colon_from rest (index + 1) (next_quoting q c) ≡ some i).
        further b (ih e) in
    elim (Bool-cases (reaches q c)) [
      | inr hidden ↦ later (ground arith) (ground arith)
      | inl open_ ↦ elim (Bool-cases (c == b'|')) [
        | inl pipe ↦ absurd (ground arith)
        | inr plain ↦ elim (Bool-cases (c == b':' && next_is_space rest)) [
          | inl colon ↦ (0, ground arith, ColonAt-here q c rest open_ colon)
          | inr other ↦ later (ground arith) (ground arith)
        ]
      ]
    ]
  where
    further :
        (reaches q c && c == b'|') ≡ false
        → ((k : ℕ) × (i ≡ index + 1 + k) × ColonAt (next_quoting q c) rest k)
        → (k : ℕ) × (i ≡ index + k) × ColonAt q (c ∷ rest) k
    further b (k, e, found) = (suc k, omega arith, ColonAt-cons q c rest k b found)

drop-append_one : (s : Text) (c : ℕ) (t : Text) → drop (suc (length s)) (s ++ c ∷ t) ≡ t
drop-append_one [] c t = refl
drop-append_one (d ∷ s) c t = drop-append_one s c t

module _ (line : Text) (index : ℕ) (found : ColonAt outside line index) where
  take-ColonAt : take index line ≡ found.pre
  take-ColonAt = rw (found.at, found.split, take-append)

  drop-ColonAt : drop (index + 1) line ≡ found.mark ∷ found.post
  drop-ColonAt =
      let e : index + 1 ≡ suc (length found.pre) = omega (arith, found.at) in
      rw (e, found.split) (drop-append_one found.pre b':' (found.mark ∷ found.post))

peel-parts :
    (line command name : Text) (index : ℕ)
    → find_pipeline_name_colon line ≡ some index
    → peel_pipeline_name_prefix line ≡ (command, some name)
    → (name ≡ normalize_final_text (take index line))
      × (command ≡ strip (drop (index + 1) line))
      × (is_empty name ≡ false)
      × (is_empty command ≡ false)
unfolding peel_pipeline_name_prefix
peel-parts line command name index e h = ground arith

-- A prefix that is peeled as a pipeline's name ends at a colon that white space follows, with no
-- open quote and no open pipe before it; the name is the normalised text before the colon, the
-- command is the stripped text behind it, and neither is empty.
pub peel_pipeline_name_prefix_lem :
    (line command name : Text)
    → peel_pipeline_name_prefix line ≡ (command, some name)
    → (index : ℕ) × (found : ColonAt outside line index) × (name ≡ normalize_final_text found.pre)
      × (command ≡ strip (found.mark ∷ found.post))
      × (is_empty name ≡ false)
      × (is_empty command ≡ false)
unfolding peel_pipeline_name_prefix find_pipeline_name_colon
peel_pipeline_name_prefix_lem line command name h =
    elim (Option-cases (find_colon_from line 0 outside)) [
      | inl e ↦ absurd (ground arith)
      | inr (i, e) ↦
          let (k, at, found) = find_colon_from_lem line 0 outside i e in
          let p = peel-parts line command name k (e ∙ ap (λ (j : ℕ). some j) (omega arith)) h in
          (
            k,
            found,
            p.0 ∙ ap normalize_final_text (take-ColonAt line k found),
            p.1 ∙ ap strip (drop-ColonAt line k found),
            p.2,
            p.3,
          )
    ]
