-- ===== src/Command/PipelineSyntax/Split.antt =====
-- split_pipeline_raw of bywaf/command/pipeline_syntax.py.
use bywaf.Prelude.{
  ℕ, ◌+◌, ◌-◌, true, false, not, if◌then◌else◌, List, [], ◌∷◌, ◌++◌, map, ◌≡◌, refl, ◌∙◌, subst,
  arith, drop, length, is_empty, keep, Text, strip, inl, inr, contains_char, append_assoc,
  append-nil, take-append, drop-append, length-append, All, Bool-cases,
}
use bywaf.Command.Quoting.{
  Quoting, outside, next_quoting, quoting_after, reaches, scan_char, top_level,
}
use bywaf.Command.PipelineSyntax.{
  opens_stage, append_part, split_from, split_pipeline_raw, peel_pipeline_background, slice,
}

-- "|".join(pieces)
abbrev pub join_pipes : List Text → Text
join_pipes [] = []
join_pipes (p ∷ []) = p
join_pipes (p ∷ r ∷ ps) = p ++ b'|' ∷ join_pipes (r ∷ ps)

-- The parts that are kept: stripped, and not empty.
abbrev pub parts_of : List Text → List Text
parts_of ps = keep (λ p. not (is_empty p)) (map strip ps)

-- No `|` of the text stands outside quotes.
abbrev pub NoOpenPipe : Text → Type 0
NoOpenPipe p = contains_char b'|' (top_level outside p) ≡ false

-- Each piece but the last ends outside quotes and unescaped, so the `|` behind it is an open one.
abbrev pub OpenCuts : List Text → Type 0
OpenCuts [] = Unit {0}
OpenCuts (p ∷ []) = Unit {0}
OpenCuts (p ∷ r ∷ ps) = (quoting_after outside p ≡ outside) × OpenCuts (r ∷ ps)

-- A first piece, and the pieces behind it.
abbrev Cut : Type 0
Cut = Text × List Text

abbrev all_pieces : Cut → List Text
all_pieces cut = cut.0 ∷ cut.1

abbrev prepend : Text → Cut → Cut
prepend cur cut = (cur ++ cut.0, cut.1)

-- The text cut at its open pipes, with no index arithmetic.
pieces : Quoting → Text → Cut
pieces q [] = ([], [])
pieces q (c ∷ t) =
    let cut = pieces (next_quoting q c) t in
    if opens_stage q c then ([], all_pieces cut) else prepend (c ∷ []) cut

append_part-parts_of :
    (parts : List Text) (p : Text) (ps : List Text)
    → append_part parts (strip p) ++ parts_of ps ≡ parts ++ parts_of (p ∷ ps)
unfolding append_part
append_part-parts_of parts p ps = elim (Bool-cases (is_empty (strip p))) [
  | inl e ↦ rw e
  | inr e ↦ rw e (append_assoc parts _ _)
]

append_part-last :
    (parts : List Text) (p : Text) → append_part parts (strip p) ≡ parts ++ parts_of (p ∷ [])
unfolding append_part
append_part-last parts p = elim (Bool-cases (is_empty (strip p))) [
  | inl e ↦ rw (e, append-nil)
  | inr e ↦ rw e
]

finish : Text → List Text × ℕ → List Text
finish line r = append_part r.0 (strip (drop r.1 line))

module _ (line : Text) (c : ℕ) (rest : Text) (index start : ℕ) (q : Quoting)
    (parts : List Text) where
  split_from-cut :
      opens_stage q c ≡ true
      → split_from line (c ∷ rest) index start q parts
        ≡ split_from line rest
            (index + 1)
            (index + 1)
            (next_quoting q c)
            (append_part parts (strip (slice line start index)))
  unfolding split_from
  split_from-cut h = rw h

  split_from-go :
      opens_stage q c ≡ false
      → split_from line (c ∷ rest) index start q parts
        ≡ split_from line rest (index + 1) start (next_quoting q c) parts
  unfolding split_from
  split_from-go h = rw h

pieces-cut :
    (c : ℕ) (rest : Text) (q : Quoting)
    → opens_stage q c ≡ true
    → pieces q (c ∷ rest) ≡ ([], all_pieces (pieces (next_quoting q c) rest))
unfolding pieces
pieces-cut c rest q h = rw h

pieces-go :
    (c : ℕ) (rest : Text) (q : Quoting)
    → opens_stage q c ≡ false
    → pieces q (c ∷ rest) ≡ prepend (c ∷ []) (pieces (next_quoting q c) rest)
unfolding pieces
pieces-go c rest q h = rw h

opens_stage-pipe : (q : Quoting) (c : ℕ) → opens_stage q c ≡ true → c ≡ b'|'
unfolding opens_stage
opens_stage-pipe q c h = ground arith

-- A cut is made in the state `outside`, and leaves it.
opens_stage-outside : (q : Quoting) (c : ℕ) → opens_stage q c ≡ true → next_quoting q c ≡ outside
unfolding opens_stage next_quoting reaches scan_char
opens_stage-outside q c h = ground arith

NoOpenPipe-outside :
    (q : Quoting) (p : Text)
    → q ≡ outside
    → contains_char b'|' (top_level q p) ≡ false
    → NoOpenPipe p
NoOpenPipe-outside q p e h = subst (λ r. contains_char b'|' (top_level r p) ≡ false) e h

top_level-go :
    (q : Quoting) (c : ℕ) (p : Text)
    → opens_stage q c ≡ false
    → contains_char b'|' (top_level (next_quoting q c) p) ≡ false
    → contains_char b'|' (top_level q (c ∷ p)) ≡ false
unfolding opens_stage top_level contains_char
top_level-go q c p go h = ground arith

slice-append :
    (line pre cur rest : Text) (index start : ℕ)
    → line ≡ pre ++ (cur ++ rest)
    → start ≡ length pre
    → index ≡ length pre + length cur
    → slice line start index ≡ cur
slice-append line pre cur rest index start el es ei =
    let e : index - start ≡ length cur = omega arith in rw (e, el, es, drop-append, take-append)

-- With `pre` cut off, and `cur` read since: what the loop adds to `parts`.
split_from_lem :
    (line pre cur rest : Text) (index start : ℕ) (q : Quoting) (parts : List Text)
    → line ≡ pre ++ (cur ++ rest)
    → start ≡ length pre
    → index ≡ length pre + length cur
    → finish line (split_from line rest index start q parts)
      ≡ parts ++ parts_of (all_pieces (prepend cur (pieces q rest)))
split_from_lem line pre cur [] index start q parts el es ei =
    unfold split_from pieces finish in rw (el, es, drop-append) (append_part-last parts (cur ++ []))
split_from_lem line pre cur (c ∷ rest) index start q parts el es ei =
    elim (Bool-cases (opens_stage q c)) [
      | inl cut ↦
          rw
            (
              split_from-cut line c rest index start q parts cut,
              pieces-cut c rest q cut,
              slice-append line pre cur (c ∷ rest) index start el es ei,
            )
            (split_from_lem line (pre ++ (cur ++ c ∷ [])) [] rest (index + 1) (index + 1)
                (next_quoting q c) (append_part parts (strip cur))
                (rw (append_assoc, append_assoc) el)
                (rw (length-append, length-append) (omega arith))
                (rw (length-append, length-append) (omega arith))
              ∙ (append_part-parts_of parts cur (all_pieces (pieces (next_quoting q c) rest))
                  ∙ rw append-nil))
      | inr go ↦
          rw (split_from-go line c rest index start q parts go, pieces-go c rest q go)
            (split_from_lem line pre (cur ++ c ∷ []) rest (index + 1) start (next_quoting q c) parts
                (rw append_assoc el) es (rw length-append (omega arith))
              ∙ rw append_assoc)
    ]

join-prepend :
    (s : Text) (cut : Cut)
    → join_pipes (all_pieces (prepend s cut)) ≡ s ++ join_pipes (all_pieces cut)
join-prepend s (p, []) = refl
join-prepend s (p, r ∷ ps) = rw append_assoc

join-pieces : (q : Quoting) (t : Text) → join_pipes (all_pieces (pieces q t)) ≡ t
join-pieces q [] = unfold pieces in refl
join-pieces q (c ∷ t) = elim (Bool-cases (opens_stage q c)) [
  | inl cut ↦ rw (pieces-cut c t q cut, join-pieces (next_quoting q c) t, opens_stage-pipe q c cut)
  | inr go ↦ rw (pieces-go c t q go, join-prepend, join-pieces (next_quoting q c) t)
]

pieces-NoOpenPipe :
    (q : Quoting) (t : Text)
    → (contains_char b'|' (top_level q (pieces q t).0) ≡ false) × All NoOpenPipe (pieces q t).1
pieces-NoOpenPipe q [] = unfold pieces top_level contains_char in (refl, tt)
pieces-NoOpenPipe q (c ∷ t) =
    let ih = pieces-NoOpenPipe (next_quoting q c) t in
    elim (Bool-cases (opens_stage q c)) [
      | inl cut ↦ rw (pieces-cut c t q cut) (
        unfold top_level contains_char in refl,
        (NoOpenPipe-outside _ _ (opens_stage-outside q c cut) ih.0, ih.1),
      )
      | inr go ↦ rw (pieces-go c t q go) (top_level-go q c _ go ih.0, ih.1)
    ]

-- A cut is made in the state `outside`.
opens_stage-state : (q : Quoting) (c : ℕ) → opens_stage q c ≡ true → q ≡ outside
unfolding opens_stage reaches scan_char
opens_stage-state q c h = ground arith

-- The pieces of a text that is read from the state `q`.
abbrev OpenCutsFrom : Quoting → Cut → Type 0
OpenCutsFrom q (p, []) = Unit {0}
OpenCutsFrom q (p, r ∷ ps) = (quoting_after q p ≡ outside) × OpenCuts (r ∷ ps)

OpenCuts-outside : (cut : Cut) → OpenCutsFrom outside cut → OpenCuts (all_pieces cut)
OpenCuts-outside (p, []) h = tt
OpenCuts-outside (p, r ∷ ps) h = h

OpenCutsFrom-prepend :
    (q : Quoting) (c : ℕ) (cut : Cut)
    → OpenCutsFrom (next_quoting q c) cut
    → OpenCutsFrom q (prepend (c ∷ []) cut)
unfolding quoting_after
OpenCutsFrom-prepend q c (p, []) h = tt
OpenCutsFrom-prepend q c (p, r ∷ ps) h = h

pieces-OpenCuts : (q : Quoting) (t : Text) → OpenCutsFrom q (pieces q t)
pieces-OpenCuts q [] = unfold pieces in tt
pieces-OpenCuts q (c ∷ t) =
    let ih = pieces-OpenCuts (next_quoting q c) t in
    elim (Bool-cases (opens_stage q c)) [
      | inl cut ↦ rw (pieces-cut c t q cut) (
        unfold quoting_after in opens_stage-state q c cut,
        OpenCuts-outside (pieces (next_quoting q c) t) (
            subst (λ r. OpenCutsFrom r (pieces (next_quoting q c) t)) (opens_stage-outside q c cut)
              ih),
      )
      | inr go ↦ rw (pieces-go c t q go) (OpenCutsFrom-prepend q c (pieces (next_quoting q c) t) ih)
    ]

-- The stages of a pipeline are the stripped, non-empty pieces of the text that is left when a
-- trailing `&` is peeled, and the pieces are that text cut at exactly its open pipes: they join with
-- `|` to the whole text again, so no character is lost; no piece has a `|` outside quotes; and every
-- piece but the last ends outside quotes and unescaped, so no `|` in quotes or behind a backslash
-- is a cut.
pub split_pipeline_raw-pieces :
    (command_line : Text)
    → (ps : List Text) × (join_pipes ps ≡ (peel_pipeline_background command_line).0)
      × All NoOpenPipe ps
      × OpenCuts ps
      × ((split_pipeline_raw command_line).0 ≡ parts_of ps)
      × ((split_pipeline_raw command_line).1 ≡ (peel_pipeline_background command_line).1)
unfolding split_pipeline_raw
split_pipeline_raw-pieces command_line =
    let line = (peel_pipeline_background command_line).0 in
    (
      all_pieces (pieces outside line),
      join-pieces outside line,
      pieces-NoOpenPipe outside line,
      OpenCuts-outside (pieces outside line) (pieces-OpenCuts outside line),
      unfold finish in split_from_lem line [] [] line 0 0 outside [] refl refl refl,
      refl,
    )
