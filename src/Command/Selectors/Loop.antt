-- ===== src/Command/Selectors/Loop.antt =====
-- The loop of `peel_context_selectors` of bywaf/command/parser/selectors.py: its end, and arguments
-- without `--from`.
use bywaf.Prelude.{
  ℕ, zero, suc, ◌<◌, Bool, true, false, not, ◌||◌, if◌then◌else◌, none, some, List, [], ◌∷◌, ◌++◌,
  ◌≡◌, ◌≢◌, ◌∙◌, ap, arith, length, any, keep, Text, codes, text_eq, eq-of-text_eq, ||-false,
  append_assoc, append-nil, ok, err, ◌>>=◌, no_fuel, inl, inr, Bool-cases, Option-cases,
  Result-cases,
}
use bywaf.Command.Selectors.{
  SelectorKey, Selectors, default_context_selectors, context_selector_assignment, assign,
  require_replay_source, peel_from_group, apply_bool_selector, peel_from, peel_context_selectors,
}
use bywaf.Command.Selectors.Context.{peel_from_group-Peeled}

require-ne-no_fuel :
    (seen : List SelectorKey) (args : List Text) (s : Selectors)
    → (◌>>=◌ {B = List Text × Selectors} (require_replay_source seen) (λ _. ok (args, s)))
      ≢ err no_fuel
unfolding require_replay_source
require-ne-no_fuel seen args s h = ground arith

assignment-ne-no_fuel : (token : Text) → context_selector_assignment token ≢ err no_fuel
unfolding context_selector_assignment
assignment-ne-no_fuel token h = ground arith

group-ne-no_fuel :
    (args : List Text) (s : Selectors) (seen : List SelectorKey)
    → peel_from_group args s seen ≢ err no_fuel
unfolding peel_from_group
group-ne-no_fuel [] s seen h = require-ne-no_fuel seen [] s h
group-ne-no_fuel (token ∷ rest) s seen h = elim (Result-cases (context_selector_assignment token)) [
  | inr (bad, e) ↦
      let same : bad ≡ no_fuel = cc (rw e at h) in assignment-ne-no_fuel token (e ∙ ap err same)
  | inl (none, e) ↦ require-ne-no_fuel seen (token ∷ rest) s (rw e at h)
  | inl (some (key, value), e) ↦ group-ne-no_fuel rest (assign key value s) (key ∷ seen) (rw e at h)
]

peel_from-ne-no_fuel :
    (fuel : ℕ) (args cleaned : List Text) (s : Selectors)
    → length args < fuel
    → peel_from fuel args cleaned s ≢ err no_fuel
unfolding peel_from
peel_from-ne-no_fuel zero args cleaned s lt h = absurd (omega arith)
peel_from-ne-no_fuel (suc fuel) [] cleaned s lt h = cc
peel_from-ne-no_fuel (suc fuel) (token ∷ rest) cleaned s lt h =
    elim (Bool-cases (text_eq token (codes "--from"))) [
      | inl from ↦ elim (Result-cases (peel_from_group rest s [])) [
        | inr (bad, e) ↦ group-ne-no_fuel rest s [] (e ∙ (rw (from, e, peel_from) at h))
        | inl (r, e) ↦
            let group = peel_from_group-Peeled rest s [] r (λ k. cc) e in
            peel_from-ne-no_fuel fuel r.0 cleaned r.1 (omega (arith, group.shorter))
              (rw (from, e, peel_from) at h)
      ]
      | inr other ↦ elim (Option-cases (apply_bool_selector token s)) [
        | inl n ↦
            peel_from-ne-no_fuel fuel rest (cleaned ++ token ∷ []) s (omega arith)
              (rw (other, n, peel_from) at h)
        | inr (t, e) ↦
            peel_from-ne-no_fuel fuel rest cleaned t (omega arith) (rw (other, e, peel_from) at h)
      ]
    ]

-- The loop always ends: a result or an exception of the source comes of every list of arguments.
pub peel_context_selectors-ne-no_fuel :
    (args : List Text) → peel_context_selectors args ≢ err no_fuel
unfolding peel_context_selectors
peel_context_selectors-ne-no_fuel args =
    peel_from-ne-no_fuel (suc (length args)) args [] default_context_selectors (omega arith)

-- The two flags of the framework.
abbrev pub is_flag : Text → Bool
is_flag token = text_eq token (codes "--test") || text_eq token (codes "--yes")

abbrev pub has_token : Text → List Text → Bool
has_token token args = any (λ t. text_eq t token) args

-- The selectors with the flags that are among the arguments set.
abbrev pub with_flags : List Text → Selectors → Selectors
with_flags args s = record s {
  plan_only = if has_token (codes "--test") args then codes "true" else s.plan_only;
  approved = if has_token (codes "--yes") args then codes "true" else s.approved;
}

test-ne-yes : (t : Text) → text_eq t (codes "--test") ≡ true → text_eq t (codes "--yes") ≡ false
unfolding text_eq
test-ne-yes t h = rw (eq-of-text_eq t (codes "--test") h)

apply_bool_selector-some :
    (token : Text) (rest : List Text) (s t : Selectors)
    → apply_bool_selector token s ≡ some t
    → (is_flag token ≡ true) × (with_flags rest t ≡ with_flags (token ∷ rest) s)
unfolding apply_bool_selector
apply_bool_selector-some token rest s t e = ground (arith, test-ne-yes token)

apply_bool_selector-none :
    (token : Text) (s : Selectors)
    → apply_bool_selector token s ≡ none
    → (text_eq token (codes "--test") ≡ false) × (text_eq token (codes "--yes") ≡ false)
unfolding apply_bool_selector
apply_bool_selector-none token s e = ground arith

peel_from_flags :
    (fuel : ℕ) (args cleaned : List Text) (s : Selectors)
    → length args < fuel
    → has_token (codes "--from") args ≡ false
    → peel_from fuel args cleaned s
      ≡ ok (cleaned ++ keep (λ t. not (is_flag t)) args, with_flags args s)
unfolding peel_from
peel_from_flags zero args cleaned s lt h = absurd (omega arith)
peel_from_flags (suc fuel) [] cleaned s lt h = rw append-nil
peel_from_flags (suc fuel) (token ∷ rest) cleaned s lt h =
    let (other, h') =
      ||-false (text_eq token (codes "--from")) (has_token (codes "--from") rest) h in
    elim (Option-cases (apply_bool_selector token s)) [
      | inl n ↦
          let (t1, t2) = apply_bool_selector-none token s n in
          rw (other, n, peel_from)
            (peel_from_flags fuel rest (cleaned ++ token ∷ []) s (omega arith) h'
              ∙ rw (t1, t2, append_assoc))
      | inr (t, e) ↦
          let (f, w) = apply_bool_selector-some token rest s t e in
          rw (other, e, peel_from)
            (peel_from_flags fuel rest cleaned t (omega arith) h' ∙ rw (f, w))
    ]

-- Arguments without `--from` are filtered: the commandlet gets all but the flags, in their order,
-- and each flag among them is set, wherever it stands and however often.
pub peel_context_selectors_flags :
    (args : List Text)
    → has_token (codes "--from") args ≡ false
    → peel_context_selectors args
      ≡ ok (keep (λ t. not (is_flag t)) args, with_flags args default_context_selectors)
unfolding peel_context_selectors
peel_context_selectors_flags args h =
    peel_from_flags (suc (length args)) args [] default_context_selectors (omega arith) h
