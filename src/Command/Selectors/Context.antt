-- ===== src/Command/Selectors/Context.antt =====
-- What `peel_context_selectors` of bywaf/command/parser/selectors.py leaves to the commandlet.
use bywaf.Prelude.{
  ℕ, zero, suc, ◌≤◌, Bool, true, false, not, ◌||◌, none, some, is_some, List, [], ◌∷◌, ◌++◌, ◌≡◌,
  refl, subst, arith, length, any, any-append, Text, codes, text_eq, ok, ◌>>=◌, >>=-eq-ok, inl, inr,
  Bool-cases, Option-cases, Result-cases,
}
use bywaf.Command.Selectors.{
  SelectorKey, from_step, from_pipeline, from_job, from_topic, Selectors, default_context_selectors,
  assign, context_selector_assignment, is_source, require_replay_source, peel_from_group,
  apply_bool_selector, peel_from, peel_context_selectors,
}

-- The tokens that the framework takes for itself.
abbrev pub is_framework_token : Text → Bool
is_framework_token token =
    text_eq token (codes "--from")
    || text_eq token (codes "--test")
    || text_eq token (codes "--yes")

-- A replay source is named.
abbrev pub has_source : Selectors → Bool
has_source s = is_some s.step || is_some s.pipeline || is_some s.job

-- A topic narrows a replay source that is named.
abbrev pub narrows_source : Selectors → Bool
narrows_source s = not (is_some s.topic) || has_source s

assign-has_source :
    (key : SelectorKey) (value : Text) (s : Selectors)
    → (is_source key || has_source s) ≡ true
    → has_source (assign key value s) ≡ true
unfolding assign
assign-has_source from_step value s h = ground arith
assign-has_source from_pipeline value s h = ground arith
assign-has_source from_job value s h = ground arith
assign-has_source from_topic value s h = ground arith

require-any :
    (seen : List SelectorKey) {u : Unit {0}}
    → require_replay_source seen ≡ ok u
    → any is_source seen ≡ true
unfolding require_replay_source
require-any [] h = cc
require-any (k ∷ seen) h = ground arith

-- What a `--from` group comes to: fewer arguments, and a replay source.
pub record Peeled (args : List Text) (r : List Text × Selectors) : Type 0 where
  pub shorter : length r.0 ≤ length args
  pub sourced : has_source r.1 ≡ true

||-mono : (a b c : Bool) → (b ≡ true → c ≡ true) → (a || b) ≡ true → (a || c) ≡ true
||-mono true b c f h = refl
||-mono false b c f h = f h

close_group :
    (args : List Text) (selectors : Selectors) (seen : List SelectorKey) (r : List Text × Selectors)
    → (any is_source seen ≡ true → has_source selectors ≡ true)
    → (require_replay_source seen >>= λ _. ok (args, selectors)) ≡ ok r
    → Peeled args r
close_group args selectors seen r hs h =
    let (u, e, eq) = >>=-eq-ok (require_replay_source seen) (λ _. ok (args, selectors)) h in
    let same : ◌≡◌ {A = List Text × Selectors} (args, selectors) r = cc in
    subst (Peeled args) same (record { shorter = omega arith; sourced = hs (require-any seen e) })

pub peel_from_group-Peeled :
    (args : List Text) (selectors : Selectors) (seen : List SelectorKey) (r : List Text × Selectors)
    → (any is_source seen ≡ true → has_source selectors ≡ true)
    → peel_from_group args selectors seen ≡ ok r
    → Peeled args r
unfolding peel_from_group
peel_from_group-Peeled [] selectors seen r hs h = close_group [] selectors seen r hs h
peel_from_group-Peeled (token ∷ rest) selectors seen r hs h =
    elim (Result-cases (context_selector_assignment token)) [
      | inr (bad, e) ↦ cc (rw e at h)
      | inl (none, e) ↦ close_group (token ∷ rest) selectors seen r hs (rw e at h)
      | inl (some (key, value), e) ↦
          let ih =
            peel_from_group-Peeled rest (assign key value selectors) (key ∷ seen) r
              (λ k.
                assign-has_source key value selectors
                  (||-mono (is_source key) (any is_source seen) (has_source selectors) hs k))
              (rw e at h) in
          record { shorter = omega (arith, ih.shorter); sourced = ih.sourced }
    ]

-- What `peel_context_selectors` may return.
record IsClean (cleaned : List Text) (selectors : Selectors) : Type 0 where
  plain : any is_framework_token cleaned ≡ false
  narrow : narrows_source selectors ≡ true

flag-IsClean :
    (token : Text) (cleaned : List Text) (selectors s : Selectors)
    → apply_bool_selector token selectors ≡ some s
    → IsClean cleaned selectors
    → IsClean cleaned s
unfolding apply_bool_selector
flag-IsClean token cleaned selectors s e h = record {
  plain = h.plain;
  narrow = ground (arith, h.narrow);
}

token-IsClean :
    (token : Text) (cleaned : List Text) (selectors : Selectors)
    → text_eq token (codes "--from") ≡ false
    → apply_bool_selector token selectors ≡ none
    → IsClean cleaned selectors
    → IsClean (cleaned ++ token ∷ []) selectors
unfolding apply_bool_selector
token-IsClean token cleaned selectors e n h = record {
  plain = rw any-append (ground (arith, h.plain));
  narrow = h.narrow;
}

peel_from-IsClean :
    (fuel : ℕ) (args cleaned : List Text) (selectors : Selectors) (r : List Text × Selectors)
    → IsClean cleaned selectors
    → peel_from fuel args cleaned selectors ≡ ok r
    → IsClean r.0 r.1
unfolding peel_from
peel_from-IsClean zero args cleaned selectors r c h = cc
peel_from-IsClean (suc fuel) [] cleaned selectors r c h =
    let same : ◌≡◌ {A = List Text × Selectors} (cleaned, selectors) r = cc in
    subst (λ (x : List Text × Selectors). IsClean x.0 x.1) same c
peel_from-IsClean (suc fuel) (token ∷ rest) cleaned selectors r c h =
    elim (Bool-cases (text_eq token (codes "--from"))) [
      | inl from ↦
          let (g, eg, eh) =
            >>=-eq-ok (peel_from_group rest selectors []) (λ p. peel_from fuel p.0 cleaned p.1)
              (rw (from, peel_from) at h) in
          let group = peel_from_group-Peeled rest selectors [] g (λ k. cc) eg in
          peel_from-IsClean fuel g.0 cleaned g.1 r
            (record { plain = c.plain; narrow = ground (arith, group.sourced) }) eh
      | inr other ↦ elim (Option-cases (apply_bool_selector token selectors)) [
        | inl n ↦
            peel_from-IsClean fuel rest (cleaned ++ token ∷ []) selectors r
              (token-IsClean token cleaned selectors other n c) (rw (other, n, peel_from) at h)
        | inr (s, e) ↦
            peel_from-IsClean fuel rest cleaned s r (flag-IsClean token cleaned selectors s e c)
              (rw (other, e, peel_from) at h)
      ]
    ]

-- What `peel_context_selectors` returns has no `--from`, `--test` or `--yes` among the commandlet's
-- arguments, and no `topic` without one of `step`, `pipeline` and `job`.
pub peel_context_selectors-IsClean :
    (args cleaned : List Text) (selectors : Selectors)
    → peel_context_selectors args ≡ ok (cleaned, selectors)
    → (any is_framework_token cleaned ≡ false) × (narrows_source selectors ≡ true)
unfolding peel_context_selectors
peel_context_selectors-IsClean args cleaned selectors h =
    let c =
      peel_from-IsClean (suc (length args)) args [] default_context_selectors (cleaned, selectors)
        (record { plain = refl; narrow = refl }) h in
    (c.plain, c.narrow)
