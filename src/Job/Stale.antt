-- ===== src/Job/Stale.antt =====
-- mark_stale_jobs of bywaf/db/jobs.py.
use bywaf.Prelude.{
  ℕ, Bool, true, false, ◌&&◌, ◌==◌, List, [], ◌∷◌, any, ◌≡◌, refl, sym, arith, Text, text_eq, codes,
  mem_text, All, inl, inr, Bool-cases, subst,
}
use bywaf.Job.{
  Job, Jobs, is_active, is_abandoned, update_where, has_id, finished, collect_stale, finish_all,
  mark_stale_jobs,
}

-- A job is not left active without a process.
abbrev pub IsAttended : (ℕ → Bool) → Job → Type 0
IsAttended process_exists job = (is_active job && is_abandoned process_exists job) ≡ false

stale-inactive : (now : Text) (job : Job) → is_active (finished now (codes "stale") job) ≡ false
unfolding is_active mem_text text_eq
stale-inactive now job = refl

-- A row is attended, or is about to be finished.
abbrev Handled : (ℕ → Bool) → List ℕ → Job → Type 0
Handled process_exists ids job =
    (is_active job && is_abandoned process_exists job) ≡ true
    → any (λ (i : ℕ). job.id == i) ids ≡ true

Handled-more :
    (process_exists : ℕ → Bool) (ids : List ℕ) (i : ℕ) (rows : List Job)
    → All (Handled process_exists ids) rows
    → All (Handled process_exists (i ∷ ids)) rows
Handled-more process_exists ids i [] h = tt
Handled-more process_exists ids i (job ∷ rest) h =
    (λ a. ground (arith, h.0 a), Handled-more process_exists ids i rest h.1)

collect_stale-abandoned :
    (process_exists : ℕ → Bool) (job : Job) (rest : List Job)
    → (is_active job && is_abandoned process_exists job) ≡ true
    → collect_stale process_exists (job ∷ rest) ≡ job.id ∷ collect_stale process_exists rest
unfolding collect_stale
collect_stale-abandoned process_exists job rest h = ground arith

collect_stale-attended :
    (process_exists : ℕ → Bool) (job : Job) (rest : List Job)
    → (is_active job && is_abandoned process_exists job) ≡ false
    → collect_stale process_exists (job ∷ rest) ≡ collect_stale process_exists rest
unfolding collect_stale
collect_stale-attended process_exists job rest h = ground arith

collect_stale-Handled :
    (process_exists : ℕ → Bool) (rows : List Job)
    → All (Handled process_exists (collect_stale process_exists rows)) rows
collect_stale-Handled process_exists [] = tt
collect_stale-Handled process_exists (job ∷ rest) =
    let ih = collect_stale-Handled process_exists rest in
    elim (Bool-cases (is_active job && is_abandoned process_exists job)) [
      | inl lost ↦
          subst (λ ids. All (Handled process_exists ids) (job ∷ rest))
            (sym (collect_stale-abandoned process_exists job rest lost))
            (λ a. ground arith, Handled-more process_exists _ job.id rest ih)
      | inr kept ↦
          subst (λ ids. All (Handled process_exists ids) (job ∷ rest))
            (sym (collect_stale-attended process_exists job rest kept))
            (λ a. absurd (ground arith), ih)
    ]

update_where-Handled :
    (process_exists : ℕ → Bool) (now : Text) (ids : List ℕ) (i : ℕ) (rows : List Job)
    → All (Handled process_exists (i ∷ ids)) rows
    → All (Handled process_exists ids) (update_where (has_id i) (finished now (codes "stale")) rows)
unfolding update_where
update_where-Handled process_exists now ids i [] h = tt
update_where-Handled process_exists now ids i (job ∷ rest) h = (
  elim (Bool-cases (has_id i job)) [
    | inl same ↦ rw same (λ a. ground (arith, a, stale-inactive now job))
    | inr other ↦ rw other (λ a. ground (arith, other, h.0 a))
  ],
  update_where-Handled process_exists now ids i rest h.1,
)

finish_all-IsAttended :
    (process_exists : ℕ → Bool) (now : Text) (ids : List ℕ) (rows : List Job)
    → All (Handled process_exists ids) rows
    → All (IsAttended process_exists) (finish_all now ids rows)
unfolding finish_all
finish_all-IsAttended process_exists now [] [] h = tt
finish_all-IsAttended process_exists now [] (job ∷ rest) h =
    (ground (arith, h.0), finish_all-IsAttended process_exists now [] rest h.1)
finish_all-IsAttended process_exists now (i ∷ ids) rows h =
    finish_all-IsAttended process_exists now ids _
      (update_where-Handled process_exists now ids i rows h)

-- When stale jobs have been marked, no job is active that has no process, or whose process does not
-- exist.
pub mark_stale_jobs-IsAttended :
    (process_exists : ℕ → Bool) (now : Text) (jobs : Jobs)
    → All (IsAttended process_exists) (mark_stale_jobs process_exists now jobs).1.rows
unfolding mark_stale_jobs
mark_stale_jobs-IsAttended process_exists now jobs =
    finish_all-IsAttended process_exists now (collect_stale process_exists jobs.rows) jobs.rows
      (collect_stale-Handled process_exists jobs.rows)
