-- ===== src/Job/Claim.antt =====
-- claim_job of bywaf/db/jobs.py, by several workers.
use bywaf.Prelude.{
  ℕ, suc, Bool, false, ◌==◌, if◌then◌else◌, Option, List, [], ◌∷◌, ◌≡◌, refl, arith, text_eq, codes,
}
use bywaf.Job.{Job, Jobs, update_where, count_where, claimable, claimed_by, claim_job}

-- The workers with these processes claim the job one after the other: how many succeed, and the
-- table they leave.
unfoldable pub claim_all : ℕ → List (Option ℕ) → Jobs → ℕ × Jobs
claim_all job_id [] jobs = (0, jobs)
claim_all job_id (pid ∷ rest) jobs =
    let r = claim_job job_id pid jobs in
    let later = claim_all job_id rest r.1 in ((if r.0 then suc later.0 else later.0), later.1)

claimed_not_queued : text_eq (codes "claimed") (codes "queued") ≡ false
unfolding text_eq
claimed_not_queued = refl

count_where-update_where :
    (job_id : ℕ) (pid : Option ℕ) (rows : List Job)
    → count_where (claimable job_id) (update_where (claimable job_id) (claimed_by pid) rows) ≡ 0
unfolding count_where update_where
count_where-update_where job_id pid [] = refl
count_where-update_where job_id pid (job ∷ rest) =
    ground (arith, count_where-update_where job_id pid rest, claimed_not_queued)

update_where-none :
    (accepts : Job → Bool) (change : Job → Job) (rows : List Job)
    → count_where accepts rows ≡ 0
    → update_where accepts change rows ≡ rows
unfolding count_where update_where
update_where-none accepts change [] h = refl
update_where-none accepts change (job ∷ rest) h =
    ground (arith, update_where-none accepts change rest)

-- Where no row can be claimed, nobody claims.
claim_all-none :
    (job_id : ℕ) (pids : List (Option ℕ)) (jobs : Jobs)
    → count_where (claimable job_id) jobs.rows ≡ 0
    → (claim_all job_id pids jobs).0 ≡ 0
unfolding claim_all claim_job
claim_all-none job_id [] jobs h = refl
claim_all-none job_id (pid ∷ rest) jobs h = ground (
  arith,
  h,
  claim_all-none job_id rest
      (record jobs { rows = update_where (claimable job_id) (claimed_by pid) jobs.rows })
      (count_where-update_where job_id pid jobs.rows),
)

-- Exactly one of the workers that claim a job, however many there are, succeeds, if the table holds
-- one queued row with the job's id; if it holds none or several, all of them fail.
pub claim_all-once :
    (job_id : ℕ) (pid : Option ℕ) (pids : List (Option ℕ)) (jobs : Jobs)
    → (claim_all job_id (pid ∷ pids) jobs).0
      ≡ (if count_where (claimable job_id) jobs.rows == 1 then 1 else 0)
unfolding claim_all claim_job
claim_all-once job_id pid pids jobs = ground (
  arith,
  claim_all-none job_id pids
      (record jobs { rows = update_where (claimable job_id) (claimed_by pid) jobs.rows })
      (count_where-update_where job_id pid jobs.rows),
)
