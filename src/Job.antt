-- ===== src/Job.antt =====
-- The rows of the table `jobs`, and the operations of bywaf/db/jobs.py on them. An `UPDATE` is a
-- map over the rows, with the number of rows that its `WHERE` accepts as its `rowcount`.
pub mod Claim
pub mod Stale
use bywaf.Prelude.{
  ℕ, zero, suc, ◌+◌, Bool, true, false, not, ◌&&◌, ◌||◌, ◌==◌, if◌then◌else◌, Option, none, some,
  List, [], ◌∷◌, ◌++◌, map, any, keep, length, Text, text_eq, codes, mem_text, Result, ok, err,
  no_unique_serial,
}

pub record Job : Type 0 where
  pub id : ℕ
  pub serial : Text
  pub command_line : Text
  pub pid : Option ℕ
  pub status : Text
  pub started_at : Text
  pub finished_at : Option Text

abbrev pub active_job_statuses : List Text
active_job_statuses =
    codes "queued"
    ∷ codes "claimed"
    ∷ codes "running"
    ∷ codes "pausing"
    ∷ codes "paused"
    ∷ codes "cancelling"
    ∷ []

-- status IN (...)
unfoldable pub is_active : Job → Bool
is_active job = mem_text job.status active_job_statuses

-- The ids of the table only grow: a row is inserted under `next_id`.
pub record Jobs : Type 0 where
  pub rows : List Job
  pub next_id : ℕ

unfoldable pub update_where : (Job → Bool) → (Job → Job) → List Job → List Job
update_where accepts change [] = []
update_where accepts change (job ∷ rest) =
    let later = update_where accepts change rest in
    (if accepts job then change job else job) ∷ later

unfoldable pub count_where : (Job → Bool) → List Job → ℕ
count_where accepts [] = 0
count_where accepts (job ∷ rest) =
    let later = count_where accepts rest in if accepts job then suc later else later

abbrev pub has_id : ℕ → Job → Bool
has_id job_id job = job.id == job_id

-- The tries of `new_serial("job")`: the column is unique, and a serial that a row has is refused.
unfoldable pub first_free : List Text → List Job → Option Text
first_free [] rows = none
first_free (serial ∷ rest) rows =
    if any (λ (job : Job). text_eq job.serial serial) rows
    then first_free rest rows
    else some serial

-- record_job, given the five serials that its loop draws
unfoldable pub record_job : List Text → Text → Text → Option ℕ → Text → Jobs → Result (ℕ × Jobs)
record_job serials now command_line pid status jobs = elim (first_free serials jobs.rows) [
  | none ↦ err no_unique_serial
  | some serial ↦ ok (
    jobs.next_id,
    record {
      rows =
          jobs.rows
          ++ record {
            id = jobs.next_id;
            serial = serial;
            command_line = command_line;
            pid = pid;
            status = status;
            started_at = now;
            finished_at = none;
          }
            ∷ [];
      next_id = suc jobs.next_id;
    },
  )
]

unfoldable pub update_job_pid : ℕ → Option ℕ → Jobs → Jobs
update_job_pid job_id pid jobs = record jobs {
  rows = update_where (has_id job_id) (λ job. record job { pid = pid }) jobs.rows;
}

abbrev pub claimable : ℕ → Job → Bool
claimable job_id job = has_id job_id job && text_eq job.status (codes "queued")

abbrev pub claimed_by : Option ℕ → Job → Job
claimed_by pid job = record job { status = codes "claimed"; pid = pid }

unfoldable pub claim_job : ℕ → Option ℕ → Jobs → Bool × Jobs
claim_job job_id pid jobs = (
  count_where (claimable job_id) jobs.rows == 1,
  record jobs { rows = update_where (claimable job_id) (claimed_by pid) jobs.rows },
)

abbrev pub finished : Text → Text → Job → Job
finished now status job = record job { status = status; finished_at = some now }

unfoldable pub finish_job : Text → ℕ → Text → Jobs → Jobs
finish_job now job_id status jobs = record jobs {
  rows = update_where (has_id job_id) (finished now status) jobs.rows;
}

unfoldable pub update_job_status : ℕ → Text → Jobs → Jobs
update_job_status job_id status jobs = record jobs {
  rows = update_where (has_id job_id) (λ job. record job { status = status }) jobs.rows;
}

-- The rows in the order of their ids, in which the table holds them.
unfoldable pub list_jobs : Bool → Jobs → List Job
list_jobs active_only jobs = keep (λ job. not active_only || is_active job) jobs.rows

-- `pid is None or not process_exists(pid)`, given which processes exist
unfoldable pub is_abandoned : (ℕ → Bool) → Job → Bool
is_abandoned process_exists job = elim job.pid [ none ↦ true | some pid ↦ not (process_exists pid) ]

-- The first loop of mark_stale_jobs.
unfoldable pub collect_stale : (ℕ → Bool) → List Job → List ℕ
collect_stale process_exists [] = []
collect_stale process_exists (job ∷ rest) =
    let later = collect_stale process_exists rest in
    if is_active job && is_abandoned process_exists job then job.id ∷ later else later

-- The second loop of mark_stale_jobs.
unfoldable pub finish_all : Text → List ℕ → List Job → List Job
finish_all now [] rows = rows
finish_all now (job_id ∷ rest) rows =
    finish_all now rest (update_where (has_id job_id) (finished now (codes "stale")) rows)

unfoldable pub mark_stale_jobs : (ℕ → Bool) → Text → Jobs → ℕ × Jobs
mark_stale_jobs process_exists now jobs =
    let stale_ids = collect_stale process_exists jobs.rows in
    (length stale_ids, record jobs { rows = finish_all now stale_ids jobs.rows })

-- job, for one id
unfoldable pub find_job : ℕ → List Job → Option Job
find_job job_id [] = none
find_job job_id (job ∷ rest) = if has_id job_id job then some job else find_job job_id rest
