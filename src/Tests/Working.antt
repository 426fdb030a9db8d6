-- ===== src/Tests/Working.antt =====
-- bywaf/db/jobs.py and bywaf/triggers.py at concrete jobs and events.
use bywaf.Prelude.{
  ℕ, ◌==◌, ◌≤◌, true, false, if◌then◌else◌, Option, none, some, [], ◌∷◌, ◌≡◌, refl, All, Text,
  codes, text_eq, mem_text, ok, strip, lstrip, rstrip, is_space,
}
use bywaf.Command.Shlex.{is_blank, is_quote, lex_step, lex_end, emit, lex, shlex_split}
use bywaf.Job.{
  Job, Jobs, is_active, update_where, count_where, claimable, claim_job, is_abandoned,
  collect_stale, finish_all, mark_stale_jobs, list_jobs,
}
use bywaf.Job.Claim.{claim_all, claim_all-once}
use bywaf.Job.Stale.{IsAttended, mark_stale_jobs-IsAttended}
use bywaf.Trigger.{
  has_fired, Session, publish_event, events_matching, find_cursor, set_cursor, scan_events,
  current_cursor, fire, move_cursor, framework_trigger_fired, enable_session_trigger,
}
use bywaf.Trigger.Matching.{
  Value, text, number, Event, TriggerSpec, trigger_id, trigger_action_name, trigger_matches,
  accepts_payload, payload_matches, active_job_matches, is_self_triggered, payload_get,
}
use bywaf.Trigger.Cursor.{trigger_cursor, update_trigger_state, upsert}
use bywaf.Trigger.Scanning.{Passes, pending}
use bywaf.Trigger.Firing.{
  Fires, IsUnique, framework_trigger_fired-true, framework_trigger_fired-false,
  framework_trigger_fired-IsUnique,
}

-- All that a run of these functions opens.
working_defs : Unit {0}
unfolding is_active update_where count_where claim_job is_abandoned collect_stale finish_all
    mark_stale_jobs list_jobs claim_all mem_text text_eq strip lstrip rstrip is_space is_blank
    is_quote lex_step lex_end emit lex shlex_split trigger_id has_fired publish_event
    events_matching find_cursor set_cursor trigger_action_name trigger_matches accepts_payload
    payload_matches active_job_matches is_self_triggered payload_get scan_events current_cursor fire
    move_cursor framework_trigger_fired trigger_cursor update_trigger_state upsert
working_defs = tt

abbrev job_of : ℕ → Option ℕ → Text → Job
job_of id pid status = record {
  id = id;
  serial = codes "s";
  command_line = codes "scan";
  pid = pid;
  status = status;
  started_at = codes "now";
  finished_at = none;
}

abbrev two_jobs : Jobs
two_jobs = record {
  rows = job_of 1 none (codes "queued") ∷ job_of 2 (some 7) (codes "running") ∷ [];
  next_id = 3;
}

claim_two : (claim_all 1 (some 20 ∷ some 21 ∷ []) two_jobs).0 ≡ 1
unfolding working_defs
claim_two = refl

claim_all-once_example :
    (claim_all 1 (some 20 ∷ some 21 ∷ []) two_jobs).0
    ≡ (if count_where (claimable 1) two_jobs.rows == 1 then 1 else 0)
claim_all-once_example = claim_all-once 1 (some 20) (some 21 ∷ []) two_jobs

mark_two : (mark_stale_jobs (λ pid. pid == 7) (codes "later") two_jobs).0 ≡ 1
unfolding working_defs
mark_two = refl

mark_stale_jobs-IsAttended_example :
    All
      (IsAttended (λ pid. pid == 7))
      (mark_stale_jobs (λ pid. pid == 7) (codes "later") two_jobs).1.rows
mark_stale_jobs-IsAttended_example =
    mark_stale_jobs-IsAttended (λ pid. pid == 7) (codes "later") two_jobs

abbrev watchdog : TriggerSpec
watchdog = record {
  name = codes "watchdog";
  topic = codes "job.started";
  action_command = codes "watch all";
  description = [];
  action_mode = codes "service";
  capability = none;
  payload_equals = (codes "state", codes "open") ∷ [];
  active_job = false;
  exclude_commandlets = codes "watch" ∷ [];
  suppress_self_trigger = true;
  provider = some (codes "core");
}

abbrev started : ℕ → Text → Event
started id source = record {
  id = id;
  topic = codes "job.started";
  source = source;
  payload = (codes "state", text (codes "open")) ∷ (codes "job_id", number 2) ∷ [];
}

abbrev no_str : Value → Text
no_str v = []

-- The watchdog's own event comes first.
abbrev session : Session
session = record {
  events = started 1 (codes "watch") ∷ started 2 (codes "scan") ∷ started 3 (codes "scan") ∷ [];
  next_event_id = 4;
  trigger_rows = [];
  cursors = [];
  fired = [];
  enabled = [];
  jobs = two_jobs;
  session_service_job_ids = [];
}

abbrev session_after : Session
session_after = move_cursor watchdog true 0 2 (fire watchdog (started 2 (codes "scan")) session)

session_fires : framework_trigger_fired no_str watchdog session ≡ ok (true, session_after)
unfolding working_defs
session_fires = refl

framework_trigger_fired-true_example : Fires no_str watchdog session session_after
framework_trigger_fired-true_example =
    framework_trigger_fired-true no_str watchdog session session_after session_fires

framework_trigger_fired-IsUnique_example : IsUnique session_after.fired
framework_trigger_fired-IsUnique_example =
    framework_trigger_fired-IsUnique no_str watchdog session session_after true session_fires tt

-- The session with the watchdog's own event alone.
abbrev own_session : Session
own_session = record session { events = started 1 (codes "watch") ∷ [] }

abbrev own_after : Session
own_after = move_cursor watchdog false 0 1 own_session

own_passes : framework_trigger_fired no_str watchdog own_session ≡ ok (false, own_after)
unfolding working_defs
own_passes = refl

framework_trigger_fired-false_example :
    All (Passes no_str watchdog own_session) (pending no_str watchdog own_session)
    × (own_after.events ≡ own_session.events)
    × (own_after.fired ≡ own_session.fired)
    × (current_cursor watchdog own_session ≤ current_cursor watchdog own_after)
framework_trigger_fired-false_example =
    framework_trigger_fired-false no_str watchdog own_session own_after own_passes

abbrev enabled_session : Session
enabled_session = enable_session_trigger watchdog session_after
