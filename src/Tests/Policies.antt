-- ===== src/Tests/Policies.antt =====
-- bywaf/plugin/context/policy.py for a context that enforces and declares nothing.
use bywaf.Prelude.{
  true, none, some, [], ◌≡◌, ◌≢◌, refl, Text, codes, text_eq, starts_with, err, ok,
  undeclared_capability,
}
use bywaf.Capability.{
  table_get, framework_request_capability, capability_declared, database_action_for_capability,
}
use bywaf.Policy.{
  Context, audit, enforce, State, mem_key, publish, requested, next_id, database_action_denies,
  audit_capability, request,
}
use bywaf.Policy.Enforcement.{
  Undeclared, record_denial, mark_audited, request-denied, request-retried,
  audit_capability-repeated,
}
use bywaf.Policy.Log.{Grows, request-Grows}

abbrev strict : Context
strict = record { has_db = true; mode = enforce; declared_capabilities = []; database_actions = [] }

abbrev fresh : State
fresh = record { events = []; audited = [] }

abbrev run_topic : Text
run_topic = codes "framework.process.run.requested"

abbrev run_capability : Text
run_capability = codes "framework.process.run"

run_needs : framework_request_capability run_topic ≡ some run_capability
unfolding framework_request_capability table_get text_eq
run_needs = refl

strict_run : Undeclared strict run_capability
unfolding capability_declared database_action_denies database_action_for_capability starts_with
strict_run = record { has_db = refl; enforces = refl; undeclared = refl; allowed = refl }

request-denied_example : request strict run_topic fresh ≡ (
  err (undeclared_capability run_capability),
  record_denial run_capability none (mark_audited run_capability fresh),
)
unfolding mem_key
request-denied_example =
    request-denied strict run_capability run_topic fresh strict_run run_needs refl

request-retried_example :
    (after : State) × (after ≡ (request strict run_topic fresh).1)
    × (request strict run_topic after ≡ (
      err (undeclared_capability run_capability),
      record_denial run_capability (some (next_id after)) (publish (requested run_topic) after),
    ))
unfolding mem_key
request-retried_example =
    request-retried strict run_capability run_topic fresh strict_run run_needs refl

audit_capability-repeated_example :
    (after : State) × (audit_capability strict run_capability none fresh
      ≡ (err (undeclared_capability run_capability), after))
    × (audit_capability strict run_capability none after ≡ (ok tt, after))
unfolding mem_key
audit_capability-repeated_example =
    audit_capability-repeated strict run_capability fresh strict_run refl

request-Grows_example : Grows strict fresh (request strict run_topic fresh).1
request-Grows_example = request-Grows strict run_topic fresh

abbrev lenient : Context
lenient = record strict { mode = audit }

audit-ne-enforce : lenient.mode ≢ enforce
audit-ne-enforce e = cc
