-- ===== src/Policy/Enforcement.antt =====
-- What the mode `enforce` of bywaf/plugin/context/policy.py does to a framework request whose
-- capability the commandlet has not declared: the first time, and when it is tried again.
use bywaf.Prelude.{
  ℕ, true, false, Option, none, some, ◌∷◌, ◌≡◌, sym, ap, arith, Text, text_eq_refl, ok, err,
  undeclared_capability,
}
use bywaf.Capability.{framework_request_capability, capability_declared}
use bywaf.Policy.{
  Context, enforce, Usage, requested, used, missing, State, publish, next_id, mem_key, Step,
  database_action_denies, record_usage, audit_once, audit_with, audit_capability, denies_request,
  write_request, request_with, request,
}

-- A context that enforces a capability which it does not declare, and which its database actions
-- do not deny.
pub record Undeclared (context : Context) (capability : Text) : Type 0 where
  pub has_db : context.has_db ≡ true
  pub enforces : context.mode ≡ enforce
  pub undeclared : capability_declared capability context.declared_capabilities ≡ false
  pub allowed : database_action_denies context capability ≡ false

abbrev usage_of : Text → Option ℕ → Usage
usage_of capability id = record { capability = capability; declared = false; request_event_id = id }

-- The two events of a use that is not declared.
abbrev pub record_denial : Text → Option ℕ → State → State
record_denial capability id s =
    publish (missing (usage_of capability id)) (publish (used (usage_of capability id)) s)

-- The state with the use in the audit set.
abbrev pub mark_audited : Text → State → State
mark_audited capability s = record s {
  audited = record { capability = capability; declared = false } ∷ s.audited;
}

module _ (context : Context) (capability : Text) (u : Undeclared context capability) where
  audit-first :
      (s : State)
      → mem_key capability false s.audited ≡ false
      → audit_capability context capability none s ≡ (
        err (undeclared_capability capability),
        record_denial capability none (mark_audited capability s),
      )
  unfolding audit_capability audit_with audit_once record_usage
  audit-first s fresh = ground (arith, u.has_db, u.enforces, u.allowed, u.undeclared)

  audit-again :
      (s : State)
      → mem_key capability false s.audited ≡ true
      → audit_capability context capability none s ≡ (ok tt, s)
  unfolding audit_capability audit_with audit_once
  audit-again s old = ground (arith, u.has_db, u.enforces, u.allowed, u.undeclared)

  audit-linked :
      (s : State) (id : ℕ)
      → audit_capability context capability (some id) s
        ≡ (err (undeclared_capability capability), record_denial capability (some id) s)
  unfolding audit_capability audit_with record_usage
  audit-linked s id = ground (arith, u.has_db, u.enforces, u.allowed, u.undeclared)

  mem_key-denial :
      (id : Option ℕ) (s : State)
      → mem_key capability false (record_denial capability id (mark_audited capability s)).audited
        ≡ true
  unfolding mem_key publish
  mem_key-denial id s = ground (arith, text_eq_refl capability)

  request-first :
      (topic : Text) (s : State)
      → framework_request_capability topic ≡ some capability
      → mem_key capability false s.audited ≡ false
      → request context topic s ≡ (
        err (undeclared_capability capability),
        record_denial capability none (mark_audited capability s),
      )
  unfolding request request_with denies_request
  request-first topic s e fresh =
      ground (arith, u.has_db, u.enforces, u.undeclared, audit-first s fresh)

  request-again :
      (topic : Text) (s : State)
      → framework_request_capability topic ≡ some capability
      → mem_key capability false s.audited ≡ true
      → request context topic s ≡ (
        err (undeclared_capability capability),
        record_denial capability (some (next_id s)) (publish (requested topic) s),
      )
  unfolding request request_with denies_request write_request
  request-again topic s e old = ground (
    arith,
    u.has_db,
    u.enforces,
    u.undeclared,
    audit-again s old,
    audit-linked (publish (requested topic) s) (next_id s),
  )

-- Under `enforce`, the first request that needs an undeclared capability, one that the database
-- action policy does not deny, raises, and records the use and the denial but no request event.
pub request-denied :
    (context : Context) (capability topic : Text) (s : State)
    → Undeclared context capability
    → framework_request_capability topic ≡ some capability
    → mem_key capability false s.audited ≡ false
    → request context topic s ≡ (
      err (undeclared_capability capability),
      record_denial capability none (mark_audited capability s),
    )
request-denied context capability topic s u e fresh =
    request-first context capability u topic s e fresh

-- Under `enforce`, a commandlet that makes the denied request again is denied again, but this time
-- the request event is written to the log before the exception is raised (for a capability that the
-- database action policy does not deny).
pub request-retried :
    (context : Context) (capability topic : Text) (s : State)
    → Undeclared context capability
    → framework_request_capability topic ≡ some capability
    → mem_key capability false s.audited ≡ false
    → (after : State) × (after ≡ (request context topic s).1)
      × (request context topic after ≡ (
        err (undeclared_capability capability),
        record_denial capability (some (next_id after)) (publish (requested topic) after),
      ))
request-retried context capability topic s u e fresh = (
  record_denial capability none (mark_audited capability s),
  ap (λ (r : Step (Option ℕ)). r.1) (sym (request-first context capability u topic s e fresh)),
  request-again context capability u topic _ e (mem_key-denial context capability u none s),
)

-- Under `enforce`, a use that belongs to no request, of an undeclared capability that the database
-- action policy does not deny, raises when it is first audited; the next such audit in the state
-- that this one leaves returns as if the capability were declared, and records nothing.
pub audit_capability-repeated :
    (context : Context) (capability : Text) (s : State)
    → Undeclared context capability
    → mem_key capability false s.audited ≡ false
    → (after : State) × (audit_capability context capability none s
        ≡ (err (undeclared_capability capability), after))
      × (audit_capability context capability none after ≡ (ok tt, after))
audit_capability-repeated context capability s u fresh = (
  record_denial capability none (mark_audited capability s),
  audit-first context capability u s fresh,
  audit-again context capability u _ (mem_key-denial context capability u none s),
)
