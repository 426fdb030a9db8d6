-- ===== src/Policy/Log.antt =====
-- The event log of bywaf/plugin/context/policy.py under every mode.
use bywaf.Prelude.{
  ℕ, true, false, Option, none, some, List, [], ◌∷◌, ◌++◌, ◌≡◌, ◌≢◌, ◌⊎◌, refl, sym, ◌∙◌, subst,
  arith, append-nil, append_assoc, All, All-append, Text, ok, inl, inr, Bool-cases,
}
use bywaf.Capability.{framework_request_capability, capability_declared}
use bywaf.Policy.{
  Context, enforce, Usage, Event, requested, used, missing, State, publish, next_id, mem_key,
  record_usage, audit_once, audit_with, audit_capability, database_action_denies, write_request,
  request_with, request,
}

-- An event that tells the truth about what is declared.
abbrev pub IsAccurate : Context → Event → Type 0
IsAccurate context (requested topic) = Unit
IsAccurate context (used u) =
    u.declared ≡ capability_declared u.capability context.declared_capabilities
IsAccurate context (missing u) =
    (u.declared ≡ capability_declared u.capability context.declared_capabilities)
    × (u.declared ≡ false)

-- Only accurate events are added behind the old ones.
pub record Grows (context : Context) (s t : State) : Type 0 where
  pub new : List Event
  pub appended : t.events ≡ s.events ++ new
  pub accurate : All (IsAccurate context) new

module _ (context : Context) where
  Grows-refl : (s : State) → Grows context s s
  Grows-refl s = record { new = []; appended = rw append-nil; accurate = tt }

  Grows-trans : (s t r : State) → Grows context s t → Grows context t r → Grows context s r
  Grows-trans s t r g h = record {
    new = g.new ++ h.new;
    appended = h.appended ∙ rw (g.appended, append_assoc);
    accurate = All-append (IsAccurate context) g.new h.new g.accurate h.accurate;
  }

  Grows-publish : (e : Event) (s : State) → IsAccurate context e → Grows context s (publish e s)
  unfolding publish
  Grows-publish e s h = record { new = e ∷ []; appended = refl; accurate = (h, tt) }

  Grows-of : (s t r : State) → r ≡ t → Grows context s t → Grows context s r
  Grows-of s t r e g = subst (Grows context s) (sym e) g

  record_usage-declared :
      (u : Usage) (s : State)
      → u.declared ≡ true
      → (record_usage context u s).1 ≡ publish (used u) s
  unfolding record_usage
  record_usage-declared u s h = ground arith

  record_usage-undeclared :
      (u : Usage) (s : State)
      → u.declared ≡ false
      → (record_usage context u s).1 ≡ publish (missing u) (publish (used u) s)
  unfolding record_usage
  record_usage-undeclared u s h = ground arith

  record_usage-Grows :
      (u : Usage) (s : State)
      → u.declared ≡ capability_declared u.capability context.declared_capabilities
      → Grows context s (record_usage context u s).1
  record_usage-Grows u s h = elim (Bool-cases u.declared) [
    | inl known ↦ Grows-of s _ _ (record_usage-declared u s known) (Grows-publish (used u) s h)
    | inr unknown ↦ Grows-of s _ _ (record_usage-undeclared u s unknown) (
        Grows-trans s (publish (used u) s) (publish (missing u) (publish (used u) s))
          (Grows-publish (used u) s h)
          (Grows-publish (missing u) (publish (used u) s) (h, unknown)))
  ]

  audit_with-Grows :
      (c : Text) (id : Option ℕ) (s : State)
      → Grows context s
          (audit_with context c id (capability_declared c context.declared_capabilities) s).1
  unfolding audit_with audit_once
  audit_with-Grows c (some id) s = record_usage-Grows _ s refl
  audit_with-Grows c none s =
      elim (Bool-cases
        (mem_key c (capability_declared c context.declared_capabilities) s.audited)) [
          | inl old ↦ rw old (Grows-refl s)
          | inr fresh ↦ rw fresh (
              let g =
                record_usage-Grows
                  (record {
                    capability = c;
                    declared = capability_declared c context.declared_capabilities;
                    request_event_id = none;
                  })
                  (record s {
                    audited =
                        record {
                          capability = c;
                          declared = capability_declared c context.declared_capabilities;
                        }
                        ∷ s.audited;
                  })
                  refl in
              record { new = g.new; appended = g.appended; accurate = g.accurate })
        ]

  audit_capability-cases :
      (c : Text) (id : Option ℕ) (s : State)
      → ((audit_capability context c id s).1 ≡ s)
        ⊎ ((audit_capability context c id s).1
            ≡ (audit_with context c id (capability_declared c context.declared_capabilities) s).1)
  unfolding audit_capability
  audit_capability-cases c id s = ground arith

  -- Auditing a capability, whatever it returns or raises, adds only accurate events to the log.
  audit_capability-Grows :
      (c : Text) (id : Option ℕ) (s : State) → Grows context s (audit_capability context c id s).1
  audit_capability-Grows c id s = elim (audit_capability-cases c id s) [
    | inl same ↦ Grows-of s s _ same (Grows-refl s)
    | inr more ↦ Grows-of s _ _ more (audit_with-Grows c id s)
  ]

  write_request-Grows :
      (topic : Text) (o : Option Text) (s : State)
      → Grows context s (write_request context topic o s).1
  unfolding write_request
  write_request-Grows topic none s = Grows-publish (requested topic) s tt
  write_request-Grows topic (some c) s =
      Grows-trans s (publish (requested topic) s) _ (Grows-publish (requested topic) s tt)
        (audit_capability-Grows c (some (next_id s)) (publish (requested topic) s))

  request_with-cases :
      (topic c : Text) (s : State)
      → ((request_with context topic (some c) s).1 ≡ (audit_capability context c none s).1)
        ⊎ ((request_with context topic (some c) s).1
            ≡ (write_request context topic (some c) (audit_capability context c none s).1).1)
        ⊎ ((request_with context topic (some c) s).1 ≡ (write_request context topic (some c) s).1)
  unfolding request_with
  request_with-cases topic c s = ground arith

  request_with-Grows :
      (topic : Text) (o : Option Text) (s : State)
      → Grows context s (request_with context topic o s).1
  request_with-Grows topic none s = unfold request_with in write_request-Grows topic none s
  request_with-Grows topic (some c) s =
      let audited = audit_capability-Grows c none s in
      elim (request_with-cases topic c s) [
        | inl stop ↦ Grows-of s _ _ stop audited
        | inr (inl on) ↦
            Grows-of s _ _ on (Grows-trans s _ _ audited (write_request-Grows topic (some c) _))
        | inr (inr plain) ↦ Grows-of s _ _ plain (write_request-Grows topic (some c) s)
      ]

  request-cases :
      (topic : Text) (s : State)
      → ((request context topic s).1 ≡ s)
        ⊎ ((request context topic s).1
            ≡ (request_with context topic (framework_request_capability topic) s).1)
  unfolding request
  request-cases topic s = ground arith

-- A framework request, whether it returns or raises, changes the event log only by adding events
-- behind it, and each capability event that it adds states exactly what the commandlet's
-- declarations say; an event of a missing capability is added only for one that is not declared.
pub request-Grows :
    (context : Context) (topic : Text) (s : State) → Grows context s (request context topic s).1
request-Grows context topic s = elim (request-cases context topic s) [
  | inl same ↦ Grows-of context s s _ same (Grows-refl context s)
  | inr more ↦ Grows-of context s _ _ more (request_with-Grows context topic _ s)
]

-- In every mode but `enforce`, auditing a capability that the database actions do not deny never
-- raises, whatever is declared.
pub audit_capability-permits :
    (context : Context) (capability : Text) (id : Option ℕ) (s : State)
    → context.mode ≢ enforce
    → database_action_denies context capability ≡ false
    → (audit_capability context capability id s).0 ≡ ok tt
unfolding audit_capability audit_with audit_once record_usage
audit_capability-permits context capability none s h d = ground (arith, h, d)
audit_capability-permits context capability (some id) s h d = ground (arith, h, d)
