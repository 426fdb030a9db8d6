-- ===== src/Trigger/Firing.antt =====
-- framework_trigger_fired of bywaf/triggers.py: which event fires the trigger, and what a pass
-- leaves behind.
use bywaf.Prelude.{
  ℕ, ◌≤◌, ◌<◌, Bool, true, false, ◌&&◌, ltb, Option, none, some, List, [], ◌∷◌, ◌++◌, keep, All,
  All-append_right, ◌≡◌, refl, sym, subst, arith, Text, text_eq, text_eq_refl, codes, ok, >>=-eq-ok,
}
use bywaf.Trigger.{
  FireKey, has_fired, Session, publish_event, events_matching, find_cursor, set_cursor, scan_events,
  current_cursor, fired_payload, fire, move_cursor, conclude, framework_trigger_fired,
}
use bywaf.Trigger.Matching.{Value, Event, TriggerSpec, trigger_id}
use bywaf.Trigger.Scanning.{All-keep, All-take, pending, Passes, FiresOn, scan-Scanned}

find_cursor-set_cursor :
    (cursors : List (Text × ℕ)) (id : Text) (n : ℕ)
    → find_cursor (set_cursor cursors id n) id ≡ some n
unfolding find_cursor set_cursor
find_cursor-set_cursor [] id n = ground (arith, text_eq_refl id)
find_cursor-set_cursor ((k, m) ∷ rest) id n = ground (arith, find_cursor-set_cursor rest id n)

module _ (value_str : Value → Text) (trigger : TriggerSpec) (s : Session) where
  -- What a pass that fires leaves behind.
  pub record Fires (after : Session) : Type 0 where
    pub event : Event
    pub found : FiresOn value_str trigger s (pending value_str trigger s) event
    pub newer : current_cursor trigger s < event.id
    pub reached : event.id ≤ current_cursor trigger after
    pub recorded : after.fired ≡ record { trigger = trigger_id trigger; event = event.id } ∷ s.fired
    pub published :
        after.events
        ≡ s.events
          ++ record {
            id = s.next_event_id;
            topic = codes "framework.trigger.fired";
            source = codes "framework";
            payload = fired_payload trigger event;
          }
            ∷ []

  pending-newer :
      All
        (λ (e : Event).
          (ltb (current_cursor trigger s) e.id && text_eq e.topic trigger.topic) ≡ true)
        (pending value_str trigger s)
  unfolding events_matching
  pending-newer =
      All-take (λ (e : Event). ltb (current_cursor trigger s) e.id && text_eq e.topic trigger.topic)
        10000
        (keep (λ (e : Event). ltb (current_cursor trigger s) e.id && text_eq e.topic trigger.topic)
          s.events)
        (All-keep _ s.events)

  FiresOn-newer :
      (event : Event)
      → FiresOn value_str trigger s (pending value_str trigger s) event
      → current_cursor trigger s < event.id
  FiresOn-newer event found =
      let (h, rest) = All-append_right _ found.skipped (event ∷ found.later) (
        subst
          (All (λ (e : Event).
            (ltb (current_cursor trigger s) e.id && text_eq e.topic trigger.topic) ≡ true))
          found.split pending-newer) in
      ground (arith, h)

module _ (value_str : Value → Text) (trigger : TriggerSpec) (s after : Session) where
  fired-cases :
      framework_trigger_fired value_str trigger s ≡ ok (true, after)
      → (m : ℕ) × (event : Event) × (scan_events value_str trigger s
            (pending value_str trigger s)
            (current_cursor trigger s)
          ≡ ok (m, some event))
        × (after ≡ move_cursor trigger true (current_cursor trigger s) m (fire trigger event s))
  unfolding framework_trigger_fired
  fired-cases h = let ((m, o), e, k) = >>=-eq-ok _ _ h in found m o e k
    where
      found :
          (m : ℕ) (o : Option Event)
          → scan_events value_str trigger s (pending value_str trigger s) (current_cursor trigger s)
            ≡ ok (m, o)
          → ok (conclude trigger s (current_cursor trigger s) m o) ≡ ok (true, after)
          → (m : ℕ) × (event : Event) × (scan_events value_str trigger s
                (pending value_str trigger s)
                (current_cursor trigger s)
              ≡ ok (m, some event))
            × (after ≡ move_cursor trigger true (current_cursor trigger s) m (fire trigger event s))
      found m none e k = absurd cc
      found m (some event) e k = (m, event, e, cc)

  quiet-cases :
      framework_trigger_fired value_str trigger s ≡ ok (false, after)
      → (m : ℕ) × (scan_events value_str trigger s
            (pending value_str trigger s)
            (current_cursor trigger s)
          ≡ ok (m, none))
        × (after ≡ move_cursor trigger false (current_cursor trigger s) m s)
  unfolding framework_trigger_fired
  quiet-cases h = let ((m, o), e, k) = >>=-eq-ok _ _ h in found m o e k
    where
      found :
          (m : ℕ) (o : Option Event)
          → scan_events value_str trigger s (pending value_str trigger s) (current_cursor trigger s)
            ≡ ok (m, o)
          → ok (conclude trigger s (current_cursor trigger s) m o) ≡ ok (false, after)
          → (m : ℕ) × (scan_events value_str trigger s
                (pending value_str trigger s)
                (current_cursor trigger s)
              ≡ ok (m, none))
            × (after ≡ move_cursor trigger false (current_cursor trigger s) m s)
      found m none e k = (m, e, cc)
      found m (some event) e k = absurd cc

module _ (trigger : TriggerSpec) (s : Session) where
  current_cursor-move_cursor :
      (b : Bool) (a m : ℕ) → current_cursor trigger (move_cursor trigger b a m s) ≡ m
  unfolding current_cursor move_cursor
  current_cursor-move_cursor b a m =
      ground (arith, find_cursor-set_cursor s.cursors (trigger_id trigger) m)

  fired-fire :
      (event : Event) (b : Bool) (a m : ℕ)
      → (move_cursor trigger b a m (fire trigger event s)).fired
        ≡ record { trigger = trigger_id trigger; event = event.id } ∷ s.fired
  unfolding move_cursor fire publish_event
  fired-fire event b a m = refl

  events-fire :
      (event : Event) (b : Bool) (a m : ℕ)
      → (move_cursor trigger b a m (fire trigger event s)).events
        ≡ s.events
          ++ record {
            id = s.next_event_id;
            topic = codes "framework.trigger.fired";
            source = codes "framework";
            payload = fired_payload trigger event;
          }
            ∷ []
  unfolding move_cursor fire publish_event
  events-fire event b a m = refl

  events-move_cursor :
      (b : Bool) (a m : ℕ)
      → ((move_cursor trigger b a m s).events ≡ s.events)
        × ((move_cursor trigger b a m s).fired ≡ s.fired)
  unfolding move_cursor
  events-move_cursor b a m = (refl, refl)

-- A pass that fires does so on the first pending event that matches and has not fired the trigger
-- in this session, an event beyond the cursor. It records that event, publishes one audit event and
-- no other, and moves the cursor to the event or beyond.
pub framework_trigger_fired-true :
    (value_str : Value → Text) (trigger : TriggerSpec) (s after : Session)
    → framework_trigger_fired value_str trigger s ≡ ok (true, after)
    → Fires value_str trigger s after
framework_trigger_fired-true value_str trigger s after h =
    let (m, event, scanned, e) = fired-cases value_str trigger s after h in
    let (found, le, reached) = scan-Scanned value_str trigger s _ _ (m, some event) scanned in
    record {
      event = event;
      found = found;
      newer = FiresOn-newer value_str trigger s event found;
      reached = rw (e, current_cursor-move_cursor) reached;
      recorded = rw e (fired-fire trigger s event true (current_cursor trigger s) m);
      published = rw e (events-fire trigger s event true (current_cursor trigger s) m);
    }

-- A pass that does not fire has passed every pending event, each of which has fired the trigger
-- before or does not match it; it publishes nothing, records nothing as fired, and never moves the
-- cursor back.
pub framework_trigger_fired-false :
    (value_str : Value → Text) (trigger : TriggerSpec) (s after : Session)
    → framework_trigger_fired value_str trigger s ≡ ok (false, after)
    → All (Passes value_str trigger s) (pending value_str trigger s)
      × (after.events ≡ s.events)
      × (after.fired ≡ s.fired)
      × (current_cursor trigger s ≤ current_cursor trigger after)
framework_trigger_fired-false value_str trigger s after h =
    let (m, scanned, e) = quiet-cases value_str trigger s after h in
    let (passed, le) = scan-Scanned value_str trigger s _ _ (m, none) scanned in
    let (same, kept) = events-move_cursor trigger s false (current_cursor trigger s) m in
    (passed, rw e same, rw e kept, rw (e, current_cursor-move_cursor) le)

-- No pair of a trigger and an event is recorded twice.
abbrev pub IsUnique : List FireKey → Type 0
IsUnique [] = Unit
IsUnique (k ∷ rest) = (has_fired k.trigger k.event rest ≡ false) × IsUnique rest

-- In a session no trigger fires twice on one event: a pass, whether it fires or not, keeps the
-- recorded pairs of a trigger and an event free of repetitions.
pub framework_trigger_fired-IsUnique :
    (value_str : Value → Text) (trigger : TriggerSpec) (s after : Session) (b : Bool)
    → framework_trigger_fired value_str trigger s ≡ ok (b, after)
    → IsUnique s.fired
    → IsUnique after.fired
framework_trigger_fired-IsUnique value_str trigger s after true h u =
    let f = framework_trigger_fired-true value_str trigger s after h in
    subst IsUnique (sym f.recorded) (f.found.new, u)
framework_trigger_fired-IsUnique value_str trigger s after false h u =
    let (passed, events, kept, le) = framework_trigger_fired-false value_str trigger s after h in
    subst IsUnique (sym kept) u
