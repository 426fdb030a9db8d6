-- ===== src/Trigger/Scanning.antt =====
-- The loop of framework_trigger_fired in bywaf/triggers.py over the new events.
use bywaf.Prelude.{
  ℕ, zero, suc, ◌≤◌, Bool, true, false, Option, none, some, List, [], ◌∷◌, ◌++◌, take, keep, All,
  ◌≡◌, ◌⊎◌, inl, inr, refl, sym, ◌∙◌, ap, subst, arith, Text, Result, ok, err, Bool-cases,
}
use bywaf.Trigger.{has_fired, Session, events_matching, max_id, scan_events, current_cursor}
use bywaf.Trigger.Matching.{Value, Event, TriggerSpec, trigger_id, trigger_matches}

module _ {ℓ} {A : Type ℓ} (p : A → Bool) where
  pub All-keep : (l : List A) → All (λ x. p x ≡ true) (keep p l)
  All-keep [] = tt
  All-keep (x ∷ l) = elim (Bool-cases (p x)) [
    | inl holds ↦ rw holds (holds, All-keep l)
    | inr fails ↦ rw fails (All-keep l)
  ]

  pub All-take : (n : ℕ) (l : List A) → All (λ x. p x ≡ true) l → All (λ x. p x ≡ true) (take n l)
  All-take zero l h = tt
  All-take (suc n) [] h = tt
  All-take (suc n) (x ∷ l) h = (h.0, All-take n l h.1)

module _ (value_str : Value → Text) (trigger : TriggerSpec) (s : Session) where
  -- The events that this pass reads.
  abbrev pub pending : List Event
  pending = events_matching trigger.topic (current_cursor trigger s) 10000 s.events

  -- An event on which the trigger does not fire: it has fired on it before, or it does not match.
  abbrev pub Passes : Event → Type 0
  Passes event =
      (has_fired (trigger_id trigger) event.id s.fired ≡ true)
      ⊎ (trigger_matches value_str trigger s.jobs event ≡ ok false)

  -- The trigger fires on `event`, the first of `events` that it does not pass.
  pub record FiresOn (events : List Event) (event : Event) : Type 0 where
    pub skipped : List Event
    pub later : List Event
    pub split : events ≡ skipped ++ event ∷ later
    pub passed : All Passes skipped
    pub new : has_fired (trigger_id trigger) event.id s.fired ≡ false
    pub matched : trigger_matches value_str trigger s.jobs event ≡ ok true

  abbrev pub Scanned : List Event → ℕ → ℕ → Option Event → Type 0
  Scanned events n m none = All Passes events × (n ≤ m)
  Scanned events n m (some event) = FiresOn events event × (n ≤ m) × (event.id ≤ m)

  max_id-left : (a b : ℕ) → a ≤ max_id a b
  max_id-left a b = ground arith

  max_id-right : (a b : ℕ) → b ≤ max_id a b
  max_id-right a b = ground arith

  Scanned-cons :
      (event : Event) (rest : List Event) (n m : ℕ) (o : Option Event)
      → Passes event
      → Scanned rest (max_id n event.id) m o
      → Scanned (event ∷ rest) n m o
  Scanned-cons event rest n m none p (h, le) = ((p, h), omega (arith, max_id-left n event.id))
  Scanned-cons event rest n m (some found) p (h, le, bound) = (
    record {
      skipped = event ∷ h.skipped;
      later = h.later;
      split = ap (λ (l : List Event). event ∷ l) h.split;
      passed = (p, h.passed);
      new = h.new;
      matched = h.matched;
    },
    omega (arith, max_id-left n event.id),
    bound,
  )

  scan-passed :
      (event : Event) (rest : List Event) (n : ℕ)
      → Passes event
      → (has_fired (trigger_id trigger) event.id s.fired ≡ true)
        ⊎ (has_fired (trigger_id trigger) event.id s.fired ≡ false)
      → scan_events value_str trigger s (event ∷ rest) n
        ≡ scan_events value_str trigger s rest (max_id n event.id)
  unfolding scan_events
  scan-passed event rest n (inl old) c = rw old
  scan-passed event rest n (inr fails) (inl old) = rw old
  scan-passed event rest n (inr fails) (inr new) = rw (new, fails)

  scan-fired :
      (event : Event) (rest : List Event) (n : ℕ)
      → has_fired (trigger_id trigger) event.id s.fired ≡ false
      → trigger_matches value_str trigger s.jobs event ≡ ok true
      → scan_events value_str trigger s (event ∷ rest) n ≡ ok (max_id n event.id, some event)
  unfolding scan_events
  scan-fired event rest n new holds = rw (new, holds)

  scan-raised :
      (event : Event) (rest : List Event) (n : ℕ) (r : ℕ × Option Event)
      → has_fired (trigger_id trigger) event.id s.fired ≡ false
      → scan_events value_str trigger s (event ∷ rest) n ≡ ok r
      → (trigger_matches value_str trigger s.jobs event ≡ ok false)
        ⊎ (trigger_matches value_str trigger s.jobs event ≡ ok true)
  unfolding scan_events
  scan-raised event rest n r new h = split (trigger_matches value_str trigger s.jobs event) refl
    where
      split :
          (m : Result Bool)
          → trigger_matches value_str trigger s.jobs event ≡ m
          → (trigger_matches value_str trigger s.jobs event ≡ ok false)
            ⊎ (trigger_matches value_str trigger s.jobs event ≡ ok true)
      split (ok false) e = inl e
      split (ok true) e = inr e
      split (err x) e = absurd (ground (arith, h, new, e))

  scan-nil : (n : ℕ) → scan_events value_str trigger s [] n ≡ ok (n, none)
  unfolding scan_events
  scan-nil n = refl

  Scanned-ok :
      (events : List Event) (n : ℕ) (p r : ℕ × Option Event)
      → Scanned events n p.0 p.1
      → ok p ≡ ok r
      → Scanned events n r.0 r.1
  Scanned-ok events n p r h e =
      subst
        (λ (q : Result (ℕ × Option Event)). elim q [
          | ok x ↦ Scanned events n x.0 x.1
          | err x ↦ Unit {0}
        ])
        e h

  pub scan-Scanned :
      (events : List Event) (n : ℕ) (r : ℕ × Option Event)
      → scan_events value_str trigger s events n ≡ ok r
      → Scanned events n r.0 r.1
  scan-Scanned [] n r h = Scanned-ok [] n (n, none) r (tt, omega arith) (sym (scan-nil n) ∙ h)
  scan-Scanned (event ∷ rest) n r h =
      let c = Bool-cases (has_fired (trigger_id trigger) event.id s.fired) in
      let on = λ (p : Passes event).
        Scanned-cons event rest n r.0 r.1 p
          (scan-Scanned rest (max_id n event.id) r (sym (scan-passed event rest n p c) ∙ h)) in
      elim c [
        | inl old ↦ on (inl old)
        | inr new ↦ elim (scan-raised event rest n r new h) [
          | inl passes ↦ on (inr passes)
          | inr matched ↦
              Scanned-ok (event ∷ rest) n (max_id n event.id, some event) r
                (
                  record {
                    skipped = [];
                    later = rest;
                    split = refl;
                    passed = tt;
                    new = new;
                    matched = matched;
                  },
                  max_id-left n event.id,
                  max_id-right n event.id,
                )
                (sym (scan-fired event rest n new matched) ∙ h)
        ]
      ]
