-- ===== src/Outbox/Publisher/Outcome.antt =====
-- What PublishEvent does (sdk/pkg/outbox/publisher.go).
use jxt_core.Base.{
  ℕ, suc, ℤ, pos, ltb_ℤ, int_incr, ◌⊎◌, inl, inr, refl, ◌∙◌, String, str_eq, ◌↔◌, ◌≡◌, ◌≢◌, true,
  false, not, ◌&&◌, Option, none, some, List, [], ◌∷◌, ◌++◌, if◌then◌else◌, arith,
}
use mathlib.Core.List.{append-nil}
use jxt_core.Outbox.Event.{failed, Error, OutboxEvent, Envelope, is_after, mark_as_failed}
use mathlib.Core.Path.{subst}
use jxt_core.Outbox.Publisher.Defs.{
  OutboxPublisher, PublisherWorld, Lookup, lookup_failed, already_published, proceed, to_envelope,
  publish_event, submit_event,
}
use jxt_core.Outbox.Publisher.Lookup.{Sends, Stands, looked_up, looked_up-Sends, looked_up-Stands}

-- The envelope in which an event goes out.
abbrev pub wrapping : OutboxEvent → Envelope
wrapping e = record {
  event_id = e.id;
  aggregate_id = e.aggregate_id;
  event_type = e.event_type;
  event_version = pos 1;
  payload = e.payload;
  timestamp = e.created_at;
  trace_id = e.trace_id;
  correlation_id = e.correlation_id;
  tenant_id = e.tenant_id;
}

-- The event after a refusal at the instant `now`.
abbrev pub refused_at : ℕ → Error → OutboxEvent → OutboxEvent
refused_at now cause e = record e {
  status = failed;
  retry_count = int_incr e.retry_count;
  last_error = cause.text;
  last_retry_at = some now;
  updated_at = now;
}

module _ (p : OutboxPublisher) where
  -- The submissions of an event that may go out, the clock being read at `i`.
  abbrev pub goes_out : ℕ → OutboxEvent → List (String × Envelope)
  goes_out i e =
      if is_after (p.clock i) e.scheduled_at && not (str_eq (p.topic_mapper e.aggregate_type) "")
      then (p.topic_mapper e.aggregate_type, wrapping e) ∷ []
      else []

  submitted-submit_event :
      (start : ℕ) (e : OutboxEvent) (w : PublisherWorld p)
      → (submit_event p start e w).1.submitted ≡ w.submitted ++ goes_out w.clock_reads e
  unfolding submit_event to_envelope
  submitted-submit_event start e w = ground (arith, append-nil w.submitted)

  abbrev submissions : ℕ → Lookup p → List (String × Envelope)
  submissions i (lookup_failed _) = []
  submissions i already_published = []
  submissions i (proceed e) = goes_out i e

  submitted-looked_up :
      (e : OutboxEvent) (w : PublisherWorld p)
      → (publish_event p e w).1.submitted
        ≡ w.submitted ++ submissions (suc w.clock_reads) (looked_up p e w.store)
  unfolding publish_event to_envelope
  submitted-looked_up e w = ground (arith, append-nil w.submitted)

  -- What was submitted before, and after.
  Submitted :
      ℕ → OutboxEvent → p.repo.Store → List (String × Envelope) → List (String × Envelope) → Type 0
  Submitted i e s before after =
      ((x : OutboxEvent) × Sends p e s x × (after ≡ before ++ goes_out i x))
      ⊎ (((x : OutboxEvent) → ¬ Sends p e s x) × (after ≡ before))

  submissions-Submitted :
      (i : ℕ) (e : OutboxEvent) (s : p.repo.Store) (before after : List (String × Envelope))
      (l : Lookup p)
      → looked_up p e s ≡ l
      → after ≡ before ++ submissions i l
      → Submitted i e s before after
  unfolding Submitted
  submissions-Submitted i e s before after (lookup_failed _) h same =
      inr (λ x sends. cc (h, (looked_up-Sends p e x s).1 sends), same ∙ append-nil before)
  submissions-Submitted i e s before after already_published h same =
      inr (λ x sends. cc (h, (looked_up-Sends p e x s).1 sends), same ∙ append-nil before)
  submissions-Submitted i e s before after (proceed x) h same =
      inl (x, (looked_up-Sends p e x s).0 h, same)

  -- PublishEvent adds at most one submission. If it has an event to go on with (the one it is called
  -- with, where that has no key or nothing is stored under its key, and else the one that is stored,
  -- unless that is published), it submits the envelope of this event for the topic of its aggregate type
  -- when the event is due and has a topic; if it has no event to go on with, it submits nothing.
  pub submitted-publish_event :
      (e : OutboxEvent) (w : PublisherWorld p)
      → ((x : OutboxEvent) × Sends p e w.store x
          × ((publish_event p e w).1.submitted ≡ w.submitted ++ goes_out (suc w.clock_reads) x))
        ⊎ (((x : OutboxEvent) → ¬ Sends p e w.store x)
            × ((publish_event p e w).1.submitted ≡ w.submitted))
  unfolding Submitted
  submitted-publish_event e w =
      submissions-Submitted (suc w.clock_reads) e w.store w.submitted
        (publish_event p e w).1.submitted (looked_up p e w.store) refl (submitted-looked_up e w)

  abbrev pub timeout : Option ℤ
  timeout = if ltb_ℤ (pos 0) p.config.publish_timeout then some p.config.publish_timeout else none

  -- What the event publisher answers when it is given the event in state `b`.
  abbrev pub bus_answer : OutboxEvent → p.event_publisher.Bus → Option Error
  bus_answer e b =
      (p.event_publisher.publish_envelope timeout (p.topic_mapper e.aggregate_type) (wrapping e)
        b).0

  -- The event may go out, the clock being read at `i`, and the event publisher takes it.
  abbrev pub Accepted : ℕ → p.event_publisher.Bus → OutboxEvent → Type 0
  Accepted i b e =
      (is_after (p.clock i) e.scheduled_at ≡ true)
      × (str_eq (p.topic_mapper e.aggregate_type) "" ≡ false)
      × (bus_answer e b ≡ none)

  abbrev Succeeds : ℕ → p.event_publisher.Bus → Lookup p → Type 0
  Succeeds i b (lookup_failed _) = ⊥
  Succeeds i b already_published = Unit
  Succeeds i b (proceed e) = Accepted i b e

  nil-Succeeds :
      (e : OutboxEvent) (w : PublisherWorld p)
      → ((publish_event p e w).0 ≡ none)
        ↔ Succeeds (suc w.clock_reads) w.bus (looked_up p e w.store)
  unfolding publish_event to_envelope
  nil-Succeeds e w = ground arith

  Succeeds-iff :
      (i : ℕ) (b : p.event_publisher.Bus) (e : OutboxEvent) (s : p.repo.Store) (l : Lookup p)
      → looked_up p e s ≡ l
      → Succeeds i b l ↔ (Stands p e s ⊎ ((x : OutboxEvent) × Sends p e s x × Accepted i b x))
  Succeeds-iff i b e s (lookup_failed _) h = (
    λ none_is. absurd none_is,
    λ g. elim g [
      | inl stands ↦ cc (h, (looked_up-Stands p e s).1 stands)
      | inr (x, sends, _) ↦ cc (h, (looked_up-Sends p e x s).1 sends)
    ],
  )
  Succeeds-iff i b e s already_published h = (λ u. inl ((looked_up-Stands p e s).0 h), λ g. tt)
  Succeeds-iff i b e s (proceed y) h = (
    λ accepted. inr (y, (looked_up-Sends p e y s).0 h, accepted),
    λ g. elim g [
      | inl stands ↦ absurd (cc (h, (looked_up-Stands p e s).1 stands))
      | inr (x, sends, accepted) ↦
          let same : x ≡ y = cc (h, (looked_up-Sends p e x s).1 sends) in
          subst (λ z. Accepted i b z) same accepted
    ],
  )

  -- PublishEvent returns nil exactly when a published event is stored under the event's key, or the
  -- event to go on with (the one it is called with, where that has no key or nothing is stored under its
  -- key, and else the one that is stored, unless that is published) is due, has a topic and is accepted
  -- by the event publisher.
  pub publish_event-nil :
      (e : OutboxEvent) (w : PublisherWorld p)
      → ((publish_event p e w).0 ≡ none) ↔ (
          Stands p e w.store
          ⊎ ((x : OutboxEvent) × Sends p e w.store x × Accepted (suc w.clock_reads) w.bus x))
  publish_event-nil e w =
      let outcome = nil-Succeeds e w in
      let cases = Succeeds-iff (suc w.clock_reads) w.bus e w.store (looked_up p e w.store) refl in
      (λ h. cases.0 (outcome.0 h), λ g. outcome.1 (cases.1 g))

  -- The repository after the check of the event's key.
  abbrev pub store_after_lookup : OutboxEvent → p.repo.Store → p.repo.Store
  store_after_lookup e s =
      if str_eq e.idempotency_key ""
      then s
      else (p.repo.find_by_idempotency_key e.idempotency_key s).1

  -- The reading of the clock that follows the check of the schedule, itself made at `i`.
  abbrev pub next_reading : ℕ → OutboxEvent → ℕ
  next_reading i e = elim e.scheduled_at [ none ↦ i | some _ ↦ suc i ]

  refused-looked_up :
      (e : OutboxEvent) (w : PublisherWorld p) (e' : OutboxEvent) (cause : Error)
      → looked_up p e w.store ≡ proceed e'
      → is_after (p.clock (suc w.clock_reads)) e'.scheduled_at ≡ true
      → str_eq (p.topic_mapper e'.aggregate_type) "" ≡ false
      → bus_answer e' w.bus ≡ some cause
      → ((publish_event p e w).1.store
          ≡ (p.repo.update
              (refused_at (p.clock (next_reading (suc w.clock_reads) e')) cause e')
              (store_after_lookup e w.store)).1)
        × ((publish_event p e w).0 ≢ none)
  unfolding publish_event to_envelope mark_as_failed
  refused-looked_up e w e' cause h due topic refused = ground arith

  -- When the event publisher refuses the event that PublishEvent goes on with (the one it is called with,
  -- where that has no key or nothing is stored under its key, and else the one that is stored, unless
  -- that is published), which is due and has a topic, then this event is written back exactly once, with
  -- the status failed, one more retry, the refusal as its last error, and the time as that of its last
  -- retry and update, and is otherwise as it was; PublishEvent returns an error.
  pub publish_event-refused :
      (e : OutboxEvent) (w : PublisherWorld p) (e' : OutboxEvent) (cause : Error)
      → Sends p e w.store e'
      → is_after (p.clock (suc w.clock_reads)) e'.scheduled_at ≡ true
      → str_eq (p.topic_mapper e'.aggregate_type) "" ≡ false
      → bus_answer e' w.bus ≡ some cause
      → ((publish_event p e w).1.store
          ≡ (p.repo.update
              (refused_at (p.clock (next_reading (suc w.clock_reads) e')) cause e')
              (store_after_lookup e w.store)).1)
        × ((publish_event p e w).0 ≢ none)
  publish_event-refused e w e' cause sends due topic refused =
      refused-looked_up e w e' cause ((looked_up-Sends p e e' w.store).1 sends) due topic refused
