-- ===== src/Outbox/Publisher/Defs.antt =====
-- OutboxPublisher of sdk/pkg/outbox/publisher.go: its state, its helpers and PublishEvent.
-- The state is that of the repository and of the event publisher, the number of readings of the
-- clock so far, the metrics (`none` where the pointer is nil), and the calls made so far of the
-- callbacks and of the event publisher, in order.
use jxt_core.Base.{
  ℕ, suc, ℤ, pos, ltb_ℤ, add_counter, String, str_eq, Bool, not, Option, none, some, List, [], ◌∷◌,
  ◌++◌, if◌then◌else◌, State, ◌>>=◌, ◌>>◌, pure,
}
use jxt_core.Outbox.Event.{
  Error, errorf, wrapf, OutboxEvent, Envelope, is_published, should_publish_now, mark_as_failed,
  since,
}
use jxt_core.Outbox.Repository.{OutboxRepository, EventPublisher, Result, ok, err}
use jxt_core.Outbox.PublisherConfig.{PublisherConfig}

pub record PublisherMetrics : Type 0 where
  pub published_count : ℕ
  pub failed_count : ℕ
  pub error_count : ℕ
  pub retry_count : ℕ
  pub last_publish_time : ℕ
  pub last_error : Option Error

-- The calls of the MetricsCollector.
pub data Recorded : Type 0 where
  record_published : ℤ → String → String → Recorded
  record_failed : ℤ → String → String → Option Error → Recorded
  record_publish_duration : ℤ → String → String → ℤ → Recorded

pub record World (Store Bus : Type 0) : Type 0 where
  pub store : Store
  pub bus : Bus
  pub clock_reads : ℕ
  pub metrics : Option PublisherMetrics
  pub handled : List (Option OutboxEvent × Error)
  pub collected : List Recorded
  pub submitted : List (String × Envelope)

pub record OutboxPublisher : Type 1 where
  pub repo : OutboxRepository
  pub event_publisher : EventPublisher
  pub topic_mapper : String → String
  pub config : PublisherConfig
  -- The readings of the clock, first to last.
  pub clock : ℕ → ℕ
  -- The order in which the goroutines of a concurrent batch finish.
  pub finishing_order : List OutboxEvent → List OutboxEvent

unfoldable pub to_envelope : OutboxEvent → Envelope
to_envelope e = record {
  event_id = e.id;
  aggregate_id = e.aggregate_id;
  event_type = e.event_type;
  event_version = pos 1;
  payload = e.payload;
  timestamp = e.created_at;
  trace_id = e.trace_id;
  correlation_id = e.correlation_id;
  tenant_id = e.tenant_id;
}

-- `if p.metrics != nil { … }`
abbrev pub update_metrics :
    (PublisherMetrics → PublisherMetrics) → Option PublisherMetrics → Option PublisherMetrics
update_metrics f none = none
update_metrics f (some m) = some (f m)

module _ (p : OutboxPublisher) where
  abbrev pub PublisherWorld : Type 0
  PublisherWorld = World p.repo.Store p.event_publisher.Bus

  abbrev pub Action : Type 0 → Type 0
  Action A = State PublisherWorld A

  -- time.Now()
  unfoldable pub time_now : Action ℕ
  time_now w = (p.clock w.clock_reads, record w { clock_reads = suc w.clock_reads })

  unfoldable pub on_repo : {A : Type 0} → State p.repo.Store A → Action A
  on_repo call w = ((call w.store).0, record w { store = (call w.store).1 })

  unfoldable pub on_metrics : (PublisherMetrics → PublisherMetrics) → Action (Unit {0})
  on_metrics f w = (tt, record w { metrics = update_metrics f w.metrics })

  -- `if p.config.ErrorHandler != nil { p.config.ErrorHandler(event, err) }`
  unfoldable pub handle_error : Option OutboxEvent → Error → Action (Unit {0})
  handle_error event error w =
      if p.config.error_handler
      then (tt, record w { handled = w.handled ++ (event, error) ∷ [] })
      else (tt, w)

  unfoldable pub collect : Recorded → Action (Unit {0})
  collect r w = (tt, record w { collected = w.collected ++ r ∷ [] })

  -- PublishEnvelope, under a timeout if one is configured.
  unfoldable pub publish_envelope : String → Envelope → Action (Option Error)
  publish_envelope topic envelope w =
      let timeout =
        if ltb_ℤ (pos 0) p.config.publish_timeout then some p.config.publish_timeout else none in
      let answer = p.event_publisher.publish_envelope timeout topic envelope w.bus in
      (answer.0, record w { bus = answer.1; submitted = w.submitted ++ (topic, envelope) ∷ [] })

  -- The clock is read only for an event with a schedule.
  unfoldable pub check_schedule : OutboxEvent → Action Bool
  unfolding time_now should_publish_now
  check_schedule e = elim e.scheduled_at [
    | none ↦ pure (should_publish_now 0 e)
    | some _ ↦ do now ← time_now; pure (should_publish_now now e)
  ]

  abbrev pub no_topic : OutboxEvent → Error
  no_topic e = errorf ("no topic found for aggregate type: " ∷ e.aggregate_type ∷ [])

  -- What the check of the idempotency key decides.
  pub data Lookup : Type 0 where
    lookup_failed : Error → Lookup
    already_published : Lookup
    proceed : OutboxEvent → Lookup

  unfoldable pub decide : OutboxEvent → Result (Option OutboxEvent) → Lookup
  unfolding is_published
  decide event (err e) = lookup_failed (wrapf "failed to check idempotency: " e)
  decide event (ok none) = proceed event
  decide event (ok (some existing)) =
      if is_published existing then already_published else proceed existing

  unfoldable pub check_idempotency : OutboxEvent → Action Lookup
  unfolding on_repo decide
  check_idempotency event = if str_eq event.idempotency_key "" then pure (proceed event) else do
    answer ← on_repo (p.repo.find_by_idempotency_key event.idempotency_key)
    pure (decide event answer)

  -- What follows a refused submission.
  unfoldable pub record_failure : OutboxEvent → Error → Action (Option Error)
  unfolding time_now on_repo on_metrics handle_error collect mark_as_failed
  record_failure event error = do
    now ← time_now
    let event' = mark_as_failed now (some error) event
    update_error ← on_repo (p.repo.update event')
    elim update_error [
      | some e ↦ pure (some (wrapf "failed to update event after publish error: " e))
      | none ↦ do
        handle_error (some event') error
        on_metrics
            (λ m. record m { failed_count = add_counter m.failed_count 1; last_error = some error })
        collect (record_failed event.tenant_id event.aggregate_type event.event_type (some error))
        pure (some (wrapf "failed to publish event: " error))
    ]

  unfoldable pub submit_event : ℕ → OutboxEvent → Action (Option Error)
  unfolding check_schedule publish_envelope record_failure to_envelope since
  submit_event start event = do
    due ← check_schedule event
    let topic = p.topic_mapper event.aggregate_type
    if not due
        then pure (some (errorf ("event " ∷ event.id ∷ " is scheduled for later" ∷ [])))
        else if str_eq topic ""
        then pure (some (no_topic event))
        else do
          answer ← publish_envelope topic (to_envelope event)
          elim answer [
            | some e ↦ record_failure event e
            | none ↦ do
              now ← time_now
              collect (
                  record_publish_duration event.tenant_id event.aggregate_type event.event_type
                    (since now start))
              pure none
          ]

  -- `none` is the `nil` error.
  unfoldable pub publish_event : OutboxEvent → Action (Option Error)
  unfolding check_idempotency submit_event
  publish_event event = do
    start ← time_now
    found ← check_idempotency event
    elim found [
      | lookup_failed e ↦ pure (some e)
      | already_published ↦ pure none
      | proceed event' ↦ submit_event start event'
    ]
