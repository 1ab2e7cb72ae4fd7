-- ===== src/Outbox/Publisher/Batch.antt =====
-- PublishBatch and PublishPendingEvents of OutboxPublisher (sdk/pkg/outbox/publisher.go). A batch is a list of distinct events: the loops change each event
-- on its own.
use jxt_core.Base.{
  ℕ, ℤ, pos, add_counter, String, show_int, str_eq, length, is_empty, Bool, true, false, not, ◌&&◌,
  Option, none, some, List, [], ◌∷◌, ◌++◌, if◌then◌else◌, ◌>>=◌, ◌>>◌, pure, when, for_each,
}
use jxt_core.Outbox.Event.{Error, errorf, wrapf, OutboxEvent, mark_as_failed}
use jxt_core.Outbox.Repository.{Result, ok, err}
use jxt_core.Outbox.Publisher.Defs.{
  OutboxPublisher, Action, time_now, on_repo, on_metrics, handle_error, publish_envelope,
  check_schedule, no_topic, to_envelope,
}

unfoldable pub contains : String → List String → Bool
contains k [] = false
contains k (j ∷ js) = if str_eq j k then true else contains k js

-- The distinct non-empty keys. (The source collects them in a map, so in no fixed order.)
unfoldable pub key_set : List OutboxEvent → List String
unfolding contains
key_set [] = []
key_set (e ∷ es) =
    let rest = key_set es in
    if str_eq e.idempotency_key ""
    then rest
    else if contains e.idempotency_key rest
    then rest
    else e.idempotency_key ∷ rest

-- The loop over the original slice.
unfoldable pub drop_published : List String → List OutboxEvent → List OutboxEvent
unfolding contains
drop_published keys [] = []
drop_published keys (e ∷ es) =
    let rest = drop_published keys es in
    if not (str_eq e.idempotency_key "") && contains e.idempotency_key keys then rest else e ∷ rest

-- What a loop over a batch has sorted out so far.
pub record Sorted : Type 0 where
  pub published : List OutboxEvent
  pub failed : List OutboxEvent

unfoldable pub add_published : OutboxEvent → Sorted → Sorted
add_published e s = record s { published = s.published ++ e ∷ [] }

unfoldable pub add_failed : OutboxEvent → Sorted → Sorted
add_failed e s = record s { failed = s.failed ++ e ∷ [] }

module _ (p : OutboxPublisher) where
  unfoldable pub filter_published_events : List OutboxEvent → Action p (Result (List OutboxEvent))
  unfolding key_set drop_published on_repo
  filter_published_events events = if is_empty (key_set events) then pure (ok events) else do
    answer ← on_repo p (p.repo.find_published_by_idempotency_keys (key_set events))
    elim answer [
      | err e ↦ pure (err (wrapf "failed to batch-check idempotency: " e))
      | ok keys ↦ pure (ok (drop_published keys events))
    ]

  -- The topic, the envelope and the submission of one event of a batch: the event as it is left,
  -- and whether it was accepted.
  unfoldable pub send : OutboxEvent → Action p (OutboxEvent × Option Error)
  unfolding time_now publish_envelope to_envelope mark_as_failed
  send e =
      let topic = p.topic_mapper e.aggregate_type in
      if str_eq topic ""
      then (do
        now ← time_now p
        pure (mark_as_failed now (some (no_topic p e)) e, some (no_topic p e)))
      else do
        answer ← publish_envelope p topic (to_envelope e)
        elim answer [
          | none ↦ pure (e, none)
          | some cause ↦ do
            let error = wrapf "failed to publish: " cause
            now ← time_now p
            pure (mark_as_failed now (some error) e, some error)
        ]

  unfoldable pub sort_out : OutboxEvent × Option Error → Sorted → Sorted
  unfolding add_published add_failed
  sort_out r s = elim r.1 [ none ↦ add_published r.0 s | some _ ↦ add_failed r.0 s ]

  -- One round of the sequential loop: an event that is not due is left as it is.
  unfoldable pub batch_step : Sorted → OutboxEvent → Action p Sorted
  unfolding check_schedule send sort_out
  batch_step s e = do
    due ← check_schedule p e
    if not due then pure (add_failed e s) else do r ← send e; pure (sort_out r s)

  unfoldable pub batch_publish_from : Sorted → List OutboxEvent → Action p Sorted
  batch_publish_from s [] w = (s, w)
  batch_publish_from s (e ∷ es) w =
      let step = batch_step s e w in batch_publish_from step.0 es step.1

  unfoldable pub batch_publish_to_event_bus : List OutboxEvent → Action p Sorted
  batch_publish_to_event_bus = batch_publish_from (record { published = []; failed = [] })

  -- The work of one goroutine: an event that is not due is marked as failed.
  unfoldable pub publish_single_event : OutboxEvent → Action p (OutboxEvent × Option Error)
  unfolding check_schedule send time_now mark_as_failed
  publish_single_event e = do
    due ← check_schedule p e
    if not due
        then (do
          now ← time_now p
          pure (
            mark_as_failed now (some (errorf ("event is scheduled for later" ∷ []))) e,
            some (errorf ("event is scheduled for later" ∷ [])),
          ))
        else send e

  unfoldable pub concurrent_from : Sorted → List OutboxEvent → Action p Sorted
  unfolding sort_out
  concurrent_from s [] w = (s, w)
  concurrent_from s (e ∷ es) w =
      let step = publish_single_event e w in concurrent_from (sort_out step.0 s) es step.1

  -- The goroutines run one after the other, in the order in which they finish.
  unfoldable pub batch_publish_concurrent : List OutboxEvent → Action p Sorted
  batch_publish_concurrent events =
      concurrent_from (record { published = []; failed = [] }) (p.finishing_order events)

  unfoldable pub batch_update_failed : List OutboxEvent → Action p (Unit {0})
  unfolding on_repo for_each
  batch_update_failed events = for_each events (λ e. on_repo p (p.repo.update e) >>= λ _. pure tt)

  mark_published : List OutboxEvent → Action p (Unit {0})
  unfolding on_repo on_metrics handle_error
  mark_published events = do
    answer ← on_repo p (p.repo.mark_batch_as_published events)
    elim answer [
      | none ↦ pure tt
      | some e ↦ do
        on_metrics p (λ m. record m { last_error = some e })
        handle_error p none (wrapf "MarkBatchAsPublished failed: " e)
    ]

  -- The clock is read under the test of the metrics.
  count_batch : Sorted → Action p (Unit {0})
  unfolding time_now on_metrics
  count_batch s w = elim w.metrics [
    | none ↦ (tt, w)
    | some _ ↦
        (do
          now ← time_now p
          on_metrics p (λ m. record m {
            published_count = add_counter m.published_count (length s.published);
            error_count = add_counter m.error_count (length s.failed);
            last_publish_time = now;
          }))
          w
  ]

  -- What follows the loop over the batch.
  unfoldable pub finish_batch : Sorted → Action p (ℕ × Option Error)
  unfolding mark_published batch_update_failed count_batch
  finish_batch s = do
    when (p.event_publisher.is_sync_semantics && not (is_empty s.published))
        (mark_published s.published)
    when (not (is_empty s.failed)) (batch_update_failed s.failed)
    count_batch s
    pure (
      length s.published,
      if is_empty s.failed
          then none
          else some
              (errorf ("failed to publish " ∷ show_int (pos (length s.failed)) ∷ " events" ∷ [])),
    )

  unfoldable pub publish_all : List OutboxEvent → Action p Sorted
  unfolding batch_publish_concurrent batch_publish_to_event_bus
  publish_all events =
      if p.config.concurrent_publish
      then batch_publish_concurrent events
      else batch_publish_to_event_bus events

  unfoldable pub publish_batch : List OutboxEvent → Action p (ℕ × Option Error)
  unfolding filter_published_events publish_all finish_batch
  publish_batch [] = pure (0, none)
  publish_batch (e ∷ es) = do
    answer ← filter_published_events (e ∷ es)
    elim answer [
      | err error ↦ pure (0, some (wrapf "failed to filter published events: " error))
      | ok [] ↦ pure (0, none)
      | ok (x ∷ xs) ↦ do s ← publish_all (x ∷ xs); finish_batch s
    ]

  unfoldable pub publish_pending_events : ℤ → ℤ → Action p (ℕ × Option Error)
  unfolding on_repo publish_batch
  publish_pending_events limit tenant_id = do
    answer ← on_repo p (p.repo.find_pending_events limit tenant_id)
    elim answer [
      | err error ↦ pure (0, some (wrapf "failed to find pending events: " error))
      | ok events ↦ publish_batch events
    ]
