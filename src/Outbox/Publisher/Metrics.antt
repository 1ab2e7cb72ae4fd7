-- ===== src/Outbox/Publisher/Metrics.antt =====
-- RetryFailedEvent, GetMetrics and ResetMetrics of OutboxPublisher (sdk/pkg/outbox/publisher.go).
use jxt_core.Base.{add_counter, not, Option, none, some, [], ◌∷◌, if◌then◌else◌, ◌>>=◌, ◌>>◌, pure}
use jxt_core.Outbox.Event.{Error, errorf, wrapf, OutboxEvent, can_retry, reset_for_retry}
use jxt_core.Outbox.Publisher.Defs.{
  PublisherMetrics, OutboxPublisher, Action, time_now, on_repo, on_metrics, publish_event,
}

module _ (p : OutboxPublisher) where
  -- `time.Sleep` changes nothing that is modelled.
  unfoldable pub retry_failed_event : OutboxEvent → Action p (Option Error)
  unfolding time_now on_repo on_metrics publish_event can_retry reset_for_retry
  retry_failed_event e =
      if not (can_retry e)
      then pure (some (errorf ("event " ∷ e.id ∷ " has reached max retries" ∷ [])))
      else do
        now ← time_now p
        let e' = reset_for_retry now e
        answer ← on_repo p (p.repo.update e')
        elim answer [
          | some error ↦ pure (some (wrapf "failed to reset event for retry: " error))
          | none ↦ do
            on_metrics p (λ m. record m { retry_count = add_counter m.retry_count 1 })
            publish_event p e'
        ]

-- GetMetrics copies every counter but `error_count`, which reads 0.
unfoldable pub get_metrics : Option PublisherMetrics → Option PublisherMetrics
get_metrics none = none
get_metrics (some m) = some (record m { error_count = 0 })

-- ResetMetrics sets every field but `error_count`; the zero `time.Time` is the instant 0.
unfoldable pub reset_metrics : Option PublisherMetrics → Option PublisherMetrics
reset_metrics none = none
reset_metrics (some m) = some (record m {
  published_count = 0;
  failed_count = 0;
  retry_count = 0;
  last_publish_time = 0;
  last_error = none;
})
