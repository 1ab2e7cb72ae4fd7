-- ===== src/Outbox/Scheduler/Defs.antt =====
-- OutboxScheduler of sdk/pkg/outbox/scheduler.go: the work that its loops do at each tick. The
-- repository is the publisher's, as NewScheduler sets it up. A tick runs to its end before the next
-- one starts; a panic, which ends the process, is a result of its own.
use jxt_core.Base.{
  ℕ, suc, ◌+◌, ◌-◌, ℤ, pos, negsuc, add_counter, ◌==◌, Bool, true, false, not, Option, none, some,
  List, [], ◌∷◌, ◌++◌, if◌then◌else◌, State,
}
use jxt_core.Outbox.Event.{
  Error, ErrorKind, plain, wrapped, foreign, OutboxEvent, pending, can_retry,
}
use jxt_core.Outbox.Repository.{Result, ok, err}
use jxt_core.Outbox.Publisher.{
  OutboxPublisher, PublisherWorld, Action, publish_event, publish_pending_events, on_repo, time_now,
}
use jxt_core.Outbox.Scheduler.Config.{SchedulerConfig}

-- `last_error` is an atomic.Value, here with the error last stored.
pub record SchedulerMetrics : Type 0 where
  pub poll_count : ℕ
  pub processed_count : ℕ
  pub error_count : ℕ
  pub last_poll_time : ℕ
  pub last_cleanup_time : ℕ
  pub retry_count : ℕ
  pub retried_count : ℕ
  pub last_retry_time : ℕ
  pub last_error : Option Error

abbrev pub new_scheduler_metrics : SchedulerMetrics
new_scheduler_metrics = record {
  poll_count = 0;
  processed_count = 0;
  error_count = 0;
  last_poll_time = 0;
  last_cleanup_time = 0;
  retry_count = 0;
  retried_count = 0;
  last_retry_time = 0;
  last_error = none;
}

-- The state of a scheduler over that of its publisher, with the calls of the DLQ handlers.
pub record SchedulerWorld (W : Type 0) : Type 0 where
  pub inner : W
  pub metrics : Option SchedulerMetrics
  pub handled : List OutboxEvent
  pub alerted : List OutboxEvent

-- A handler answers by the event and the calls before.
abbrev pub Handler : Type 0
Handler = List OutboxEvent → OutboxEvent → Option Error

pub record OutboxScheduler : Type 1 where
  pub publisher : OutboxPublisher
  pub config : SchedulerConfig
  pub dlq_handler : Option Handler
  pub dlq_alert_handler : Option Handler

pub data Ran (W A : Type 0) : Type 0 where
  finished : A → W → Ran W A
  panicked : W → Ran W A

infixl 5 ◌>>=◌ ◌>>◌
abbrev pub ◌>>=◌ : {W A B : Type 0} → (W → Ran W A) → (A → W → Ran W B) → W → Ran W B
◌>>=◌ m f w = elim (m w) [ finished a w' ↦ f a w' | panicked w' ↦ panicked w' ]

abbrev pub ◌>>◌ : {W A B : Type 0} → (W → Ran W A) → (W → Ran W B) → W → Ran W B
◌>>◌ m k = m >>= λ _. k

abbrev pub pure : {W A : Type 0} → A → W → Ran W A
pure a w = finished a w

abbrev pub kind_eq : ErrorKind → ErrorKind → Bool
kind_eq plain plain = true
kind_eq wrapped wrapped = true
kind_eq (foreign m) (foreign n) = m == n
kind_eq _ _ = false

-- LastError.Store(err): atomic.Value panics when the concrete type differs from that of the value
-- stored before.
unfoldable pub stores : Option Error → Error → Bool
stores none e = true
stores (some old) e = kind_eq old.kind e.kind

module _ (s : OutboxScheduler) where
  abbrev pub SWorld : Type 0
  SWorld = SchedulerWorld (PublisherWorld s.publisher)

  abbrev pub Run : Type 0 → Type 0
  Run A = SWorld → Ran SWorld A

  -- A step of the publisher.
  unfoldable pub publisher_does : {A : Type 0} → Action s.publisher A → Run A
  publisher_does m w = finished (m w.inner).0 (record w { inner = (m w.inner).1 })

  unfoldable pub repo_does : {A : Type 0} → State s.publisher.repo.Store A → Run A
  unfolding publisher_does on_repo
  repo_does call = publisher_does (on_repo s.publisher call)

  -- `if s.metrics != nil { … }`
  unfoldable pub count : (SchedulerMetrics → SchedulerMetrics) → Run (Unit {0})
  count f w = elim w.metrics [
    | none ↦ finished tt w
    | some m ↦ finished tt (record w { metrics = some (f m) })
  ]

  -- `if s.metrics != nil { … time.Now() … }`
  unfoldable pub count_at : (ℕ → SchedulerMetrics → SchedulerMetrics) → Run (Unit {0})
  unfolding publisher_does time_now count
  count_at f w = elim w.metrics [
    | none ↦ finished tt w
    | some _ ↦ (do now ← publisher_does (time_now s.publisher); count (f now)) w
  ]

  unfoldable pub store_error : Error → Run (Unit {0})
  unfolding stores
  store_error e w = elim w.metrics [
    | none ↦ finished tt w
    | some m ↦
        if stores m.last_error e
        then finished tt (record w { metrics = some (record m { last_error = some e }) })
        else panicked w
  ]

  unfoldable pub store_if : Option Error → Run (Unit {0})
  unfolding store_error
  store_if none = pure tt
  store_if (some e) = store_error e

  -- `for _, event := range events { body(event) }`
  unfoldable pub for_events : (OutboxEvent → Run (Unit {0})) → List OutboxEvent → Run (Unit {0})
  for_events body [] w = finished tt w
  for_events body (e ∷ es) w = elim (body e w) [
    | finished _ w' ↦ for_events body es w'
    | panicked w' ↦ panicked w'
  ]

  -- `events, err := query(); if err != nil { … return }`, then the loop over the events.
  unfoldable pub for_found :
      State s.publisher.repo.Store (Result (List OutboxEvent))
      → (OutboxEvent → Run (Unit {0}))
      → Run (Unit {0})
  unfolding repo_does store_error for_events
  for_found query body = do
    answer ← repo_does query
    elim answer [ err e ↦ store_error e | ok events ↦ for_events body events ]

  unfoldable pub poll : Run (Unit {0})
  unfolding publisher_does count count_at store_error
  poll = do
    count_at (λ now m. record m { poll_count = add_counter m.poll_count 1; last_poll_time = now })
    (n, answer) ←
        publisher_does (publish_pending_events s.publisher s.config.batch_size s.config.tenant_id)
    elim answer [
      | some e ↦ do
        count (λ m. record m { error_count = add_counter m.error_count 1 })
        store_error e
      | none ↦ count (λ m. record m { processed_count = add_counter m.processed_count n })
    ]

  -- `now.Add(-d)`
  abbrev pub ago : ℕ → ℤ → ℕ
  ago now (pos d) = now - d
  ago now (negsuc d) = now + suc d

  unfoldable pub cleanup : Run (Unit {0})
  unfolding publisher_does repo_does count_at store_error
  cleanup = do
    now ← publisher_does (time_now s.publisher)
    answer ← repo_does (
        s.publisher.repo.delete_published_before (ago now s.config.cleanup_retention)
          s.config.tenant_id)
    elim answer [
      | err e ↦ store_error e
      | ok _ ↦ count_at (λ now m. record m { last_cleanup_time = now })
    ]

  unfoldable pub retry_event : OutboxEvent → Run (Unit {0})
  unfolding publisher_does repo_does count store_if can_retry
  retry_event e =
      if not (can_retry e)
      then (do
        answer ← repo_does (s.publisher.repo.mark_as_max_retry e.id e.last_error)
        store_if answer)
      else do
        answer ← publisher_does (publish_event s.publisher e)
        elim answer [
          | some error ↦ do
            answer' ← repo_does (s.publisher.repo.increment_retry e.id error.text)
            store_if answer'
          | none ↦ count (λ m. record m { retried_count = add_counter m.retried_count 1 })
        ]

  unfoldable pub count_retry : Run (Unit {0})
  unfolding count_at
  count_retry =
      count_at
        (λ now m. record m { retry_count = add_counter m.retry_count 1; last_retry_time = now })

  unfoldable pub retry_failed_events : Run (Unit {0})
  unfolding count_retry for_found
  retry_failed_events = do
    count_retry
    for_found (s.publisher.repo.find_events_for_retry s.config.max_retries s.config.batch_size)
        retry_event

  -- The count of pending events is compared with a threshold and then not used.
  unfoldable pub health_check : Run (Unit {0})
  unfolding repo_does store_error
  health_check = do
    answer ← repo_does (s.publisher.repo.count pending s.config.tenant_id)
    elim answer [ err e ↦ store_error e | ok _ ↦ pure tt ]

  unfoldable pub alert : OutboxEvent → Run (Unit {0})
  unfolding store_if
  alert e w = elim s.dlq_alert_handler [
    | none ↦ finished tt w
    | some h ↦ store_if (h w.alerted e) (record w { alerted = w.alerted ++ e ∷ [] })
  ]

  -- An event that the handler refuses is not reported.
  unfoldable pub dlq_event : OutboxEvent → Run (Unit {0})
  unfolding alert store_error
  dlq_event e w = elim s.dlq_handler [
    | none ↦ alert e w
    | some h ↦
        let w' = record w { handled = w.handled ++ e ∷ [] } in
        elim (h w.handled e) [ none ↦ alert e w' | some error ↦ store_error error w' ]
  ]

  unfoldable pub process_dlq : Run (Unit {0})
  unfolding for_found
  process_dlq =
      for_found (s.publisher.repo.find_max_retry_events s.config.batch_size s.config.tenant_id)
        dlq_event
