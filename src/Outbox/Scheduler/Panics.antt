-- ===== src/Outbox/Scheduler/Panics.antt =====
-- When a tick of the scheduler panics (sdk/pkg/outbox/scheduler.go).
use jxt_core.Base.{◌≡◌, refl, Bool, true, false, none, some, List, [], ◌∷◌, arith, State}
use jxt_core.Outbox.Event.{Error, plain, wrapf, OutboxEvent}
use jxt_core.Outbox.Repository.{Result, ok, err}
use jxt_core.Outbox.Publisher.{publish_pending_events}
use jxt_core.Outbox.Scheduler.Defs.{
  SchedulerMetrics, OutboxScheduler, Ran, finished, panicked, SWorld, poll, cleanup, retry_event,
  retry_failed_events, health_check, dlq_event, process_dlq, for_events, Run, store_error,
  count_retry, for_found, ◌>>=◌,
}

abbrev pub is_panicked : {W A : Type 0} → Ran W A → Bool
is_panicked (finished _ _) = false
is_panicked (panicked _) = true

module _ (s : OutboxScheduler) where
  -- Once a failed batch has been reported (an error with no cause inside), a poll whose query of
  -- the pending events fails stores an error of another concrete type, and panics.
  pub poll_panics :
      (w : SWorld s) (m : SchedulerMetrics) (old e : Error)
      → w.metrics ≡ some m
      → m.last_error ≡ some old
      → old.kind ≡ plain
      → (s.publisher.repo.find_pending_events s.config.batch_size s.config.tenant_id
          w.inner.store).0
        ≡ err e
      → is_panicked (poll s w) ≡ true
  unfolding poll publish_pending_events wrapf
  poll_panics w m old e hm ho hk hf = ground arith

  -- The tick has ended, and there are still no metrics.
  abbrev Calm : {A : Type 0} → Ran (SWorld s) A → Type 0
  Calm (finished _ w) = w.metrics ≡ none
  Calm (panicked _) = ⊥

  Calm-for_events :
      (body : OutboxEvent → Run s (Unit {0})) (es : List OutboxEvent) (w : SWorld s)
      → ((e : OutboxEvent) (v : SWorld s) → v.metrics ≡ none → Calm (body e v))
      → w.metrics ≡ none
      → Calm (for_events s body es w)
  unfolding for_events
  Calm-for_events body [] w f h = h
  Calm-for_events body (e ∷ es) w f h = go (body e w) (f e w h) (Calm-for_events body es)
    where
      go :
          (r : Ran (SWorld s) (Unit {0}))
          → Calm r
          → ((v : SWorld s)
              → ((e : OutboxEvent) (u : SWorld s) → u.metrics ≡ none → Calm (body e u))
              → v.metrics ≡ none
              → Calm (for_events s body es v))
          → Calm {A = Unit {0}}
              (elim r [ finished _ w' ↦ for_events s body es w' | panicked w' ↦ panicked w' ])
      go (finished _ v) c ih = ih v f c
      go (panicked v) c ih = absurd c

  Calm-retry_event : (e : OutboxEvent) (w : SWorld s) → w.metrics ≡ none → Calm (retry_event s e w)
  unfolding retry_event
  Calm-retry_event e w h = ground arith

  Calm-dlq_event : (e : OutboxEvent) (w : SWorld s) → w.metrics ≡ none → Calm (dlq_event s e w)
  unfolding dlq_event
  Calm-dlq_event e w h = ground arith

  Calm-bind :
      {A B : Type 0} (m : Run s A) (f : A → Run s B) (w : SWorld s)
      → Calm (m w)
      → ((a : A) (v : SWorld s) → v.metrics ≡ none → Calm (f a v))
      → Calm ((m >>= f) w)
  Calm-bind {A} {B} m f w h k = go (m w) h
    where
      go :
          (r : Ran (SWorld s) A)
          → Calm r
          → Calm {A = B} (elim r [ finished a w' ↦ f a w' | panicked w' ↦ panicked w' ])
      go (finished a v) c = k a v c
      go (panicked v) c = absurd c

  Calm-store_error : (e : Error) (w : SWorld s) → w.metrics ≡ none → Calm (store_error s e w)
  unfolding store_error
  Calm-store_error e w h = ground arith

  -- The body of a loop over the events that a query returned.
  Calm-over :
      (body : OutboxEvent → Run s (Unit {0})) (r : Result (List OutboxEvent)) (w : SWorld s)
      → ((e : OutboxEvent) (v : SWorld s) → v.metrics ≡ none → Calm (body e v))
      → w.metrics ≡ none
      → Calm (
          (elim r as (λ _. Run s (Unit {0})) [
            | err e ↦ store_error s e
            | ok es ↦ for_events s body es
          ])
            w)
  Calm-over body (err e) w f h = Calm-store_error e w h
  Calm-over body (ok es) w f h = Calm-for_events body es w f h

  Calm-for_found :
      (query : State s.publisher.repo.Store (Result (List OutboxEvent)))
      (body : OutboxEvent → Run s (Unit {0})) (w : SWorld s)
      → ((e : OutboxEvent) (v : SWorld s) → v.metrics ≡ none → Calm (body e v))
      → w.metrics ≡ none
      → Calm (for_found s query body w)
  unfolding for_found
  Calm-for_found query body w f h = Calm-over body (query w.inner.store).0 _ f h

  Calm-count_retry : (w : SWorld s) → w.metrics ≡ none → Calm (count_retry s w)
  unfolding count_retry
  Calm-count_retry w h = ground arith

  Calm-retry_failed_events : (w : SWorld s) → w.metrics ≡ none → Calm (retry_failed_events s w)
  unfolding retry_failed_events
  Calm-retry_failed_events w h =
      Calm-bind {B = Unit {0}} (count_retry s)
        (λ _.
          for_found s
            (s.publisher.repo.find_events_for_retry s.config.max_retries s.config.batch_size)
            (retry_event s))
        w (Calm-count_retry w h)
        (λ _ v hv.
          Calm-for_found
            (s.publisher.repo.find_events_for_retry s.config.max_retries s.config.batch_size)
            (retry_event s) v Calm-retry_event hv)

  Calm-process_dlq : (w : SWorld s) → w.metrics ≡ none → Calm (process_dlq s w)
  unfolding process_dlq
  Calm-process_dlq w h =
      Calm-for_found (s.publisher.repo.find_max_retry_events s.config.batch_size s.config.tenant_id)
        (dlq_event s) w Calm-dlq_event h

  Calm-poll : (w : SWorld s) → w.metrics ≡ none → Calm (poll s w)
  unfolding poll
  Calm-poll w h = ground arith

  Calm-cleanup : (w : SWorld s) → w.metrics ≡ none → Calm (cleanup s w)
  unfolding cleanup
  Calm-cleanup w h = ground arith

  Calm-health : (w : SWorld s) → w.metrics ≡ none → Calm (health_check s w)
  unfolding health_check
  Calm-health w h = ground arith

-- A tick of one of the scheduler's loops.
pub data Tick : Type 0 where
  poll_tick cleanup_tick retry_tick health_tick dlq_tick : Tick

unfoldable pub run_tick : (s : OutboxScheduler) → Tick → Run s (Unit {0})
run_tick s poll_tick = poll s
run_tick s cleanup_tick = cleanup s
run_tick s retry_tick = retry_failed_events s
run_tick s health_tick = health_check s
run_tick s dlq_tick = process_dlq s

unfoldable pub run_ticks : (s : OutboxScheduler) → List Tick → Run s (Unit {0})
run_ticks s [] w = finished tt w
run_ticks s (t ∷ ts) w = elim (run_tick s t w) [
  | finished _ w' ↦ run_ticks s ts w'
  | panicked w' ↦ panicked w'
]

Calm-run_tick :
    (s : OutboxScheduler) (t : Tick) (w : SWorld s) → w.metrics ≡ none → Calm s (run_tick s t w)
unfolding run_tick
Calm-run_tick s poll_tick w h = Calm-poll s w h
Calm-run_tick s cleanup_tick w h = Calm-cleanup s w h
Calm-run_tick s retry_tick w h = Calm-retry_failed_events s w h
Calm-run_tick s health_tick w h = Calm-health s w h
Calm-run_tick s dlq_tick w h = Calm-process_dlq s w h

not_panicked :
    (s : OutboxScheduler) {A : Type 0} (r : Ran (SWorld s) A) → Calm s r → is_panicked r ≡ false
not_panicked s (finished a w) c = refl
not_panicked s (panicked w) c = absurd c

Calm-run_ticks :
    (s : OutboxScheduler) (ts : List Tick) (w : SWorld s)
    → w.metrics ≡ none
    → Calm s (run_ticks s ts w)
unfolding run_ticks
Calm-run_ticks s [] w h = h
Calm-run_ticks s (t ∷ ts) w h =
    Calm-bind s (run_tick s t) (λ _. run_ticks s ts) w (Calm-run_tick s t w h)
      (λ _ v hv. Calm-run_ticks s ts v hv)

-- With metrics switched off, no sequence of ticks of the loops panics, whatever the repository, the
-- event publisher and the handlers answer.
pub run_ticks-is_panicked :
    (s : OutboxScheduler) (ts : List Tick) (w : SWorld s)
    → w.metrics ≡ none
    → is_panicked (run_ticks s ts w) ≡ false
run_ticks-is_panicked s ts w h = not_panicked s (run_ticks s ts w) (Calm-run_ticks s ts w h)
