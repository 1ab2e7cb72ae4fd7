-- ===== src/Outbox/Retry.antt =====
-- The scheduler's retry of a failed event, down to the row of the table: retryFailedEvents of
-- sdk/pkg/outbox/scheduler.go, PublishEvent of publisher.go, and the writes of
-- adapters/gorm/repository.go.
use jxt_core.Base.{
  ℕ, suc, ◌≡◌, refl, int_incr, String, str_eq, eq_iff, true, false, Option, none, some, List, [],
  ◌∷◌, if◌then◌else◌, arith, Option-cases, inl, inr,
}
use jxt_core.Outbox.Event.{Error, OutboxEvent, is_after, can_retry, failed}
use jxt_core.Outbox.Publisher.{publish_event}
use jxt_core.Outbox.Publisher.Lookup.{Sends}
use jxt_core.Outbox.Publisher.Outcome.{
  refused_at, bus_answer, next_reading, store_after_lookup, publish_event-refused,
}
use jxt_core.Outbox.Gorm.Table.{
  OutboxEventModel, from_entity, id_is, Assign, set_status, set_updated_at, set_last_retry_at,
  set_last_error, incr_retry_count, matches, assign, update_rows, upsert, Gorm, Laws,
}
use jxt_core.Outbox.Gorm.Store.{GormStore}
use jxt_core.Outbox.Gorm.Writers.{update, increment_retry}
use jxt_core.Outbox.Gorm.Repository.{gorm_repository}
use jxt_core.Outbox.Scheduler.{OutboxScheduler, SWorld, Ran, finished, panicked, retry_event}

-- The row of an id.
pub row_of : String → List OutboxEventModel → Option OutboxEventModel
row_of x [] = none
row_of x (m ∷ ms) = if str_eq m.id x then some m else row_of x ms

abbrev incremented : String → ℕ → List Assign
incremented message now =
    incr_retry_count
    ∷ set_last_error message
    ∷ set_last_retry_at now
    ∷ set_status failed
    ∷ set_updated_at now
    ∷ []

row_of-upsert :
    (x : OutboxEventModel) (ms : List OutboxEventModel) → row_of x.id (upsert x ms) ≡ some x
unfolding row_of upsert
row_of-upsert x [] = ground (arith, eq_iff x.id x.id)
row_of-upsert x (m ∷ ms) = ground (arith, eq_iff x.id x.id, eq_iff m.id x.id, row_of-upsert x ms)

row_of-increment :
    (x message : String) (now : ℕ) (ms : List OutboxEventModel) (m : OutboxEventModel)
    → row_of x ms ≡ some m
    → row_of x (update_rows (id_is x ∷ []) (incremented message now) ms)
      ≡ some (assign (incremented message now) m)
unfolding row_of update_rows matches assign
row_of-increment x message now [] m h = cc
row_of-increment x message now (y ∷ ys) m h = ground (arith, row_of-increment x message now ys m)

-- The tick or the step has ended without a panic, in a state with the property.
abbrev pub Ends : {W A : Type 0} → (W → Type 0) → Ran W A → Type 0
Ends P (finished _ w) = P w
Ends P (panicked _) = ⊥

module _ (g : Gorm) (laws : Laws g) (clock : ℕ → ℕ) where
  -- A scheduler whose publisher writes to the table.
  abbrev pub over_table : OutboxScheduler → OutboxScheduler
  over_table s = record s { publisher = record s.publisher { repo = gorm_repository g clock } }

  retry_event-failed :
      (s : OutboxScheduler) (e : OutboxEvent) (w : SWorld (over_table s)) (error : Error)
      → can_retry e ≡ true
      → (publish_event (over_table s).publisher e w.inner).0 ≡ some error
      → (increment_retry g clock e.id error.text
          (publish_event (over_table s).publisher e w.inner).1.store).0
        ≡ none
      → let v = (publish_event (over_table s).publisher e w.inner).1 in
        retry_event (over_table s) e w
        ≡ finished tt (record w {
          inner = record v { store = (increment_retry g clock e.id error.text v.store).1 };
        })
  unfolding retry_event
  retry_event-failed s e w error can error_is written = ground (arith, written)

  row_of-update :
      (x : OutboxEvent) (st : GormStore g.Db)
      → (update g clock x st).0 ≡ none
      → row_of x.id (g.rows (update g clock x st).1.db) ≡ some (from_entity x)
  unfolding update
  row_of-update x st saved =
      rw (laws.save_writes (from_entity x) st.db saved)
        (row_of-upsert (from_entity x) (g.rows st.db))

  row_of-increment_retry :
      (x message : String) (st : GormStore g.Db) (m : OutboxEventModel)
      → row_of x (g.rows st.db) ≡ some m
      → (increment_retry g clock x message st).0 ≡ none
      → (now : ℕ) × (row_of x (g.rows (increment_retry g clock x message st).1.db)
          ≡ some (assign (incremented message now) m))
  unfolding increment_retry
  row_of-increment_retry x message st m h counted = (
    clock st.clock_reads,
    rw (laws.updates_writes _ _ st.db counted)
        (row_of-increment x message (clock st.clock_reads) (g.rows st.db) m h),
  )

  -- A failed retry counts twice. When the scheduler retries an event that may be retried, the key
  -- leads to the event itself (as it is stored, not published, or as it was fetched), the event is due
  -- and has a topic, the event publisher refuses it, and the database carries out the two writes that
  -- follow (the Update of PublishEvent and IncrementRetry), then the row of the event ends with its
  -- retry count increased twice, once by each, and with the status failed.
  pub retry_counts_twice :
      (s : OutboxScheduler) (e e' : OutboxEvent) (cause : Error) (w : SWorld (over_table s))
      → can_retry e ≡ true
      → Sends (over_table s).publisher e w.inner.store e'
      → e'.id ≡ e.id
      → is_after (s.publisher.clock (suc w.inner.clock_reads)) e'.scheduled_at ≡ true
      → str_eq (s.publisher.topic_mapper e'.aggregate_type) "" ≡ false
      → bus_answer (over_table s).publisher e' w.inner.bus ≡ some cause
      → (update g clock
          (refused_at
            (s.publisher.clock (next_reading (over_table s).publisher (suc w.inner.clock_reads) e'))
            cause
            e')
          (store_after_lookup (over_table s).publisher e w.inner.store)).0
        ≡ none
      → ((message : String)
          → (increment_retry g clock e.id message
              (publish_event (over_table s).publisher e w.inner).1.store).0
            ≡ none)
      → Ends
          (λ w'.
            (m : OutboxEventModel) × (row_of e.id (g.rows w'.inner.store.db) ≡ some m)
            × (m.retry_count ≡ int_incr (int_incr e'.retry_count))
            × (m.status ≡ failed))
          (retry_event (over_table s) e w)
  unfolding assign from_entity
  retry_counts_twice s e e' cause w can found same due topic refused saved counted =
      let p = (over_table s).publisher in
      let (stored, fails) = publish_event-refused p e w.inner e' cause found due topic refused in
      let x = refused_at (p.clock (next_reading p (suc w.inner.clock_reads) e')) cause e' in
      let row : row_of e.id (g.rows (publish_event p e w.inner).1.store.db) ≡ some (from_entity x) =
        rw (stored, ← same) (row_of-update x (store_after_lookup p e w.inner.store) saved) in
      elim (Option-cases (publish_event p e w.inner).0) [
        | inl none_is ↦ absurd (fails none_is)
        | inr (error, error_is) ↦
            let (now, final) =
              row_of-increment_retry e.id error.text (publish_event p e w.inner).1.store
                (from_entity x) row (counted error.text) in
            rw (retry_event-failed s e w error can error_is (counted error.text))
              (assign (incremented error.text now) (from_entity x), final, refl, refl)
      ]
