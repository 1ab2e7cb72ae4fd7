-- ===== src/Outbox/Publisher/Ack.antt =====
-- The ACK listener of sdk/pkg/outbox/publisher.go: handleACKResult, and the results that the loop of
-- the listener receives, one after the other. The batcher is that of the listener's start, if any.
use jxt_core.Base.{
  concat, String, ◌≡◌, refl, false, Option, none, some, List, [], ◌∷◌, ◌++◌, if◌then◌else◌,
  add_counter, ◌>>=◌, ◌>>◌, pure, arith, sym, ◌∙◌, ap, Bool-cases, inl, inr,
}
use jxt_core.Outbox.Event.{Error, errorf, wrapf, PublishResult}
use jxt_core.Outbox.Publisher.Defs.{
  OutboxPublisher, PublisherWorld, Action, time_now, on_repo, on_metrics, handle_error, collect,
  record_published, record_failed,
}
use jxt_core.Outbox.AckBatcher.Defs.{Batcher, add}
use mathlib.Core.List.{append-nil, append_assoc}

-- fmt.Errorf("publish failed for event %s: %w", result.EventID, result.Error)
abbrev pub nack_error : PublishResult → Error
nack_error r = elim r.error [
  | some cause ↦ wrapf (concat ("publish failed for event " ∷ r.event_id ∷ ": " ∷ [])) cause
  | none ↦ errorf ("publish failed for event " ∷ r.event_id ∷ ": %!w(<nil>)" ∷ [])
]

module _ (p : OutboxPublisher) where
  -- `if p.metrics != nil { … time.Now() … }`
  unfoldable pub count_published : Action p (Unit {0})
  unfolding time_now on_metrics
  count_published w = elim w.metrics [
    | none ↦ (tt, w)
    | some _ ↦
        (do
          now ← time_now p
          on_metrics p (λ m. record m {
            published_count = add_counter m.published_count 1;
            last_publish_time = now;
          }))
          w
  ]

  -- The repository's mark of one event, where no batcher takes it.
  unfoldable pub mark_acked : String → Action p (Unit {0})
  unfolding on_repo handle_error
  mark_acked id = do
    answer ← on_repo p (p.repo.mark_as_published id)
    elim answer [
      | none ↦ pure tt
      | some e ↦
          handle_error p none
            (wrapf (concat ("failed to mark event " ∷ id ∷ " as published: " ∷ [])) e)
    ]

  abbrev pub AckWorld : Type 0
  AckWorld = PublisherWorld p × Option Batcher

  -- Either the batcher or the repository gets the id.
  unfoldable pub take_ack : String → AckWorld → AckWorld
  unfolding mark_acked add
  take_ack id (w, none) = ((mark_acked id w).1, none)
  take_ack id (w, some b) = (w, some (add id b))

  unfoldable pub handle_success : PublishResult → AckWorld → AckWorld
  unfolding take_ack count_published collect
  handle_success r a =
      let taken = take_ack r.event_id a in
      let counted = (count_published taken.0).1 in
      ((collect p (record_published r.tenant_id r.aggregate_id r.event_type) counted).1, taken.1)

  unfoldable pub handle_nack : PublishResult → AckWorld → AckWorld
  unfolding handle_error on_metrics collect
  handle_nack r (w, b) = (
    ((do
      handle_error p none (nack_error r)
      on_metrics p
          (λ m. record m { failed_count = add_counter m.failed_count 1; last_error = r.error })
      collect p (record_failed r.tenant_id r.aggregate_id r.event_type r.error))
        w).1,
    b,
  )

  -- A nil result is `none`.
  unfoldable pub handle_ack_result : Option PublishResult → AckWorld → AckWorld
  unfolding handle_success handle_nack
  handle_ack_result none a = a
  handle_ack_result (some r) a = if r.success then handle_success r a else handle_nack r a

  unfoldable pub handle_ack_results : List (Option PublishResult) → AckWorld → AckWorld
  unfolding handle_ack_result
  handle_ack_results [] a = a
  handle_ack_results (r ∷ rs) a = handle_ack_results rs (handle_ack_result r a)

-- The ids of the results that report success.
abbrev pub acked : List (Option PublishResult) → List String
acked [] = []
acked (none ∷ rs) = acked rs
acked (some r ∷ rs) = if r.success then r.event_id ∷ acked rs else acked rs

closed-add : (id : String) (b : Batcher) → b.closed ≡ false → (add id b).closed ≡ false
unfolding add
closed-add id b h = ground arith

ids-add : (id : String) (b : Batcher) → b.closed ≡ false → (add id b).ids ≡ b.ids ++ id ∷ []
unfolding add
ids-add id b h = ground arith

module _ (p : OutboxPublisher) where
  -- The repository after it has marked these ids, one call for each.
  abbrev pub mark_each : List String → p.repo.Store → p.repo.Store
  mark_each [] s = s
  mark_each (id ∷ ids) s = mark_each ids (p.repo.mark_as_published id s).1

  store-mark_acked :
      (id : String) (w : PublisherWorld p)
      → (mark_acked p id w).1.store ≡ (p.repo.mark_as_published id w.store).1
  unfolding mark_acked
  store-mark_acked id w = ground arith

  store-handle_nack : (r : PublishResult) (a : AckWorld p) → (handle_nack p r a).0.store ≡ a.0.store
  unfolding handle_nack
  store-handle_nack r (w, b) = ground arith

  store-handle_success :
      (r : PublishResult) (a : AckWorld p)
      → (handle_success p r a).0.store ≡ (take_ack p r.event_id a).0.store
  unfolding handle_success
  store-handle_success r a = ground arith

  -- Without a batcher.
  unbatched :
      (r : PublishResult) (a : AckWorld p)
      → a.1 ≡ none
      → ((handle_success p r a).1 ≡ none)
        × ((handle_success p r a).0.store ≡ (p.repo.mark_as_published r.event_id a.0.store).1)
  unfolding handle_success take_ack
  unbatched r (w, none) h = (refl, store-handle_success r (w, none) ∙ store-mark_acked r.event_id w)
  unbatched r (w, some b) h = absurd (ground arith)

  -- Without a batcher the listener makes one call of MarkAsPublished for each result that reports
  -- success, in order, and no other call of the repository, whatever these calls answer; a result that
  -- reports a failure leaves the event as it is.
  pub store-handle_ack_results :
      (rs : List (Option PublishResult)) (a : AckWorld p)
      → a.1 ≡ none
      → (handle_ack_results p rs a).0.store ≡ mark_each (acked rs) a.0.store
  unfolding handle_ack_results handle_ack_result
  store-handle_ack_results [] a h = refl
  store-handle_ack_results (none ∷ rs) a h = store-handle_ack_results rs a h
  store-handle_ack_results (some r ∷ rs) a h = elim (Bool-cases r.success) [
    | inl success ↦
        let (free, marks) = unbatched r a h in
        simp (success, handle_ack_result)
          (store-handle_ack_results rs (handle_success p r a) free
            ∙ ap (λ st. mark_each (acked rs) st) marks)
    | inr nack ↦
        simp (nack, handle_ack_result)
          (store-handle_ack_results rs (handle_nack p r a) h
            ∙ ap (λ st. mark_each (acked rs) st) (store-handle_nack r a))
  ]

  -- With an open batcher.
  batched :
      (r : PublishResult) (w : PublisherWorld p) (b : Batcher)
      → b.closed ≡ false
      → ((handle_success p r (w, some b)).1 ≡ some (add r.event_id b))
        × ((handle_success p r (w, some b)).0.store ≡ w.store)
  unfolding handle_success take_ack
  batched r w b h = (refl, store-handle_success r (w, some b))

  -- With an open batcher the listener leaves the repository alone and adds to the batcher's buffer,
  -- in order, just the ids of the results that report success.
  pub batcher-handle_ack_results :
      (rs : List (Option PublishResult)) (a : AckWorld p) (b : Batcher)
      → a.1 ≡ some b
      → b.closed ≡ false
      → ((handle_ack_results p rs a).0.store ≡ a.0.store)
        × (b' : Batcher) × ((handle_ack_results p rs a).1 ≡ some b')
        × (b'.ids ≡ b.ids ++ acked rs)
  unfolding handle_ack_results handle_ack_result
  batcher-handle_ack_results [] a b h h' = (refl, b, h, sym (append-nil b.ids))
  batcher-handle_ack_results (none ∷ rs) a b h h' = batcher-handle_ack_results rs a b h h'
  batcher-handle_ack_results (some r ∷ rs) (w, o) b h h' = elim (Bool-cases r.success) [
    | inl success ↦
        let (next, same) = batched r w b h' in
        let (kept, b', is, taken) =
          batcher-handle_ack_results rs (handle_success p r (w, some b)) (add r.event_id b) next
            (closed-add r.event_id b h') in
        let all =
          taken
          ∙ ap (λ l. l ++ acked rs) (ids-add r.event_id b h')
          ∙ append_assoc b.ids (r.event_id ∷ []) (acked rs) in
        simp (success, h, handle_ack_result) (kept ∙ same, b', is, all)
    | inr nack ↦
        let (kept, b', is, taken) = batcher-handle_ack_results rs (handle_nack p r (w, o)) b h h' in
        simp (nack, handle_ack_result) (kept ∙ store-handle_nack r (w, o), b', is, taken)
  ]
