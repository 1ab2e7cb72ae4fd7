-- ===== src/Outbox/Examples/Publishing.antt =====
-- The theorems on the publisher at concrete inputs.
use jxt_core.Base.{ℕ, ◌≡◌, refl, ◌≢◌, ◌↔◌, ◌⊎◌, inr, none, List, [], ◌∷◌}
use mathlib.Core.List.{Perm}
use mathlib.Core.List.Perm
use jxt_core.Outbox.Event.{OutboxEvent}
use jxt_core.Outbox.Repository.{ok}
use jxt_core.Outbox.Publisher.{publish_event, filter_published_events, publish_all, key_set}
use jxt_core.Outbox.Publisher.Lookup.{Sends, Stands}
use jxt_core.Outbox.Publisher.Outcome.{
  submitted-publish_event, publish_event-nil, publish_event-refused, refused_at, goes_out, Accepted,
}
use jxt_core.Outbox.Publisher.Partition.{sorted_ids, perm-publish_all}
use jxt_core.Outbox.Publisher.Filter.{Without, HasKeyIn, filter_published_events-Without}
use jxt_core.Outbox.Publisher.Delivery.{Delivered, Delivered-publish_all}
use jxt_core.Outbox.Gorm.Table.{to_entity, from_entity, matches}
use jxt_core.Outbox.Gorm.Finders.{find_by_idempotency_key, find_published_by_idempotency_keys}
use jxt_core.Outbox.Examples.Memory.{select, select_first}
use jxt_core.Outbox.Examples.Data.{
  failed_event, pending_event, refusing, accepting, refusal, publisher, world,
}

failed_Sends : Sends (publisher refusing) failed_event (world {Bus = ℕ} 0).store failed_event
unfolding find_by_idempotency_key select_first matches from_entity to_entity
failed_Sends = inr (inr (λ e. cc, refl, λ h. cc))

submitted-publish_event_example :
    ((x : OutboxEvent) × Sends (publisher accepting) pending_event (world {Bus = ℕ} 0).store x
      × ((publish_event (publisher accepting) pending_event (world 0)).1.submitted
          ≡ goes_out (publisher accepting) 1 x))
    ⊎ (((x : OutboxEvent) → ¬ Sends (publisher accepting) pending_event (world {Bus = ℕ} 0).store x)
        × ((publish_event (publisher accepting) pending_event (world 0)).1.submitted ≡ []))
submitted-publish_event_example =
    submitted-publish_event (publisher accepting) pending_event (world 0)

publish_event-nil_example :
    ((publish_event (publisher refusing) pending_event (world 0)).0 ≡ none) ↔ (
      Stands (publisher refusing) pending_event (world {Bus = ℕ} 0).store
      ⊎ ((x : OutboxEvent) × Sends (publisher refusing) pending_event (world {Bus = ℕ} 0).store x
          × Accepted (publisher refusing) 1 0 x))
publish_event-nil_example = publish_event-nil (publisher refusing) pending_event (world 0)

publish_event-refused_example :
    ((publish_event (publisher refusing) failed_event (world 0)).1.store
      ≡ ((publisher refusing).repo.update
          (refused_at 100 refusal failed_event)
          (world {Bus = ℕ} 0).store).1)
    × ((publish_event (publisher refusing) failed_event (world 0)).0 ≢ none)
unfolding find_by_idempotency_key select_first matches from_entity to_entity
publish_event-refused_example =
    publish_event-refused (publisher refusing) failed_event (world 0) failed_event refusal
      failed_Sends refl refl refl

perm-publish_all_example :
    Perm
      (sorted_ids
        (publish_all (publisher accepting) (failed_event ∷ pending_event ∷ []) (world 0)).0)
      ("e1" ∷ "e2" ∷ [])
perm-publish_all_example =
    perm-publish_all (publisher accepting) (failed_event ∷ pending_event ∷ []) (world 0)
      (Perm.refl _)

Delivered-publish_all_example :
    Delivered
      (publisher accepting)
      (publish_all (publisher accepting) (failed_event ∷ pending_event ∷ []) (world 0)).1.submitted
      (publish_all (publisher accepting) (failed_event ∷ pending_event ∷ []) (world 0)).0.published
Delivered-publish_all_example =
    Delivered-publish_all (publisher accepting) (failed_event ∷ pending_event ∷ []) (world 0)

filter_published_events-Without_example :
    (rs : List OutboxEvent) × ((filter_published_events
        (publisher accepting)
        (failed_event ∷ pending_event ∷ [])
        (world 0)).0
      ≡ ok rs)
    × Without (HasKeyIn []) (failed_event ∷ pending_event ∷ []) rs
unfolding find_published_by_idempotency_keys select matches from_entity key_set
filter_published_events-Without_example =
    filter_published_events-Without (publisher accepting) (failed_event ∷ pending_event ∷ [])
      (world 0) [] refl
