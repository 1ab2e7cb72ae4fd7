-- ===== src/Outbox/Examples/Tables.antt =====
-- The theorems on the table of events at concrete inputs.
use jxt_core.Base.{
  inr, eqb_ℤ, ◌⊎◌, true, pos, ◌<ℤ◌, ◌≡◌, refl, int_incr, none, some, List, [], ◌∷◌, map, All,
}
use mathlib.Core.List.{Memᴰ}
use jxt_core.Outbox.Event.{failed, pending, can_retry}
use jxt_core.Outbox.Gorm.Table.{OutboxEventModel, from_entity, to_entity, matches, due}
use jxt_core.Outbox.Gorm.Store.{GormStore}
use jxt_core.Outbox.Gorm.Writers.{mark_batch_as_published, update, increment_retry}
use jxt_core.Outbox.Gorm.Finders.{
  find_pending_events, find_events_for_retry, find_by_idempotency_key,
}
use jxt_core.Outbox.Gorm.Marking.{mark_row, mark_batch_as_published-rows}
use jxt_core.Outbox.Gorm.Selection.{find_pending_events_sound, find_events_for_retry_sound}
use jxt_core.Outbox.Retry.{row_of, retry_counts_twice, Ends}
use jxt_core.Outbox.Scheduler.{SWorld, retry_event}
use jxt_core.Outbox.Examples.Memory.{memory, memory-Laws, select, select_first}
use jxt_core.Outbox.Examples.Data.{
  failed_event, pending_event, table, clock, refusing, refusal, world, scheduler,
}

abbrev retrying : SWorld (scheduler refusing)
retrying = record { inner = world 0; metrics = none; handled = []; alerted = [] }

abbrev store : GormStore (List OutboxEventModel)
store = record { db = table; clock_reads = 0 }

mark_batch_as_published-rows_example :
    (mark_batch_as_published memory clock (pending_event ∷ failed_event ∷ []) store).1.db
    ≡ map (mark_row 100 ("e2" ∷ "e1" ∷ [])) table
unfolding mark_batch_as_published
mark_batch_as_published-rows_example =
    mark_batch_as_published-rows memory memory-Laws clock pending_event (failed_event ∷ []) store
      refl

find_pending_events_sound_example :
    All
      (λ e.
        ((m : OutboxEventModel) × Memᴰ m table × (to_entity m ≡ e))
        × (e.status ≡ pending)
        × ((eqb_ℤ (pos 0) (pos 0) ≡ true) ⊎ (eqb_ℤ e.tenant_id (pos 0) ≡ true))
        × (due e.scheduled_at 100 ≡ true))
      (pending_event ∷ [])
unfolding find_pending_events to_entity select matches from_entity
find_pending_events_sound_example =
    find_pending_events_sound memory memory-Laws clock (pos 10) (pos 0) store (pending_event ∷ [])
      refl

find_events_for_retry_sound_example :
    All
      (λ e.
        ((m : OutboxEventModel) × Memᴰ m table × (to_entity m ≡ e))
        × (e.status ≡ failed)
        × (e.retry_count <ℤ pos 3))
      (failed_event ∷ [])
unfolding find_events_for_retry to_entity select matches from_entity
find_events_for_retry_sound_example =
    find_events_for_retry_sound memory memory-Laws clock (pos 3) (pos 10) store (failed_event ∷ [])
      refl

retry_counts_twice_example :
    Ends
      (λ w'.
        (m : OutboxEventModel) × (row_of "e1" w'.inner.store.db ≡ some m)
        × (m.retry_count ≡ int_incr (int_incr (pos 1)))
        × (m.status ≡ failed))
      (retry_event (scheduler refusing) failed_event retrying)
unfolding to_entity can_retry find_by_idempotency_key select_first matches from_entity update
    increment_retry
retry_counts_twice_example =
    retry_counts_twice memory memory-Laws clock (scheduler refusing) failed_event failed_event
      refusal retrying refl (inr (inr (λ e. cc, refl, λ h. cc))) refl refl refl refl refl
      (λ message. refl)
