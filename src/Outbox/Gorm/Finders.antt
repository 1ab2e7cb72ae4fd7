-- ===== src/Outbox/Gorm/Finders.antt =====
-- The queries of GormOutboxRepository (sdk/pkg/outbox/adapters/gorm/repository.go).
use jxt_core.Base.{
  ℕ, ℤ, String, str_eq, true, false, Option, none, some, List, [], ◌∷◌, ◌++◌, if◌then◌else◌, ◌>>=◌,
  pure, is_empty,
}
use jxt_core.Outbox.Event.{Error, pending, published, failed, max_retry, OutboxEvent, errorf}
use jxt_core.Outbox.Repository.{Result, ok, err}
use jxt_core.Outbox.Gorm.Table.{
  to_entity, to_entities, status_is, due_at, created_before, retry_below, aggregate_is, type_is,
  key_is, key_in, Query, Gorm,
}
use jxt_core.Outbox.Gorm.Store.{
  for_tenant, entities, entity, keys_of, seconds_ago, Action, time_now, on_db,
}

module _ (g : Gorm) (clock : ℕ → ℕ) where
  unfoldable pub find_entities : Query → Action g (Result (List OutboxEvent))
  unfolding on_db to_entities
  find_entities q = do answer ← on_db g (g.find q); pure (entities answer)

  unfoldable pub find_pending_events : ℤ → ℤ → Action g (Result (List OutboxEvent))
  unfolding time_now find_entities
  find_pending_events limit tenant_id = do
    now ← time_now g clock
    find_entities (record {
      wheres = status_is pending ∷ for_tenant tenant_id ++ due_at now ∷ [];
      by_creation = true;
      limit = some limit;
    })

  unfoldable pub find_pending_events_with_delay : ℤ → ℤ → ℤ → Action g (Result (List OutboxEvent))
  unfolding time_now find_entities
  find_pending_events_with_delay tenant_id delay_seconds limit = do
    start ← time_now g clock
    now ← time_now g clock
    find_entities (record {
      wheres =
          status_is pending
            ∷ created_before (seconds_ago start delay_seconds)
            ∷ for_tenant tenant_id
          ++ due_at now ∷ [];
      by_creation = true;
      limit = some limit;
    })

  unfoldable pub find_events_for_retry : ℤ → ℤ → Action g (Result (List OutboxEvent))
  unfolding find_entities
  find_events_for_retry max_retries limit = find_entities (record {
    wheres = status_is failed ∷ retry_below max_retries ∷ [];
    by_creation = true;
    limit = some limit;
  })

  unfoldable pub find_by_aggregate_id : String → ℤ → Action g (Result (List OutboxEvent))
  unfolding find_entities
  find_by_aggregate_id aggregate_id tenant_id = find_entities (record {
    wheres = aggregate_is aggregate_id ∷ for_tenant tenant_id;
    by_creation = true;
    limit = none;
  })

  unfoldable pub find_by_aggregate_type : String → ℤ → Action g (Result (List OutboxEvent))
  unfolding find_entities
  find_by_aggregate_type aggregate_type limit = find_entities (record {
    wheres = type_is aggregate_type ∷ status_is pending ∷ [];
    by_creation = true;
    limit = some limit;
  })

  unfoldable pub find_max_retry_events : ℤ → ℤ → Action g (Result (List OutboxEvent))
  unfolding find_entities
  find_max_retry_events limit tenant_id = find_entities (record {
    wheres = status_is max_retry ∷ for_tenant tenant_id;
    by_creation = true;
    limit = some limit;
  })

  abbrev pub empty_key : Error
  empty_key = errorf ("idempotency key cannot be empty" ∷ [])

  unfoldable pub find_by_idempotency_key : String → Action g (Result (Option OutboxEvent))
  unfolding on_db to_entity
  find_by_idempotency_key key = if str_eq key "" then pure (err empty_key) else do
    answer ←
        on_db g (g.first (record { wheres = key_is key ∷ []; by_creation = false; limit = none }))
    pure (entity answer)

  unfoldable pub find_published_by_idempotency_keys : List String → Action g (Result (List String))
  unfolding on_db
  find_published_by_idempotency_keys keys = if is_empty keys then pure (ok []) else do
    answer ← on_db g (
        g.find (record {
          wheres = key_in keys ∷ status_is published ∷ [];
          by_creation = false;
          limit = none;
        }))
    elim answer [ err e ↦ pure (err e) | ok ms ↦ pure (ok (keys_of ms)) ]
