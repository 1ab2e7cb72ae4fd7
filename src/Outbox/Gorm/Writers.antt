-- ===== src/Outbox/Gorm/Writers.antt =====
-- The writes of GormOutboxRepository (sdk/pkg/outbox/adapters/gorm/repository.go).
use jxt_core.Base.{
  ℕ, ℤ, String, Option, none, some, List, [], ◌∷◌, if◌then◌else◌, ◌>>=◌, pure, is_empty,
}
use jxt_core.Outbox.Event.{Error, pending, published, failed, max_retry, OutboxEvent}
use jxt_core.Outbox.Repository.{Result, ok}
use jxt_core.Outbox.Gorm.Table.{
  from_entity, status_is, id_is, id_in, published_before, updated_before, set_status,
  set_published_at, set_updated_at, set_last_retry_at, set_last_error, incr_retry_count, Gorm,
}
use jxt_core.Outbox.Gorm.Store.{for_tenant, ids_of, Action, time_now, on_db}

module _ (g : Gorm) (clock : ℕ → ℕ) where
  -- Save inserts the row.
  unfoldable pub save : OutboxEvent → Action g (Option Error)
  unfolding on_db from_entity
  save e = on_db g (g.create (from_entity e))

  -- Update is Save of the whole row.
  unfoldable pub update : OutboxEvent → Action g (Option Error)
  unfolding on_db from_entity
  update e = on_db g (g.save (from_entity e))

  unfoldable pub mark_as_published : String → Action g (Option Error)
  unfolding time_now on_db
  mark_as_published x = do
    now ← time_now g clock
    on_db g (
        g.updates (id_is x ∷ [])
          (set_status published ∷ set_published_at now ∷ set_updated_at now ∷ []))

  unfoldable pub mark_as_failed : String → Option Error → Action g (Option Error)
  unfolding time_now on_db
  mark_as_failed x none = do
    now ← time_now g clock
    on_db g (g.updates (id_is x ∷ []) (set_status failed ∷ set_updated_at now ∷ []))
  mark_as_failed x (some e) = do
    now ← time_now g clock
    on_db g (
        g.updates (id_is x ∷ [])
          (set_status failed ∷ set_updated_at now ∷ set_last_error e.text ∷ []))

  unfoldable pub increment_retry : String → String → Action g (Option Error)
  unfolding time_now on_db
  increment_retry x error_msg = do
    now ← time_now g clock
    on_db g (
        g.updates (id_is x ∷ []) (
          incr_retry_count
          ∷ set_last_error error_msg
          ∷ set_last_retry_at now
          ∷ set_status failed
          ∷ set_updated_at now
          ∷ []))

  unfoldable pub mark_as_max_retry : String → String → Action g (Option Error)
  unfolding time_now on_db
  mark_as_max_retry x error_msg = do
    now ← time_now g clock
    on_db g (
        g.updates (id_is x ∷ [])
          (set_status max_retry ∷ set_last_error error_msg ∷ set_updated_at now ∷ []))

  unfoldable pub increment_retry_count : String → Action g (Option Error)
  unfolding time_now on_db
  increment_retry_count x = do
    now ← time_now g clock
    on_db g (g.updates (id_is x ∷ []) (incr_retry_count ∷ set_updated_at now ∷ []))

  unfoldable pub delete : String → Action g (Result ℕ)
  unfolding on_db
  delete x = on_db g (g.delete (id_is x ∷ []))

  unfoldable pub delete_batch : List String → Action g (Result ℕ)
  unfolding on_db
  delete_batch xs = if is_empty xs then pure (ok 0) else on_db g (g.delete (id_in xs ∷ []))

  unfoldable pub delete_published_before : ℕ → ℤ → Action g (Result ℕ)
  unfolding on_db
  delete_published_before t tenant_id =
      on_db g (g.delete (status_is published ∷ published_before t ∷ for_tenant tenant_id))

  unfoldable pub delete_failed_before : ℕ → ℤ → Action g (Result ℕ)
  unfolding on_db
  delete_failed_before t tenant_id =
      on_db g (g.delete (status_is failed ∷ updated_before t ∷ for_tenant tenant_id))

  -- Only rows that are still pending are marked.
  unfoldable pub mark_batch_as_published : List OutboxEvent → Action g (Option Error)
  unfolding time_now on_db
  mark_batch_as_published events = if is_empty events then pure none else do
    now ← time_now g clock
    on_db g (
        g.updates (id_in (ids_of events) ∷ status_is pending ∷ [])
          (set_status published ∷ set_published_at now ∷ set_updated_at now ∷ []))
