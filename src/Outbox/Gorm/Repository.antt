-- ===== src/Outbox/Gorm/Repository.antt =====
-- The counts of GormOutboxRepository (sdk/pkg/outbox/adapters/gorm/repository.go), and the repository as an
-- implementation of the interface.
use jxt_core.Base.{
  ℕ, ◌+◌, ℤ, pos, String, str_eq, Bool, true, Option, none, some, [], ◌∷◌, if◌then◌else◌, ◌>>=◌,
  pure, ltb,
}
use jxt_core.Outbox.Event.{EventStatus, pending, published, failed, since}
use jxt_core.Outbox.Repository.{OutboxRepository, Result, ok, err}
use jxt_core.Outbox.Gorm.Table.{OutboxEventModel, status_is, key_is, Gorm}
use jxt_core.Outbox.Gorm.Store.{GormStore, for_tenant, Action, time_now, on_db}
use jxt_core.Outbox.Gorm.Finders.{
  find_pending_events, find_events_for_retry, find_max_retry_events, find_by_idempotency_key,
  find_published_by_idempotency_keys, empty_key,
}
use jxt_core.Outbox.Gorm.Writers.{
  update, mark_as_published, mark_batch_as_published, mark_as_max_retry, increment_retry,
  delete_published_before,
}

pub record RepositoryStats : Type 0 where
  pub pending_count : ℕ
  pub published_count : ℕ
  pub failed_count : ℕ
  pub total_count : ℕ
  pub oldest_pending_age : ℤ
  pub tenant_id : ℤ

module _ (g : Gorm) (clock : ℕ → ℕ) where
  -- Count with a status; the scheduler never asks with the empty one.
  unfoldable pub count : EventStatus → ℤ → Action g (Result ℕ)
  unfolding on_db
  count status tenant_id = on_db g (g.count (status_is status ∷ for_tenant tenant_id))

  unfoldable pub exists_by_idempotency_key : String → Action g (Result Bool)
  unfolding on_db
  exists_by_idempotency_key key = if str_eq key "" then pure (err (empty_key g clock)) else do
    answer ← on_db g (g.count (key_is key ∷ []))
    elim answer [ err e ↦ pure (err e) | ok n ↦ pure (ok (ltb 0 n)) ]

  oldest_age : Result (Option OutboxEventModel) → Action g ℤ
  unfolding time_now since
  oldest_age (err _) = pure (pos 0)
  oldest_age (ok none) = pure (pos 0)
  oldest_age (ok (some m)) = do now ← time_now g clock; pure (since now m.created_at)

  -- The age of the oldest pending event is 0 where the query finds none or fails.
  unfoldable pub get_stats : ℤ → Action g (Result RepositoryStats)
  unfolding on_db oldest_age
  get_stats tenant_id = do
    answer ← on_db g (g.count_by_status (for_tenant tenant_id))
    elim answer [
      | err e ↦ pure (err e)
      | ok counts ↦ do
        oldest ← on_db g (
            g.first (record {
              wheres = status_is pending ∷ for_tenant tenant_id;
              by_creation = true;
              limit = some (pos 1);
            }))
        age ← oldest_age oldest
        pure (
            ok (record {
              pending_count = counts pending;
              published_count = counts published;
              failed_count = counts failed;
              total_count = counts pending + counts published + counts failed;
              oldest_pending_age = age;
              tenant_id = tenant_id;
            }))
    ]

  abbrev pub gorm_repository : OutboxRepository
  gorm_repository = record {
    Store = GormStore g.Db;
    find_pending_events = find_pending_events g clock;
    find_events_for_retry = find_events_for_retry g clock;
    find_max_retry_events = find_max_retry_events g clock;
    find_by_idempotency_key = find_by_idempotency_key g clock;
    find_published_by_idempotency_keys = find_published_by_idempotency_keys g clock;
    update = update g clock;
    mark_as_published = mark_as_published g clock;
    mark_batch_as_published = mark_batch_as_published g clock;
    mark_as_max_retry = mark_as_max_retry g clock;
    increment_retry = increment_retry g clock;
    delete_published_before = delete_published_before g clock;
    count = count;
  }
