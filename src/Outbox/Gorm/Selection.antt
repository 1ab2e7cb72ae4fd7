-- ===== src/Outbox/Gorm/Selection.antt =====
-- Which events the scheduler's queries return (sdk/pkg/outbox/adapters/gorm/repository.go).
use jxt_core.Base.{
  ℕ, suc, ℤ, pos, eqb_ℤ, ◌<ℤ◌, ◌≡◌, refl, ap, true, ◌⊎◌, some, List, [], ◌∷◌, ◌++◌, arith, All,
  length,
}
use mathlib.Core.Path.{subst}
use mathlib.Core.List.{Memᴰ}
use jxt_core.Outbox.Event.{pending, failed, OutboxEvent}
use jxt_core.Outbox.Repository.{Result, ok, err}
use jxt_core.Outbox.Gorm.Table.{
  OutboxEventModel, to_entity, to_entities, matches, Cond, status_is, retry_below, due_at, due,
  Query, Gorm, Laws,
}
use jxt_core.Outbox.Gorm.Store.{GormStore, for_tenant, entities}
use jxt_core.Outbox.Gorm.Finders.{find_entities, find_pending_events, find_events_for_retry}

-- The event is the entity of a row of the table that meets the conditions.
abbrev pub From : List Cond → List OutboxEventModel → OutboxEvent → Type 0
From cs table e = (m : OutboxEventModel) × Memᴰ m table × (matches cs m ≡ true) × (to_entity m ≡ e)

to_entities-From :
    (cs : List Cond) (table ms : List OutboxEventModel)
    → All (λ m. Memᴰ m table × (matches cs m ≡ true)) ms
    → All (From cs table) (to_entities ms)
unfolding to_entities
to_entities-From cs table [] h = tt
to_entities-From cs table (m ∷ ms) h = ((m, h.0.0, h.0.1, refl), to_entities-From cs table ms h.1)

length-to_entities : (ms : List OutboxEventModel) → length (to_entities ms) ≡ length ms
unfolding to_entities
length-to_entities [] = refl
length-to_entities (m ∷ ms) = ap suc (length-to_entities ms)

entities-ok :
    (r : Result (List OutboxEventModel)) (es : List OutboxEvent)
    → entities r ≡ ok es
    → (ms : List OutboxEventModel) × (r ≡ ok ms) × (to_entities ms ≡ es)
entities-ok (ok ms) es h = (ms, refl, cc)
entities-ok (err e) es h = cc

All-map :
    (P Q : OutboxEvent → Type 0) (es : List OutboxEvent)
    → ((e : OutboxEvent) → P e → Q e)
    → All P es
    → All Q es
All-map P Q [] f h = tt
All-map P Q (e ∷ es) f h = (f e h.0, All-map P Q es f h.1)

abbrev pending_query : ℤ → ℕ → List Cond
pending_query tenant now = status_is pending ∷ for_tenant tenant ++ due_at now ∷ []

pending-facts :
    (tenant : ℤ) (now : ℕ) (m : OutboxEventModel)
    → matches (pending_query tenant now) m ≡ true
    → (m.status ≡ pending)
      × ((eqb_ℤ tenant (pos 0) ≡ true) ⊎ (eqb_ℤ m.tenant_id tenant ≡ true))
      × (due m.scheduled_at now ≡ true)
unfolding matches
pending-facts tenant now m h = ground arith

retry-facts :
    (most : ℤ) (m : OutboxEventModel)
    → matches (status_is failed ∷ retry_below most ∷ []) m ≡ true
    → (m.status ≡ failed) × (m.retry_count <ℤ most)
unfolding matches
retry-facts most m h = ground arith

module _ (g : Gorm) (laws : Laws g) (clock : ℕ → ℕ) where
  pub find_entities-From :
      (q : Query) (s : GormStore g.Db) (es : List OutboxEvent)
      → (find_entities g clock q s).0 ≡ ok es
      → All (From q.wheres (g.rows s.db)) es
  unfolding find_entities
  find_entities-From q s es h =
      let (ms, answer, same) = entities-ok (g.find q s.db).0 es h in
      subst (All (From q.wheres (g.rows s.db))) same
        (to_entities-From q.wheres (g.rows s.db) ms (laws.find_selects q s.db answer).sound)

  -- Every event that FindPendingEvents returns is in the table, is pending, belongs to the tenant
  -- if one is asked for (0 asks for all), and is due at the reading of the clock.
  pub find_pending_events_sound :
      (limit tenant : ℤ) (s : GormStore g.Db) (es : List OutboxEvent)
      → (find_pending_events g clock limit tenant s).0 ≡ ok es
      → All
          (λ e.
            ((m : OutboxEventModel) × Memᴰ m (g.rows s.db) × (to_entity m ≡ e))
            × (e.status ≡ pending)
            × ((eqb_ℤ tenant (pos 0) ≡ true) ⊎ (eqb_ℤ e.tenant_id tenant ≡ true))
            × (due e.scheduled_at (clock s.clock_reads) ≡ true))
          es
  unfolding find_pending_events to_entity
  find_pending_events_sound limit tenant s es h =
      let now = clock s.clock_reads in
      All-map (From (pending_query tenant now) (g.rows s.db)) _ es
        (λ e (m, row, found, same).
          let (state, owner, time) = pending-facts tenant now m found in
          subst
            (λ x.
              ((m : OutboxEventModel) × Memᴰ m (g.rows s.db) × (to_entity m ≡ x))
              × (x.status ≡ pending)
              × ((eqb_ℤ tenant (pos 0) ≡ true) ⊎ (eqb_ℤ x.tenant_id tenant ≡ true))
              × (due x.scheduled_at now ≡ true))
            same ((m, row, refl), state, owner, time))
        (find_entities-From
          (record { wheres = pending_query tenant now; by_creation = true; limit = some limit })
          (record s { clock_reads = suc s.clock_reads }) es h)

  -- Every event that FindEventsForRetry returns is in the table, has the status failed, and has a
  -- retry count below the limit.
  pub find_events_for_retry_sound :
      (most limit : ℤ) (s : GormStore g.Db) (es : List OutboxEvent)
      → (find_events_for_retry g clock most limit s).0 ≡ ok es
      → All
          (λ e.
            ((m : OutboxEventModel) × Memᴰ m (g.rows s.db) × (to_entity m ≡ e))
            × (e.status ≡ failed)
            × (e.retry_count <ℤ most))
          es
  unfolding find_events_for_retry to_entity
  find_events_for_retry_sound most limit s es h =
      All-map (From (status_is failed ∷ retry_below most ∷ []) (g.rows s.db)) _ es
        (λ e (m, row, found, same).
          let (state, below) = retry-facts most m found in
          subst
            (λ x.
              ((m : OutboxEventModel) × Memᴰ m (g.rows s.db) × (to_entity m ≡ x))
              × (x.status ≡ failed)
              × (x.retry_count <ℤ most))
            same ((m, row, refl), state, below))
        (find_entities-From
          (record {
            wheres = status_is failed ∷ retry_below most ∷ [];
            by_creation = true;
            limit = some limit;
          })
          s es h)
