-- ===== src/Outbox/Gorm/Marking.antt =====
-- What the ACK paths write (sdk/pkg/outbox/adapters/gorm/repository.go).
use jxt_core.Base.{
  ℕ, ◌≡◌, refl, sym, ◌∙◌, ap, String, ◌&&◌, none, some, List, [], ◌∷◌, map, if◌then◌else◌, arith,
}
use jxt_core.Outbox.Event.{status_eq, pending, published, OutboxEvent}
use jxt_core.Outbox.Gorm.Table.{
  OutboxEventModel, id_in, status_is, set_status, set_published_at, set_updated_at, matches, assign,
  update_rows, Gorm, Laws, is_in,
}
use jxt_core.Outbox.Gorm.Store.{GormStore, ids_of}
use jxt_core.Outbox.Gorm.Writers.{mark_batch_as_published}

-- A pending row with one of the ids becomes published at this instant; any other row stays.
abbrev pub mark_row : ℕ → List String → OutboxEventModel → OutboxEventModel
mark_row now ids m =
    if is_in m.id ids && status_eq m.status pending
    then record m { status = published; published_at = some now; updated_at = now }
    else m

update_rows-mark_row :
    (now : ℕ) (ids : List String) (ms : List OutboxEventModel)
    → update_rows
        (id_in ids ∷ status_is pending ∷ [])
        (set_status published ∷ set_published_at now ∷ set_updated_at now ∷ [])
        ms
      ≡ map (mark_row now ids) ms
unfolding update_rows matches assign
update_rows-mark_row now ids [] = refl
update_rows-mark_row now ids (m ∷ ms) = ground (arith, update_rows-mark_row now ids ms)

mark_row-mark_row :
    (now later : ℕ) (ids : List String) (m : OutboxEventModel)
    → mark_row later ids (mark_row now ids m) ≡ mark_row now ids m
mark_row-mark_row now later ids m = ground arith

map-mark_row :
    (now later : ℕ) (ids : List String) (ms : List OutboxEventModel)
    → map (mark_row later ids) (map (mark_row now ids) ms) ≡ map (mark_row now ids) ms
map-mark_row now later ids [] = refl
map-mark_row now later ids (m ∷ ms) =
    cc (mark_row-mark_row now later ids m, map-mark_row now later ids ms)

module _ (g : Gorm) (laws : Laws g) (clock : ℕ → ℕ) where
  -- When MarkBatchAsPublished reports no error, exactly the rows with the id of one of the events
  -- and the status pending have become published, with the time of the call as their publication
  -- and update time; every other row, one with the status failed among them, is as it was.
  pub mark_batch_as_published-rows :
      (e : OutboxEvent) (es : List OutboxEvent) (s : GormStore g.Db)
      → (mark_batch_as_published g clock (e ∷ es) s).0 ≡ none
      → g.rows (mark_batch_as_published g clock (e ∷ es) s).1.db
        ≡ map (mark_row (clock s.clock_reads) (ids_of (e ∷ es))) (g.rows s.db)
  unfolding mark_batch_as_published
  mark_batch_as_published-rows e es s h =
      laws.updates_writes _ _ s.db h
      ∙ update_rows-mark_row (clock s.clock_reads) (ids_of (e ∷ es)) (g.rows s.db)

  -- A second successful MarkBatchAsPublished of the same events changes no row: the publication
  -- time of the first one stays.
  pub mark_batch_as_published_twice :
      (e : OutboxEvent) (es : List OutboxEvent) (s : GormStore g.Db)
      → (mark_batch_as_published g clock (e ∷ es) s).0 ≡ none
      → (mark_batch_as_published g clock (e ∷ es) (mark_batch_as_published g clock (e ∷ es) s).1).0
        ≡ none
      → g.rows
          (mark_batch_as_published g clock
            (e ∷ es)
            (mark_batch_as_published g clock (e ∷ es) s).1).1.db
        ≡ g.rows (mark_batch_as_published g clock (e ∷ es) s).1.db
  mark_batch_as_published_twice e es s h h' =
      let s' = (mark_batch_as_published g clock (e ∷ es) s).1 in
      let one = mark_batch_as_published-rows e es s h in
      let two = mark_batch_as_published-rows e es s' h' in
      two
      ∙ ap (map (mark_row (clock s'.clock_reads) (ids_of (e ∷ es)))) one
      ∙ map-mark_row (clock s.clock_reads) (clock s'.clock_reads) (ids_of (e ∷ es)) (g.rows s.db)
      ∙ sym one
