-- ===== src/Outbox/Publisher/Partition.antt =====
-- How a batch is sorted into published and failed events (sdk/pkg/outbox/publisher.go).
use jxt_core.Base.{
  String, Bool-cases, ◌⊎◌, inl, inr, ◌≡◌, refl, true, false, Option, none, some, List, [], ◌∷◌,
  ◌++◌, map, if◌then◌else◌, arith,
}
use mathlib.Core.List.{
  append-nil, append_assoc, map-append, Perm, perm_middle, perm_append_singleton,
}
use mathlib.Core.List.Perm
use jxt_core.Outbox.Event.{Error, OutboxEvent}
use jxt_core.Outbox.Publisher.Defs.{OutboxPublisher, PublisherWorld, check_schedule}
use jxt_core.Outbox.Publisher.Batch.{
  Sorted, add_published, add_failed, batch_step, batch_publish_from, publish_single_event, sort_out,
  send, concurrent_from, publish_all, batch_publish_concurrent, batch_publish_to_event_bus,
}

abbrev pub id_of : OutboxEvent → String
id_of e = e.id

abbrev pub sorted_ids : Sorted → List String
sorted_ids s = map id_of s.published ++ map id_of s.failed

-- An event with this id was added to one of the two lists.
abbrev Added : String → Sorted → Sorted → Type 0
Added x s t =
    ((map id_of t.published ≡ map id_of s.published ++ x ∷ [])
      × (map id_of t.failed ≡ map id_of s.failed))
    ⊎ ((map id_of t.published ≡ map id_of s.published)
        × (map id_of t.failed ≡ map id_of s.failed ++ x ∷ []))

Added-add_failed :
    (e : OutboxEvent) (x : String) (s : Sorted) → e.id ≡ x → Added x s (add_failed e s)
unfolding add_failed
Added-add_failed e x s h = inr (refl, rw map-append (rw h))

Added-add_published :
    (e : OutboxEvent) (x : String) (s : Sorted) → e.id ≡ x → Added x s (add_published e s)
unfolding add_published
Added-add_published e x s h = inl (rw map-append (rw h), refl)

Perm-Added : (x : String) (s t : Sorted) → Added x s t → Perm (sorted_ids t) (x ∷ sorted_ids s)
Perm-Added x s t (inl (p, f)) =
    rw (p, f, append_assoc) (perm_middle (map id_of s.published) (map id_of s.failed))
Perm-Added x s t (inr (p, f)) =
    rw (p, f, ← append_assoc)
      (perm_append_singleton x (map id_of s.published ++ map id_of s.failed))

module _ (p : OutboxPublisher) where
  Added-sort_out :
      (r : OutboxEvent × Option Error) (x : String) (s : Sorted)
      → r.0.id ≡ x
      → Added x s (sort_out p r s)
  unfolding sort_out
  Added-sort_out (e, none) x s h = Added-add_published e x s h
  Added-sort_out (e, some _) x s h = Added-add_failed e x s h

  id-send : (e : OutboxEvent) (w : PublisherWorld p) → (send p e w).0.0.id ≡ e.id
  unfolding send
  id-send e w = ground arith

  id-publish_single_event :
      (e : OutboxEvent) (w : PublisherWorld p) → (publish_single_event p e w).0.0.id ≡ e.id
  unfolding publish_single_event
  id-publish_single_event e w = ground arith

  Added-batch_step :
      (s : Sorted) (e : OutboxEvent) (w : PublisherWorld p) → Added e.id s (batch_step p s e w).0
  Added-batch_step s e w = elim (Bool-cases (check_schedule p e w).0) [
    | inl due ↦
        unfold batch_step in
        rw due (Added-sort_out (send p e (check_schedule p e w).1).0 e.id s (id-send e _))
    | inr late ↦ unfold batch_step in rw late (Added-add_failed e e.id s refl)
  ]

  perm-batch_publish_from :
      (s : Sorted) (es : List OutboxEvent) (w : PublisherWorld p)
      → Perm (sorted_ids (batch_publish_from p s es w).0) (map id_of es ++ sorted_ids s)
  unfolding batch_publish_from
  perm-batch_publish_from s [] w = Perm.refl _
  perm-batch_publish_from s (e ∷ es) w =
      let step = batch_step p s e w in
      Perm.trans (perm-batch_publish_from step.0 es step.1) (
        Perm.trans
          (Perm.append_left (map id_of es) (Perm-Added e.id s step.0 (Added-batch_step s e w)))
          (perm_middle (map id_of es) (sorted_ids s)))

  perm-concurrent_from :
      (s : Sorted) (es : List OutboxEvent) (w : PublisherWorld p)
      → Perm (sorted_ids (concurrent_from p s es w).0) (map id_of es ++ sorted_ids s)
  unfolding concurrent_from
  perm-concurrent_from s [] w = Perm.refl _
  perm-concurrent_from s (e ∷ es) w =
      let step = publish_single_event p e w in
      let t = sort_out p step.0 s in
      let added = Added-sort_out step.0 e.id s (id-publish_single_event e w) in
      Perm.trans (perm-concurrent_from t es step.1) (
        Perm.trans (Perm.append_left (map id_of es) (Perm-Added e.id s t added))
          (perm_middle (map id_of es) (sorted_ids s)))

  -- Sequential or concurrent, in whatever order the goroutines finish, a batch loses no event and
  -- doubles none: the published and the failed events together are the events of the batch.
  pub perm-publish_all :
      (es : List OutboxEvent) (w : PublisherWorld p)
      → Perm (p.finishing_order es) es
      → Perm (sorted_ids (publish_all p es w).0) (map id_of es)
  unfolding publish_all
  perm-publish_all es w order =
      elim p.config.concurrent_publish
        as (λ b.
          Perm
            (sorted_ids
              ((if b then batch_publish_concurrent p es else batch_publish_to_event_bus p es) w).0)
            (map id_of es)) [
              | true ↦
                  Perm.trans
                    (rw append-nil at (
                      perm-concurrent_from (record { published = []; failed = [] })
                        (p.finishing_order es) w))
                    (Perm.map id_of order)
              | false ↦
                  rw append-nil at
                    (perm-batch_publish_from (record { published = []; failed = [] }) es w)
            ]
