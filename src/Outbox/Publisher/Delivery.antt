-- ===== src/Outbox/Publisher/Delivery.antt =====
-- What a batch hands to the event publisher (sdk/pkg/outbox/publisher.go).
use jxt_core.Base.{
  String, ◌⊎◌, inl, inr, ◌≡◌, refl, true, false, Option, none, some, List, [], ◌∷◌, ◌++◌,
  if◌then◌else◌, arith, All, All-append, Bool-cases,
}
use mathlib.Core.List.{Memᴰ}
use mathlib.Core.List.Memᴰ
use jxt_core.Outbox.Event.{Error, OutboxEvent, Envelope}
use jxt_core.Outbox.Publisher.Defs.{OutboxPublisher, PublisherWorld, check_schedule, to_envelope}
use jxt_core.Outbox.Publisher.Batch.{
  Sorted, add_published, add_failed, batch_step, batch_publish_from, publish_single_event, sort_out,
  concurrent_from, publish_all, batch_publish_concurrent, batch_publish_to_event_bus, send,
}

module _ (p : OutboxPublisher) where
  abbrev pub submission : OutboxEvent → String × Envelope
  submission e = (p.topic_mapper e.aggregate_type, to_envelope e)

  -- The submissions made by a batch include the envelope of each event, for its topic.
  abbrev pub Delivered : List (String × Envelope) → List OutboxEvent → Type 0
  Delivered made = All (λ e. Memᴰ (submission e) made)

  -- What one round leaves: no published event is new unless its envelope is.
  abbrev Grown : OutboxEvent → PublisherWorld p → PublisherWorld p → Type 0
  Grown e w w' = (w'.submitted ≡ w.submitted) ⊎ (w'.submitted ≡ w.submitted ++ submission e ∷ [])

  send-Grown : (e : OutboxEvent) (w : PublisherWorld p) → Grown e w (send p e w).1
  unfolding send
  send-Grown e w = ground arith

  send_accepted :
      (e : OutboxEvent) (w : PublisherWorld p)
      → (send p e w).0.1 ≡ none
      → ((send p e w).0.0 ≡ e) × ((send p e w).1.submitted ≡ w.submitted ++ submission e ∷ [])
  unfolding send
  send_accepted e w h = ground arith

  submitted-check_schedule :
      (e : OutboxEvent) (w : PublisherWorld p) → (check_schedule p e w).1.submitted ≡ w.submitted
  unfolding check_schedule
  submitted-check_schedule e w = ground arith

  single-Grown : (e : OutboxEvent) (w : PublisherWorld p) → Grown e w (publish_single_event p e w).1
  unfolding publish_single_event
  single-Grown e w = ground arith

  single_accepted :
      (e : OutboxEvent) (w : PublisherWorld p)
      → (publish_single_event p e w).0.1 ≡ none
      → ((publish_single_event p e w).0.0 ≡ e)
        × ((publish_single_event p e w).1.submitted ≡ w.submitted ++ submission e ∷ [])
  unfolding publish_single_event
  single_accepted e w h = ground arith

  Delivered-append :
      (made more : List (String × Envelope)) (es : List OutboxEvent)
      → Delivered made es
      → Delivered (made ++ more) es
  Delivered-append made more [] d = tt
  Delivered-append made more (e ∷ es) d =
      (Memᴰ.append_left more d.0, Delivered-append made more es d.1)

  Delivered-Grown :
      (e : OutboxEvent) (w w' : PublisherWorld p) (es : List OutboxEvent)
      → Grown e w w'
      → Delivered w.submitted es
      → Delivered w'.submitted es
  Delivered-Grown e w w' es (inl same) d = rw same d
  Delivered-Grown e w w' es (inr more) d =
      rw more (Delivered-append w.submitted (submission e ∷ []) es d)

  Delivered-sort_out :
      (e : OutboxEvent) (r : OutboxEvent × Option Error) (w w' : PublisherWorld p) (s : Sorted)
      → Grown e w w'
      → (r.1 ≡ none → (r.0 ≡ e) × (w'.submitted ≡ w.submitted ++ submission e ∷ []))
      → Delivered w.submitted s.published
      → Delivered w'.submitted (sort_out p r s).published
  unfolding sort_out add_published add_failed
  Delivered-sort_out e (x, some error) w w' s g a d = Delivered-Grown e w w' s.published g d
  Delivered-sort_out e (x, none) w w' s g a d =
      let (same, more) = a refl in
      rw same (
        All-append (λ x. Memᴰ (submission x) w'.submitted) s.published (e ∷ [])
          (Delivered-Grown e w w' s.published g d)
          (rw more (Memᴰ.append_right w.submitted (Memᴰ.head refl)), tt))

  Delivered-batch_step :
      (s : Sorted) (e : OutboxEvent) (w : PublisherWorld p)
      → Delivered w.submitted s.published
      → Delivered (batch_step p s e w).1.submitted (batch_step p s e w).0.published
  Delivered-batch_step s e w d =
      let v = (check_schedule p e w).1 in
      let checked : Delivered v.submitted s.published = rw (submitted-check_schedule e w) d in
      elim (Bool-cases (check_schedule p e w).0) [
        | inl due ↦
            unfold batch_step in
            rw due (
              Delivered-sort_out e (send p e v).0 v (send p e v).1 s (send-Grown e v)
                (send_accepted e v) checked)
        | inr late ↦ unfold batch_step add_failed in rw late checked
      ]

  Delivered-batch_publish_from :
      (s : Sorted) (es : List OutboxEvent) (w : PublisherWorld p)
      → Delivered w.submitted s.published
      → Delivered
          (batch_publish_from p s es w).1.submitted
          (batch_publish_from p s es w).0.published
  unfolding batch_publish_from
  Delivered-batch_publish_from s [] w d = d
  Delivered-batch_publish_from s (e ∷ es) w d =
      let step = batch_step p s e w in
      Delivered-batch_publish_from step.0 es step.1 (Delivered-batch_step s e w d)

  Delivered-concurrent_from :
      (s : Sorted) (es : List OutboxEvent) (w : PublisherWorld p)
      → Delivered w.submitted s.published
      → Delivered (concurrent_from p s es w).1.submitted (concurrent_from p s es w).0.published
  unfolding concurrent_from
  Delivered-concurrent_from s [] w d = d
  Delivered-concurrent_from s (e ∷ es) w d =
      let step = publish_single_event p e w in
      Delivered-concurrent_from (sort_out p step.0 s) es step.1
        (Delivered-sort_out e step.0 w step.1 s (single-Grown e w) (single_accepted e w) d)

  -- Every event that a batch counts as published, sequential or concurrent, was handed to the event
  -- publisher, as the envelope of just this event and for the topic of its aggregate type.
  pub Delivered-publish_all :
      (es : List OutboxEvent) (w : PublisherWorld p)
      → Delivered (publish_all p es w).1.submitted (publish_all p es w).0.published
  unfolding publish_all
  Delivered-publish_all es w =
      elim p.config.concurrent_publish
        as (λ b.
          let r =
            (if b then batch_publish_concurrent p es else batch_publish_to_event_bus p es) w in
          Delivered r.1.submitted r.0.published) [
            | true ↦
                Delivered-concurrent_from (record { published = []; failed = [] })
                  (p.finishing_order es) w tt
            | false ↦ Delivered-batch_publish_from (record { published = []; failed = [] }) es w tt
          ]
