-- ===== src/EventBus/Topics/Nats/Ensured.antt =====
-- Ensuring a topic keeps what was covered, and covers the topic if it succeeds
-- (sdk/pkg/eventbus/nats.go).
use jxt_core.Base.{
  String, eq_iff, Bool, true, false, Option, none, some, ◌≡◌, refl, sym, ◌∙◌, Bool-cases,
  Option-cases, inl, inr,
}
use mathlib.Core.Path.{subst}
use jxt_core.Outbox.Event.{Error}
use jxt_core.EventBus.Topics.Options.{TopicOptions}
use jxt_core.EventBus.Topics.Nats.Defs.{
  StreamConfig, StreamInfo, found, not_found, failed, JetStream, expected_config, topic_exists,
  with_topic, needs_update, with_limits, update_limits, topic_added, ensure_in_stream, wrapped_by,
  ensure_topic_in_jet_stream_idempotent,
}
use jxt_core.EventBus.Topics.Nats.Publish.{
  create_stream_for_topic, add_to_found, add_topic_to_stream, ensure_seen,
  ensure_topic_in_jet_stream,
}
use jxt_core.EventBus.Topics.Nats.Coverage.{
  IsJetStream, CoveredBy, covered_self, Covered, Grows, add-Covered, add-Grows, update-Grows,
  found_exists, with_topic-Grows, with_topic-Covered,
}

wrapped_none : (before : String) (r : Option Error) → wrapped_by before r ≡ none → r ≡ none
wrapped_none before none h = refl
wrapped_none before (some e) h = cc

module _ (j : JetStream) (laws : IsJetStream j) where
  -- What a call that ensures a topic does to the server and answers.
  abbrev pub Ensures : String → String → j.Store → Option Error × j.Store → Type 0
  Ensures name topic s r = Grows j laws s r.1 × (r.0 ≡ none → Covered j laws name topic r.1)

  Ensures-failed :
      (name topic : String) (s : j.Store) (e : Error) → Ensures name topic s (some e, s)
  Ensures-failed name topic s e = (λ n t h. h, λ done. cc)

  update_limits-Grows :
      (allow : Bool) (e c : StreamConfig) (s : j.Store)
      → laws.subjects_of c.name s ≡ some c.subjects
      → Grows j laws s (update_limits j allow e c s)
  unfolding update_limits
  update_limits-Grows false e c s there n t h = h
  update_limits-Grows true e c s there n t h = elim (Bool-cases (needs_update e c)) [
    | inr same ↦ rw same h
    | inl needed ↦
        rw needed
          (update-Grows j laws (with_limits e c) s c.subjects there (λ u covered. covered) n t h)
  ]

  module _ (name topic : String) where
    topic_added-Ensures :
        (allow : Bool) (e c : StreamConfig) (s : j.Store)
        → (j.stream_info name s).0 ≡ found c
        → Ensures name topic s (
            topic_added j allow e
              (with_topic topic c)
              (j.update_stream (with_topic topic c) s).0
              (j.update_stream (with_topic topic c) s).1)
    unfolding topic_added
    topic_added-Ensures allow e c s h =
        let d = with_topic topic c in
        let s' = (j.update_stream d s).1 in
        elim (Option-cases (j.update_stream d s).0) [
          | inr (problem, bad) ↦ rw bad (with_topic-Grows j laws c name s h topic, λ done. cc)
          | inl ok ↦
              let there : laws.subjects_of c.name s' ≡ some d.subjects =
                laws.updated c.name d s ∙ rw (ok, (eq_iff c.name c.name).1 refl) refl in
              let limits = update_limits-Grows allow e d s' there in
              rw ok (
                λ n t covered. limits n t (with_topic-Grows j laws c name s h topic n t covered),
                λ done. limits name topic (with_topic-Covered j laws c name s h topic ok),
              )
        ]

    ensure_in_stream-Ensures :
        (allow : Bool) (e : StreamConfig) (i : StreamInfo) (s : j.Store)
        → e.name ≡ name
        → CoveredBy e.subjects topic
        → (j.stream_info name s).0 ≡ i
        → Ensures name topic s (ensure_in_stream j topic allow e i s)
    unfolding ensure_in_stream
    ensure_in_stream-Ensures allow e not_found s named covered h = (
      add-Grows j laws e s,
      λ done.
          subst (λ m. Covered j laws m topic (j.add_stream e s).1) named
            (add-Covered j laws e topic s (wrapped_none _ _ done) covered),
    )
    ensure_in_stream-Ensures allow e (failed problem) s named covered h =
        Ensures-failed name topic s _
    ensure_in_stream-Ensures allow e (found c) s named covered h =
        elim (Bool-cases (topic_exists c.subjects topic)) [
          | inl there ↦
              let (n, at) = laws.info_found name s c h in
              let limits =
                update_limits-Grows allow e c s
                  (subst (λ m. laws.subjects_of m s ≡ some c.subjects) (sym n) at) in
              rw there
                (limits, λ done. limits name topic (found_exists j laws c name s h topic there))
          | inr missing ↦ rw missing (topic_added-Ensures allow e c s h)
        ]

    -- Looking changes nothing.
    looked :
        (r : j.Store → Option Error × j.Store) (s : j.Store)
        → Ensures name topic s (r s)
        → Ensures name topic s (r (j.stream_info name s).1)
    looked r s h = subst (λ t. Ensures name topic s (r t)) (sym (laws.info_reads name s)) h

    pub ensure_idempotent-Ensures :
        (o : TopicOptions) (allow : Bool) (s : j.Store)
        → Ensures name topic s (ensure_topic_in_jet_stream_idempotent j name topic o allow s)
    unfolding ensure_topic_in_jet_stream_idempotent expected_config
    ensure_idempotent-Ensures o allow s = elim (Option-cases (j.unavailable s)) [
      | inr (problem, gone) ↦
          rw (gone, ensure_topic_in_jet_stream_idempotent) (Ensures-failed name topic s _)
      | inl there ↦
          rw (there, ensure_topic_in_jet_stream_idempotent)
            (looked
              (ensure_in_stream j topic allow (expected_config name topic o)
                (j.stream_info name s).0)
              s
              (ensure_in_stream-Ensures allow (expected_config name topic o)
                (j.stream_info name s).0 s refl (inl (covered_self topic)) refl))
    ]

    create_stream-Ensures :
        (o : TopicOptions) (s : j.Store)
        → Ensures name topic s (create_stream_for_topic j name topic o s)
    unfolding create_stream_for_topic expected_config
    create_stream-Ensures o s = elim (Option-cases (j.unavailable s)) [
      | inr (problem, gone) ↦ rw (gone, create_stream_for_topic) (Ensures-failed name topic s _)
      | inl there ↦
          rw (there, create_stream_for_topic)
            (
              add-Grows j laws (expected_config name topic o) s,
              λ done.
                  add-Covered j laws (expected_config name topic o) topic s (wrapped_none _ _ done)
                    (inl (covered_self topic)),
            )
    ]

    add_to_found-Ensures :
        (i : StreamInfo) (s : j.Store)
        → (j.stream_info name s).0 ≡ i
        → Ensures name topic s (add_to_found j topic i s)
    unfolding add_to_found
    add_to_found-Ensures (failed e) s h = Ensures-failed name topic s _
    add_to_found-Ensures not_found s h = Ensures-failed name topic s _
    add_to_found-Ensures (found c) s h = (
      with_topic-Grows j laws c name s h topic,
      λ done. with_topic-Covered j laws c name s h topic (wrapped_none _ _ done),
    )

    add_topic-Ensures : (s : j.Store) → Ensures name topic s (add_topic_to_stream j name topic s)
    unfolding add_topic_to_stream
    add_topic-Ensures s = elim (Option-cases (j.unavailable s)) [
      | inr (problem, gone) ↦ rw (gone, add_topic_to_stream) (Ensures-failed name topic s _)
      | inl there ↦
          rw (there, add_topic_to_stream)
            (looked (add_to_found j topic (j.stream_info name s).0) s
              (add_to_found-Ensures (j.stream_info name s).0 s refl))
    ]

    ensure_seen-Ensures :
        (o : TopicOptions) (i : StreamInfo) (s : j.Store)
        → (j.stream_info name s).0 ≡ i
        → Ensures name topic s (ensure_seen j name topic o i s)
    unfolding ensure_seen
    ensure_seen-Ensures o not_found s h = create_stream-Ensures o s
    ensure_seen-Ensures o (failed e) s h = create_stream-Ensures o s
    ensure_seen-Ensures o (found c) s h = elim (Bool-cases (topic_exists c.subjects topic)) [
      | inl there ↦ rw there (λ n t g. g, λ done. found_exists j laws c name s h topic there)
      | inr missing ↦ rw missing (add_topic-Ensures s)
    ]

    pub ensure_topic-Ensures :
        (o : TopicOptions) (s : j.Store)
        → Ensures name topic s (ensure_topic_in_jet_stream j name topic o s)
    unfolding ensure_topic_in_jet_stream
    ensure_topic-Ensures o s = elim (Option-cases (j.unavailable s)) [
      | inr (problem, gone) ↦ rw (gone, ensure_topic_in_jet_stream) (Ensures-failed name topic s _)
      | inl there ↦
          rw (there, ensure_topic_in_jet_stream)
            (looked (ensure_seen j name topic o (j.stream_info name s).0) s
              (ensure_seen-Ensures o (j.stream_info name s).0 s refl))
    ]
