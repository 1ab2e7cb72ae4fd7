-- ===== src/EventBus/Topics/Nats/Routes.antt =====
-- What Publish does to the streams and to its cache of the topics that it has ensured
-- (sdk/pkg/eventbus/nats.go).
use jxt_core.Base.{
  ℕ, String, str_eq, eq_iff, Bool, true, false, not, ◌&&◌, Option, none, some, ◌≡◌, ◌≢◌, refl, ap,
  sym, ◌∙◌, arith, Bool-cases, Option-cases, inl, inr, get_key, set_key, get_key-set_key,
  if◌then◌else◌, string_eq, is_none, State,
}
use mathlib.Core.Path.{subst}
use jxt_core.Outbox.Event.{Error}
use jxt_core.EventBus.Topics.Options.{is_persistent}
use jxt_core.EventBus.Topics.Compare.Defs.{strategy_skip}
use jxt_core.EventBus.Topics.Nats.Defs.{JetStream, get_stream_name_for_topic}
use jxt_core.EventBus.Topics.Nats.Publish.{
  ensure_topic_in_jet_stream, NatsTopics, stream_of, get_topic_config, ensured, route, published,
  send, publish,
}
use jxt_core.EventBus.Topics.Nats.Coverage.{IsJetStream, Covered, Grows, Grows-same}
use jxt_core.EventBus.Topics.Nats.Ensured.{Ensures, ensure_topic-Ensures}

module _ (j : JetStream) (laws : IsJetStream j) (configured : String) where
  -- The stream name is that of the configuration, and the topics that Publish has ensured are covered.
  abbrev pub Ensured : NatsTopics j → Type 0
  Ensured k =
      (k.stream_name ≡ configured)
      × ((t : String) (b : Bool)
          → get_key t k.ensured_topics ≡ some b
          → Covered j laws (get_stream_name_for_topic configured t) t k.server)

  -- A step keeps this, and covers what was covered.
  abbrev pub Advances : NatsTopics j → NatsTopics j → Type 0
  Advances k k' = Ensured k' × Grows j laws k.server k'.server

  pub Advances-trans :
      (k1 k2 k3 : NatsTopics j) → Advances k1 k2 → (Ensured k2 → Advances k2 k3) → Advances k1 k3
  Advances-trans k1 k2 k3 (e, g) next =
      let (e', g') = next e in (e', λ n t covered. g' n t (g n t covered))

  -- A step that leaves the cache alone.
  pub Advances-grown :
      (k k' : NatsTopics j)
      → k'.stream_name ≡ k.stream_name
      → k'.ensured_topics ≡ k.ensured_topics
      → Grows j laws k.server k'.server
      → Ensured k
      → Advances k k'
  Advances-grown k k' name cache grows (named, covered) =
      ((name ∙ named, λ t b h. grows _ t (covered t b (ap (get_key t) (sym cache) ∙ h))), grows)

  pub Grows-self : (s : j.Store) → Grows j laws s s
  Grows-self s n t h = h

  stream_named :
      (t : String) (k : NatsTopics j)
      → Ensured k
      → stream_of j t k ≡ get_stream_name_for_topic configured t
  stream_named t k (named, _) = ap (λ n. get_stream_name_for_topic n t) named

  -- What Publish decides and does before it publishes.
  abbrev Routed : String → NatsTopics j → Bool × NatsTopics j → Type 0
  Routed t k r =
      Advances k r.1
      × (k.strategy ≢ strategy_skip
          → r.0 ≡ true
          → Covered j laws (get_stream_name_for_topic configured t) t r.1.server)

  module _ (t : String) (k : NatsTopics j) (inv : Ensured k) where
    known_topic :
        not (str_eq k.strategy strategy_skip) && is_none (get_key t k.ensured_topics) ≡ false
        → k.strategy ≢ strategy_skip
        → Covered j laws (get_stream_name_for_topic configured t) t k.server
    known_topic h checked = elim (Option-cases (get_key t k.ensured_topics)) [
      | inl unknown ↦ absurd (ground (arith, h, checked, unknown, eq_iff k.strategy strategy_skip))
      | inr (b, known) ↦ inv.1 t b known
    ]

    abbrev ensure_here : State j.Store (Option Error)
    ensure_here = ensure_topic_in_jet_stream j (stream_of j t k) t (get_topic_config j t k)

    ensured_here :
        Ensures j laws (get_stream_name_for_topic configured t) t k.server (ensure_here k.server)
    ensured_here =
        subst (λ n. Ensures j laws n t k.server (ensure_here k.server)) (stream_named t k inv)
          (ensure_topic-Ensures j laws (stream_of j t k) t (get_topic_config j t k) k.server)

    -- The topic was ensured just now.
    cached :
        (s : j.Store)
        → (ensure_here k.server).1 ≡ s
        → (ensure_here k.server).0 ≡ none
        → Ensured (record k { server = s; ensured_topics = set_key t true k.ensured_topics })
    cached s at ok = (
      inv.0,
      λ u b h. elim (Bool-cases (str_eq t u)) [
        | inl same ↦
            subst (λ v. Covered j laws (get_stream_name_for_topic configured v) v s)
              ((eq_iff t u).0 same)
              (subst (λ w. Covered j laws (get_stream_name_for_topic configured t) t w) at
                (ensured_here.1 ok))
        | inr other ↦
            subst (λ w. Grows j laws k.server w) at ensured_here.0 _ u
              (inv.1 u b
                (ground (arith, h, other, eq_iff t u, get_key-set_key t u true k.ensured_topics)))
      ],
    )

    ensured-Routed :
        (r : Option Error × j.Store) → ensure_here k.server ≡ r → Routed t k (ensured j t r k)
    unfolding ensured
    ensured-Routed (some e, s) h = (
      Advances-grown k (record k { server = s }) refl refl
          (subst (λ (r : Option Error × j.Store). Grows j laws k.server r.1) h ensured_here.0) inv,
      λ checked used. cc,
    )
    ensured-Routed (none, s) h =
        let at = ap (λ (r : Option Error × j.Store). r.1) h in
        let ok = ap (λ (r : Option Error × j.Store). r.0) h in
        (
          (cached s at ok, subst (λ u. Grows j laws k.server u) at ensured_here.0),
          λ checked used.
              subst (λ u. Covered j laws (get_stream_name_for_topic configured t) t u) at
                (ensured_here.1 ok),
        )

    pub route-Routed : Routed t k (route j t k)
    unfolding route
    route-Routed =
        elim (Bool-cases (
          is_persistent (get_topic_config j t k) k.jet_stream_enabled
          && is_none (j.unavailable k.server))) [
            | inr core ↦ rw core ((inv, Grows-self k.server), λ checked h. cc)
            | inl stream ↦
                elim (Bool-cases
                  (not (str_eq k.strategy strategy_skip) && is_none (get_key t k.ensured_topics))) [
                    | inr known ↦
                        rw (stream, known)
                          ((inv, Grows-self k.server), λ checked h. known_topic known checked)
                    | inl unknown ↦
                        rw (stream, unknown) (ensured-Routed (ensure_here k.server) refl)
                  ]
          ]

  published-Advances :
      (now : ℕ) (r : Option Error) (k : NatsTopics j)
      → Ensured k
      → Advances k (published j now r k).1
  unfolding published
  published-Advances now none k inv =
      Advances-grown k (published j now none k).1 refl refl (Grows-self k.server) inv
  published-Advances now (some e) k inv =
      Advances-grown k (published j now (some e) k).1 refl refl (Grows-self k.server) inv

  moved :
      (s : j.Store) (k : NatsTopics j)
      → Grows j laws k.server s
      → Ensured k
      → Advances k (record k { server = s })
  moved s k grows inv = Advances-grown k (record k { server = s }) refl refl grows inv

  send-Advances :
      (b : Bool) (t : String) (m : j.Message) (now : ℕ) (k : NatsTopics j)
      → Ensured k
      → Advances k (send j b t m now k).1
  unfolding send
  send-Advances true t m now k inv =
      let r = j.publish_async t m k.server in
      let k' = record k { server = r.1 } in
      Advances-trans k k' (published j now r.0 k').1
        (moved r.1 k (Grows-same j laws k.server r.1 (λ n. laws.publish_async_keeps n t m k.server))
          inv)
        (published-Advances now r.0 k')
  send-Advances false t m now k inv = elim (Option-cases (j.disconnected k.server)) [
    | inr (e, gone) ↦ rw (gone, send) (inv, Grows-self k.server)
    | inl there ↦
        let r = j.publish_core t m k.server in
        let k' = record k { server = r.1 } in
        rw (there, send)
          (Advances-trans k k' (published j now r.0 k').1
            (moved r.1 k
              (Grows-same j laws k.server r.1 (λ n. laws.publish_core_keeps n t m k.server)) inv)
            (published-Advances now r.0 k'))
  ]

  pub Advances-if :
      (b : Bool) (k : NatsTopics j) (r r' : Option Error × NatsTopics j)
      → Advances k r.1
      → Advances k r'.1
      → Advances k (if b then r else r').1
  Advances-if true k r r' h h' = h
  Advances-if false k r r' h h' = h'

  pub publish-Advances :
      (t : String) (m : j.Message) (now : ℕ) (k : NatsTopics j)
      → Ensured k
      → Advances k (publish j t m now k).1
  unfolding publish
  publish-Advances t m now k inv =
      Advances-if k.closed k _ (send j (route j t k).0 t m now (route j t k).1)
        (inv, Grows-self k.server)
        (Advances-trans k (route j t k).1 (send j (route j t k).0 t m now (route j t k).1).1
          (route-Routed t k inv).0 (send-Advances (route j t k).0 t m now (route j t k).1))
