-- ===== src/EventBus/Topics/Nats/Runs.antt =====
-- Where Publish sends a message, after any calls of Publish, ConfigureTopic and its relatives
-- (sdk/pkg/eventbus/nats.go).
use jxt_core.Base.{
  ℕ, String, str_eq, Bool, true, false, not, ◌&&◌, Option, List, [], ◌∷◌, ◌≡◌, ◌≢◌, refl, ap,
  Option-cases, inl, inr, get_key, set_key, if◌then◌else◌, string_eq, is_none, State,
}
use jxt_core.Outbox.Event.{Error}
use jxt_core.EventBus.Topics.Options.{TopicOptions, is_persistent}
use jxt_core.EventBus.Topics.Names.{validate_topic_name}
use jxt_core.EventBus.Topics.Compare.Defs.{
  strategy_validate_only, strategy_skip, TopicConfigMismatchAction, should_create_or_update,
}
use jxt_core.EventBus.Topics.Nats.Defs.{JetStream, get_actual_topic_config}
use jxt_core.EventBus.Topics.Nats.Publish.{
  NatsTopics, stream_of, route, publish, synchronize, configure_topic, set_topic_persistence,
  remove_topic_config, set_topic_config_strategy,
}
use jxt_core.EventBus.Topics.Nats.Coverage.{IsJetStream, Covered, Grows, Grows-same}
use jxt_core.EventBus.Topics.Nats.Ensured.{ensure_idempotent-Ensures}
use jxt_core.EventBus.Topics.Nats.Routes.{
  Ensured, Advances, Advances-trans, Advances-grown, Grows-self, route-Routed, Advances-if,
  publish-Advances,
}

-- The methods with their arguments.
pub data Call (j : JetStream) : Type 0 where
  publish_call : String → j.Message → ℕ → Call j
  configure_call : String → TopicOptions → Call j
  persistence_call : String → Bool → Call j
  remove_call : String → Call j
  strategy_call : String → Call j

module _ (j : JetStream) where
  unfoldable pub apply : Call j → NatsTopics j → NatsTopics j
  unfolding publish configure_topic set_topic_persistence remove_topic_config
      set_topic_config_strategy
  apply (publish_call t m now) k = (publish j t m now k).1
  apply (configure_call t o) k = (configure_topic j t o k).1
  apply (persistence_call t b) k = (set_topic_persistence j t b k).1
  apply (remove_call t) k = remove_topic_config j t k
  apply (strategy_call s) k = set_topic_config_strategy j s k

  unfoldable pub run : List (Call j) → NatsTopics j → NatsTopics j
  unfolding apply
  run [] k = k
  run (c ∷ cs) k = run cs (apply c k)

module _ (j : JetStream) (laws : IsJetStream j) (configured : String) where
  looked-Grows : (name : String) (s : j.Store) → Grows j laws s (get_actual_topic_config j name s).1
  unfolding get_actual_topic_config
  looked-Grows name s = elim (Option-cases (j.unavailable s)) [
    | inr (e, gone) ↦ rw (gone, get_actual_topic_config) (Grows-self j laws configured s)
    | inl there ↦
        rw (there, get_actual_topic_config)
          (Grows-same j laws s _ (λ n. ap (laws.subjects_of n) (laws.info_reads name s)))
  ]

  Grows-if :
      (b : Bool) (s : j.Store) (f g : State j.Store (Option Error))
      → Grows j laws s (f s).1
      → Grows j laws s (g s).1
      → Grows j laws s ((if b then f else g) s).1
  Grows-if true s f g h h' = h
  Grows-if false s f g h h' = h'

  synchronize-Grows :
      (strategy : String) (action : TopicConfigMismatchAction) (name t : String) (o : TopicOptions)
      (exists : Bool) (s : j.Store)
      → Grows j laws s (synchronize j strategy action name t o exists s).1
  unfolding synchronize
  synchronize-Grows strategy action name t o exists s =
      let ensures = λ (b : Bool) (u : j.Store). (ensure_idempotent-Ensures j laws name t o b u).0 in
      let after = (get_actual_topic_config j name s).1 in
      Grows-if (str_eq strategy strategy_skip) s _ _ (Grows-self j laws configured s) (
        Grows-if (str_eq strategy strategy_validate_only) s _ _
          (Grows-if exists s _ _ (looked-Grows name s) (Grows-self j laws configured s))
          (Grows-if (should_create_or_update strategy exists).should_create s _ _ (ensures false s)
            (Grows-if (should_create_or_update strategy exists).should_update s _ _
              (λ n u h. ensures true after n u (looked-Grows name s n u h)) (ensures exists s))))

  configure_topic-Advances :
      (t : String) (o : TopicOptions) (k : NatsTopics j)
      → Ensured j laws configured k
      → Advances j laws configured k (configure_topic j t o k).1
  unfolding configure_topic
  configure_topic-Advances t o k inv = elim (Option-cases (validate_topic_name t)) [
    | inr (e, invalid) ↦ rw (invalid, configure_topic) (inv, Grows-self j laws configured k.server)
    | inl valid ↦
        let exists = not (is_none (get_key t k.topic_configs)) in
        let stored = set_key t o k.topic_configs in
        let after =
          (synchronize j k.strategy k.on_mismatch (stream_of j t k) t o exists k.server).1 in
        rw (valid, configure_topic)
          (Advances-if j laws configured
            (is_persistent o k.jet_stream_enabled && is_none (j.unavailable k.server)) k _ _
            (Advances-grown j laws configured k
              (record k { topic_configs = stored; server = after }) refl refl
              (synchronize-Grows k.strategy k.on_mismatch (stream_of j t k) t o exists k.server)
              inv)
            (Advances-grown j laws configured k (record k { topic_configs = stored }) refl refl
              (Grows-self j laws configured k.server) inv))
  ]

  apply-Advances :
      (c : Call j) (k : NatsTopics j)
      → Ensured j laws configured k
      → Advances j laws configured k (apply j c k)
  unfolding apply set_topic_persistence remove_topic_config set_topic_config_strategy
  apply-Advances (publish_call t m now) k inv = publish-Advances j laws configured t m now k inv
  apply-Advances (configure_call t o) k inv = configure_topic-Advances t o k inv
  apply-Advances (persistence_call t b) k inv = configure_topic-Advances t _ k inv
  apply-Advances (remove_call t) k inv =
      Advances-grown j laws configured k (remove_topic_config j t k) refl refl
        (Grows-self j laws configured k.server) inv
  apply-Advances (strategy_call s) k inv =
      Advances-grown j laws configured k (set_topic_config_strategy j s k) refl refl
        (Grows-self j laws configured k.server) inv

  run-Advances :
      (cs : List (Call j)) (k : NatsTopics j)
      → Ensured j laws configured k
      → Advances j laws configured k (run j cs k)
  unfolding run
  run-Advances [] k inv = (inv, Grows-self j laws configured k.server)
  run-Advances (c ∷ cs) k inv =
      Advances-trans j laws configured k (apply j c k) (run j cs (apply j c k))
        (apply-Advances c k inv) (run-Advances cs (apply j c k))

  new_bus_Ensured :
      (k : NatsTopics j)
      → k.stream_name ≡ configured
      → k.ensured_topics ≡ []
      → Ensured j laws configured k
  unfolding get_key
  new_bus_Ensured k name new = (name, λ t b h. absurd (cc (rw new at h)))

-- Start from an event bus whose cache of ensured topics is empty, and let any calls of Publish,
-- ConfigureTopic and its relatives come. If Publish then decides for JetStream, under a strategy
-- that is not skip, a subject of the topic's stream covers the topic, and it still does after any
-- further calls. The calls of nats.go do what they document, and no one else changes the streams.
pub route-Covered :
    (j : JetStream) (laws : IsJetStream j) (k : NatsTopics j) (cs ds : List (Call j)) (t : String)
    → k.ensured_topics ≡ []
    → (run j cs k).strategy ≢ strategy_skip
    → (route j t (run j cs k)).0 ≡ true
    → Covered j laws (stream_of j t k) t (run j ds (route j t (run j cs k)).1).server
route-Covered j laws k cs ds t new checked used =
    let (inv, _) =
      run-Advances j laws k.stream_name cs k (new_bus_Ensured j laws k.stream_name k refl new) in
    let ((inv', _), covered) = route-Routed j laws k.stream_name t (run j cs k) inv in
    (run-Advances j laws k.stream_name ds (route j t (run j cs k)).1 inv').1 _ t
      (covered checked used)
