-- ===== src/EventBus/Topics/Kafka/Strict.antt =====
-- The strict mode of ConfigureTopic (sdk/pkg/eventbus/kafka.go).
use jxt_core.Base.{
  pos, show_int, length, String, Bool, true, false, Option, none, some, List, [], ◌∷◌, ◌≡◌, ◌≢◌,
  refl, ap, ◌∙◌, arith, Option-cases, inl, inr, get_key, string_eq, concat,
}
use jxt_core.Outbox.Event.{Error, errorf, wrapf}
use jxt_core.Outbox.Repository.{Result, ok, err}
use jxt_core.EventBus.Topics.Options.{TopicOptions, topic_persistent}
use jxt_core.EventBus.Topics.Names.{validate_topic_name}
use jxt_core.EventBus.Topics.Compare.Defs.{
  strategy_validate_only, TopicConfigMismatch, TopicConfigMismatchAction, handle_config_mismatches,
  compare_topic_options,
}
use jxt_core.EventBus.Topics.Compare.Agreement.{compare_topic_options-mode}
use jxt_core.EventBus.Topics.Kafka.Cluster.{
  ClusterAdmin, TopicMetadata, ConfigEntry, bare_options, with_metadata, wrapped_by,
}
use jxt_core.EventBus.Topics.Kafka.Defs.{
  read_entry, read_entries, actual_of, get_actual_topic_config, KafkaTopics, synchronize, verdict,
  configure_topic, is_known,
}
use jxt_core.EventBus.Topics.Kafka.Strategies.{configure_open}

module _ (a : ClusterAdmin) where
  mode-read_entry :
      (e : ConfigEntry) (o : TopicOptions)
      → (read_entry a e o).persistence_mode ≡ o.persistence_mode
  unfolding read_entry
  mode-read_entry e o = ground arith

  mode-read_entries :
      (es : List ConfigEntry) (o : TopicOptions)
      → (read_entries a es o).persistence_mode ≡ o.persistence_mode
  unfolding read_entries
  mode-read_entries [] o = refl
  mode-read_entries (e ∷ es) o = mode-read_entries es (read_entry a e o) ∙ mode-read_entry e o

  mode-with_metadata :
      (r : Result (List TopicMetadata)) (o : TopicOptions)
      → (with_metadata r o).persistence_mode ≡ o.persistence_mode
  mode-with_metadata (err e) o = refl
  mode-with_metadata (ok []) o = refl
  mode-with_metadata (ok (m ∷ ms)) o = refl

  abbrev IsPersistentIfOk : Result TopicOptions → Type 0
  IsPersistentIfOk (err e) = Unit {0}
  IsPersistentIfOk (ok o) = o.persistence_mode ≡ topic_persistent

  actual_of-mode :
      (t : String) (r : Result (List ConfigEntry)) (s : a.Store)
      → IsPersistentIfOk (actual_of a t r s).0
  unfolding actual_of
  actual_of-mode t (err e) s = tt
  actual_of-mode t (ok es) s = elim (Option-cases (a.unavailable s)) [
    | inl there ↦
        rw (there, actual_of)
          (mode-with_metadata (a.describe_topics (t ∷ []) s).0 (read_entries a es bare_options)
            ∙ mode-read_entries es bare_options)
    | inr (e, gone) ↦ rw (gone, actual_of) (mode-read_entries es bare_options)
  ]

  get_actual-mode : (t : String) (s : a.Store) → IsPersistentIfOk (get_actual_topic_config a t s).0
  unfolding get_actual_topic_config
  get_actual-mode t s = elim (Option-cases (a.unavailable s)) [
    | inl there ↦
        rw (there, get_actual_topic_config)
          (actual_of-mode t (a.describe_config t s).0 (a.describe_config t s).1)
    | inr (e, gone) ↦ rw (gone, get_actual_topic_config) tt
  ]

  handle_mismatches-fails :
      (ms : List TopicConfigMismatch) (action : TopicConfigMismatchAction)
      → ms ≢ []
      → action.fail_fast ≡ true
      → (e : Error) × (handle_config_mismatches ms action ≡ some e)
  handle_mismatches-fails [] action h fast = absurd (h refl)
  handle_mismatches-fails (m ∷ ms) action h fast = (
    errorf (
        "topic config validation failed: found "
        ∷ show_int (pos (length (m ∷ ms)))
        ∷ " mismatches"
        ∷ []),
    unfold handle_config_mismatches in rw fast,
  )

  verdict-fails :
      (t : String) (o : TopicOptions) (action : TopicConfigMismatchAction) (r : Result TopicOptions)
      (actual : TopicOptions)
      → IsPersistentIfOk r
      → r ≡ ok actual
      → o.persistence_mode ≢ topic_persistent
      → action.fail_fast ≡ true
      → (e : Error) × (verdict a t o action r ≡ some e)
  verdict-fails t o action (err e) actual p h other fast = absurd (cc)
  verdict-fails t o action (ok c) actual p h other fast =
      handle_mismatches-fails (compare_topic_options t o c) action
        (λ none_found. other (compare_topic_options-mode t o c none_found ∙ p)) fast

  synchronize-strict :
      (strategy : String) (action : TopicConfigMismatchAction) (t : String) (o : TopicOptions)
      (exists : Bool) (s : a.Store)
      → strategy ≡ strategy_validate_only
      → exists ≡ true
      → (synchronize a strategy action t o exists s).0
        ≡ verdict a t o action (get_actual_topic_config a t s).0
  unfolding synchronize
  synchronize-strict strategy action t o exists s e h = rw (e, h) refl

  -- Let a topic with a valid name be configured again on an event bus that is not closed, under
  -- validate_only, where a mismatch is an
  -- error. If the mode asked for is not "persistent" (it is "auto" by default) and the actual
  -- configuration can be read, ConfigureTopic answers an error, whatever that configuration is.
  pub configure_topic-strict :
      (t : String) (o o' actual : TopicOptions) (k : KafkaTopics a)
      → validate_topic_name t ≡ none
      → k.closed ≡ false
      → k.strategy ≡ strategy_validate_only
      → k.on_mismatch.fail_fast ≡ true
      → get_key t k.topic_configs ≡ some o'
      → (get_actual_topic_config a t k.cluster).0 ≡ ok actual
      → o.persistence_mode ≢ topic_persistent
      → (e : Error) × ((configure_topic a t o k).0 ≡ some e)
  configure_topic-strict t o o' actual k valid open' strategy fast known read other =
      let (e, fails) =
        verdict-fails t o k.on_mismatch (get_actual_topic_config a t k.cluster).0 actual
          (get_actual-mode t k.cluster) read other fast in
      let before = concat ("failed to configure topic " ∷ t ∷ ": " ∷ []) in
      (
        wrapf before e,
        ap (λ (r : Option Error × KafkaTopics a). r.0) (configure_open a t o k valid open')
            ∙ ap (wrapped_by before) (
                synchronize-strict k.strategy k.on_mismatch t o (is_known a t k) k.cluster strategy
                  (rw known)
                ∙ fails),
      )
