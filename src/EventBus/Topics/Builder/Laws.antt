-- ===== src/EventBus/Topics/Builder/Laws.antt =====
-- When Validate accepts a chain of calls, and when Build reaches the event bus
-- (sdk/pkg/eventbus/topic_builder.go).
use jxt_core.Base.{
  ℤ, pos, ◌≤ℤ◌, String, eq_iff, Option, none, some, List, [], ◌∷◌, All, State, ◌≡◌, ◌≢◌, ◌↔◌, ap,
  sym, ◌∙◌, ◌≤◌, ◌⊎◌, inl, inr, refl, arith, Option-cases, concat,
}
use jxt_core.Outbox.Event.{Error, wrapf}
use jxt_core.EventBus.Topics.Options.{TopicOptions}
use jxt_core.EventBus.Topics.Names.{IsPlain, size, validate_topic_name, validate_topic_name_iff}
use jxt_core.EventBus.Topics.Builder.Defs.{
  TopicBuilder, errors_of, new_topic_builder, prefixed, check_options, check_builder, validate,
  build,
}
use jxt_core.EventBus.Topics.Builder.Calls.{
  Call, Fits, InRange, run, errors-run, topic-run, run-InRange,
}

-- The conditions under which the source documents that a topic is built.
pub record IsReady (topic : String) (cs : List Call) (o : TopicOptions) : Type 0 where
  pub name_fits : (1 ≤ size topic) × (size topic ≤ 255) × IsPlain topic
  pub calls_fit : All Fits cs
  pub copies_below : o.replication_factor ≤ℤ o.partitions
  pub time_fits : pos 60000000000 ≤ℤ o.retention_time

module _ (show_duration : ℤ → String) where
  check_options_iff :
      (o : TopicOptions)
      → InRange o
      → (check_options show_duration o ≡ none)
        ↔ ((o.replication_factor ≤ℤ o.partitions) × (pos 60000000000 ≤ℤ o.retention_time))
  unfolding check_options
  check_options_iff o h = ground arith

  errors_of_iff : (o : Option Error) → (errors_of o ≡ []) ↔ (o ≡ none)
  errors_of_iff none = (λ h. refl, λ h. refl)
  errors_of_iff (some e) = (λ h. cc, λ h. cc)

  check_builder_iff :
      (es : List Error) (topic : String) (o : TopicOptions)
      → InRange o
      → (check_builder show_duration es topic o ≡ none) ↔ (
          (es ≡ [])
          × (topic ≢ "")
          × (o.replication_factor ≤ℤ o.partitions)
          × (pos 60000000000 ≤ℤ o.retention_time))
  unfolding check_builder
  check_builder_iff [] topic o h = ground (arith, check_options_iff o h, eq_iff topic "")
  check_builder_iff (e ∷ es) topic o h = (λ h. cc, λ h. cc)

  valid-ne-empty : (topic : String) → validate_topic_name topic ≡ none → topic ≢ ""
  valid-ne-empty topic valid empty =
      let least : 1 ≤ size topic = ((validate_topic_name_iff topic).0 valid).0 in
      let e : size topic ≡ 0 = ap size empty in omega arith

  validate_iff :
      (topic : String) (cs : List Call)
      → let b = run show_duration cs (new_topic_builder topic) in
        (validate show_duration b ≡ none) ↔ (
          (b.errors ≡ [])
          × (b.topic ≢ "")
          × (b.options.replication_factor ≤ℤ b.options.partitions)
          × (pos 60000000000 ≤ℤ b.options.retention_time))
  unfolding validate
  validate_iff topic cs =
      let b = run show_duration cs (new_topic_builder topic) in
      check_builder_iff b.errors b.topic b.options (run-InRange show_duration topic cs)

  errors_iff :
      (topic : String) (cs : List Call)
      → ((run show_duration cs (new_topic_builder topic)).errors ≡ [])
        ↔ ((validate_topic_name topic ≡ none) × All Fits cs)
  unfolding new_topic_builder
  errors_iff topic cs = ground (
    arith,
    errors-run show_duration cs (new_topic_builder topic),
    errors_of_iff (validate_topic_name topic),
  )

  topic_kept :
      (topic : String) (cs : List Call)
      → (run show_duration cs (new_topic_builder topic)).topic ≡ topic
  unfolding new_topic_builder
  topic_kept topic cs = topic-run show_duration cs (new_topic_builder topic)

  -- Validate accepts a chain of calls on a new builder exactly if the name of the topic is valid, no
  -- call was refused, the copies do not outnumber the partitions, and messages are kept for at least
  -- a minute.
  pub validate-IsReady :
      (topic : String) (cs : List Call)
      → (validate show_duration (run show_duration cs (new_topic_builder topic)) ≡ none)
        ↔ IsReady topic cs (run show_duration cs (new_topic_builder topic)).options
  validate-IsReady topic cs = (
    λ h.
        let (clean, named, copies, time) = (validate_iff topic cs).0 h in
        let (valid, fit) = (errors_iff topic cs).0 clean in
        record {
          name_fits = (validate_topic_name_iff topic).0 valid;
          calls_fit = fit;
          copies_below = copies;
          time_fits = time;
        },
    λ r.
        let valid = (validate_topic_name_iff topic).1 r.name_fits in
        (validate_iff topic cs).1 (
          (errors_iff topic cs).1 (valid, r.calls_fit),
          λ e. valid-ne-empty topic valid (sym (topic_kept topic cs) ∙ e),
          r.copies_below,
          r.time_fits,
        ),
  )

  module _ {S : Type 0} (configure_topic : String → TopicOptions → State S (Option Error)) where
    build_accepted :
        (b : TopicBuilder) (s : S)
        → validate show_duration b ≡ none
        → build show_duration configure_topic b s ≡ (
          prefixed
              (concat ("failed to configure topic " ∷ b.topic ∷ ": " ∷ []))
              (configure_topic b.topic b.options s).0,
          (configure_topic b.topic b.options s).1,
        )
    unfolding build
    build_accepted b s h = rw (h, build)

    build_refused :
        (b : TopicBuilder) (s : S) (e : Error)
        → validate show_duration b ≡ some e
        → build show_duration configure_topic b s
          ≡ (some (wrapf "topic builder validation failed: " e), s)
    unfolding build
    build_refused b s e h = rw (h, build)

  -- Build hands the options to the event bus if Validate accepts the chain; else it answers an error
  -- and leaves the event bus alone.
  pub build-IsReady :
      {S : Type 0} (configure_topic : String → TopicOptions → State S (Option Error))
      (topic : String) (cs : List Call) (s : S)
      → let b = run show_duration cs (new_topic_builder topic) in
        (IsReady topic cs b.options
          × (build show_duration configure_topic b s ≡ (
            prefixed
                (concat ("failed to configure topic " ∷ topic ∷ ": " ∷ []))
                (configure_topic topic b.options s).0,
            (configure_topic topic b.options s).1,
          )))
        ⊎ ((¬ IsReady topic cs b.options)
            × ((e : Error) × (build show_duration configure_topic b s ≡ (some e, s))))
  build-IsReady configure_topic topic cs s =
      let b = run show_duration cs (new_topic_builder topic) in
      elim (Option-cases (validate show_duration b)) [
        | inl accepted ↦ inl (
          (validate-IsReady topic cs).0 accepted,
          build_accepted configure_topic b s accepted
              ∙ ap
                  (λ t. (
                    prefixed (concat ("failed to configure topic " ∷ t ∷ ": " ∷ []))
                        (configure_topic t b.options s).0,
                    (configure_topic t b.options s).1,
                  ))
                  (topic_kept topic cs),
        )
        | inr (e, refused) ↦ inr (
          λ r. cc (refused, (validate-IsReady topic cs).1 r),
          (
            wrapf "topic builder validation failed: " e,
            build_refused configure_topic b s e refused,
          ),
        )
      ]
