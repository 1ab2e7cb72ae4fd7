-- ===== src/EventBus/Topics/Builder/Defs.antt =====
-- TopicBuilder of sdk/pkg/eventbus/topic_builder.go. A method that returns its receiver is a function
-- from builder to builder. `show_duration` is what `%v` prints of a time.Duration.
use jxt_core.Base.{
  ◌*◌, ℤ, pos, ltb_ℤ, length, String, str_eq, str_append, concat, show_int, Bool, not, ◌&&◌, ◌||◌,
  Option, none, some, List, [], ◌∷◌, ◌++◌, if◌then◌else◌, State, pure, ◌>>=◌,
}
use jxt_core.Outbox.Event.{Error, errorf, wrapf}
use jxt_core.EventBus.Topics.Options.{
  TopicOptions, topic_persistent, topic_ephemeral, topic_auto, minute, hour, default_topic_options,
  high_throughput_topic_options, medium_throughput_topic_options, low_throughput_topic_options,
}
use jxt_core.EventBus.Topics.Names.{validate_topic_name}

pub record TopicBuilder : Type 0 where
  pub topic : String
  pub options : TopicOptions
  pub errors : List Error

abbrev pub errors_of : Option Error → List Error
errors_of none = []
errors_of (some e) = e ∷ []

unfoldable pub new_topic_builder : String → TopicBuilder
new_topic_builder topic = record {
  topic = topic;
  options = default_topic_options;
  errors = errors_of (validate_topic_name topic);
}

-- b.errors = append(b.errors, …)
unfoldable pub refuse : List String → TopicBuilder → TopicBuilder
refuse pieces b = record b { errors = b.errors ++ errorf pieces ∷ [] }

abbrev not_positive : ℤ → Bool
not_positive n = not (ltb_ℤ (pos 0) n)

-- The presets.
unfoldable pub for_high_throughput : TopicBuilder → TopicBuilder
for_high_throughput b = record b { options = high_throughput_topic_options }

unfoldable pub for_medium_throughput : TopicBuilder → TopicBuilder
for_medium_throughput b = record b { options = medium_throughput_topic_options }

unfoldable pub for_low_throughput : TopicBuilder → TopicBuilder
for_low_throughput b = record b { options = low_throughput_topic_options }

unfoldable pub with_partitions : ℤ → TopicBuilder → TopicBuilder
with_partitions n b =
    if not_positive n
    then refuse ("partitions must be positive, got " ∷ show_int n ∷ []) b
    else if ltb_ℤ (pos 100) n
    then refuse ("partitions should not exceed 100 for performance reasons, got " ∷ show_int n ∷ [])
        b
    else record b { options = record b.options { partitions = n } }

unfoldable pub with_replication : ℤ → TopicBuilder → TopicBuilder
with_replication n b =
    if not_positive n
    then refuse ("replication factor must be positive, got " ∷ show_int n ∷ []) b
    else if ltb_ℤ (pos 5) n
    then refuse
        ("replication factor should not exceed 5 for performance reasons, got " ∷ show_int n ∷ []) b
    else record b { options = record b.options { replication_factor = n; replicas = n } }

unfoldable pub is_compression : String → Bool
is_compression c =
    str_eq c ""
    || str_eq c "none"
    || str_eq c "gzip"
    || str_eq c "snappy"
    || str_eq c "lz4"
    || str_eq c "zstd"

unfoldable pub with_compression : String → TopicBuilder → TopicBuilder
unfolding is_compression
with_compression c b =
    if not (is_compression c)
    then refuse
        ("invalid compression algorithm: " ∷ c ∷ " (valid: none, gzip, snappy, lz4, zstd)" ∷ []) b
    else record b { options = record b.options { compression = c } }

unfoldable pub with_compression_level : ℤ → TopicBuilder → TopicBuilder
with_compression_level n b =
    if ltb_ℤ n (pos 0)
    then refuse ("compression level must be non-negative, got " ∷ show_int n ∷ []) b
    else if ltb_ℤ (pos 22) n
    then refuse ("compression level should not exceed 22, got " ∷ show_int n ∷ []) b
    else record b { options = record b.options { compression_level = n } }

unfoldable pub compressed : String → ℤ → TopicBuilder → TopicBuilder
compressed c n b = record b {
  options = record b.options { compression = c; compression_level = n };
}

unfoldable pub no_compression : TopicBuilder → TopicBuilder
no_compression b = compressed "none" (pos 0) b

unfoldable pub snappy_compression : TopicBuilder → TopicBuilder
snappy_compression b = compressed "snappy" (pos 6) b

unfoldable pub gzip_compression : ℤ → TopicBuilder → TopicBuilder
gzip_compression n b =
    if ltb_ℤ n (pos 1) || ltb_ℤ (pos 9) n
    then refuse ("gzip compression level must be 1-9, got " ∷ show_int n ∷ []) b
    else compressed "gzip" n b

unfoldable pub lz4_compression : TopicBuilder → TopicBuilder
lz4_compression b = compressed "lz4" (pos 0) b

unfoldable pub zstd_compression : ℤ → TopicBuilder → TopicBuilder
zstd_compression n b =
    if ltb_ℤ n (pos 1) || ltb_ℤ (pos 22) n
    then refuse ("zstd compression level must be 1-22, got " ∷ show_int n ∷ []) b
    else compressed "zstd" n b

unfoldable pub with_max_size : ℤ → TopicBuilder → TopicBuilder
with_max_size n b =
    if not_positive n
    then refuse ("max size must be positive, got " ∷ show_int n ∷ []) b
    else record b { options = record b.options { max_size = n } }

unfoldable pub with_max_messages : ℤ → TopicBuilder → TopicBuilder
with_max_messages n b =
    if not_positive n
    then refuse ("max messages must be positive, got " ∷ show_int n ∷ []) b
    else record b { options = record b.options { max_messages = n } }

unfoldable pub with_persistence : String → TopicBuilder → TopicBuilder
with_persistence m b =
    if not (str_eq m topic_persistent)
      && not (str_eq m topic_ephemeral)
      && not (str_eq m topic_auto)
    then refuse ("invalid persistence mode: " ∷ m ∷ []) b
    else record b { options = record b.options { persistence_mode = m } }

unfoldable pub persistent : TopicBuilder → TopicBuilder
persistent b = record b { options = record b.options { persistence_mode = topic_persistent } }

unfoldable pub ephemeral : TopicBuilder → TopicBuilder
ephemeral b = record b { options = record b.options { persistence_mode = topic_ephemeral } }

unfoldable pub with_description : String → TopicBuilder → TopicBuilder
with_description d b = record b { options = record b.options { description = d } }

abbrev set_up : ℤ → String → ℤ → TopicBuilder → TopicBuilder
set_up copies mode time b = record b {
  options = record b.options {
    replication_factor = copies;
    replicas = copies;
    persistence_mode = mode;
    retention_time = time;
  };
}

unfoldable pub for_production : TopicBuilder → TopicBuilder
for_production b = set_up (pos 3) topic_persistent (pos (7 * 24 * hour)) b

unfoldable pub for_development : TopicBuilder → TopicBuilder
for_development b = set_up (pos 1) topic_persistent (pos (24 * hour)) b

unfoldable pub for_testing : TopicBuilder → TopicBuilder
for_testing b = set_up (pos 1) topic_ephemeral (pos hour) b

-- What `%v` prints of errors, after the first one.
abbrev show_rest : List Error → String
show_rest [] = "]"
show_rest (e ∷ es) = str_append " " (str_append e.text (show_rest es))

abbrev show_errors : List Error → String
show_errors [] = "[]"
show_errors (e ∷ es) = str_append "[" (str_append e.text (show_rest es))

abbrev pub prefixed : String → Option Error → Option Error
prefixed before none = none
prefixed before (some e) = some (wrapf before e)

module _ (show_duration : ℤ → String) where
  unfoldable pub with_retention : ℤ → TopicBuilder → TopicBuilder
  with_retention d b =
      if not_positive d
      then refuse ("retention time must be positive, got " ∷ show_duration d ∷ []) b
      else record b { options = record b.options { retention_time = d } }

  unfoldable pub check_options : TopicOptions → Option Error
  check_options o =
      if ltb_ℤ (pos 0) o.partitions
        && ltb_ℤ (pos 0) o.replication_factor
        && ltb_ℤ o.partitions o.replication_factor
      then some (
          errorf (
            "replication factor ("
            ∷ show_int o.replication_factor
            ∷ ") should not exceed partitions ("
            ∷ show_int o.partitions
            ∷ ")"
            ∷ []))
      else if ltb_ℤ (pos 0) o.retention_time && ltb_ℤ o.retention_time (pos minute)
      then some (
          errorf (
            "retention time too short: "
            ∷ show_duration o.retention_time
            ∷ " (minimum 1 minute)"
            ∷ []))
      else none

  unfoldable pub check_builder : List Error → String → TopicOptions → Option Error
  check_builder (e ∷ es) topic o = some (
      errorf (
        "builder has "
        ∷ show_int (pos (length (e ∷ es)))
        ∷ " validation errors: "
        ∷ show_errors (e ∷ es)
        ∷ []))
  check_builder [] topic o =
      if str_eq topic "" then some (errorf ("topic name cannot be empty" ∷ [])) else check_options o

  unfoldable pub validate : TopicBuilder → Option Error
  unfolding check_builder check_options
  validate b = check_builder b.errors b.topic b.options

  -- `configure_topic` is the method of the event bus, over a state of its own.
  unfoldable pub build :
      {S : Type 0}
      → (String → TopicOptions → State S (Option Error))
      → TopicBuilder
      → State S (Option Error)
  build configure_topic b = elim (validate b) [
    | some e ↦ pure (some (wrapf "topic builder validation failed: " e))
    | none ↦ do
      problem ← configure_topic b.topic b.options
      pure (prefixed (concat ("failed to configure topic " ∷ b.topic ∷ ": " ∷ [])) problem)
  ]

  unfoldable pub build_high_throughput_topic :
      {S : Type 0}
      → (String → TopicOptions → State S (Option Error))
      → String
      → State S (Option Error)
  unfolding build new_topic_builder for_high_throughput
  build_high_throughput_topic configure_topic topic =
      build configure_topic (for_high_throughput (new_topic_builder topic))

  unfoldable pub build_medium_throughput_topic :
      {S : Type 0}
      → (String → TopicOptions → State S (Option Error))
      → String
      → State S (Option Error)
  unfolding build new_topic_builder for_medium_throughput
  build_medium_throughput_topic configure_topic topic =
      build configure_topic (for_medium_throughput (new_topic_builder topic))

  unfoldable pub build_low_throughput_topic :
      {S : Type 0}
      → (String → TopicOptions → State S (Option Error))
      → String
      → State S (Option Error)
  unfolding build new_topic_builder for_low_throughput
  build_low_throughput_topic configure_topic topic =
      build configure_topic (for_low_throughput (new_topic_builder topic))
