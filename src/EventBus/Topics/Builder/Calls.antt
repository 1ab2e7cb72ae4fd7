-- ===== src/EventBus/Topics/Builder/Calls.antt =====
-- Chains of calls of the methods of a TopicBuilder, and what they keep
-- (sdk/pkg/eventbus/topic_builder.go).
use jxt_core.Base.{
  ℕ, ℤ, pos, ◌≤ℤ◌, String, eq_iff, true, false, Bool-cases, List, [], ◌∷◌, ◌++◌, All, ◌≡◌, ◌≢◌, ◌↔◌,
  ◌∙◌, ◌⊎◌, inl, inr, refl, arith,
}
use jxt_core.Outbox.Event.{Error, errorf}
use jxt_core.EventBus.Topics.Options.{
  TopicOptions, topic_persistent, topic_ephemeral, topic_auto, default_topic_options,
  high_throughput_topic_options, medium_throughput_topic_options, low_throughput_topic_options,
}
use jxt_core.EventBus.Topics.Builder.Defs.{
  TopicBuilder, new_topic_builder, refuse, for_high_throughput, for_medium_throughput,
  for_low_throughput, with_partitions, with_replication, is_compression, with_compression,
  with_compression_level, compressed, no_compression, snappy_compression, gzip_compression,
  lz4_compression, zstd_compression, with_max_size, with_max_messages, with_persistence, persistent,
  ephemeral, with_description, for_production, for_development, for_testing, with_retention,
}

pub data Call : Type 0 where
  high_throughput medium_throughput low_throughput : Call
  partitions_call replication_call level_call gzip_call zstd_call : ℤ → Call
  retention_call max_size_call max_messages_call : ℤ → Call
  compression_call persistence_call description_call : String → Call
  no_compression_call snappy_call lz4_call : Call
  persistent_call ephemeral_call : Call
  production development testing : Call

abbrev pub OneOf : String → List String → Type 0
OneOf s [] = ⊥
OneOf s (t ∷ ts) = (s ≡ t) ⊎ OneOf s ts

abbrev pub compressions : List String
compressions = "" ∷ "none" ∷ "gzip" ∷ "snappy" ∷ "lz4" ∷ "zstd" ∷ []

abbrev pub modes : List String
modes = topic_persistent ∷ topic_ephemeral ∷ topic_auto ∷ []

abbrev pub Between : ℕ → ℕ → ℤ → Type 0
Between least most n = (pos least ≤ℤ n) × (n ≤ℤ pos most)

-- The arguments that a call accepts.
abbrev pub Fits : Call → Type 0
Fits (partitions_call n) = Between 1 100 n
Fits (replication_call n) = Between 1 5 n
Fits (level_call n) = Between 0 22 n
Fits (gzip_call n) = Between 1 9 n
Fits (zstd_call n) = Between 1 22 n
Fits (retention_call n) = pos 1 ≤ℤ n
Fits (max_size_call n) = pos 1 ≤ℤ n
Fits (max_messages_call n) = pos 1 ≤ℤ n
Fits (compression_call c) = OneOf c compressions
Fits (persistence_call m) = OneOf m modes
Fits _ = Unit {0}

pub record InRange (o : TopicOptions) : Type 0 where
  pub partitions_fit : Between 1 100 o.partitions
  pub copies_fit : Between 1 5 o.replication_factor
  pub copies_agree : o.replicas ≡ o.replication_factor
  pub retention_fits : pos 1 ≤ℤ o.retention_time
  pub size_fits : pos 1 ≤ℤ o.max_size
  pub messages_fit : pos 1 ≤ℤ o.max_messages
  pub level_fits : Between 0 22 o.compression_level
  pub compression_fits : OneOf o.compression compressions
  pub mode_fits : OneOf o.persistence_mode modes

is_compression_iff : (c : String) → (is_compression c ≡ true) ↔ OneOf c compressions
unfolding is_compression
is_compression_iff c = ground (
  arith,
  eq_iff c "",
  eq_iff c "none",
  eq_iff c "gzip",
  eq_iff c "snappy",
  eq_iff c "lz4",
  eq_iff c "zstd",
)

unknown : (c : String) → is_compression c ≡ false → ¬ OneOf c compressions
unknown c other h = cc ((is_compression_iff c).1 h)

module _ (show_duration : ℤ → String) where
  unfoldable pub apply : Call → TopicBuilder → TopicBuilder
  apply high_throughput b = for_high_throughput b
  apply medium_throughput b = for_medium_throughput b
  apply low_throughput b = for_low_throughput b
  apply (partitions_call n) b = with_partitions n b
  apply (replication_call n) b = with_replication n b
  apply (level_call n) b = with_compression_level n b
  apply (gzip_call n) b = gzip_compression n b
  apply (zstd_call n) b = zstd_compression n b
  apply (retention_call n) b = with_retention show_duration n b
  apply (max_size_call n) b = with_max_size n b
  apply (max_messages_call n) b = with_max_messages n b
  apply (compression_call c) b = with_compression c b
  apply (persistence_call m) b = with_persistence m b
  apply (description_call d) b = with_description d b
  apply no_compression_call b = no_compression b
  apply snappy_call b = snappy_compression b
  apply lz4_call b = lz4_compression b
  apply persistent_call b = persistent b
  apply ephemeral_call b = ephemeral b
  apply production b = for_production b
  apply development b = for_development b
  apply testing b = for_testing b

  unfoldable pub run : List Call → TopicBuilder → TopicBuilder
  unfolding apply
  run [] b = b
  run (c ∷ cs) b = run cs (apply c b)

  topic-apply : (c : Call) (b : TopicBuilder) → (apply c b).topic ≡ b.topic
  unfolding apply refuse compressed for_high_throughput for_medium_throughput for_low_throughput
      with_partitions with_replication with_compression_level gzip_compression zstd_compression
      with_retention with_max_size with_max_messages with_compression with_persistence
      with_description no_compression snappy_compression lz4_compression persistent ephemeral
      for_production for_development for_testing
  topic-apply high_throughput b = refl
  topic-apply _ b = ground arith

  apply-InRange : (c : Call) (b : TopicBuilder) → InRange b.options → InRange (apply c b).options
  unfolding apply refuse compressed for_high_throughput for_medium_throughput for_low_throughput
      high_throughput_topic_options medium_throughput_topic_options low_throughput_topic_options
      with_partitions with_replication with_compression_level gzip_compression zstd_compression
      with_retention with_max_size with_max_messages with_persistence with_description
      no_compression snappy_compression lz4_compression persistent ephemeral for_production
      for_development for_testing
  apply-InRange high_throughput b h = ground arith
  apply-InRange (compression_call c) b h =
      unfold with_compression in ground (arith, is_compression_iff c)
  apply-InRange (persistence_call m) b h =
      ground (arith, eq_iff m topic_persistent, eq_iff m topic_ephemeral, eq_iff m topic_auto)
  apply-InRange _ b h = ground arith

  append-ne-nil : (es : List Error) (e : Error) → (es ++ e ∷ []) ≢ []
  append-ne-nil [] e h = cc
  append-ne-nil (d ∷ es) e h = cc

  errors-refuse : (pieces : List String) (b : TopicBuilder) → (refuse pieces b).errors ≢ []
  unfolding refuse
  errors-refuse pieces b = append-ne-nil b.errors (errorf pieces)

  errors-apply :
      (c : Call) (b : TopicBuilder) → ((apply c b).errors ≡ []) ↔ ((b.errors ≡ []) × Fits c)
  unfolding apply compressed for_high_throughput for_medium_throughput for_low_throughput
      with_partitions with_replication with_compression_level gzip_compression zstd_compression
      with_retention with_max_size with_max_messages with_persistence with_description
      no_compression snappy_compression lz4_compression persistent ephemeral for_production
      for_development for_testing
  errors-apply high_throughput b = ground arith
  errors-apply (compression_call c) b =
      unfold with_compression in
      elim (Bool-cases (is_compression c)) [
        | inl known ↦ rw known (λ h. (h, (is_compression_iff c).0 known), λ h. h.0)
        | inr other ↦
            rw other (λ h. absurd (errors-refuse _ b h), λ h. absurd (unknown c other h.1))
      ]
  errors-apply (persistence_call m) b = grind (
    arith,
    errors-refuse,
    eq_iff m topic_persistent,
    eq_iff m topic_ephemeral,
    eq_iff m topic_auto,
  )
  errors-apply _ b = grind (arith, errors-refuse)

  pub topic-run : (cs : List Call) (b : TopicBuilder) → (run cs b).topic ≡ b.topic
  unfolding run
  topic-run [] b = refl
  topic-run (c ∷ cs) b = topic-run cs (apply c b) ∙ topic-apply c b

  run-InRange_from :
      (cs : List Call) (b : TopicBuilder) → InRange b.options → InRange (run cs b).options
  unfolding run
  run-InRange_from [] b h = h
  run-InRange_from (c ∷ cs) b h = run-InRange_from cs (apply c b) (apply-InRange c b h)

  pub errors-run :
      (cs : List Call) (b : TopicBuilder)
      → ((run cs b).errors ≡ []) ↔ ((b.errors ≡ []) × All Fits cs)
  unfolding run
  errors-run [] b = ground arith
  errors-run (c ∷ cs) b = ground (arith, errors-run cs (apply c b), errors-apply c b)

  -- Whatever methods are called on a new builder, with whatever arguments, its options stay in
  -- range: 1 to 100 partitions, 1 to 5 copies (the same in both fields), a positive retention time,
  -- size and number of messages, a level of 0 to 22, and a known compression and mode.
  pub run-InRange :
      (topic : String) (cs : List Call) → InRange (run cs (new_topic_builder topic)).options
  unfolding new_topic_builder default_topic_options
  run-InRange topic cs = run-InRange_from cs (new_topic_builder topic) (ground arith)
