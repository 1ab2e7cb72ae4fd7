-- ===== src/EventBus/Topics/Kafka/Cluster.antt =====
-- What the topic configuration of sdk/pkg/eventbus/kafka.go tells and asks sarama's ClusterAdmin: its
-- calls, the settings of a topic, and what is read of them.
use jxt_core.Base.{
  ◌/◌, ◌%◌, ◌^◌, ◌-◌, leb, ℤ, pos, negsuc, ltb_ℤ, length, String, str_eq, show_int, Bool, true, not,
  ◌&&◌, Option, none, some, List, [], ◌∷◌, ◌++◌, if◌then◌else◌, State, string_eq,
}
use jxt_core.Outbox.Event.{Error, wrapf}
use jxt_core.Outbox.Repository.{Result, ok}
use jxt_core.EventBus.Health.Defs.{to_int32}
use jxt_core.EventBus.Topics.Options.{TopicOptions, topic_persistent, is_persistent}

-- sarama.PartitionMetadata: the ids of the replicas.
pub record PartitionMetadata : Type 0 where
  pub replicas : List ℤ

-- sarama.TopicMetadata; ErrNoError is 0.
pub record TopicMetadata : Type 0 where
  pub error_code : ℤ
  pub partitions : List PartitionMetadata

-- sarama.TopicDetail
pub record TopicDetail : Type 0 where
  pub num_partitions : ℤ
  pub replication_factor : ℤ
  pub config_entries : List (String × String)

-- sarama.ConfigEntry
pub record ConfigEntry : Type 0 where
  pub name : String
  pub value : String

pub record ClusterAdmin : Type 1 where
  pub Store : Type 0
  -- The error of getAdmin.
  pub unavailable : Store → Option Error
  pub describe_topics : List String → State Store (Result (List TopicMetadata))
  pub describe_config : String → State Store (Result (List ConfigEntry))
  pub create_topic : String → TopicDetail → State Store (Option Error)
  pub create_partitions : String → ℤ → State Store (Option Error)
  pub alter_config : String → List (String × String) → State Store (Option Error)
  pub parse_duration : String → Option ℤ
  pub scan_int : String → Option ℤ
  -- sarama.KError of a code.
  pub code_error : ℤ → Error

abbrev pub given : ℤ → Bool
given n = ltb_ℤ (pos 0) n

-- int16(n)
unfoldable pub to_int16 : ℤ → ℤ
to_int16 (pos n) = let m = n % 2 ^ 16 in if leb m 32767 then pos m else negsuc (65535 - m)
to_int16 (negsuc n) = let m = n % 2 ^ 16 in if leb m 32767 then negsuc m else pos (65535 - m)

-- d.Milliseconds() of a positive duration
abbrev milliseconds : ℤ → ℤ
milliseconds (pos n) = pos (n / 1000000)
milliseconds (negsuc n) = negsuc n

abbrev entry : Bool → String → String → List (String × String)
entry set key value = if set then (key, value) ∷ [] else []

abbrev is_compressed : TopicOptions → Bool
is_compressed o = not (str_eq o.compression "") && not (str_eq o.compression "none")

-- The entries of AlterConfig.
unfoldable pub update_entries : TopicOptions → List (String × String)
update_entries o =
    entry (given o.retention_time) "retention.ms" (show_int (milliseconds o.retention_time))
    ++ entry (given o.max_size) "retention.bytes" (show_int o.max_size)
    ++ entry (is_compressed o) "compression.type" o.compression

-- The entries of CreateTopic.
unfoldable pub create_entries : TopicOptions → List (String × String)
create_entries o =
    (if is_persistent o true
      then entry (given o.retention_time) "retention.ms" (show_int (milliseconds o.retention_time))
        ++ entry (given o.max_size) "retention.bytes" (show_int o.max_size)
      else ("retention.ms", "60000") ∷ [])
    ++ ("cleanup.policy", "delete") ∷ []
    ++ entry (is_compressed o) "compression.type" o.compression

unfoldable pub topic_detail : TopicOptions → TopicDetail
unfolding create_entries
topic_detail o = record {
  num_partitions = if given o.partitions then to_int32 o.partitions else pos 1;
  replication_factor =
      if given o.replication_factor
      then to_int16 o.replication_factor
      else if given o.replicas
      then to_int16 o.replicas
      else pos 1;
  config_entries = create_entries o;
}

abbrev pub wrapped_by : String → Option Error → Option Error
wrapped_by before none = none
wrapped_by before (some e) = some (wrapf before e)

abbrev pub unavailable_error : Error → Error
unavailable_error e = wrapf "Kafka admin client not available: " e

-- The number of partitions that the broker answers, as an int32.
abbrev pub actual_partitions : TopicMetadata → ℤ
actual_partitions m = to_int32 (pos (length m.partitions))

-- TopicOptions{PersistenceMode: TopicPersistent}
abbrev pub bare_options : TopicOptions
bare_options = record {
  persistence_mode = topic_persistent;
  retention_time = pos 0;
  max_size = pos 0;
  max_messages = pos 0;
  replicas = pos 0;
  partitions = pos 0;
  replication_factor = pos 0;
  compression = "";
  compression_level = pos 0;
  description = "";
}

abbrev pub or_kept : Option ℤ → ℤ → ℤ
or_kept none n = n
or_kept (some m) n = m

abbrev replicas_of : List PartitionMetadata → ℤ → ℤ
replicas_of [] n = n
replicas_of (p ∷ ps) n = pos (length p.replicas)

-- The partitions and replicas, where the topic was described.
abbrev pub with_metadata : Result (List TopicMetadata) → TopicOptions → TopicOptions
with_metadata (ok (m ∷ ms)) o = record o {
  partitions = pos (length m.partitions);
  replicas = replicas_of m.partitions o.replicas;
}
with_metadata _ o = o
