-- ===== src/EventBus/Topics/Options.antt =====
-- TopicOptions of sdk/pkg/eventbus/type.go with its presets. Durations are nanoseconds; the modes of
-- persistence and the compressions are Go strings.
use jxt_core.Base.{ℕ, ◌*◌, ℤ, pos, String, str_eq, Bool, true, false, if◌then◌else◌}

pub record TopicOptions : Type 0 where
  pub persistence_mode : String
  pub retention_time : ℤ
  pub max_size : ℤ
  pub max_messages : ℤ
  pub replicas : ℤ
  pub partitions : ℤ
  pub replication_factor : ℤ
  pub compression : String
  pub compression_level : ℤ
  pub description : String

abbrev pub topic_persistent : String
topic_persistent = "persistent"

abbrev pub topic_ephemeral : String
topic_ephemeral = "ephemeral"

abbrev pub topic_auto : String
topic_auto = "auto"

abbrev pub second : ℕ
second = 1000000000

abbrev pub minute : ℕ
minute = 60000000000

abbrev pub hour : ℕ
hour = 3600000000000

abbrev pub mebibyte : ℕ
mebibyte = 1048576

unfoldable pub default_topic_options : TopicOptions
default_topic_options = record {
  persistence_mode = topic_auto;
  retention_time = pos (24 * hour);
  max_size = pos (100 * mebibyte);
  max_messages = pos 10000;
  replicas = pos 1;
  partitions = pos 1;
  replication_factor = pos 1;
  compression = "";
  compression_level = pos 0;
  description = "";
}

unfoldable pub high_throughput_topic_options : TopicOptions
high_throughput_topic_options = record {
  persistence_mode = topic_persistent;
  retention_time = pos (7 * 24 * hour);
  max_size = pos (1024 * mebibyte);
  max_messages = pos 1000000;
  replicas = pos 3;
  partitions = pos 10;
  replication_factor = pos 3;
  compression = "snappy";
  compression_level = pos 6;
  description = "High throughput topic with 10 partitions and snappy compression";
}

unfoldable pub medium_throughput_topic_options : TopicOptions
medium_throughput_topic_options = record {
  persistence_mode = topic_persistent;
  retention_time = pos (3 * 24 * hour);
  max_size = pos (500 * mebibyte);
  max_messages = pos 100000;
  replicas = pos 3;
  partitions = pos 5;
  replication_factor = pos 3;
  compression = "snappy";
  compression_level = pos 6;
  description = "Medium throughput topic with 5 partitions and snappy compression";
}

unfoldable pub low_throughput_topic_options : TopicOptions
low_throughput_topic_options = record {
  persistence_mode = topic_persistent;
  retention_time = pos (24 * hour);
  max_size = pos (100 * mebibyte);
  max_messages = pos 10000;
  replicas = pos 3;
  partitions = pos 3;
  replication_factor = pos 3;
  compression = "snappy";
  compression_level = pos 6;
  description = "Low throughput topic with 3 partitions and snappy compression";
}

unfoldable pub is_persistent : TopicOptions → Bool → Bool
is_persistent o global_jet_stream_enabled =
    if str_eq o.persistence_mode topic_persistent
    then true
    else if str_eq o.persistence_mode topic_ephemeral
    then false
    else global_jet_stream_enabled
