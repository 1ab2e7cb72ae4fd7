-- ===== src/EventBus/Topics/Nats/Defs.antt =====
-- ensureTopicInJetStreamIdempotent, getActualTopicConfig and the name of a topic's stream, of
-- sdk/pkg/eventbus/nats.go. The server is a state that the calls of nats.go's JetStreamContext read and
-- change; those calls are parameters. The single flight runs one call at a time.
use Prim.Native.Char.{code}
use jxt_core.Base.{
  ◌==◌, ℤ, pos, ltb_ℤ, eqb_ℤ, String, str_eq, str_append, Bool, true, false, not, ◌||◌, Option,
  none, some, List, [], ◌∷◌, ◌++◌, if◌then◌else◌, State,
}
use jxt_core.Outbox.Event.{Error, wrapf}
use jxt_core.Outbox.Repository.{Result, ok, err}
use jxt_core.EventBus.Topics.Options.{TopicOptions, topic_persistent}
use jxt_core.EventBus.Topics.Nats.Subjects.{subject_matches}

-- nats.StreamConfig; the storage and the retention policy are constants here.
pub record StreamConfig : Type 0 where
  pub name : String
  pub subjects : List String
  pub max_age : ℤ
  pub max_bytes : ℤ
  pub max_msgs : ℤ
  pub replicas : ℤ

-- StreamInfo: the stream, ErrStreamNotFound, or another error.
pub data StreamInfo : Type 0 where
  found : StreamConfig → StreamInfo
  not_found : StreamInfo
  failed : Error → StreamInfo

pub record JetStream : Type 1 where
  pub Store : Type 0
  -- The error of getJetStreamContext.
  pub unavailable : Store → Option Error
  pub stream_info : String → State Store StreamInfo
  pub add_stream : StreamConfig → State Store (Option Error)
  pub update_stream : StreamConfig → State Store (Option Error)
  pub stream_not_found : Error
  pub Message : Type 0
  pub publish_async : String → Message → State Store (Option Error)
  -- The error of getConn, and Publish of the connection.
  pub disconnected : Store → Option Error
  pub publish_core : String → Message → State Store (Option Error)

-- strings.ReplaceAll(s, ".", "_")
unfoldable pub underscored : String → String
underscored String.[] = ""
underscored (String.◌∷◌ c s) =
    str_append (if code c == 46 then "_" else String.◌∷◌ c String.[]) (underscored s)

-- `configured` is the stream name of the configuration.
unfoldable pub get_stream_name_for_topic : String → String → String
unfolding underscored
get_stream_name_for_topic configured topic =
    if not (str_eq configured "") then configured else str_append "STREAM_" (underscored topic)

abbrev or_given : ℤ → ℤ → ℤ
or_given n d = if ltb_ℤ (pos 0) n then n else d

unfoldable pub expected_config : String → String → TopicOptions → StreamConfig
expected_config name topic o = record {
  name = name;
  subjects = topic ∷ [];
  max_age = or_given o.retention_time (pos 0);
  max_bytes = or_given o.max_size (pos 0);
  max_msgs = or_given o.max_messages (pos 0);
  replicas = or_given o.replicas (pos 1);
}

-- The loop over the subjects.
unfoldable pub topic_exists : List String → String → Bool
topic_exists [] topic = false
topic_exists (s ∷ ss) topic = subject_matches s topic || topic_exists ss topic

abbrev pub needs_update : StreamConfig → StreamConfig → Bool
needs_update e c =
    not (eqb_ℤ e.max_age c.max_age)
    || not (eqb_ℤ e.max_bytes c.max_bytes)
    || not (eqb_ℤ e.max_msgs c.max_msgs)

abbrev pub with_topic : String → StreamConfig → StreamConfig
with_topic topic c = record c { subjects = c.subjects ++ topic ∷ [] }

abbrev pub with_limits : StreamConfig → StreamConfig → StreamConfig
with_limits e c = record c { max_age = e.max_age; max_bytes = e.max_bytes; max_msgs = e.max_msgs }

abbrev pub wrapped_by : String → Option Error → Option Error
wrapped_by before none = none
wrapped_by before (some e) = some (wrapf before e)

module _ (j : JetStream) where
  open j use {Store, unavailable, stream_info, add_stream, update_stream, stream_not_found}

  -- The limits of a stream that has the topic; a failure is only logged.
  unfoldable pub update_limits : Bool → StreamConfig → StreamConfig → Store → Store
  update_limits allow_update e c s = elim allow_update [
    | false ↦ s
    | true ↦ if needs_update e c then (update_stream (with_limits e c) s).1 else s
  ]

  -- After the topic was added, or the error of adding it.
  unfoldable pub topic_added :
      Bool → StreamConfig → StreamConfig → Option Error → State Store (Option Error)
  unfolding update_limits
  topic_added allow_update e c (some problem) s =
      (some (wrapf "failed to add topic to stream: " problem), s)
  topic_added allow_update e c none s = (none, update_limits allow_update e c s)

  unfoldable pub ensure_in_stream :
      String → Bool → StreamConfig → StreamInfo → State Store (Option Error)
  unfolding topic_added update_limits
  ensure_in_stream topic allow_update e not_found s =
      (wrapped_by "failed to create stream: " (add_stream e s).0, (add_stream e s).1)
  ensure_in_stream topic allow_update e (failed problem) s =
      (some (wrapf "failed to get stream info: " problem), s)
  ensure_in_stream topic allow_update e (found c) s =
      if topic_exists c.subjects topic
      then (none, update_limits allow_update e c s)
      else topic_added allow_update e (with_topic topic c) (update_stream (with_topic topic c) s).0
          (update_stream (with_topic topic c) s).1

  unfoldable pub ensure_topic_in_jet_stream_idempotent :
      String → String → TopicOptions → Bool → State Store (Option Error)
  unfolding ensure_in_stream expected_config
  ensure_topic_in_jet_stream_idempotent name topic o allow_update s = elim (unavailable s) [
    | some e ↦ (some (wrapf "JetStream not enabled: " e), s)
    | none ↦
        ensure_in_stream topic allow_update (expected_config name topic o) (stream_info name s).0
          (stream_info name s).1
  ]

  unfoldable pub actual_of : StreamInfo → Result TopicOptions
  actual_of (failed e) = err (wrapf "failed to get stream info: " e)
  actual_of not_found = err (wrapf "failed to get stream info: " stream_not_found)
  actual_of (found c) = ok (record {
    persistence_mode = topic_persistent;
    retention_time = c.max_age;
    max_size = c.max_bytes;
    max_messages = c.max_msgs;
    replicas = c.replicas;
    partitions = pos 0;
    replication_factor = pos 0;
    compression = "";
    compression_level = pos 0;
    description = "";
  })

  unfoldable pub get_actual_topic_config : String → State Store (Result TopicOptions)
  unfolding actual_of
  get_actual_topic_config name s = elim (unavailable s) [
    | some e ↦ (err (wrapf "JetStream not enabled: " e), s)
    | none ↦ (actual_of (stream_info name s).0, (stream_info name s).1)
  ]
