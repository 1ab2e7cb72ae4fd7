-- ===== src/EventBus/Topics/Compare/Defs.antt =====
-- sdk/pkg/eventbus/topic_config_manager.go: the wanted against the actual options of a topic, and what
-- the strategies allow. Log messages are left out.
use jxt_core.Base.{
  ◌*◌, ◌+◌, leb, ℤ, pos, negsuc, zero, suc, ltb_ℤ, eqb_ℤ, add_int64, max_int, length, String,
  str_eq, show_int, Bool, true, false, not, ◌&&◌, Option, none, some, List, [], ◌∷◌, ◌++◌, is_empty,
  if◌then◌else◌,
}
use jxt_core.Outbox.Event.{Error, errorf}
use jxt_core.EventBus.Topics.Options.{TopicOptions, second}

abbrev pub strategy_create_only : String
strategy_create_only = "create_only"

abbrev pub strategy_create_or_update : String
strategy_create_or_update = "create_or_update"

abbrev pub strategy_validate_only : String
strategy_validate_only = "validate_only"

abbrev pub strategy_skip : String
strategy_skip = "skip"

pub record TopicConfigMismatchAction : Type 0 where
  pub log_level : String
  pub fail_fast : Bool

pub record TopicConfigManagerConfig : Type 0 where
  pub strategy : String
  pub on_mismatch : TopicConfigMismatchAction
  pub enable_validation : Bool
  pub sync_timeout : ℤ

abbrev manager_config : String → String → Bool → TopicConfigManagerConfig
manager_config strategy log_level fail_fast = record {
  strategy = strategy;
  on_mismatch = record { log_level = log_level; fail_fast = fail_fast };
  enable_validation = true;
  sync_timeout = pos (30 * second);
}

unfoldable pub default_topic_config_manager_config : TopicConfigManagerConfig
default_topic_config_manager_config = manager_config strategy_create_or_update "warn" false

unfoldable pub production_topic_config_manager_config : TopicConfigManagerConfig
production_topic_config_manager_config = manager_config strategy_create_only "warn" false

unfoldable pub strict_topic_config_manager_config : TopicConfigManagerConfig
strict_topic_config_manager_config = manager_config strategy_validate_only "error" true

-- The two kinds of `interface{}` that the comparison makes.
pub data Value : Type 0 where
  text_value : String → Value
  int_value : ℤ → Value

pub record TopicConfigMismatch : Type 0 where
  pub topic : String
  pub field_name : String
  pub expected_value : Value
  pub actual_value : Value
  pub can_auto_fix : Bool
  pub recommendation : String

unfoldable pub handle_config_mismatches :
    List TopicConfigMismatch → TopicConfigMismatchAction → Option Error
handle_config_mismatches ms action =
    if is_empty ms
    then none
    else if action.fail_fast
    then some (
        errorf (
          "topic config validation failed: found "
          ∷ show_int (pos (length ms))
          ∷ " mismatches"
          ∷ []))
    else none

-- -d of type int64
abbrev neg_int64 : ℤ → ℤ
neg_int64 (pos zero) = pos 0
neg_int64 (pos (suc n)) = negsuc n
neg_int64 (negsuc n) = if leb max_int n then negsuc n else pos (n + 1)

abbrev abs_int64 : ℤ → ℤ
abs_int64 d = if ltb_ℤ d (pos 0) then neg_int64 d else d

abbrev pub given : ℤ → Bool
given n = ltb_ℤ (pos 0) n

abbrev pub mismatch :
    Bool → String → String → Value → Value → Bool → String → List TopicConfigMismatch
mismatch found topic name expected actual fixable advice =
    if found
    then record {
      topic = topic;
      field_name = name;
      expected_value = expected;
      actual_value = actual;
      can_auto_fix = fixable;
      recommendation = advice;
    }
      ∷ []
    else []

abbrev pub differ : ℤ → ℤ → Bool
differ e a = given e && given a && not (eqb_ℤ e a)

abbrev partitions_advice : Bool → String
partitions_advice true =
    "Partitions can be increased. Set strategy to 'create_or_update' to auto-fix."
partitions_advice false =
    "Partitions cannot be decreased. Consider creating a new topic or accepting current partition count."

-- Whether the retention times differ by more than a second, both being given.
unfoldable pub retentions_differ : ℤ → ℤ → Bool
retentions_differ e a =
    given e && given a && ltb_ℤ (pos second) (abs_int64 (add_int64 e (neg_int64 a)))

unfoldable pub compare_topic_options :
    String → TopicOptions → TopicOptions → List TopicConfigMismatch
unfolding retentions_differ
compare_topic_options topic e a =
    mismatch (not (str_eq e.persistence_mode a.persistence_mode)) topic "PersistenceMode"
      (text_value e.persistence_mode) (text_value a.persistence_mode) false
      "Persistence mode cannot be changed after creation. Consider creating a new topic."
    ++ mismatch (retentions_differ e.retention_time a.retention_time) topic "RetentionTime"
        (int_value e.retention_time) (int_value a.retention_time) true
        "Retention time can be updated. Set strategy to 'create_or_update' to auto-fix."
    ++ mismatch (differ e.max_size a.max_size) topic "MaxSize" (int_value e.max_size)
        (int_value a.max_size) true
        "Max size can be updated. Set strategy to 'create_or_update' to auto-fix."
    ++ mismatch (differ e.max_messages a.max_messages) topic "MaxMessages"
        (int_value e.max_messages) (int_value a.max_messages) true
        "Max messages can be updated. Set strategy to 'create_or_update' to auto-fix."
    ++ mismatch (differ e.replicas a.replicas) topic "Replicas" (int_value e.replicas)
        (int_value a.replicas) false
        "Replicas cannot be changed after creation. Consider creating a new topic."
    ++ mismatch (differ e.partitions a.partitions) topic "Partitions" (int_value e.partitions)
        (int_value a.partitions) (ltb_ℤ a.partitions e.partitions)
        (partitions_advice (ltb_ℤ a.partitions e.partitions))
    ++ mismatch (differ e.replication_factor a.replication_factor) topic "ReplicationFactor"
        (int_value e.replication_factor) (int_value a.replication_factor) false
        "Replication factor cannot be changed after creation. Consider creating a new topic."

pub record Decision : Type 0 where
  pub should_create : Bool
  pub should_update : Bool

unfoldable pub should_create_or_update : String → Bool → Decision
should_create_or_update strategy exists =
    if str_eq strategy strategy_create_only
    then record { should_create = not exists; should_update = false }
    else if str_eq strategy strategy_create_or_update
    then record { should_create = not exists; should_update = exists }
    else if str_eq strategy strategy_validate_only
    then record { should_create = false; should_update = false }
    else if str_eq strategy strategy_skip
    then record { should_create = false; should_update = false }
    else record { should_create = not exists; should_update = exists }
