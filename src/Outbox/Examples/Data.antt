-- ===== src/Outbox/Examples/Data.antt =====
-- An event, its row, and publishers and schedulers over the table in memory.
use jxt_core.Base.{ℕ, suc, ℤ, pos, String, true, false, none, some, List, [], ◌∷◌}
use jxt_core.Outbox.Event.{Error, foreign, OutboxEvent, EventStatus, pending, failed}
use jxt_core.Outbox.Repository.{EventPublisher}
use jxt_core.Outbox.PublisherConfig.{default_publisher_config}
use jxt_core.Outbox.Publisher.{World, OutboxPublisher}
use jxt_core.Outbox.Scheduler.{OutboxScheduler}
use jxt_core.Outbox.Scheduler.Config.{default_scheduler_config}
use jxt_core.Outbox.Gorm.Table.{OutboxEventModel, from_entity}
use jxt_core.Outbox.Gorm.Store.{GormStore}
use jxt_core.Outbox.Gorm.Repository.{gorm_repository}
use jxt_core.Outbox.Examples.Memory.{memory}

abbrev pub event_of : String → EventStatus → ℤ → OutboxEvent
event_of id status retries = record {
  id = id;
  tenant_id = pos 7;
  aggregate_id = "a1";
  aggregate_type = "Archive";
  event_type = "ArchiveCreated";
  payload = 1 ∷ [];
  status = status;
  retry_count = retries;
  max_retries = pos 3;
  last_error = "";
  created_at = 10;
  updated_at = 10;
  published_at = none;
  scheduled_at = none;
  last_retry_at = none;
  version = pos 1;
  trace_id = "";
  correlation_id = "";
  idempotency_key = id;
}

abbrev pub failed_event : OutboxEvent
failed_event = event_of "e1" failed (pos 1)

abbrev pub pending_event : OutboxEvent
pending_event = event_of "e2" pending (pos 0)

abbrev pub table : List OutboxEventModel
table = from_entity failed_event ∷ from_entity pending_event ∷ []

abbrev pub clock : ℕ → ℕ
clock i = 100

abbrev pub refusal : Error
refusal = record { kind = foreign 3; text = "no broker" }

abbrev pub refusing : EventPublisher
refusing = record {
  Bus = ℕ;
  publish_envelope = λ timeout topic envelope n. (some refusal, suc n);
  is_sync_semantics = false;
}

abbrev pub accepting : EventPublisher
accepting = record {
  Bus = ℕ;
  publish_envelope = λ timeout topic envelope n. (none, suc n);
  is_sync_semantics = true;
}

abbrev pub publisher : EventPublisher → OutboxPublisher
publisher bus = record {
  repo = gorm_repository memory clock;
  event_publisher = bus;
  topic_mapper = λ aggregate_type. "archive-events";
  config = default_publisher_config;
  clock = clock;
  finishing_order = λ es. es;
}

abbrev pub world : {Bus : Type 0} → Bus → World (GormStore (List OutboxEventModel)) Bus
world bus = record {
  store = record { db = table; clock_reads = 0 };
  bus = bus;
  clock_reads = 0;
  metrics = none;
  handled = [];
  collected = [];
  submitted = [];
}

abbrev pub scheduler : EventPublisher → OutboxScheduler
scheduler bus = record {
  publisher = publisher bus;
  config = default_scheduler_config;
  dlq_handler = none;
  dlq_alert_handler = none;
}
