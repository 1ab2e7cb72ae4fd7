-- ===== src/Config/EventBusConfig/Examples.antt =====
-- The theorem on the configuration of the event bus at a concrete input.
use jxt_core.Base.{ℕ, zero, ◌==◌, pos, true, false, none, [], ◌≡◌, ◌↔◌, refl, arith}
use jxt_core.Config.EventBusConfig.Structs.{Floats, IsFloats, EventBusConfig}
use jxt_core.Config.EventBusConfig.Defaults.{set_defaults}
use jxt_core.Config.EventBusConfig.Checks.{validate}
use jxt_core.Config.EventBusConfig.Cases.{CommonAccepted, KindAccepted}
use jxt_core.Config.EventBusConfig.Laws.{validate-set_defaults}

-- Whole numbers in the place of floats.
abbrev whole : Floats
whole = record { Float = ℕ; is_zero = λ n. n == 0; is_not_positive = λ n. n == 0; thousand = 1000 }

whole_laws : IsFloats whole
whole_laws = record { thousand_positive = refl }

-- Only the name of the service and the health check are set, with 6 as the warning threshold.
abbrev orders_config : EventBusConfig whole
orders_config = record {
  kind = "";
  service_name = "orders";
  health_check = record {
    enabled = true;
    publisher = record {
      topic = "";
      interval = pos 0;
      timeout = pos 0;
      failure_threshold = pos 0;
      message_ttl = pos 0;
    };
    subscriber = record {
      topic = "";
      monitor_interval = pos 0;
      warning_threshold = pos 6;
      error_threshold = pos 0;
      critical_threshold = pos 0;
    };
  };
  monitoring = record { enabled = false; collect_interval = pos 0; export_endpoint = "" };
  security = record {
    enabled = false;
    protocol = "";
    username = "";
    password = "";
    cert_file = "";
    key_file = "";
    ca_file = "";
  };
  publisher = record {
    max_reconnect_attempts = pos 0;
    initial_backoff = pos 0;
    max_backoff = pos 0;
    publish_timeout = pos 0;
    backlog_detection = record {
      enabled = false;
      max_queue_depth = pos 0;
      max_publish_latency = pos 0;
      rate_threshold = zero;
      check_interval = pos 0;
    };
    rate_limit = record { enabled = true; rate_per_second = zero; burst_size = pos 0 };
    error_handling = record {
      dead_letter_topic = "";
      max_retry_attempts = pos 0;
      retry_backoff_base = pos 0;
      retry_backoff_max = pos 0;
    };
  };
  subscriber = record {
    max_concurrency = pos 0;
    process_timeout = pos 0;
    backlog_detection = record {
      enabled = false;
      max_lag_threshold = pos 0;
      max_time_threshold = pos 0;
      check_interval = pos 0;
    };
    rate_limit = record { enabled = false; rate_per_second = zero; burst_size = pos 0 };
    error_handling = record {
      dead_letter_topic = "";
      max_retry_attempts = pos 0;
      retry_backoff_base = pos 0;
      retry_backoff_max = pos 0;
    };
  };
  kafka = record {
    brokers = [];
    producer = record {
      required_acks = pos 0;
      flush_frequency = pos 0;
      flush_messages = pos 0;
      timeout = pos 0;
    };
    consumer = record {
      group_id = "";
      auto_offset_reset = "";
      session_timeout = pos 0;
      heartbeat_interval = pos 0;
    };
  };
  nats = record {
    urls = [];
    client_id = "";
    max_reconnects = pos 0;
    reconnect_wait = pos 0;
    connection_timeout = pos 0;
    jet_stream = record {
      enabled = false;
      domain = "";
      api_prefix = "";
      publish_timeout = pos 0;
      ack_wait = pos 0;
      max_deliver = pos 0;
      stream = record {
        name = "";
        subjects = [];
        retention = "";
        storage = "";
        replicas = pos 0;
        max_age = pos 0;
        max_bytes = pos 0;
        max_msgs = pos 0;
        discard = "";
      };
      consumer = record {
        durable_name = "";
        deliver_policy = "";
        ack_policy = "";
        replay_policy = "";
        max_ack_pending = pos 0;
        max_waiting = pos 0;
        max_deliver = pos 0;
        back_off = [];
      };
    };
    security = record {
      enabled = false;
      token = "";
      username = "";
      password = "";
      nkey_file = "";
      cred_file = "";
      cert_file = "";
      key_file = "";
      ca_file = "";
      skip_verify = false;
    };
  };
  memory = record { max_channel_size = pos 0; buffer_size = pos 0 };
}

validate-set_defaults_example :
    (validate whole (set_defaults whole orders_config) ≡ none)
    ↔ (CommonAccepted whole whole_laws orders_config × KindAccepted whole whole_laws orders_config)
validate-set_defaults_example = validate-set_defaults whole whole_laws orders_config

-- A warning threshold of 6 is refused, since the error threshold is left at 5.
six_refused : ¬ (validate whole (set_defaults whole orders_config) ≡ none)
six_refused h =
    let (_, _, _, _, _, _, order, _) =
      ((validate-set_defaults whole whole_laws orders_config).0 h).0.health refl in
    absurd (omega arith)
