-- ===== src/Lib.antt =====
-- Verification of jxt-core: the transactional outbox (sdk/pkg/outbox), the pipeline that commits the
-- offsets of a Kafka partition (sdk/pkg/eventbus/partition_pipeline.go), the configuration of the
-- tenants (sdk/pkg/tenant), the encryption of their passwords (sdk/pkg/crypto), the cache in memory
-- (storage/cache/memory.go), and of the event bus (sdk/pkg/eventbus) the watching of health check
-- messages (health_check_subscriber.go), the message envelope (envelope.go), the configuration of
-- topics (topic_builder.go, topic_config_manager.go and parts of type.go, kafka.go and nats.go), the
-- publishing to NATS (Publish of nats.go), and its own configuration (sdk/config/eventbus.go).
--
-- A service writes its domain events to the table outbox_events. The scheduler polls the table through
-- the repository and has the publisher hand the events to a message bus; what the bus acknowledges is
-- marked as published, through a batcher if one is configured, and what it refuses is marked as failed
-- and retried. On the consumer's side the pipeline hands the messages of a partition to a pool, sends
-- failed envelopes to a dead letter queue, and marks the offset up to which all is done. The provider
-- loads the tenants' configuration from etcd, follows its changes by a watch, and answers lookups from
-- memory; the middleware asks it which tenant a request is for. A topic builder collects the options of
-- a topic and hands them to ConfigureTopic of the event bus, which creates the topic, or changes or
-- compares it, according to a strategy.
--
-- Base                     native numbers, Go's int, lists, text, state passing
-- Outbox/Event             event.go and the messages of event_publisher.go
-- Outbox/Repository        the interfaces of repository.go and event_publisher.go
-- Outbox/PublisherConfig   PublisherConfig of publisher.go
-- Outbox/Publisher         publisher.go: Defs has PublishEvent, Batch has PublishBatch and what it calls,
--                          Metrics has GetMetrics and ResetMetrics, Ack has handleACKResult; the
--                          other files are laws
-- Outbox/AckBatcher        ack_marker_batcher.go
-- Outbox/Adapter           adapters/eventbus_adapter.go, and an event's way to a consumer (Laws)
-- Outbox/TopicMapper       topic_mapper.go
-- Outbox/Scheduler         scheduler.go: Config, the ticks of the loops (Defs), Start and Stop (Lifecycle)
-- Outbox/Gorm              adapters/gorm: the table (Table), the finders and writers of repository.go
-- Outbox/Retry             a retry from the scheduler down to the row
-- EventBus/Pipeline        partition_pipeline.go: the map of messages in flight (Inflight), the steps of
--                          run and flush (Defs), and the laws of the runs
-- Tenant/Provider          provider/models.go (Models) and provider/provider.go: the keys (Keys), the data
--                          and its lookups (Data, Index), LoadAll (Load), the handlers of the watch
--                          (Watch), watchLoop (Loop); View is the abstract view, with its steps, Scan the
--                          lookups as a search without an index; the other files are laws
-- Tenant/Middleware        middleware/extract_tenant_id.go: the options (Config) and the handler (Extract)
-- Tenant/Clients           database, ftp, storage and wvp, each cache.go and config.go
-- Tenant/Numbers           numbers written and read as decimal text
-- Crypto                   crypto/aes_gcm.go and DecryptPassword of provider/models.go
-- Storage/Cache            storage/cache/memory.go; Counter and SetNx are laws
-- EventBus/Envelope        envelope.go (Defs), and laws
-- EventBus/Health          health_check_subscriber.go: its state under messages and ticks (Defs), and laws
-- EventBus/Topics          Options and Names: type.go; Builder: topic_builder.go; Compare:
--                          topic_config_manager.go; Kafka: ConfigureTopic of kafka.go and what it calls
--                          (Cluster, Defs); Nats: nats.go's subjectMatches (Subjects), how a topic gets into its
--                          stream (Defs), and ConfigureTopic and Publish (Publish); in
--                          Builder and Compare, Defs are the definitions; the other files are laws
-- Config/EventBusConfig    sdk/config/eventbus.go: the structs (Structs), SetDefaults (Defaults), Validate
--                          (Rules, NatsChecks, Checks); Thresholds, Parts, Kinds, Streams and Nats say
--                          what is accepted, the other files are laws
-- The modules named Examples hold the theorems at concrete inputs.
--
-- State and calls. A function of the publisher or of the repository takes its state and returns the
-- answer and the new state; a Go error is its text and its concrete type, nil is `none`. The fields keep
-- the source's names. An interface (OutboxRepository, EventPublisher) is a record of functions over a
-- state of its own, and so are the calls of gorm: `Gorm` is a parameter, and `Laws` what its
-- documentation says of Find, First, Updates, Create, Save, Delete and Count; Outbox/Examples/Memory is one
-- such table. The clock is a parameter, a function from the number of readings so far.
-- The provider's data are a record of association lists, and a snapshot is a value: what two snapshots
-- share in memory is not modelled. What json.Unmarshal makes of each kind of value is a parameter
-- (Codec), as are strings.ToLower and strings.TrimSpace, the answers of etcd, the content of the cache
-- file with its decoding (FileCache), AES, GCM and Base64 (Library, with IsLibrary for what their
-- documentation says), the JSON package of the message envelope (another Library), and the package
-- cast (Cast). Go's maps are walked in the order of the lists. A Kafka cluster or a NATS server is a
-- state which the calls of the client library (ClusterAdmin, JetStream) read and change; Reads,
-- KeepsPartitions and IsJetStream say what these are documented to do. Of the floating-point numbers in
-- the configuration only the tests and the constant are used (Floats). How Go prints a duration is a
-- parameter.
--
-- Numbers. An int is an integer whose `++` wraps at 2^63, a counter is an int64's bit pattern; instants
-- and Kafka offsets are natural numbers. The loop of advanceFrontier runs on fuel, the number of
-- messages in flight, which is enough since each round takes one message away; a number's digits are
-- written on fuel, its successor, since a number has fewer digits than that.
--
-- Concurrency. The goroutines of a concurrent batch run one after the other in an order that is a
-- parameter. The ticks of the scheduler's loops do not overlap. The batcher and the pipeline get what
-- their `select` statements may receive as sequences of signals or events, in any order; so does the
-- provider's watchLoop. A method of the cache in memory is one step, also those that take no lock,
-- and so is a method of the NATS event bus; no one else changes the server's streams.
--
-- Not modelled: the start and stop of the ACK listener of publisher.go, transactions and SaveBatch of
-- the gorm repository, the waiting of Scheduler.Stop with its timeout, the stall warning and the
-- timeout of flush, and contexts but for the timeout of a publication; the start and stop of the
-- provider's watch and the writing of its cache file. Of the other packages, publishing in kafka.go,
-- envelopes and subscriptions in kafka.go and nats.go, logging and the rest of the web middleware
-- are calls of third-party packages, and the rest of eventbus and of the configuration, the queues and
-- the locks are not covered yet.
pub mod Base
pub mod Outbox
pub mod EventBus
pub mod Tenant
pub mod Config
pub mod Crypto
pub mod Storage
