-- ===== src/EventBus/Topics/Nats.antt =====
-- NATS topics (sdk/pkg/eventbus/nats.go): which topics a subject covers (Subjects), how a topic gets into
-- its stream (Defs, and that it is covered then, Coverage), ConfigureTopic and Publish (Publish), and
-- what holds of their calls (Routes).
pub mod Subjects
pub mod Defs
pub mod Coverage
pub mod Publish
pub mod Ensured
pub mod Routes
pub mod Runs
