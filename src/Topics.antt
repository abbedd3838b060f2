-- ===== src/Topics.antt =====
-- packages/uns-core/src/uns/uns-topic-matcher.ts and packages/uns-core/src/uns-mqtt/mqtt-topic-builder.ts.
pub mod Split
pub mod Matcher
pub mod Builder
mod Tests
