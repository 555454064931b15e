-- ===== src/Messages.antt =====
-- Messages between nodes, main-server/src/mq/index.js: Inbound has the messages received until they are
-- processed, Opened how one is sealed, opened and checked.
pub mod Inbound
pub mod Opened
