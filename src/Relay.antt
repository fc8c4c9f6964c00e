-- ===== src/Relay.antt =====
-- crates/wzp-relay: the batching of packets into trunks, the registry of direct calls, the presence of
-- users, the sessions, the rooms with what each receiver gets, and the response to abuse.
pub mod Batcher
pub mod Calls
pub mod Presence
pub mod Policy
pub mod Sessions
pub mod Receiver
pub mod Rooms
mod Tests
