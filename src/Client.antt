-- ===== src/Client.antt =====
-- crates/wzp-client: the ring of samples between the audio threads, the packets of STUN, and the candidates
-- of two peers.
pub mod AudioRing
pub mod Stun
pub mod Candidates
mod Tests
