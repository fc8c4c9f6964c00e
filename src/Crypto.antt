-- ===== src/Crypto.antt =====
-- crates/wzp-crypto: the nonce, the anti-replay window and the encrypted session.
pub mod Nonce
pub mod Rekey
pub mod Replay
pub mod Session
mod Tests
