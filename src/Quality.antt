-- ===== src/Quality.antt =====
-- crates/wzp-proto/src/quality.rs: the adaptive choice of a quality tier.
pub mod Tiers
pub mod Controller
pub mod Invariant
pub mod Moves
pub mod Streak
pub mod Hysteresis
mod Tests
