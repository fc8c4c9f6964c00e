-- ===== src/Wire.antt =====
-- crates/wzp-proto: what travels on the wire. The definitions are in the children named for the
-- source's types; what is proved of them is in the children below those.
pub mod Kinds
pub mod Buf
pub mod Header
pub mod Packet
pub mod Trunk
mod Tests
