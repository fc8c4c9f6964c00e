-- ===== src/Video.antt =====
-- crates/wzp-video: the framing of video, its transport in packets and the requests for lost packets.
pub mod H264
pub mod Av1
pub mod Nack
pub mod Transport
mod Tests
