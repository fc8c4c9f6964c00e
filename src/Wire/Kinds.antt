-- ===== src/Wire/Kinds.antt =====
-- crates/wzp-proto/src/media_type.rs and codec_id.rs: the enumerations of the media header. Their
-- methods share names, so each type's are in a module of their own.
pub mod Media
pub mod Codec
pub use Media.{MediaType, audio, video, data_stream, control}
pub use Codec.{CodecId}
