-- ===== src/Lib.antt =====
-- Verification of the core of WarzonePhone: the wire format, the encrypted session with its
-- anti-replay window, the call state machine, the blocks of the forward error correction, the
-- framing and retransmission of video, the jitter buffer, the choice of a quality tier, the ring
-- of audio samples, STUN messages, the candidates of two peers, and the relay's batching, its
-- registries of calls, presence and sessions, its rooms with the forwarding of media, and its
-- response to abuse.
--
-- A sender encodes media packets (crates/wzp-proto) in full or in the compact form, encrypts them
-- in a session (crates/wzp-crypto) whose key is moved on by rekeying, and protects them in blocks
-- (crates/wzp-fec); the relay (crates/wzp-relay) forwards them to the other participants of a
-- room, each with its own selected layer and its own limits, gathers packets of several sessions
-- in trunk frames and keeps the registries of direct calls and of who is where. Each module is
-- named for its part, and the children of a module hold what is proved of it.
--
--   Common            lists, options, results, words, bit operations, maps keyed by text
--   Wire.Kinds        crates/wzp-proto/src/media_type.rs and codec_id.rs
--   Wire.Buf          the reading and writing of the `bytes` crate, an interface with its laws
--   Wire.Header       crates/wzp-proto/src/packet.rs: MediaHeaderV2, QualityReport, MiniHeaderV2
--   Wire.Packet       the same file: MediaPacket and MiniFrameContextV2
--   Wire.Trunk        the same file: TrunkEntry and TrunkFrame
--   Crypto.Nonce      crates/wzp-crypto/src/nonce.rs
--   Crypto.Replay     crates/wzp-crypto/src/anti_replay.rs
--   Crypto.Rekey      crates/wzp-crypto/src/rekey.rs
--   Crypto.Session    crates/wzp-crypto/src/session.rs
--   Session           crates/wzp-proto/src/session.rs
--   Fec.EncoderBlocks, Fec.DecoderBlocks   crates/wzp-fec/src/block_manager.rs
--   Fec.Coding        crates/wzp-fec/src/encoder.rs and decoder.rs
--   Fec.Interleave    crates/wzp-fec/src/interleave.rs
--   Relay.Batcher     crates/wzp-relay/src/trunk.rs
--   Relay.Calls       crates/wzp-relay/src/call_registry.rs
--   Relay.Presence    crates/wzp-relay/src/presence.rs and route.rs
--   Relay.Policy      crates/wzp-relay/src/response_policy.rs and verdict.rs
--   Relay.Sessions    crates/wzp-relay/src/session_mgr.rs
--   Relay.Receiver    crates/wzp-relay/src/room.rs: the state kept of one receiver
--   Relay.Rooms       the same file: the rooms, their members and the steps of the manager
--   Quality           crates/wzp-proto/src/quality.rs
--   Jitter            crates/wzp-proto/src/jitter.rs
--   Video.H264        crates/wzp-video/src/framer.rs and depacketizer.rs
--   Video.Av1         crates/wzp-video/src/av1_obu.rs
--   Video.Transport   crates/wzp-video/src/transport.rs
--   Video.Nack        crates/wzp-video/src/nack.rs
--   Client.AudioRing  crates/wzp-client/src/audio_ring.rs
--   Client.Stun       crates/wzp-client/src/stun.rs: the packets
--   Client.Candidates crates/wzp-client/src/reflect.rs, dual_path.rs and ice_agent.rs
--
-- Definitions keep the names of the source's functions; a method that the source calls on two
-- types is in a module per type. `&mut self` is passed in and returned. A fallible read gives
-- `ok`, `absent` for the source's `None`, or `panicked` where the called library or a slice panics. Numbers
-- are natural numbers with the wrap-around of each width written out; arithmetic that overflows
-- wraps, as in a release build, which also leaves out `debug_assert!`. A byte string is a list of
-- numbers. A hash map is a function to options, or an association list where the code counts or
-- lists its entries; a `BTreeMap` is a list of entries in ascending order. The clock is an argument,
-- which an operation reads once.
--
-- Every loop is structural recursion over a list or over the rounds that the code computes
-- beforehand. Five loops over bytes take rounds as a bound: the two splitters, the chunks of a
-- frame and the walk over the attributes of STUN the number of bytes, since each round takes at
-- least one, and the writing of LEB128 ten, which a 64-bit number never exceeds. The eviction of
-- the jitter buffer takes the number of its packets, since each round takes one away.
--
-- Parameters: the `bytes` crate (Wire.Buf.ByteBuf), the authenticated cipher
-- (Crypto.Session.Aead), the key agreement, the key derivation and the hash
-- (Crypto.Rekey.KeySchedule), the decoding of the `raptorq` crate (Fec.Coding), the parsing and
-- the printing of a socket address (Client.Candidates), and the bit rate that a quality tier may
-- take (Quality.Controller), which the code computes in floating point.
--
-- Not modelled: signal messages and their serde encoding, the floating-point parts (FEC ratios,
-- path statistics, the estimates of the playout delay and of the bandwidth, the amount of the FEC
-- boost), the RaptorQ code itself, the audio and video codecs, the simulcast encoder, and the
-- asynchronous network code of the relay, the client and the applications: sockets, federation,
-- metrics, the traversal of address translation beyond the packets of STUN and the choice of what
-- is dialled.
pub mod Client
pub mod Common
pub mod Wire
pub mod Crypto
pub mod Session
pub mod Fec
pub mod Quality
pub mod Relay
pub mod Video
pub mod Jitter
