-- ===== src/Video/Transport.antt =====
-- crates/wzp-video/src/transport.rs: frames of video cut into packets, and put together again. The
-- buffer that the source writes a header to and drops is left out. The loop over the chunks takes the
-- number of bytes as rounds, since each round takes one at least.
pub mod Chunks
pub mod Fragments
pub mod Origin
pub mod RoundTrip
mod Tests
use wzp.Common.{
  ℕ, zero, suc, ◌+◌, ◌-◌, ◌*◌, ◌/◌, ◌%◌, min, bit_and, bit_or, Bool, true, false, not, ◌&&◌, ◌||◌,
  List, [], ◌∷◌, ◌++◌, Option, none, some, leb, ltb, ◌==◌, if◌then◌else◌, length, take, drop,
  get_or,
}
use wzp.Common.Words.{u16_mod, u32_mod, sub32}
use wzp.Common.Keyed.{nat_eq, find, put, delete, retain}
use wzp.Wire.Kinds.Codec.{CodecId}
use wzp.Wire.Kinds.Media
use wzp.Wire.Header.{
  MediaHeader, wire_version, flag_keyframe, flag_frame_end, is_keyframe, is_frame_end,
}
use wzp.Wire.Packet.{MediaPacket}

abbrev pub max_payload : ℕ
max_payload = 1168

abbrev pub meta_len : ℕ
meta_len = 8

-- `VideoFrameMeta`
pub record FrameMeta : Type 0 where
  pub width : ℕ
  pub height : ℕ

-- `ReassembledVideoFrame`
pub record Reassembled : Type 0 where
  pub codec_id : CodecId
  pub is_keyframe : Bool
  pub width : Option ℕ
  pub height : Option ℕ
  pub bytes : List ℕ

-- The arguments of `packetize_video_frame`, but for the sequence number.
pub record VideoFrame : Type 0 where
  pub bytes : List ℕ
  pub codec_id : CodecId
  pub is_keyframe : Bool
  pub timestamp_ms : ℕ
  pub width : ℕ
  pub height : ℕ

-- `(n.min(u16::MAX as u32) as u16).to_be_bytes()`
unfoldable pub dimension_bytes : ℕ → List ℕ
dimension_bytes n = min n 65535 / 256 ∷ min n 65535 % 256 ∷ []

unfoldable pub framed : VideoFrame → List ℕ
framed f =
    (87 ∷ 90 ∷ 86 ∷ 49 ∷ []) ++ (dimension_bytes f.width ++ (dimension_bytes f.height ++ f.bytes))

-- `chunks(VIDEO_MAX_PAYLOAD)`
unfoldable pub chunk_loop : ℕ → List ℕ → List (List ℕ)
chunk_loop zero d = []
chunk_loop (suc fuel) [] = []
chunk_loop (suc fuel) (b ∷ d) =
    take max_payload (b ∷ d) ∷ chunk_loop fuel (drop max_payload (b ∷ d))

unfoldable pub chunks : List ℕ → List (List ℕ)
chunks d = chunk_loop (length d) d

-- The header of the fragment at an index.
unfoldable pub fragment_header : VideoFrame → ℕ → ℕ → ℕ → MediaHeader
fragment_header f total i seq = record {
  version = wire_version;
  flags =
      bit_or (if f.is_keyframe then flag_keyframe else 0)
        (if i + 1 == total then flag_frame_end else 0);
  media_type = Media.video;
  codec_id = f.codec_id;
  stream_id = 0;
  fec_ratio = 0;
  seq = seq;
  timestamp = f.timestamp_ms;
  fec_block = bit_or (i * 256 % u16_mod) total;
}

unfoldable pub fragments_from : VideoFrame → ℕ → ℕ → ℕ → List (List ℕ) → List MediaPacket × ℕ
fragments_from f total i seq [] = ([], seq)
fragments_from f total i seq (c ∷ cs) =
    let rest = fragments_from f total (i + 1) ((seq + 1) % u32_mod) cs in
    (
      record { header = fragment_header f total i seq; payload = c; quality_report = none }
          ∷ rest.0,
      rest.1,
    )

-- The packets and the next sequence number.
unfoldable pub packetize_video_frame : VideoFrame → ℕ → List MediaPacket × ℕ
packetize_video_frame f seq =
    let cs = chunks (framed f) in
    if length f.bytes == 0
    then ([], seq)
    else fragments_from f (min (length cs) 255) 0 seq (take 255 cs)

pub record PendingFrame : Type 0 where
  pub fragments : List (ℕ × List ℕ)
  pub total_fragments : ℕ
  pub is_keyframe : Bool
  pub saw_frame_end : Bool
  pub codec_id : Option CodecId

abbrev pub default_pending : PendingFrame
default_pending = record {
  fragments = [];
  total_fragments = 0;
  is_keyframe = false;
  saw_frame_end = false;
  codec_id = none;
}

-- `pending`, from the timestamp to the frame.
pub record VideoReassembler : Type 0 where
  pub pending : List (ℕ × PendingFrame)

unfoldable pub new_reassembler : VideoReassembler
new_reassembler = record { pending = [] }

abbrev pub or_default : Option PendingFrame → PendingFrame
or_default none = default_pending
or_default (some e) = e

unfoldable pub fragment_index : MediaHeader → ℕ
fragment_index h = h.fec_block / 256 % 256

unfoldable pub fragment_count : MediaHeader → ℕ
fragment_count h = bit_and h.fec_block 0xFF

-- What a packet adds to the entry of its timestamp.
unfoldable pub enter : PendingFrame → MediaPacket → PendingFrame
enter e p = record {
  fragments = put (fragment_index p.header) p.payload e.fragments;
  total_fragments =
      if ltb 0 (fragment_count p.header) then fragment_count p.header else e.total_fragments;
  is_keyframe = if is_keyframe p.header then true else e.is_keyframe;
  saw_frame_end = if is_frame_end p.header then true else e.saw_frame_end;
  codec_id = some p.header.codec_id;
}

unfoldable pub split_payload : List ℕ → Option FrameMeta × List ℕ
split_payload frame =
    let marked =
      (get_or frame 0 0 == 87)
      && ((get_or frame 1 0 == 90) && ((get_or frame 2 0 == 86) && (get_or frame 3 0 == 49))) in
    if ltb (length frame) meta_len || not marked then (none, frame) else (
      some (record {
        width = get_or frame 4 0 * 256 + get_or frame 5 0;
        height = get_or frame 6 0 * 256 + get_or frame 7 0;
      }),
      drop meta_len frame,
    )

-- The loop over the fragments, `n` of them from an index on.
infixl 10 ◌>>=◌
-- The `?` of the source.
abbrev pub ◌>>=◌ {ℓ κ} : {A : Type ℓ} {B : Type κ} → Option A → (A → Option B) → Option B
none >>= f = none
some a >>= f = f a

unfoldable pub gather : List (ℕ × List ℕ) → ℕ → ℕ → Option (List ℕ)
gather fs zero i = some []
gather fs (suc n) i = do v ← find i fs; rest ← gather fs n (i + 1); some (v ++ rest)

unfoldable pub width_of : Option FrameMeta → Option ℕ
width_of none = none
width_of (some m) = some m.width

unfoldable pub height_of : Option FrameMeta → Option ℕ
height_of none = none
height_of (some m) = some m.height

unfoldable pub assemble : PendingFrame → Option Reassembled
assemble e = do
  codec ← e.codec_id
  frame ← gather e.fragments e.total_fragments 0
  some (record {
    codec_id = codec;
    is_keyframe = e.is_keyframe;
    width = width_of (split_payload frame).0;
    height = height_of (split_payload frame).0;
    bytes = (split_payload frame).1;
  })

-- Neither of the two early returns of `push` is taken.
unfoldable pub is_complete : PendingFrame → Bool
is_complete e =
    e.saw_frame_end && not ((e.total_fragments == 0) || ltb (length e.fragments) e.total_fragments)

-- The end of `push`, with the entry of the timestamp.
unfoldable pub settle : VideoReassembler → ℕ → PendingFrame → Option Reassembled × VideoReassembler
settle r timestamp e =
    if is_complete e
    then (assemble e, record r { pending = delete timestamp r.pending })
    else (none, record r { pending = put timestamp e r.pending })

unfoldable pub push : VideoReassembler → MediaPacket → Option Reassembled × VideoReassembler
push r p = settle r p.header.timestamp (enter (or_default (find p.header.timestamp r.pending)) p)

unfoldable pub evict_stale : VideoReassembler → ℕ → ℕ → VideoReassembler
evict_stale r now max_age_ms = record r {
  pending = retain (λ entry. leb (sub32 now entry.0) max_age_ms) r.pending;
}
