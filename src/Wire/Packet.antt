-- ===== src/Wire/Packet.antt =====
-- crates/wzp-proto/src/packet.rs: the media packet, in full and in the compact form whose mini
-- frames are deltas against the last header. A `&mut` context is passed in and returned; where a
-- decoder returns `None` it leaves the context as it was.
pub mod Full
pub mod Compact
pub mod Stream
use wzp.Common.{
  ℕ, ◌+◌, ◌-◌, ◌%◌, ◌<◌, ◌≡◌, Bool, true, false, ◌&&◌, List, [], ◌∷◌, ◌++◌, Option, none, some,
  Outcome, ok, absent, panicked, ◌>>=◌, ◌>>◌, ensure, try_some, or_panic, ltb, leb, ◌==◌,
  if◌then◌else◌, length, take, drop,
}
use wzp.Common.Words.{u16_mod, add32, sub32}
use wzp.Wire.Buf.{ByteBuf}
use wzp.Wire.Header.{
  MediaHeader, QualityReport, MiniHeader, IsHeader, IsReport, has_quality, wire_size, report_size,
  mini_size, write_header, read_header, write_report, read_report, write_mini, read_mini,
}

pub record MediaPacket : Type 0 where
  pub header : MediaHeader
  pub payload : List ℕ
  pub quality_report : Option QualityReport

abbrev pub mini_frame_full_interval : ℕ
mini_frame_full_interval = 50

abbrev pub frame_type_full : ℕ
frame_type_full = 0

abbrev pub frame_type_mini : ℕ
frame_type_mini = 1

-- `MiniFrameContextV2`
pub record MiniFrameContext : Type 0 where
  pub last : Option MediaHeader

abbrev pub empty_context : MiniFrameContext
empty_context = record { last = none }

unfoldable pub update : MiniFrameContext → MediaHeader → MiniFrameContext
update ctx h = record { last = some h }

-- The header that a mini header stands for, against a base.
abbrev pub expanded : MediaHeader → MiniHeader → MediaHeader
expanded base m = record base {
  seq = add32 base.seq m.seq_delta;
  timestamp = add32 base.timestamp m.timestamp_delta_ms;
}

unfoldable pub expand : MiniFrameContext → MiniHeader → Option (MediaHeader × MiniFrameContext)
expand ctx m = elim ctx.last [
  | none ↦ none
  | some base ↦ some (expanded base m, record { last = some (expanded base m) })
]

-- `&data[a..]` and `&data[a..b]` of the standard library, which panic out of range.
abbrev pub suffix_from : ℕ → List ℕ → Outcome (List ℕ)
suffix_from a d = if leb a (length d) then ok (drop a d) else panicked

abbrev pub range : ℕ → ℕ → List ℕ → Outcome (List ℕ)
range a b d = if leb a b && leb b (length d) then ok (take (b - a) (drop a d)) else panicked

-- What `encode_compact` returns, and the context and the counter that it leaves.
pub record Encoded : Type 0 where
  pub bytes : List ℕ
  pub context : MiniFrameContext
  pub frames_since_full : ℕ

module _ (w : ByteBuf) where
  open w use {put_u8, slice}

  abbrev pub report_bytes : Option QualityReport → List ℕ
  report_bytes none = []
  report_bytes (some q) = write_report w q

  unfoldable pub to_bytes : MediaPacket → List ℕ
  to_bytes p = write_header w p.header ++ (p.payload ++ report_bytes p.quality_report)

  -- The branch with the Q flag: the last four bytes are the report.
  unfoldable pub read_trailer : List ℕ → ℕ → Outcome (ℕ × Option QualityReport)
  read_trailer d remaining = do
    ensure (leb report_size remaining)
    cursor ← suffix_from (wire_size + (remaining - report_size)) d
    (q, _) ← read_report w cursor
    ok (remaining - report_size, some q)

  -- `data.len() - WIRE_SIZE` runs after a header was read.
  unfoldable pub from_bytes : List ℕ → Outcome MediaPacket
  unfolding read_trailer
  from_bytes d = do
    (header, _) ← read_header w d
    let remaining : ℕ = length d - wire_size
    (payload_len, report) ←
        (if has_quality header then read_trailer d remaining else ok (remaining, none))
    payload ← or_panic (slice wire_size (wire_size + payload_len) d)
    ok (record { header = header; payload = payload; quality_report = report })

  -- The counter is below 50 where it is incremented, so it does not wrap.
  unfoldable pub encode_mini : MediaPacket → MediaHeader → MiniFrameContext → ℕ → Encoded
  unfolding update
  encode_mini p base ctx k = record {
    bytes = put_u8 frame_type_mini ++ (write_mini w mini ++ p.payload);
    context = update ctx p.header;
    frames_since_full = k + 1;
  }
    where
      mini : MiniHeader
      mini = record {
        seq_delta = 1;
        timestamp_delta_ms = sub32 p.header.timestamp base.timestamp % u16_mod;
        payload_len = length p.payload % u16_mod;
      }

  unfoldable pub encode_full : MediaPacket → MiniFrameContext → Encoded
  unfolding update to_bytes
  encode_full p ctx = record {
    bytes = put_u8 frame_type_full ++ to_bytes p;
    context = update ctx p.header;
    frames_since_full = 1;
  }

  unfoldable pub encode_compact : MediaPacket → MiniFrameContext → ℕ → Encoded
  encode_compact p ctx k =
      if ltb 0 k && ltb k mini_frame_full_interval
      then (elim ctx.last [ some base ↦ encode_mini p base ctx k | none ↦ encode_full p ctx ])
      else encode_full p ctx

  unfoldable pub decode_full : List ℕ → MiniFrameContext → Outcome (MediaPacket × MiniFrameContext)
  unfolding update
  decode_full rest ctx = do p ← from_bytes rest; ok (p, update ctx p.header)

  unfoldable pub decode_mini :
      List ℕ → List ℕ → MiniFrameContext → Outcome (MediaPacket × MiniFrameContext)
  unfolding expand
  decode_mini buf rest ctx = do
    ensure (leb mini_size (length rest))
    (mini, _) ← read_mini w rest
    let payload_start : ℕ = 1 + mini_size
    let payload_end : ℕ = payload_start + mini.payload_len
    ensure (leb payload_end (length buf))
    payload ← range payload_start payload_end buf
    (header, ctx') ← try_some (expand ctx mini)
    ok (record { header = header; payload = payload; quality_report = none }, ctx')

  unfoldable pub decode_compact :
      List ℕ → MiniFrameContext → Outcome (MediaPacket × MiniFrameContext)
  decode_compact [] ctx = absent
  decode_compact (frame_type ∷ rest) ctx =
      if frame_type == frame_type_full
      then decode_full rest ctx
      else (if frame_type == frame_type_mini
          then decode_mini (frame_type ∷ rest) rest ctx
          else absent)
