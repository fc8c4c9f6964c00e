-- ===== src/Wire/Header.antt =====
-- crates/wzp-proto/src/packet.rs: the media header, the quality report and the mini header, written
-- to and read from a buffer. A read gives the value and what is left of the buffer.
pub mod Laws
pub mod Total
use wzp.Common.{
  ℕ, ◌+◌, ◌*◌, ◌<◌, ◌≡◌, Bool, not, List, ◌++◌, Option, Outcome, ok, absent, panicked, ◌>>=◌, ◌>>◌,
  ensure, try_some, or_panic, leb, ◌==◌, length, bit_and,
}
use wzp.Common.Words.{u16_mod, u32_mod}
use wzp.Wire.Buf.{ByteBuf}
use wzp.Wire.Kinds.{MediaType, CodecId}
use wzp.Wire.Kinds.Media
use wzp.Wire.Kinds.Codec

-- `MediaHeaderV2`
pub record MediaHeader : Type 0 where
  pub version : ℕ
  pub flags : ℕ
  pub media_type : MediaType
  pub codec_id : CodecId
  pub stream_id : ℕ
  pub fec_ratio : ℕ
  pub seq : ℕ
  pub timestamp : ℕ
  pub fec_block : ℕ

abbrev pub wire_size : ℕ
wire_size = 16

abbrev pub wire_version : ℕ
wire_version = 2

abbrev pub flag_repair : ℕ
flag_repair = 0b1000_0000

abbrev pub flag_quality : ℕ
flag_quality = 0b0100_0000

abbrev pub flag_keyframe : ℕ
flag_keyframe = 0b0010_0000

abbrev pub flag_frame_end : ℕ
flag_frame_end = 0b0001_0000

abbrev pub is_repair : MediaHeader → Bool
is_repair h = not (bit_and h.flags flag_repair == 0)

abbrev pub has_quality : MediaHeader → Bool
has_quality h = not (bit_and h.flags flag_quality == 0)

abbrev pub is_keyframe : MediaHeader → Bool
is_keyframe h = not (bit_and h.flags flag_keyframe == 0)

abbrev pub is_frame_end : MediaHeader → Bool
is_frame_end h = not (bit_and h.flags flag_frame_end == 0)

-- `QualityReport`
pub record QualityReport : Type 0 where
  pub loss_pct : ℕ
  pub rtt_4ms : ℕ
  pub jitter_ms : ℕ
  pub bitrate_cap_kbps : ℕ

abbrev pub report_size : ℕ
report_size = 4

unfoldable pub rtt_ms : QualityReport → ℕ
rtt_ms r = r.rtt_4ms * 4

-- `MiniHeaderV2`
pub record MiniHeader : Type 0 where
  pub seq_delta : ℕ
  pub timestamp_delta_ms : ℕ
  pub payload_len : ℕ

abbrev pub mini_size : ℕ
mini_size = 5

-- The ranges that the fields' types give, and the one version that is ever built.
pub record IsHeader (h : MediaHeader) : Type 0 where
  pub version_two : h.version ≡ wire_version
  pub flags_byte : h.flags < 256
  pub stream_byte : h.stream_id < 256
  pub ratio_byte : h.fec_ratio < 256
  pub seq_word : h.seq < u32_mod
  pub timestamp_word : h.timestamp < u32_mod
  pub block_short : h.fec_block < u16_mod

pub record IsReport (r : QualityReport) : Type 0 where
  pub loss_byte : r.loss_pct < 256
  pub rtt_byte : r.rtt_4ms < 256
  pub jitter_byte : r.jitter_ms < 256
  pub cap_byte : r.bitrate_cap_kbps < 256

pub record IsMini (m : MiniHeader) : Type 0 where
  pub delta_byte : m.seq_delta < 256
  pub delta_short : m.timestamp_delta_ms < u16_mod
  pub len_short : m.payload_len < u16_mod

module _ (w : ByteBuf) where
  open w use {put_u8, put_u16, put_u32, get_u8, get_u16, get_u32}

  unfoldable pub write_header : MediaHeader → List ℕ
  write_header h =
      put_u8 h.version
      ++ (put_u8 h.flags
          ++ (put_u8 (Media.to_wire h.media_type)
              ++ (put_u8 (Codec.to_wire h.codec_id)
                  ++ (put_u8 h.stream_id
                      ++ (put_u8 h.fec_ratio
                          ++ (put_u32 h.seq ++ (put_u32 h.timestamp ++ put_u16 h.fec_block)))))))

  unfoldable pub read_header : List ℕ → Outcome (MediaHeader × List ℕ)
  read_header b = do
    ensure (leb wire_size (length b))
    (version, b1) ← or_panic (get_u8 b)
    ensure (version == wire_version)
    (flags, b2) ← or_panic (get_u8 b1)
    (media_byte, b3) ← or_panic (get_u8 b2)
    media_type ← try_some (Media.from_wire media_byte)
    (codec_byte, b4) ← or_panic (get_u8 b3)
    codec_id ← try_some (Codec.from_wire codec_byte)
    (stream_id, b5) ← or_panic (get_u8 b4)
    (fec_ratio, b6) ← or_panic (get_u8 b5)
    (seq, b7) ← or_panic (get_u32 b6)
    (timestamp, b8) ← or_panic (get_u32 b7)
    (fec_block, b9) ← or_panic (get_u16 b8)
    ok (
      record {
        version = version;
        flags = flags;
        media_type = media_type;
        codec_id = codec_id;
        stream_id = stream_id;
        fec_ratio = fec_ratio;
        seq = seq;
        timestamp = timestamp;
        fec_block = fec_block;
      },
      b9,
    )

  unfoldable pub write_report : QualityReport → List ℕ
  write_report r =
      put_u8 r.loss_pct ++ (put_u8 r.rtt_4ms ++ (put_u8 r.jitter_ms ++ put_u8 r.bitrate_cap_kbps))

  unfoldable pub read_report : List ℕ → Outcome (QualityReport × List ℕ)
  read_report b = do
    ensure (leb report_size (length b))
    (loss_pct, b1) ← or_panic (get_u8 b)
    (rtt_4ms, b2) ← or_panic (get_u8 b1)
    (jitter_ms, b3) ← or_panic (get_u8 b2)
    (bitrate_cap_kbps, b4) ← or_panic (get_u8 b3)
    ok (
      record {
        loss_pct = loss_pct;
        rtt_4ms = rtt_4ms;
        jitter_ms = jitter_ms;
        bitrate_cap_kbps = bitrate_cap_kbps;
      },
      b4,
    )

  unfoldable pub write_mini : MiniHeader → List ℕ
  write_mini m = put_u8 m.seq_delta ++ (put_u16 m.timestamp_delta_ms ++ put_u16 m.payload_len)

  unfoldable pub read_mini : List ℕ → Outcome (MiniHeader × List ℕ)
  read_mini b = do
    ensure (leb mini_size (length b))
    (seq_delta, b1) ← or_panic (get_u8 b)
    (timestamp_delta_ms, b2) ← or_panic (get_u16 b1)
    (payload_len, b3) ← or_panic (get_u16 b2)
    ok (
      record {
        seq_delta = seq_delta;
        timestamp_delta_ms = timestamp_delta_ms;
        payload_len = payload_len;
      },
      b3,
    )
