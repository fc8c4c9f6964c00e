-- ===== src/Wire/Header/Laws.antt =====
-- Headers and reports read back as they were written, and their sizes on the wire.
use wzp.Common.{
  ℕ, ◌≤◌, ◌≡◌, refl, true, List, ◌++◌, ok, leb, arith, length, ==_iff, length-append, append_assoc,
}
use wzp.Wire.Buf.{
  ByteBuf, get_u8-put_u8, get_u16-put_u16, get_u32-put_u32, length-put_u8, length-put_u16,
  length-put_u32,
}
use wzp.Wire.Kinds.Media
use wzp.Wire.Kinds.Codec
use wzp.Wire.Header.{
  MediaHeader, QualityReport, MiniHeader, IsHeader, IsReport, IsMini, write_header, read_header,
  write_report, read_report, write_mini, read_mini, wire_size, wire_version, wire_version,
  report_size, mini_size,
}

le→leb : (a b : ℕ) → a ≤ b → leb a b ≡ true
le→leb a b h = ground arith

module _ (w : ByteBuf) where
  pub length-write_mini : (m : MiniHeader) → IsMini m → length (write_mini w m) ≡ mini_size
  unfolding write_mini
  length-write_mini m v =
      rw
        (
          length-append,
          length-append,
          length-put_u8 w m.seq_delta v.delta_byte,
          length-put_u16 w m.timestamp_delta_ms v.delta_short,
          length-put_u16 w m.payload_len v.len_short,
        )
        refl

  -- A mini header is read back as it was written, and the read stops where it ends.
  pub read_mini-write_mini :
      (m : MiniHeader) (r : List ℕ) → IsMini m → read_mini w (write_mini w m ++ r) ≡ ok (m, r)
  unfolding read_mini
  read_mini-write_mini m r v =
      rw
        (le→leb 5 (length (write_mini w m ++ r))
          (omega (arith, length-append (write_mini w m) r, length-write_mini m v)))
        (unfold write_mini in
          simp append_assoc (
            rw
              (
                get_u8-put_u8 w m.seq_delta _ v.delta_byte,
                get_u16-put_u16 w m.timestamp_delta_ms _ v.delta_short,
                get_u16-put_u16 w m.payload_len _ v.len_short,
              )
              refl))

  pub length-write_report :
      (q : QualityReport) → IsReport q → length (write_report w q) ≡ report_size
  unfolding write_report
  length-write_report q v =
      rw
        (
          length-append,
          length-append,
          length-append,
          length-put_u8 w q.loss_pct v.loss_byte,
          length-put_u8 w q.rtt_4ms v.rtt_byte,
          length-put_u8 w q.jitter_ms v.jitter_byte,
          length-put_u8 w q.bitrate_cap_kbps v.cap_byte,
        )
        refl

  -- A quality report is read back as it was written, and the read stops where it ends.
  pub read_report-write_report :
      (q : QualityReport) (r : List ℕ)
      → IsReport q
      → read_report w (write_report w q ++ r) ≡ ok (q, r)
  unfolding read_report
  read_report-write_report q r v =
      rw
        (le→leb report_size (length (write_report w q ++ r))
          (omega (arith, length-append (write_report w q) r, length-write_report q v)))
        (unfold write_report in
          simp append_assoc (
            rw
              (
                get_u8-put_u8 w q.loss_pct _ v.loss_byte,
                get_u8-put_u8 w q.rtt_4ms _ v.rtt_byte,
                get_u8-put_u8 w q.jitter_ms _ v.jitter_byte,
                get_u8-put_u8 w q.bitrate_cap_kbps _ v.cap_byte,
              )
              refl))

  pub length-write_header : (h : MediaHeader) → IsHeader h → length (write_header w h) ≡ wire_size
  unfolding write_header
  length-write_header h v =
      rw
        (
          length-append,
          length-append,
          length-append,
          length-append,
          length-append,
          length-append,
          length-append,
          length-append,
          length-put_u8 w h.version (omega arith),
          length-put_u8 w h.flags v.flags_byte,
          length-put_u8 w (Media.to_wire h.media_type) (Media.to_wire-lt h.media_type),
          length-put_u8 w (Codec.to_wire h.codec_id) (Codec.to_wire-lt h.codec_id),
          length-put_u8 w h.stream_id v.stream_byte,
          length-put_u8 w h.fec_ratio v.ratio_byte,
          length-put_u32 w h.seq v.seq_word,
          length-put_u32 w h.timestamp v.timestamp_word,
          length-put_u16 w h.fec_block v.block_short,
        )
        refl

  -- A media header of version 2 with its fields in range is read back as it was written, and the
  -- read stops where it ends.
  pub read_header-write_header :
      (h : MediaHeader) (r : List ℕ)
      → IsHeader h
      → read_header w (write_header w h ++ r) ≡ ok (h, r)
  unfolding read_header
  read_header-write_header h r v =
      rw
        (le→leb wire_size (length (write_header w h ++ r))
          (omega (arith, length-append (write_header w h) r, length-write_header h v)))
        (unfold write_header in
          simp append_assoc (
            rw
              (
                get_u8-put_u8 w h.version _ (omega arith),
                (==_iff h.version wire_version).1 v.version_two,
                get_u8-put_u8 w h.flags _ v.flags_byte,
                get_u8-put_u8 w (Media.to_wire h.media_type) _ (Media.to_wire-lt h.media_type),
                Media.from_wire-to_wire h.media_type,
                get_u8-put_u8 w (Codec.to_wire h.codec_id) _ (Codec.to_wire-lt h.codec_id),
                Codec.from_wire-to_wire h.codec_id,
                get_u8-put_u8 w h.stream_id _ v.stream_byte,
                get_u8-put_u8 w h.fec_ratio _ v.ratio_byte,
                get_u32-put_u32 w h.seq _ v.seq_word,
                get_u32-put_u32 w h.timestamp _ v.timestamp_word,
                get_u16-put_u16 w h.fec_block _ v.block_short,
              )
              refl))
