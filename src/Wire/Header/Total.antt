-- ===== src/Wire/Header/Total.antt =====
-- The readers on arbitrary bytes: they never panic, since they check the length before they read,
-- and what they accept is what the writers write.
use wzp.Common.{
  ℕ, ◌+◌, ◌*◌, ◌<◌, ◌≢◌, ◌≡◌, ◌++◌, sym, ap₂, List, ◌∷◌, some, ok, panicked, arith, All,
}
use wzp.Wire.Buf.{ByteBuf}
use wzp.Wire.Kinds.Media
use wzp.Wire.Kinds.Codec
use wzp.Wire.Header.{
  MediaHeader, MiniHeader, IsHeader, read_header, read_report, read_mini, write_header, write_mini,
  wire_version, IsMini,
}

abbrev pub IsByte : ℕ → Type 0
IsByte a = a < 256

cons_eq : {a b : ℕ} {xs ys : List ℕ} → a ≡ b → xs ≡ ys → a ∷ xs ≡ b ∷ ys
cons_eq p q = ap₂ ◌∷◌ p q

module _ (w : ByteBuf) where
  open w use {
    get_u8_takes, get_u16_takes, get_u32_takes, put_u8_bytes, put_u16_bytes, put_u32_bytes,
  }

  read_mini_bytes :
      (a b c d e : ℕ) (r : List ℕ)
      → read_mini w (a ∷ b ∷ c ∷ d ∷ e ∷ r)
        ≡ ok (
          record { seq_delta = a; timestamp_delta_ms = b * 256 + c; payload_len = d * 256 + e },
          r,
        )
  unfolding read_mini
  read_mini_bytes a b c d e r = ground (
    arith,
    get_u8_takes a (b ∷ c ∷ d ∷ e ∷ r),
    get_u16_takes b c (d ∷ e ∷ r),
    get_u16_takes d e r,
  )

  read_report_bytes :
      (a b c d : ℕ) (r : List ℕ)
      → read_report w (a ∷ b ∷ c ∷ d ∷ r)
        ≡ ok (record { loss_pct = a; rtt_4ms = b; jitter_ms = c; bitrate_cap_kbps = d }, r)
  unfolding read_report
  read_report_bytes a b c d r = ground (
    arith,
    get_u8_takes a (b ∷ c ∷ d ∷ r),
    get_u8_takes b (c ∷ d ∷ r),
    get_u8_takes c (d ∷ r),
    get_u8_takes d r,
  )

  pub read_mini_safe : (b : List ℕ) → read_mini w b ≢ panicked
  unfolding read_mini
  read_mini_safe (a ∷ b ∷ c ∷ d ∷ e ∷ r) = ground (arith, read_mini_bytes a b c d e r)
  read_mini_safe _ = ground arith

  pub read_report_safe : (b : List ℕ) → read_report w b ≢ panicked
  unfolding read_report
  read_report_safe (a ∷ b ∷ c ∷ d ∷ r) = ground (arith, read_report_bytes a b c d r)
  read_report_safe _ = ground arith

  -- Mini headers: what is accepted is the encoding of the result, and then the rest.
  pub read_mini-canonical :
      (b : List ℕ) {m : MiniHeader} {r : List ℕ}
      → All IsByte b
      → read_mini w b ≡ ok (m, r)
      → IsMini m × (b ≡ write_mini w m ++ r) × All IsByte r
  unfolding read_mini write_mini
  read_mini-canonical (a ∷ b ∷ c ∷ d ∷ e ∷ s) {m} {r} (ha, (hb, (hc, (hd, (he, hs))))) p = ground (
    arith,
    read_mini_bytes a b c d e s,
    put_u8_bytes m.seq_delta,
    put_u16_bytes m.timestamp_delta_ms,
    put_u16_bytes m.payload_len,
  )
  read_mini-canonical _ h p = absurd (ground arith)

  read_header_fields :
      (a0 a1 a2 a3 a4 a5 a6 a7 a8 a9 aa ab ac ad ae af : ℕ) (s : List ℕ) {h : MediaHeader}
      {r : List ℕ}
      → read_header w
          (a0 ∷ a1 ∷ a2 ∷ a3 ∷ a4 ∷ a5 ∷ a6 ∷ a7 ∷ a8 ∷ a9 ∷ aa ∷ ab ∷ ac ∷ ad ∷ ae ∷ af ∷ s)
        ≡ ok (h, r)
      → (a0 ≡ wire_version)
        × (h.version ≡ a0)
        × (h.flags ≡ a1)
        × (Media.from_wire a2 ≡ some h.media_type)
        × (Codec.from_wire a3 ≡ some h.codec_id)
        × (h.stream_id ≡ a4)
        × (h.fec_ratio ≡ a5)
        × (h.seq ≡ a6 * 16777216 + a7 * 65536 + a8 * 256 + a9)
        × (h.timestamp ≡ aa * 16777216 + ab * 65536 + ac * 256 + ad)
        × (h.fec_block ≡ ae * 256 + af)
        × (r ≡ s)
  unfolding read_header
  read_header_fields a0 a1 a2 a3 a4 a5 a6 a7 a8 a9 aa ab ac ad ae af s p = ground (
    arith,
    get_u8_takes a0 (a1 ∷ a2 ∷ a3 ∷ a4 ∷ a5 ∷ a6 ∷ a7 ∷ a8 ∷ a9 ∷ aa ∷ ab ∷ ac ∷ ad ∷ ae ∷ af ∷ s),
    get_u8_takes a1 (a2 ∷ a3 ∷ a4 ∷ a5 ∷ a6 ∷ a7 ∷ a8 ∷ a9 ∷ aa ∷ ab ∷ ac ∷ ad ∷ ae ∷ af ∷ s),
    get_u8_takes a2 (a3 ∷ a4 ∷ a5 ∷ a6 ∷ a7 ∷ a8 ∷ a9 ∷ aa ∷ ab ∷ ac ∷ ad ∷ ae ∷ af ∷ s),
    get_u8_takes a3 (a4 ∷ a5 ∷ a6 ∷ a7 ∷ a8 ∷ a9 ∷ aa ∷ ab ∷ ac ∷ ad ∷ ae ∷ af ∷ s),
    get_u8_takes a4 (a5 ∷ a6 ∷ a7 ∷ a8 ∷ a9 ∷ aa ∷ ab ∷ ac ∷ ad ∷ ae ∷ af ∷ s),
    get_u8_takes a5 (a6 ∷ a7 ∷ a8 ∷ a9 ∷ aa ∷ ab ∷ ac ∷ ad ∷ ae ∷ af ∷ s),
    get_u32_takes a6 a7 a8 a9 (aa ∷ ab ∷ ac ∷ ad ∷ ae ∷ af ∷ s),
    get_u32_takes aa ab ac ad (ae ∷ af ∷ s),
    get_u16_takes ae af s,
  )

  pub read_header_safe : (b : List ℕ) → read_header w b ≢ panicked
  unfolding read_header
  read_header_safe
        (a0 ∷ a1 ∷ a2 ∷ a3 ∷ a4 ∷ a5 ∷ a6 ∷ a7 ∷ a8 ∷ a9 ∷ aa ∷ ab ∷ ac ∷ ad ∷ ae ∷ af ∷ s) =
      ground (
        arith,
        get_u8_takes a0
            (a1 ∷ a2 ∷ a3 ∷ a4 ∷ a5 ∷ a6 ∷ a7 ∷ a8 ∷ a9 ∷ aa ∷ ab ∷ ac ∷ ad ∷ ae ∷ af ∷ s),
        get_u8_takes a1 (a2 ∷ a3 ∷ a4 ∷ a5 ∷ a6 ∷ a7 ∷ a8 ∷ a9 ∷ aa ∷ ab ∷ ac ∷ ad ∷ ae ∷ af ∷ s),
        get_u8_takes a2 (a3 ∷ a4 ∷ a5 ∷ a6 ∷ a7 ∷ a8 ∷ a9 ∷ aa ∷ ab ∷ ac ∷ ad ∷ ae ∷ af ∷ s),
        get_u8_takes a3 (a4 ∷ a5 ∷ a6 ∷ a7 ∷ a8 ∷ a9 ∷ aa ∷ ab ∷ ac ∷ ad ∷ ae ∷ af ∷ s),
        get_u8_takes a4 (a5 ∷ a6 ∷ a7 ∷ a8 ∷ a9 ∷ aa ∷ ab ∷ ac ∷ ad ∷ ae ∷ af ∷ s),
        get_u8_takes a5 (a6 ∷ a7 ∷ a8 ∷ a9 ∷ aa ∷ ab ∷ ac ∷ ad ∷ ae ∷ af ∷ s),
        get_u32_takes a6 a7 a8 a9 (aa ∷ ab ∷ ac ∷ ad ∷ ae ∷ af ∷ s),
        get_u32_takes aa ab ac ad (ae ∷ af ∷ s),
        get_u16_takes ae af s,
      )
  read_header_safe _ = ground arith

  -- A header that is accepted from a list of bytes has its fields in range, and the input is its
  -- encoding and then the rest that the read leaves, which are bytes.
  pub read_header-canonical :
      (b : List ℕ) {h : MediaHeader} {r : List ℕ}
      → All IsByte b
      → read_header w b ≡ ok (h, r)
      → IsHeader h × (b ≡ write_header w h ++ r) × All IsByte r
  unfolding read_header write_header
  read_header-canonical
        (a0 ∷ a1 ∷ a2 ∷ a3 ∷ a4 ∷ a5 ∷ a6 ∷ a7 ∷ a8 ∷ a9 ∷ aa ∷ ab ∷ ac ∷ ad ∷ ae ∷ af ∷ s) {h} {r}
        (
          h0,
          (
            h1,
            (h2, (h3, (h4, (h5, (h6, (h7, (h8, (h9, (ha, (hb, (hc, (hd, (he, (hf, hs)))))))))))))),
          ),
        )
        p =
      let (v0, e0, e1, e2, e3, e4, e5, e6, ea, ee, er) =
        read_header_fields a0 a1 a2 a3 a4 a5 a6 a7 a8 a9 aa ab ac ad ae af s p in
      let t2 = Media.to_wire_of_from_wire a2 h.media_type e2 in
      let t3 = Codec.to_wire_of_from_wire a3 h.codec_id e3 in
      (
        omega arith,
        rw
            (
              put_u8_bytes h.version (omega arith),
              put_u8_bytes h.flags (omega arith),
              put_u8_bytes (Media.to_wire h.media_type) (omega arith),
              put_u8_bytes (Codec.to_wire h.codec_id) (omega arith),
              put_u8_bytes h.stream_id (omega arith),
              put_u8_bytes h.fec_ratio (omega arith),
              put_u32_bytes h.seq (omega arith),
              put_u32_bytes h.timestamp (omega arith),
              put_u16_bytes h.fec_block (omega arith),
            )
            (cons_eq (omega arith) (
              cons_eq (omega arith) (
                cons_eq (omega arith) (
                  cons_eq (omega arith) (
                    cons_eq (omega arith) (
                      cons_eq (omega arith) (
                        cons_eq (omega arith) (
                          cons_eq (omega arith) (
                            cons_eq (omega arith) (
                              cons_eq (omega arith) (
                                cons_eq (omega arith) (
                                  cons_eq (omega arith) (
                                    cons_eq (omega arith) (
                                      cons_eq (omega arith) (
                                        cons_eq (omega arith)
                                          (cons_eq (omega arith) (sym er))))))))))))))))),
        rw er hs,
      )
  read_header-canonical _ h p = absurd (ground arith)
