-- ===== src/Wire/Packet/Compact.antt =====
-- The compact form: what one frame carries, and the count of frames between full headers.
use wzp.Common.{
  ℕ, ◌+◌, ◌%◌, ◌<◌, ◌≤◌, ◌≡◌, ◌≢◌, ◌⊎◌, inl, inr, refl, ◌&&◌, List, [], ◌∷◌, ◌++◌, none, some, ok,
  panicked, arith, ltb, length, length-append, drop-append, take-length, Bool-cases, Option-cases,
}
use wzp.Common.Words.{u16_mod, sub32}
use wzp.Wire.Buf.{ByteBuf}
use wzp.Wire.Header.{MediaHeader, MiniHeader, IsMini, write_mini}
use wzp.Wire.Header.Laws.{length-write_mini, read_mini-write_mini}
use wzp.Wire.Header.Total.{read_mini_safe}
use wzp.Wire.Packet.{
  MediaPacket, MiniFrameContext, update, expand, expanded, mini_frame_full_interval, to_bytes,
  encode_mini, encode_full, encode_compact, decode_full, decode_mini, decode_compact,
}
use wzp.Wire.Packet.Full.{IsPacket, from_bytes-to_bytes, from_bytes_safe}

-- The mini header by which `encode_compact` sends a packet after the header `base`.
abbrev pub mini_for : MediaPacket → MediaHeader → MiniHeader
mini_for p base = record {
  seq_delta = 1;
  timestamp_delta_ms = sub32 p.header.timestamp base.timestamp % u16_mod;
  payload_len = length p.payload % u16_mod;
}

mini_for-IsMini : (p : MediaPacket) (base : MediaHeader) → IsMini (mini_for p base)
mini_for-IsMini p base = omega arith

-- What a receiver makes of it.
abbrev pub shown : MediaPacket → MediaHeader → MediaPacket
shown p base = record {
  header = expanded base (mini_for p base);
  payload = p.payload;
  quality_report = none;
}

module _ (w : ByteBuf) where
  open w use {put_u8, put_u8_bytes}

  -- The two tags on the wire.
  tag_bytes : (t : ℕ) (r : List ℕ) → t < 256 → put_u8 t ++ r ≡ t ∷ r
  tag_bytes t r h = rw (put_u8_bytes t h) refl

  decode_mini-encode_mini :
      (p : MediaPacket) (base : MediaHeader)
      → length p.payload < u16_mod
      → decode_mini w
          (1 ∷ write_mini w (mini_for p base) ++ p.payload)
          (write_mini w (mini_for p base) ++ p.payload)
          (record { last = some base })
        ≡ ok (shown p base, record { last = some (expanded base (mini_for p base)) })
  unfolding decode_mini
  decode_mini-encode_mini p base h =
      let m = write_mini w (mini_for p base) in
      let v = mini_for-IsMini p base in
      ground (
        arith,
        length-append m p.payload,
        length-write_mini w (mini_for p base) v,
        read_mini-write_mini w (mini_for p base) p.payload v,
        drop-append m p.payload,
        take-length p.payload,
      )

  -- While the counter is from 1 to 49 and the payload shorter than 2^16 bytes, a receiver that
  -- holds the sender's last header reads a frame as that header moved on by one packet and by the
  -- sender's time delta mod 2^16, with the payload and no report, whatever else the packet's own
  -- header says.
  pub decode_compact-mini :
      (p : MediaPacket) (base : MediaHeader) (k : ℕ)
      → 0 < k
      → k < mini_frame_full_interval
      → length p.payload < u16_mod
      → let ctx : MiniFrameContext = record { last = some base } in
        decode_compact w (encode_compact w p ctx k).bytes ctx
        ≡ ok (shown p base, record { last = some (shown p base).header })
  unfolding encode_compact encode_mini decode_compact
  decode_compact-mini p base k h h' l = ground (
    arith,
    tag_bytes 1 (write_mini w (mini_for p base) ++ p.payload) (omega arith),
    decode_mini-encode_mini p base l,
  )

  -- A packet in a full frame is read back whole, and sets the receiver's context.
  pub decode_compact-full :
      (p : MediaPacket) (ctx ctx' : MiniFrameContext)
      → IsPacket p
      → decode_compact w (encode_full w p ctx).bytes ctx' ≡ ok (p, record { last = some p.header })
  unfolding encode_full decode_compact decode_full update
  decode_compact-full p ctx ctx' v =
      rw (tag_bytes 0 (to_bytes w p) (omega arith), from_bytes-to_bytes w p v) refl

  -- A frame is a mini frame, and then behind a full one, fewer than 50 frames after it and
  -- against the last header; or it is a full frame.
  pub encode_compact-cases :
      (p : MediaPacket) (ctx : MiniFrameContext) (k : ℕ)
      → ((base : MediaHeader) × (0 < k)
          × (k < mini_frame_full_interval)
          × (ctx ≡ record { last = some base })
          × (encode_compact w p ctx k ≡ encode_mini w p base ctx k))
        ⊎ (encode_compact w p ctx k ≡ encode_full w p ctx)
  unfolding encode_compact
  encode_compact-cases p ctx k = elim (Bool-cases (ltb 0 k && ltb k 50)) [
    | inr e ↦ inr (rw e refl)
    | inl e ↦ elim (Option-cases ctx.last) [
      | inl n ↦ inr (ground arith)
      | inr (base, n) ↦ inl (base, ground arith, ground arith, ground arith, ground arith)
    ]
  ]

  pub context-encode_compact :
      (p : MediaPacket) (ctx : MiniFrameContext) (k : ℕ)
      → (encode_compact w p ctx k).context ≡ record { last = some p.header }
  unfolding encode_mini encode_full update
  context-encode_compact p ctx k = elim (encode_compact-cases p ctx k) [
    | inl (base, a, b, c, e) ↦ rw e refl
    | inr e ↦ rw e refl
  ]

  -- From a counter of at most 50 the counter stays at most 50, the context is always the header
  -- just sent, and a frame either counts one more than the last or is full and starts the count
  -- again.
  pub encode_compact_counts :
      (p : MediaPacket) (ctx : MiniFrameContext) (k : ℕ)
      → k ≤ mini_frame_full_interval
      → let e = encode_compact w p ctx k in
        (e.frames_since_full ≤ mini_frame_full_interval)
        × (e.context ≡ record { last = some p.header })
        × (((e.frames_since_full ≡ k + 1) × (k < mini_frame_full_interval))
            ⊎ ((e.frames_since_full ≡ 1) × (e ≡ encode_full w p ctx)))
  unfolding encode_mini encode_full update
  encode_compact_counts p ctx k h = elim (encode_compact-cases p ctx k) [
    | inl (base, a, b, c, e) ↦ rw e (omega arith, refl, inl (refl, b))
    | inr e ↦ rw e (omega arith, refl, inr (refl, refl))
  ]

  decode_mini_safe :
      (t : ℕ) (rest : List ℕ) (ctx : MiniFrameContext)
      → decode_mini w (t ∷ rest) rest ctx ≢ panicked
  unfolding decode_mini expand
  decode_mini_safe t rest ctx = ground (arith, read_mini_safe w rest)

  decode_full_safe : (rest : List ℕ) (ctx : MiniFrameContext) → decode_full w rest ctx ≢ panicked
  unfolding decode_full
  decode_full_safe rest ctx = ground (arith, from_bytes_safe w rest)

  -- No datagram and no context make the compact decoder panic.
  pub decode_compact_safe :
      (buf : List ℕ) (ctx : MiniFrameContext) → decode_compact w buf ctx ≢ panicked
  unfolding decode_compact
  decode_compact_safe [] ctx = λ c. ground arith
  decode_compact_safe (t ∷ rest) ctx =
      ground (arith, decode_full_safe rest ctx, decode_mini_safe t rest ctx)
