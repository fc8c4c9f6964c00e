-- ===== src/Wire/Packet/Stream.antt =====
-- A whole stream through the compact form: sender and receiver keep one context.
use wzp.Common.{
  ℕ, ◌<◌, ◌≡◌, inl, inr, refl, ap, ◌∙◌, ◌%◌, List, [], ◌∷◌, none, some, Outcome, ok, ◌>>=◌, arith,
  length,
}
use wzp.Common.Words.{u16_mod, u32_mod, add32, sub32}
use wzp.Wire.Buf.{ByteBuf}
use wzp.Wire.Header.{MediaHeader}
use wzp.Wire.Packet.{
  MediaPacket, MiniFrameContext, empty_context, encode_mini, encode_full, encode_compact,
  decode_compact, update,
}
use wzp.Wire.Packet.Full.{IsPacket}
use wzp.Wire.Packet.Compact.{
  decode_compact-mini, decode_compact-full, encode_compact-cases, context-encode_compact, shown,
  mini_for,
}

-- The next packet of a steady stream: it differs from the header before it in the sequence number,
-- one higher, and the time, less than 2^16 ms later, and carries no report.
pub record Follows (h : MediaHeader) (p : MediaPacket) : Type 0 where
  pub delta : ℕ
  pub delta_short : delta < u16_mod
  pub header_next : p.header ≡ record h { seq = add32 h.seq 1; timestamp = add32 h.timestamp delta }
  pub no_report : p.quality_report ≡ none
  pub short : length p.payload < u16_mod

-- Each packet of a stream follows the one before it.
abbrev pub Steady : MediaHeader → List MediaPacket → Type 0
Steady h [] = Unit
Steady h (p ∷ ps) = IsPacket p × Follows h p × Steady p.header ps

recover : (a d t : ℕ) → a < u32_mod → d < u16_mod → t ≡ add32 a d → sub32 t a % u16_mod ≡ d
recover a d t h k e = omega arith

-- The delta that the mini header carries is the true one, so the packet comes back.
shown_lem :
    (h : MediaHeader) (p : MediaPacket) → h.timestamp < u32_mod → Follows h p → shown p h ≡ p
shown_lem h p b f =
    let t : p.header.timestamp ≡ add32 h.timestamp f.delta = ap (λ x. x.timestamp) f.header_next in
    let d : (mini_for p h).timestamp_delta_ms ≡ f.delta =
      recover h.timestamp f.delta p.header.timestamp b f.delta_short t in
    ground (arith, d, f.header_next, f.no_report)

module _ (w : ByteBuf) where
  -- `encode_compact` over a stream, and `decode_compact` over its datagrams.
  pub encode_all : List MediaPacket → MiniFrameContext → ℕ → List (List ℕ)
  encode_all [] ctx k = []
  encode_all (p ∷ ps) ctx k =
      let e = encode_compact w p ctx k in e.bytes ∷ encode_all ps e.context e.frames_since_full

  pub decode_all : List (List ℕ) → MiniFrameContext → Outcome (List MediaPacket)
  decode_all [] ctx = ok []
  decode_all (b ∷ bs) ctx = do
    (p, ctx') ← decode_compact w b ctx
    ps ← decode_all bs ctx'
    ok (p ∷ ps)

  step_lem :
      (h : MediaHeader) (p : MediaPacket) (k : ℕ)
      → h.timestamp < u32_mod
      → IsPacket p
      → Follows h p
      → decode_compact w
          (encode_compact w p (record { last = some h }) k).bytes
          (record { last = some h })
        ≡ ok (p, record { last = some p.header })
  unfolding encode_mini encode_full
  step_lem h p k b v f = elim (encode_compact-cases w p (record { last = some h }) k) [
    | inl (base, a, c, e, q) ↦
        decode_compact-mini w p h k a c f.short
        ∙ ap {B = Outcome (MediaPacket × MiniFrameContext)}
            (λ q. ok (q, record { last = some q.header })) (shown_lem h p b f)
    | inr q ↦ rw q (decode_compact-full w p (record { last = some h }) (record { last = some h }) v)
  ]

  decode_all-from :
      (ps : List MediaPacket) (h : MediaHeader) (k : ℕ)
      → h.timestamp < u32_mod
      → Steady h ps
      → decode_all (encode_all ps (record { last = some h }) k) (record { last = some h }) ≡ ok ps
  unfolding encode_all decode_all
  decode_all-from [] h k b s = refl
  decode_all-from (p ∷ ps) h k b (v, f, s) =
      let ctx : MiniFrameContext = record { last = some h } in
      let e = encode_compact w p ctx k in
      rw
        (
          step_lem h p k b v f,
          context-encode_compact w p ctx k,
          decode_all-from ps p.header e.frames_since_full v.header_fits.timestamp_word s,
        )
        refl

  -- A stream whose packets are in range and follow one another (one higher in sequence number,
  -- less than 2^16 ms later, otherwise the same header, no report, payloads of less than 2^16
  -- bytes) comes through the compact form packet for packet, from fresh contexts on both sides and
  -- for as long as it runs.
  pub decode_all-encode_all :
      (p : MediaPacket) (ps : List MediaPacket)
      → IsPacket p
      → Steady p.header ps
      → decode_all (encode_all (p ∷ ps) empty_context 0) empty_context ≡ ok (p ∷ ps)
  unfolding encode_all decode_all encode_compact encode_full update
  decode_all-encode_all p ps v s =
      rw
        (
          decode_compact-full w p empty_context empty_context v,
          decode_all-from ps p.header 1 v.header_fits.timestamp_word s,
        )
        refl
