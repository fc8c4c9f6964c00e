-- ===== src/Video/H264/RoundTrip.antt =====
-- A whole access unit through the framer and the depacketizer.
use wzp.Common.{
  ℕ, ◌-◌, ◌<◌, ◌≡◌, refl, sym, ap, ◌∙◌, Bool, true, false, not, ◌&&◌, List, [], ◌∷◌, ◌++◌, some,
  arith, bit_and, leb, ltb, ◌==◌, length, append-nil, append_assoc, All, Bool-cases, inl, inr,
}
use wzp.Video.H264.{
  FramedPacket, H264Framer, fragment_loop, div_ceil, frame_nal, frame_nals, frame, H264Depacketizer,
  new_depacketizer, start_code, maybe_emit, push,
}
use wzp.Video.H264.Nals.{is_nal, annex_b, split_nals-annex_b}
use wzp.Video.H264.Fragments.{emits, feed, settle, feed_fragments}

feed-append :
    (s : H264Depacketizer) (ps qs : List FramedPacket)
    → feed s (ps ++ qs) ≡ ((feed s ps).0 ++ (feed (feed s ps).1 qs).0, (feed (feed s ps).1 qs).1)
unfolding feed
feed-append s [] qs = refl
feed-append s (p ∷ ps) qs =
    let t = (push s p.payload p.is_frame_end).1 in
    rw (feed-append t ps qs, append_assoc (emits (push s p.payload p.is_frame_end).0)) refl

-- A unit that RFC 6184 sends as it is: its forbidden bit is zero, and its type is not the one of
-- the fragments.
abbrev pub is_plain : List ℕ → Bool
is_plain [] = false
is_plain (h ∷ p) = ltb h 128 && not (bit_and h 0x1F == 28)

abbrev pub IsUnit : List ℕ → Type 0
IsUnit n = (is_nal n ≡ true) × (is_plain n ≡ true)

-- The unit was added to the buffer, and no fragment is open.
abbrev Added : H264Depacketizer → List ℕ → Bool → List FramedPacket → Type 0
Added s n l ps =
    (t : H264Depacketizer) × (feed s ps ≡ settle l t)
    × (t.buffer ≡ s.buffer ++ (start_code ++ n))
    × (t.in_fragment ≡ false)

push_single :
    (s : H264Depacketizer) (n : List ℕ) (e : Bool)
    → is_plain n ≡ true
    → push s n e
      ≡ maybe_emit e (record s { in_fragment = false; buffer = s.buffer ++ (start_code ++ n) })
unfolding push
push_single s [] e h = ground (arith, h)
push_single s (b ∷ []) e h = ground (arith, h)
push_single s (b ∷ c ∷ r) e h = ground (arith, h)

feed_single :
    (s : H264Depacketizer) (n : List ℕ) (l : Bool)
    → is_plain n ≡ true
    → Added s n l (record { payload = n; is_frame_end = l } ∷ [])
unfolding feed
feed_single s n l h = (
  record s { in_fragment = false; buffer = s.buffer ++ (start_code ++ n) },
  rw (push_single s n l h, append-nil) refl,
  refl,
  refl,
)

feed_unit :
    (max : ℕ) (l : Bool) (n : List ℕ) (s : H264Depacketizer)
    → 2 < max
    → is_plain n ≡ true
    → (ps : List FramedPacket) × (frame_nal max l n ≡ some ps) × Added s n l ps
unfolding frame_nal
feed_unit max l [] s m h = ground (arith, h)
feed_unit max l (b ∷ p) s m h = elim (Bool-cases (leb (length (b ∷ p)) max)) [
  | inl fits ↦
      (record { payload = b ∷ p; is_frame_end = l } ∷ [], rw fits refl, feed_single s (b ∷ p) l h)
  | inr large ↦ (
    fragment_loop (length p) (max - 2) (div_ceil (length p) (max - 2)) 0 b l p,
    rw (large, small) refl,
    (
      record { buffer = s.buffer ++ (start_code ++ b ∷ p); in_fragment = false; frag_header = b },
      feed_fragments (max - 2) b l (omega arith) (ground (arith, h)) p s (ground (arith, large)),
      refl,
      refl,
    ),
  )
]
  where
    small : leb max 2 ≡ false
    small = ground arith

settle-false : (t : H264Depacketizer) → settle false t ≡ ([], t)
unfolding maybe_emit
settle-false t = refl

-- A nonempty buffer with no open fragment is emitted and emptied.
settle-true :
    (t : H264Depacketizer) (b n : List ℕ)
    → t.in_fragment ≡ false
    → t.buffer ≡ b ++ (start_code ++ n)
    → ((settle true t).0 ≡ (b ++ (start_code ++ n)) ∷ []) × ((settle true t).1.buffer ≡ [])
unfolding maybe_emit
settle-true t [] n i e = ground arith
settle-true t (c ∷ b) n i e = ground arith

-- What a run of units gives: one access unit, behind what was in the buffer.
abbrev Whole : ℕ → List (List ℕ) → H264Depacketizer → Type 0
Whole max ns s =
    (ps : List FramedPacket) × (frame_nals max ns ≡ some ps)
    × ((feed s ps).0 ≡ (s.buffer ++ annex_b ns) ∷ [])
    × ((feed s ps).1.buffer ≡ [])

feed_units :
    (max : ℕ) (ns : List (List ℕ)) (n : List ℕ) (s : H264Depacketizer)
    → 2 < max
    → All IsUnit (n ∷ ns)
    → Whole max (n ∷ ns) s
unfolding frame_nals annex_b
feed_units max [] n s m h =
    let (ps, e, (t, f, b, i)) = feed_unit max true n s m h.0.1 in
    let (out, rest) = settle-true t s.buffer n i b in
    (
      ps,
      rw (e, append-nil) refl,
      ap (λ r. r.0) f ∙ out ∙ ap (λ m. (s.buffer ++ (start_code ++ m)) ∷ []) (sym (append-nil n)),
      ap (λ r. r.1.buffer) f ∙ rest,
    )
feed_units max (k ∷ ns) n s m h =
    let (ps, e, (t, f, b, i)) = feed_unit max false n s m h.0.1 in
    let (qs, g, out, rest) = feed_units max ns k t m h.1 in
    let split : feed s (ps ++ qs) ≡ feed t qs =
      feed-append s ps qs ∙ rw (f ∙ settle-false t) refl in
    (
      ps ++ qs,
      rw (e, g) refl,
      rw split (
          out
          ∙ ap (λ bytes. (bytes ++ annex_b (k ∷ ns)) ∷ []) b
          ∙ ap (λ bytes. bytes ∷ []) (append_assoc s.buffer (start_code ++ n) (annex_b (k ∷ ns)))),
      rw split rest,
    )

IsUnit-is_nal : (ns : List (List ℕ)) → All IsUnit ns → All (λ n. is_nal n ≡ true) ns
IsUnit-is_nal [] h = tt
IsUnit-is_nal (n ∷ ns) h = (h.0.0, IsUnit-is_nal ns h.1)

-- An access unit in Annex B form, of one or more well-formed units, is framed in packets, and the
-- depacketizer gives it back byte for byte, once, from those packets in order. The packets have
-- room for at least three bytes; a unit is well formed if it is nonempty, has no start code or
-- three zeros within and no zero at its end, a forbidden bit of zero and a type other than 28.
pub feed-frame :
    (f : H264Framer) (n : List ℕ) (ns : List (List ℕ))
    → 2 < f.max_payload_size
    → All IsUnit (n ∷ ns)
    → (ps : List FramedPacket) × (frame f (annex_b (n ∷ ns)) ≡ some ps)
      × ((feed new_depacketizer ps).0 ≡ annex_b (n ∷ ns) ∷ [])
unfolding frame new_depacketizer
feed-frame f n ns m h =
    let (ps, e, out, rest) = feed_units f.max_payload_size ns n new_depacketizer m h in
    (
      ps,
      ap (frame_nals f.max_payload_size) (split_nals-annex_b (n ∷ ns) (IsUnit-is_nal (n ∷ ns) h))
          ∙ e,
      out,
    )
