-- ===== src/Video/Transport/RoundTrip.antt =====
-- The packets of one frame in their order.
use wzp.Common.{
  ℕ, suc, ◌+◌, ◌%◌, ◌≡◌, ◌≤◌, ◌<◌, refl, sym, ap, ◌∙◌, inl, inr, true, false, List, [], ◌∷◌, map,
  none, some, arith, ltb, ◌==◌, ==_iff, if◌then◌else◌, length, get_elem?, length-eq_zero,
  Bool-cases, Option-cases, subst,
}
use wzp.Common.Words.{u32_mod}
use wzp.Common.Keyed.{nat_eq, find, put, delete, find-put, find-put_self}
use wzp.Wire.Packet.{MediaPacket}
use wzp.Video.Transport.{
  VideoFrame, chunks, chunk_loop, framed, dimension_bytes, fragment_header, fragments_from,
  packetize_video_frame, PendingFrame, default_pending, or_default, fragment_index, enter, gather,
  assemble, VideoReassembler, is_complete, settle, push,
}
use wzp.Video.Transport.Chunks.{joined, length-chunks, max_frame, index-header, end-header}
use wzp.Video.Transport.Fragments.{
  IsFragment, from-IsFragment, packetize-fragments, Holds, enter_first-Holds, enter-Holds, shown,
  assemble-shown,
}
use wzp.Video.Transport.Origin.{comes, given, frames_of}

length-put_new :
    (i : ℕ) (v : List ℕ) (fs : List (ℕ × List ℕ))
    → find i fs ≡ none
    → length (put i v fs) ≡ suc (length fs)
unfolding find put
length-put_new i v [] h = refl
length-put_new i v ((j, u) ∷ fs) h = elim (Bool-cases (j == i)) [
  | inl e ↦ absurd (ground (arith, rw e at h))
  | inr e ↦ rw e (ap suc (length-put_new i v fs (rw e at h)))
]

-- The first fragments of the frame have been entered, up to an index, and not the last one.
record First (f : VideoFrame) (i : ℕ) (e : PendingFrame) : Type 0 where
  enters : (p : MediaPacket) → IsFragment f p → Holds f (enter e p)
  count : length e.fragments ≡ i
  open_end : e.saw_frame_end ≡ false
  found : (k : ℕ) → find k e.fragments ≡ (if ltb k i then get_elem? (chunks (framed f)) k else none)

First-default : (f : VideoFrame) → First f 0 default_pending
unfolding find
First-default f = record {
  enters = enter_first-Holds f;
  count = refl;
  open_end = refl;
  found = λ k. ground arith;
}

gather-all :
    (all cs : List (List ℕ)) (fs : List (ℕ × List ℕ)) (i : ℕ)
    → ((k : ℕ) → k < length all → find k fs ≡ get_elem? all k)
    → i + length cs ≡ length all
    → ((k : ℕ) → get_elem? cs k ≡ get_elem? all (i + k))
    → gather fs (length cs) i ≡ some (joined cs)
unfolding gather joined
gather-all all [] fs i h e g = refl
gather-all all (c ∷ cs) fs i h e g =
    let here : find i fs ≡ some c =
      h i (omega arith) ∙ ap (get_elem? all) (omega arith) ∙ sym (g 0) in
    let rest =
      gather-all all cs fs (i + 1) h (omega arith)
        (λ k. g (suc k) ∙ ap (get_elem? all) (omega arith)) in
    rw (here, rest) refl

assemble-some :
    (f : VideoFrame) (e : PendingFrame)
    → Holds f e
    → ((k : ℕ)
        → k < length (chunks (framed f))
        → find k e.fragments ≡ get_elem? (chunks (framed f)) k)
    → assemble e ≡ some (shown f)
unfolding assemble
assemble-some f e h g = elim (Option-cases (assemble e)) [
  | inl n ↦
      let all = chunks (framed f) in
      let whole =
        gather-all all all e.fragments 0 g (omega arith) (λ k. ap (get_elem? all) (omega arith)) in
      absurd (ground (arith, rw (h.codec, h.total, whole) at n))
  | inr (x, s) ↦ s ∙ ap some (assemble-shown f e x h s)
]

module _ (f : VideoFrame) (seq : ℕ) (i : ℕ) (c : List ℕ) where
  -- The packet of the chunk.
  unfoldable packet : MediaPacket
  packet = record {
    header = fragment_header f (length (chunks (framed f))) i seq;
    payload = c;
    quality_report = none;
  }

  index_next :
      length (chunks (framed f)) ≤ 255
      → i < length (chunks (framed f))
      → fragment_index packet.header ≡ i
  unfolding packet
  index_next b l = index-header f (length (chunks (framed f))) i seq (omega arith) (omega arith)

  found_next :
      (e : PendingFrame)
      → First f i e
      → length (chunks (framed f)) ≤ 255
      → i < length (chunks (framed f))
      → get_elem? (chunks (framed f)) i ≡ some c
      → (k : ℕ)
      → find k (enter e packet).fragments
        ≡ (if ltb k (i + 1) then get_elem? (chunks (framed f)) k else none)
  unfolding enter packet
  found_next e h b l g k =
      find-put k (fragment_index packet.header) c e.fragments
      ∙ rw (index_next b l) (elim (Bool-cases (i == k)) [
        | inl same ↦
            let eq : i ≡ k = (==_iff i k).0 same in
            let low : ltb k (i + 1) ≡ true = ground (arith, eq) in
            rw (same, low) (sym (subst (λ j. get_elem? (chunks (framed f)) j ≡ some c) eq g))
        | inr ne ↦ rw (ne, h.found k) (ground (arith, ne))
      ])

  length_next :
      (e : PendingFrame)
      → First f i e
      → length (chunks (framed f)) ≤ 255
      → i < length (chunks (framed f))
      → length (enter e packet).fragments ≡ i + 1
  unfolding enter packet
  length_next e h b l =
      rw (index_next b l)
        (length-put_new i c e.fragments (h.found i ∙ ground arith) ∙ omega (arith, h.count))

  end_next :
      (e : PendingFrame)
      → First f i e
      → (enter e packet).saw_frame_end ≡ (i + 1 == length (chunks (framed f)))
  unfolding enter packet
  end_next e h = ground (arith, h.open_end, end-header f (length (chunks (framed f))) i seq)

  complete_next :
      (e : PendingFrame)
      → First f i e
      → length (chunks (framed f)) ≤ 255
      → i < length (chunks (framed f))
      → Holds f (enter e packet)
      → is_complete (enter e packet) ≡ (i + 1 == length (chunks (framed f)))
  unfolding is_complete
  complete_next e h b l held = ground (arith, end_next e h, length_next e h b l, held.total)

  First-enter :
      (e : PendingFrame)
      → First f i e
      → length (chunks (framed f)) ≤ 255
      → i + 1 < length (chunks (framed f))
      → get_elem? (chunks (framed f)) i ≡ some c
      → Holds f (enter e packet)
      → First f (i + 1) (enter e packet)
  First-enter e h b l g held = record {
    enters = λ p q. enter-Holds f (enter e packet) p q held;
    count = length_next e h b (omega arith);
    open_end = end_next e h ∙ ground arith;
    found = found_next e h b (omega arith) g;
  }

push_complete :
    (r : VideoReassembler) (p : MediaPacket) (e : PendingFrame)
    → or_default (find p.header.timestamp r.pending) ≡ e
    → is_complete (enter e p) ≡ true
    → push r p ≡ (assemble (enter e p), record r { pending = delete p.header.timestamp r.pending })
unfolding push settle
push_complete r p e o c = rw (o, c) refl

push_waits :
    (r : VideoReassembler) (p : MediaPacket) (e : PendingFrame)
    → or_default (find p.header.timestamp r.pending) ≡ e
    → is_complete (enter e p) ≡ false
    → push r p ≡ (none, record r { pending = put p.header.timestamp (enter e p) r.pending })
unfolding push settle
push_waits r p e o c = rw (o, c) refl

from_order :
    (f : VideoFrame) (i seq : ℕ) (cs : List (List ℕ)) (r : VideoReassembler) (e : PendingFrame)
    → or_default (find f.timestamp_ms r.pending) ≡ e
    → First f i e
    → i + length cs ≡ length (chunks (framed f))
    → 0 < length cs
    → length (chunks (framed f)) ≤ 255
    → ((k : ℕ) → get_elem? cs k ≡ get_elem? (chunks (framed f)) (i + k))
    → frames_of r (map comes (fragments_from f (length (chunks (framed f))) i seq cs).0)
      ≡ shown f ∷ []
unfolding frames_of fragments_from given packet fragment_header
from_order f i seq [] r e o h s n b g = absurd (omega arith)
from_order f i seq (c ∷ cs) r e o h s n b g =
    let p = packet f seq i c in
    let here : get_elem? (chunks (framed f)) i ≡ some c =
      ap (get_elem? (chunks (framed f))) (omega arith) ∙ sym (g 0) in
    let fragment = (from-IsFragment f i seq (c ∷ cs) s b g).0 in
    let held = h.enters p fragment in
    let done = complete_next f seq i c e h b (omega arith) held in
    elim (Bool-cases (i + 1 == length (chunks (framed f)))) [
      | inl last ↦
          let found : (k : ℕ)
              → k < length (chunks (framed f))
              → find k (enter e p).fragments ≡ get_elem? (chunks (framed f)) k =
            λ k l. found_next f seq i c e h b (omega arith) here k ∙ ground (arith, last, l) in
          rw
            (
              push_complete r p e o (done ∙ last),
              assemble-some f (enter e p) held found,
              length-eq_zero cs (ground (arith, last, s)),
            )
            refl
      | inr more ↦
          let next =
            from_order f (i + 1) ((seq + 1) % u32_mod) cs
              (record r { pending = put f.timestamp_ms (enter e p) r.pending }) (enter e p)
              (ap or_default (find-put_self f.timestamp_ms (enter e p) r.pending))
              (First-enter f seq i c e h b (ground (arith, more, s)) here held) (omega arith)
              (ground (arith, more, s)) b
              (λ k. g (suc k) ∙ ap (get_elem? (chunks (framed f))) (omega arith)) in
          rw (push_waits r p e o (done ∙ more)) next
    ]

chunks-positive : (f : VideoFrame) → 0 < length (chunks (framed f))
unfolding chunks framed chunk_loop dimension_bytes
chunks-positive f = omega arith

-- The packets of a frame, in their order, give the frame once, with the last of them: its codec, its
-- keyframe mark, its bytes, and its width and height up to 65535. The frame has at least one byte and
-- at most 297832, and nothing is pending under its timestamp.
pub frames_of-packetize_video_frame :
    (f : VideoFrame) (seq : ℕ) (r : VideoReassembler)
    → 0 < length f.bytes
    → length f.bytes ≤ max_frame
    → find f.timestamp_ms r.pending ≡ none
    → frames_of r (map comes (packetize_video_frame f seq).0) ≡ shown f ∷ []
frames_of-packetize_video_frame f seq r h b n = rw (packetize-fragments f seq b h) (
    from_order f 0 seq (chunks (framed f)) r default_pending (ap or_default n) (First-default f)
      (omega arith) (chunks-positive f) (length-chunks f b)
      (λ k. ap (get_elem? (chunks (framed f))) (omega arith)))
