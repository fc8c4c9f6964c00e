-- ===== src/Video/Transport/Origin.antt =====
-- Where the frames come from that are put together.
use wzp.Common.{
  ℕ, zero, suc, ◌≡◌, ◌≤◌, refl, inl, inr, List, [], ◌∷◌, Option, none, some, arith, leb, length,
  get_elem?, All, Bool-cases, Option-cases, subst,
}
use wzp.Common.Words.{sub32}
use wzp.Common.Keyed.{nat_eq, find, find-All, put-All, delete-All, retain-All}
use wzp.Wire.Packet.{MediaPacket}
use wzp.Video.Transport.{
  VideoFrame, Reassembled, packetize_video_frame, PendingFrame, or_default, enter, assemble,
  VideoReassembler, new_reassembler, is_complete, settle, push, evict_stale,
}
use wzp.Video.Transport.Chunks.{max_frame}
use wzp.Video.Transport.Fragments.{
  IsFragment, packetize-IsFragment, Holds, enter_first-Holds, enter-Holds, shown, assemble-shown,
}

-- What happens to a reassembler: a packet comes, or old frames are evicted.
pub data Event : Type 0 where
  comes : MediaPacket → Event
  evicts : ℕ → ℕ → Event

-- `if let Some(frame) = reassembler.push(..)`
unfoldable pub given : Option Reassembled → List Reassembled → List Reassembled
given none rest = rest
given (some r) rest = r ∷ rest

-- The frames that a run of events gives.
unfoldable pub frames_of : VideoReassembler → List Event → List Reassembled
frames_of r [] = []
frames_of r (comes p ∷ es) = given (push r p).0 (frames_of (push r p).1 es)
frames_of r (evicts now age ∷ es) = frames_of (evict_stale r now age) es

all-get {ℓ κ} :
    {A : Type ℓ} (P : A → Type κ) (xs : List A) (k : ℕ) (x : A)
    → All P xs
    → get_elem? xs k ≡ some x
    → P x
all-get P [] k x h e = absurd (ground (arith, e))
all-get P (y ∷ xs) zero x h e = let same : y ≡ x = cc in subst P same h.0
all-get P (y ∷ xs) (suc k) x h e = all-get P xs k x h.1 e

module _ (frame_at : ℕ → Option VideoFrame) where
  -- The packet is one of those that the frame of its timestamp was cut into.
  unfoldable pub IsFrom : Event → Type 0
  IsFrom (comes p) =
      (f : VideoFrame) × (seq : ℕ) × (k : ℕ) × (length f.bytes ≤ max_frame)
      × (frame_at p.header.timestamp ≡ some f)
      × (get_elem? (packetize_video_frame f seq).0 k ≡ some p)
  IsFrom (evicts now age) = Unit

  unfoldable pub IsSent : Reassembled → Type 0
  IsSent r = (t : ℕ) × (f : VideoFrame) × (frame_at t ≡ some f) × (r ≡ shown f)

  unfoldable pub Entry : ℕ × PendingFrame → Type 0
  Entry entry = (f : VideoFrame) × (frame_at entry.0 ≡ some f) × Holds f entry.1

  entered :
      (r : VideoReassembler) (p : MediaPacket) (f : VideoFrame)
      → All Entry r.pending
      → frame_at p.header.timestamp ≡ some f
      → IsFragment f p
      → Holds f (enter (or_default (find p.header.timestamp r.pending)) p)
  unfolding Entry
  entered r p f h a i = elim (Option-cases (find p.header.timestamp r.pending)) [
    | inl n ↦ rw n (enter_first-Holds f p i)
    | inr (e, s) ↦
        let (g, b, held) = find-All Entry p.header.timestamp e r.pending h s in
        let same : g ≡ f = cc in rw s (enter-Holds f e p i (subst (λ x. Holds x e) same held))
  ]

  sent :
      (o : Option Reassembled) (t : ℕ) (f : VideoFrame)
      → frame_at t ≡ some f
      → ((x : Reassembled) → o ≡ some x → x ≡ shown f)
      → All IsSent (given o [])
  unfolding IsSent given
  sent none t f a g = tt
  sent (some x) t f a g = ((t, f, a, g x refl), tt)

  settle-Entry :
      (r : VideoReassembler) (t : ℕ) (e : PendingFrame) (f : VideoFrame)
      → All Entry r.pending
      → frame_at t ≡ some f
      → Holds f e
      → All Entry (settle r t e).1.pending × All IsSent (given (settle r t e).0 [])
  unfolding settle Entry given
  settle-Entry r t e f h a held = elim (Bool-cases (is_complete e)) [
    | inl c ↦ rw c (
      delete-All Entry t r.pending h,
      sent (assemble e) t f a (λ x m. assemble-shown f e x held m),
    )
    | inr n ↦ rw n (put-All Entry t e r.pending (f, a, held) h, tt)
  ]

  push-Entry :
      (r : VideoReassembler) (p : MediaPacket) (f : VideoFrame)
      → All Entry r.pending
      → frame_at p.header.timestamp ≡ some f
      → IsFragment f p
      → All Entry (push r p).1.pending × All IsSent (given (push r p).0 [])
  unfolding push
  push-Entry r p f h a i =
      settle-Entry r p.header.timestamp (enter (or_default (find p.header.timestamp r.pending)) p) f
        h a (entered r p f h a i)

  evict-Entry :
      (r : VideoReassembler) (now age : ℕ)
      → All Entry r.pending
      → All Entry (evict_stale r now age).pending
  unfolding evict_stale
  evict-Entry r now age h =
      retain-All Entry Entry (λ entry. leb (sub32 now entry.0) age) r.pending (λ x p k. p) h

  given-All :
      (o : Option Reassembled) (rs : List Reassembled)
      → All IsSent (given o [])
      → All IsSent rs
      → All IsSent (given o rs)
  unfolding given
  given-All none rs g h = h
  given-All (some x) rs g h = (g.0, h)

  frames_from :
      (r : VideoReassembler) (es : List Event)
      → All Entry r.pending
      → All IsFrom es
      → All IsSent (frames_of r es)
  unfolding frames_of IsFrom
  frames_from r [] h from = tt
  frames_from r (comes p ∷ es) h from =
      let (f, seq, k, small, a, m) = from.0 in
      let fragment =
        all-get (IsFragment f) (packetize_video_frame f seq).0 k p
          (packetize-IsFragment f seq small) m in
      let step = push-Entry r p f h a fragment in
      given-All (push r p).0 _ step.1 (frames_from (push r p).1 es step.0 from.1)
  frames_from r (evicts now age ∷ es) h from =
      frames_from (evict_stale r now age) es (evict-Entry r now age h) from.1

  -- Whatever packets come of the frames that were sent, one frame for a timestamp, in whatever order,
  -- however many of them are lost or come again, and whatever is evicted in between: each frame that
  -- the reassembler gives is one that was sent, with its codec, its keyframe mark, its bytes, and its
  -- width and height up to 65535. The frames are of 297832 bytes at most.
  pub frames_of-IsSent :
      (es : List Event) → All IsFrom es → All IsSent (frames_of new_reassembler es)
  unfolding new_reassembler
  frames_of-IsSent es h = frames_from new_reassembler es tt h
