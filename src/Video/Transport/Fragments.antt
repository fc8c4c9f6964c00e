-- ===== src/Video/Transport/Fragments.antt =====
-- What every packet of a frame says, and what is put together from such packets.
use wzp.Common.{
  ℕ, zero, suc, ◌+◌, ◌*◌, ◌/◌, ◌%◌, ◌≡◌, ◌≤◌, ◌<◌, refl, sym, ap, ◌∙◌, inl, inr, min, true, false,
  List, [], ◌∷◌, ◌++◌, some, arith, ltb, ◌==◌, length, take, get_elem?, All, Bool-cases,
  Option-cases,
}
use wzp.Common.Words.{u32_mod}
use wzp.Common.Keyed.{nat_eq, find, put, find-All, put-All}
use wzp.Wire.Header.{is_keyframe}
use wzp.Wire.Packet.{MediaPacket}
use wzp.Video.Transport.{
  VideoFrame, Reassembled, chunks, framed, dimension_bytes, fragment_header, fragments_from,
  packetize_video_frame, PendingFrame, default_pending, fragment_index, fragment_count, enter,
  split_payload, gather, width_of, height_of, assemble, meta_len,
}
use wzp.Video.Transport.Chunks.{
  joined, joined-chunks, length-chunks, max_frame, index-header, count-header, keyframe-header,
}

-- The packet is a fragment of the frame.
pub record IsFragment (f : VideoFrame) (p : MediaPacket) : Type 0 where
  pub piece : get_elem? (chunks (framed f)) (fragment_index p.header) ≡ some p.payload
  pub count : fragment_count p.header ≡ length (chunks (framed f))
  pub keyframe : is_keyframe p.header ≡ f.is_keyframe
  pub codec : p.header.codec_id ≡ f.codec_id

take-all {ℓ} : {A : Type ℓ} (n : ℕ) (xs : List A) → length xs ≤ n → take n xs ≡ xs
take-all zero [] h = refl
take-all zero (x ∷ xs) h = absurd (omega arith)
take-all (suc n) [] h = refl
take-all (suc n) (x ∷ xs) h = ap (λ ys. x ∷ ys) (take-all n xs (omega arith))

pub get_elem?-lt {ℓ} :
    {A : Type ℓ} (xs : List A) (i : ℕ) (v : A) → get_elem? xs i ≡ some v → i < length xs
get_elem?-lt [] i v h = ground (arith, h)
get_elem?-lt (x ∷ xs) zero v h = omega arith
get_elem?-lt (x ∷ xs) (suc i) v h = omega (arith, get_elem?-lt xs i v h)

pub from-IsFragment :
    (f : VideoFrame) (i seq : ℕ) (cs : List (List ℕ))
    → i + length cs ≡ length (chunks (framed f))
    → length (chunks (framed f)) ≤ 255
    → ((k : ℕ) → get_elem? cs k ≡ get_elem? (chunks (framed f)) (i + k))
    → All (IsFragment f) (fragments_from f (length (chunks (framed f))) i seq cs).0
unfolding fragments_from fragment_header
from-IsFragment f i seq [] e b h = tt
from-IsFragment f i seq (c ∷ cs) e b h =
    let total = length (chunks (framed f)) in
    (
      record {
        piece =
            ap (get_elem? (chunks (framed f)))
              (index-header f total i seq (omega arith) (omega arith) ∙ omega arith)
            ∙ sym (h 0);
        count = count-header f total i seq (omega arith) (omega arith);
        keyframe = keyframe-header f total i seq;
        codec = refl;
      },
      from-IsFragment f (i + 1) ((seq + 1) % u32_mod) cs (omega arith) b
          (λ k. h (suc k) ∙ ap (get_elem? (chunks (framed f))) (omega arith)),
    )

pub packetize-fragments :
    (f : VideoFrame) (seq : ℕ)
    → length f.bytes ≤ max_frame
    → 0 < length f.bytes
    → packetize_video_frame f seq
      ≡ fragments_from f (length (chunks (framed f))) 0 seq (chunks (framed f))
unfolding packetize_video_frame
packetize-fragments f seq h g =
    let small = length-chunks f h in
    let some_bytes : (length f.bytes == 0) ≡ false = ground (arith, g) in
    let count : min (length (chunks (framed f))) 255 ≡ length (chunks (framed f)) = omega arith in
    rw (some_bytes, count, take-all 255 (chunks (framed f)) small) refl

packetize-empty :
    (f : VideoFrame) (seq : ℕ)
    → (length f.bytes == 0) ≡ true
    → packetize_video_frame f seq ≡ ([], seq)
unfolding packetize_video_frame
packetize-empty f seq e = rw e refl

pub packetize-IsFragment :
    (f : VideoFrame) (seq : ℕ)
    → length f.bytes ≤ max_frame
    → All (IsFragment f) (packetize_video_frame f seq).0
packetize-IsFragment f seq h = elim (Bool-cases (length f.bytes == 0)) [
  | inl e ↦ rw (packetize-empty f seq e) tt
  | inr e ↦ rw (packetize-fragments f seq h (ground (arith, e))) (
      from-IsFragment f 0 seq (chunks (framed f)) (omega arith) (length-chunks f h)
        (λ k. ap (get_elem? (chunks (framed f))) (omega arith)))
]

-- The entry holds fragments of the frame only.
pub record Holds (f : VideoFrame) (e : PendingFrame) : Type 0 where
  pub pieces : All (λ entry. get_elem? (chunks (framed f)) entry.0 ≡ some entry.1) e.fragments
  pub total : e.total_fragments ≡ length (chunks (framed f))
  pub keyframe : e.is_keyframe ≡ f.is_keyframe
  pub codec : e.codec_id ≡ some f.codec_id

enter-counted :
    (f : VideoFrame) (e : PendingFrame) (p : MediaPacket)
    → IsFragment f p
    → (enter e p).total_fragments ≡ length (chunks (framed f))
unfolding enter
enter-counted f e p i =
    let room = get_elem?-lt (chunks (framed f)) (fragment_index p.header) p.payload i.piece in
    let positive : ltb 0 (fragment_count p.header) ≡ true = ground (arith, room, i.count) in
    rw positive i.count

pub enter_first-Holds :
    (f : VideoFrame) (p : MediaPacket) → IsFragment f p → Holds f (enter default_pending p)
unfolding enter put
enter_first-Holds f p i = record {
  pieces = (i.piece, tt);
  total = enter-counted f default_pending p i;
  keyframe = ground (arith, i.keyframe);
  codec = ap some i.codec;
}

pub enter-Holds :
    (f : VideoFrame) (e : PendingFrame) (p : MediaPacket)
    → IsFragment f p
    → Holds f e
    → Holds f (enter e p)
unfolding enter
enter-Holds f e p i h = record {
  pieces = put-All _ (fragment_index p.header) p.payload e.fragments i.piece h.pieces;
  total = enter-counted f e p i;
  keyframe = ground (arith, i.keyframe, h.keyframe);
  codec = ap some i.codec;
}

-- What a frame looks like when it has been put together.
unfoldable pub shown : VideoFrame → Reassembled
shown f = record {
  codec_id = f.codec_id;
  is_keyframe = f.is_keyframe;
  width = some (min f.width 65535);
  height = some (min f.height 65535);
  bytes = f.bytes;
}

gather-joined :
    (all cs : List (List ℕ)) (fs : List (ℕ × List ℕ)) (i : ℕ) (out : List ℕ)
    → All (λ entry. get_elem? all entry.0 ≡ some entry.1) fs
    → ((k : ℕ) → get_elem? cs k ≡ get_elem? all (i + k))
    → gather fs (length cs) i ≡ some out
    → out ≡ joined cs
unfolding gather joined
gather-joined all [] fs i out h e g = ground (arith, g)
gather-joined all (c ∷ cs) fs i out h e g = elim (Option-cases (find i fs)) [
  | inl n ↦ absurd (ground (arith, rw n at g))
  | inr (v, s) ↦ elim (Option-cases (gather fs (length cs) (i + 1))) [
    | inl n ↦ absurd (ground (arith, rw (s, n) at g))
    | inr (rest, r) ↦
        let tail =
          gather-joined all cs fs (i + 1) rest h (λ k. e (suc k) ∙ ap (get_elem? all) (omega arith))
            r in
        let at_i : get_elem? all i ≡ some v = find-All _ i v fs h s in
        let same : some c ≡ some v = e 0 ∙ ap (get_elem? all) (omega arith) ∙ at_i in
        let whole : some (v ++ rest) ≡ some out = rw (s, r) at g in
        let head : c ≡ v = cc in
        let end : v ++ rest ≡ out = cc in
        sym end ∙ ap (λ x. x ++ rest) (sym head) ∙ ap (λ x. c ++ x) tail
  ]
]

digits : (n : ℕ) → n / 256 * 256 + n % 256 ≡ n
digits n = omega arith

split-framed :
    (f : VideoFrame)
    → split_payload (framed f)
      ≡ (some (record { width = min f.width 65535; height = min f.height 65535 }), f.bytes)
unfolding split_payload framed dimension_bytes
split-framed f =
    let long : ltb (suc (suc (suc (suc (suc (suc (suc (suc (length f.bytes))))))))) meta_len
        ≡ false =
      ground arith in
    rw (long, digits (min f.width 65535), digits (min f.height 65535)) refl

pub assemble-shown :
    (f : VideoFrame) (e : PendingFrame) (r : Reassembled)
    → Holds f e
    → assemble e ≡ some r
    → r ≡ shown f
unfolding assemble shown width_of height_of
assemble-shown f e r h a = elim (Option-cases (gather e.fragments (length (chunks (framed f))) 0)) [
  | inl n ↦ absurd (ground (arith, rw (h.codec, h.total, n) at a))
  | inr (out, g) ↦
      let whole : out ≡ framed f =
        gather-joined (chunks (framed f)) (chunks (framed f)) e.fragments 0 out h.pieces
          (λ k. ap (get_elem? (chunks (framed f))) (omega arith)) g
        ∙ joined-chunks (framed f) in
      let parts : split_payload out
          ≡ (some (record { width = min f.width 65535; height = min f.height 65535 }), f.bytes) =
        ap split_payload whole ∙ split-framed f in
      let got : some (shown f) ≡ some r = rw (h.codec, h.total, g, parts, h.keyframe) at a in
      let back : shown f ≡ r = cc in sym back
]
