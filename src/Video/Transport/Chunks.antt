-- ===== src/Video/Transport/Chunks.antt =====
-- The chunks of a frame, and the header of a fragment.
use wzp.Common.{
  ℕ, zero, suc, ◌+◌, ◌*◌, ◌%◌, ◌^◌, ◌≡◌, ◌≤◌, ◌<◌, refl, ap, ◌∙◌, inl, inr, bit_or, List, [], ◌∷◌,
  ◌++◌, arith, ◌==◌, length, drop, Bool-cases, length-drop, take-append-drop,
}
use wzp.Common.Bits.{bit-bit_or}
use wzp.Common.BitSums.{bit_ext, bit_or-shifted, bit_and-ones}
use wzp.Common.Words.{u16_mod}
use wzp.Wire.Header.{is_keyframe, is_frame_end}
use wzp.Video.Transport.{
  VideoFrame, max_payload, chunk_loop, chunks, framed, dimension_bytes, fragment_header,
  fragment_index, fragment_count,
}

unfoldable pub joined : List (List ℕ) → List ℕ
joined [] = []
joined (c ∷ cs) = c ++ joined cs

joined-chunk_loop : (n : ℕ) (d : List ℕ) → length d ≤ n → joined (chunk_loop n d) ≡ d
unfolding joined chunk_loop
joined-chunk_loop zero [] h = refl
joined-chunk_loop zero (b ∷ d) h = absurd (omega arith)
joined-chunk_loop (suc n) [] h = refl
joined-chunk_loop (suc n) (b ∷ d) h =
    rw (joined-chunk_loop n (drop max_payload (b ∷ d)) (omega (arith, h, length-drop 1167 d)))
      (take-append-drop max_payload (b ∷ d))

length-chunk_loop :
    (n k : ℕ) (d : List ℕ) → length d ≤ k * max_payload → length (chunk_loop n d) ≤ k
unfolding chunk_loop
length-chunk_loop zero k d h = omega arith
length-chunk_loop (suc n) k [] h = omega arith
length-chunk_loop (suc n) zero (b ∷ d) h = absurd (omega arith)
length-chunk_loop (suc n) (suc k) (b ∷ d) h =
    omega (
      arith,
      length-chunk_loop n k (drop max_payload (b ∷ d)) (omega (arith, h, length-drop 1167 d)),
    )

pub joined-chunks : (d : List ℕ) → joined (chunks d) ≡ d
unfolding chunks
joined-chunks d = joined-chunk_loop (length d) d (omega arith)

-- The largest frame whose fragments can be numbered.
abbrev pub max_frame : ℕ
max_frame = 297832

length-framed : (f : VideoFrame) → length (framed f) ≡ length f.bytes + 8
unfolding framed dimension_bytes
length-framed f = omega arith

pub length-chunks : (f : VideoFrame) → length f.bytes ≤ max_frame → length (chunks (framed f)) ≤ 255
unfolding chunks
length-chunks f h =
    length-chunk_loop (length (framed f)) 255 (framed f) (omega (arith, h, length-framed f))

bit_or_comm : (a b : ℕ) → bit_or a b ≡ bit_or b a
bit_or_comm a b =
    bit_ext (bit_or a b + bit_or b a) _ _ (omega arith) (omega arith)
      (λ k. omega (arith, bit-bit_or a b k, bit-bit_or b a k))

block_sum :
    (i total : ℕ) → i < 256 → total < 256 → bit_or (i * 256 % u16_mod) total ≡ total + i * 256
block_sum i total h g =
    let small : i * 256 % u16_mod ≡ i * 2 ^ 8 = omega arith in
    bit_or_comm (i * 256 % u16_mod) total ∙ ap (bit_or total) small ∙ bit_or-shifted 8 total i g

pub index-header :
    (f : VideoFrame) (total i seq : ℕ)
    → i < 256
    → total < 256
    → fragment_index (fragment_header f total i seq) ≡ i
unfolding fragment_index fragment_header
index-header f total i seq h g = rw (block_sum i total h g) (omega arith)

pub count-header :
    (f : VideoFrame) (total i seq : ℕ)
    → i < 256
    → total < 256
    → fragment_count (fragment_header f total i seq) ≡ total
unfolding fragment_count fragment_header
count-header f total i seq h g =
    rw (block_sum i total h g) (bit_and-ones 8 (total + i * 256) ∙ omega arith)

pub keyframe-header :
    (f : VideoFrame) (total i seq : ℕ) → is_keyframe (fragment_header f total i seq) ≡ f.is_keyframe
unfolding fragment_header
keyframe-header f total i seq = elim (Bool-cases f.is_keyframe) [
  | inl a ↦ elim (Bool-cases (i + 1 == total)) [ inl b ↦ rw (a, b) refl | inr b ↦ rw (a, b) refl ]
  | inr a ↦ elim (Bool-cases (i + 1 == total)) [ inl b ↦ rw (a, b) refl | inr b ↦ rw (a, b) refl ]
]

pub end-header :
    (f : VideoFrame) (total i seq : ℕ)
    → is_frame_end (fragment_header f total i seq) ≡ (i + 1 == total)
unfolding fragment_header
end-header f total i seq = elim (Bool-cases f.is_keyframe) [
  | inl a ↦ elim (Bool-cases (i + 1 == total)) [ inl b ↦ rw (a, b) refl | inr b ↦ rw (a, b) refl ]
  | inr a ↦ elim (Bool-cases (i + 1 == total)) [ inl b ↦ rw (a, b) refl | inr b ↦ rw (a, b) refl ]
]
