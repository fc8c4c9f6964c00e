-- ===== src/Video/H264/Bounds.antt =====
-- The size of the packets that the framer makes.
use wzp.Common.{
  ℕ, zero, suc, ◌+◌, ◌-◌, ◌≤◌, ◌<◌, ◌≡◌, ◌≢◌, refl, subst, Bool, false, List, [], ◌∷◌, Option, none,
  some, arith, leb, length, length-take, All, All-append, drop,
}
use wzp.Video.H264.{
  FramedPacket, H264Framer, fragment_loop, div_ceil, frame_nal, frame_nals, frame, is_empty_list,
  join, split_nals,
}

abbrev pub FitsIn : ℕ → FramedPacket → Type 0
FitsIn max p = length p.payload ≤ max

fragment_loop-FitsIn :
    (fuel step total idx h : ℕ) (l : Bool) (p : List ℕ)
    → All (FitsIn (step + 2)) (fragment_loop fuel step total idx h l p)
unfolding fragment_loop
fragment_loop-FitsIn zero step total idx h l p = tt
fragment_loop-FitsIn (suc fuel) step total idx h l [] = tt
fragment_loop-FitsIn (suc fuel) step total idx h l (b ∷ p) = (
  omega (arith, length-take {0} step (b ∷ p)),
  fragment_loop-FitsIn fuel step total (idx + 1) h l (drop step (b ∷ p)),
)

-- Of a result, if there is one.
abbrev AllFit : ℕ → Option (List FramedPacket) → Type 0
AllFit max none = Unit
AllFit max (some ps) = All (FitsIn max) ps

frame_nal-FitsIn : (max : ℕ) (l : Bool) (n : List ℕ) → AllFit max (frame_nal max l n)
unfolding frame_nal
frame_nal-FitsIn max l [] = (omega arith, tt)
frame_nal-FitsIn max l (h ∷ p) =
    ground (
      arith,
      fragment_loop-FitsIn (length p) (max - 2) (div_ceil (length p) (max - 2)) 0 h l p,
      room,
    )
  where
    room : leb max 2 ≡ false → max - 2 + 2 ≡ max
    room e = ground arith

join-FitsIn :
    (max : ℕ) (a b : Option (List FramedPacket))
    → AllFit max a
    → AllFit max b
    → AllFit max (join a b)
join-FitsIn max none b f g = tt
join-FitsIn max (some ps) none f g = tt
join-FitsIn max (some ps) (some qs) f g = All-append (FitsIn max) ps qs f g

frame_nals-FitsIn : (max : ℕ) (ns : List (List ℕ)) → AllFit max (frame_nals max ns)
unfolding frame_nals
frame_nals-FitsIn max [] = tt
frame_nals-FitsIn max (n ∷ ns) =
    join-FitsIn max (frame_nal max (is_empty_list ns) n) (frame_nals max ns)
      (frame_nal-FitsIn max (is_empty_list ns) n) (frame_nals-FitsIn max ns)

some_nal : (max : ℕ) (l : Bool) (n : List ℕ) → 2 < max → frame_nal max l n ≢ none
unfolding frame_nal
some_nal max l [] m e = cc
some_nal max l (h ∷ p) m e = ground (arith, e)

some_nals : (max : ℕ) (ns : List (List ℕ)) → 2 < max → frame_nals max ns ≢ none
unfolding frame_nals
some_nals max [] m e = cc
some_nals max (n ∷ ns) m e =
    join_some (frame_nal max (is_empty_list ns) n) (frame_nals max ns) (some_nal max _ n m)
      (some_nals max ns m) e
  where
    join_some : (a b : Option (List FramedPacket)) → a ≢ none → b ≢ none → join a b ≢ none
    join_some none b f g e = f refl
    join_some (some ps) none f g e = g refl
    join_some (some ps) (some qs) f g e = cc

-- With room for three bytes the framer gives packets for every input whatever, each at most as long
-- as the limit.
pub frame_bounds :
    (f : H264Framer) (d : List ℕ)
    → 2 < f.max_payload_size
    → (ps : List FramedPacket) × (frame f d ≡ some ps) × All (FitsIn f.max_payload_size) ps
unfolding frame
frame_bounds f d m = at (frame_nals f.max_payload_size (split_nals d)) refl
  where
    at :
        (o : Option (List FramedPacket))
        → frame_nals f.max_payload_size (split_nals d) ≡ o
        → (ps : List FramedPacket) × (frame_nals f.max_payload_size (split_nals d) ≡ some ps)
          × All (FitsIn f.max_payload_size) ps
    at none e = absurd (some_nals f.max_payload_size (split_nals d) m e)
    at (some ps) e = (
      ps,
      e,
      subst (AllFit f.max_payload_size) e (frame_nals-FitsIn f.max_payload_size (split_nals d)),
    )
