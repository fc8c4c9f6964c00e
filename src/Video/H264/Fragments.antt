-- ===== src/Video/H264/Fragments.antt =====
-- The fragments of one large NAL unit, put together again.
use native.Mathlib.Nat.{div-eq-sub-div, div-eq_of_lt}
use wzp.Common.BitSums.{all_below, all_below_holds}
use wzp.Common.{
  ℕ, zero, suc, ◌+◌, ◌-◌, ◌/◌, ◌≤◌, ◌<◌, ◌≡◌, refl, ap, ◌∙◌, Bool, true, false, not, ◌&&◌, List, [],
  ◌∷◌, ◌++◌, Option, none, some, arith, bit_and, bit_or, ltb, ◌==◌, if◌then◌else◌, length, ltb→lt,
  ltb→le, append-nil, append_assoc, length-drop, take, drop, take-append-drop, Bool-cases, inl, inr,
}
use wzp.Video.H264.{
  FramedPacket, fu_indicator, fu_header, fragment_loop, div_ceil, H264Depacketizer, maybe_emit,
  push, start_code,
}

abbrev pub emits : Option (List ℕ) → List (List ℕ)
emits none = []
emits (some au) = au ∷ []

-- What a depacketizer emits over a run of packets, and the state that it ends in.
unfoldable pub feed : H264Depacketizer → List FramedPacket → List (List ℕ) × H264Depacketizer
feed s [] = ([], s)
feed s (p ∷ ps) =
    let first = push s p.payload p.is_frame_end in
    let rest = feed first.1 ps in (emits first.0 ++ rest.0, rest.1)

-- The two header bytes of a fragment, as the depacketizer reads them.
abbrev header_test : Bool → Bool → ℕ → Bool
header_test f l h =
    (bit_and (fu_indicator h) 0x1F == 28)
    && ((if f
          then not (bit_and (fu_header f l h) 0x80 == 0)
          else bit_and (fu_header f l h) 0x80 == 0)
        && ((if l
              then not (bit_and (fu_header f l h) 0x40 == 0)
              else bit_and (fu_header f l h) 0x40 == 0)
            && (bit_or (bit_and (fu_indicator h) 0xE0) (bit_and (fu_header f l h) 0x1F) == h)))

table : (f l : Bool) → all_below 128 (header_test f l) ≡ true
unfolding all_below
table true true = refl
table true false = refl
table false true = refl
table false false = refl

header_lem : (f l : Bool) (h : ℕ) → h < 128 → header_test f l h ≡ true
header_lem f l h b = all_below_holds 128 (header_test f l) h (table f l) b

ceil_last : (r s : ℕ) → 0 < r → r ≤ s → div_ceil r s ≡ 1
ceil_last r s h k = omega (
  arith,
  div-eq-sub-div {m = s} {n = r + s - 1} (omega arith) (omega arith),
  div-eq_of_lt {n = r + s - 1 - s} {m = s} (omega arith),
)

ceil_step : (r s : ℕ) → 0 < s → s < r → div_ceil r s ≡ div_ceil (r - s) s + 1
ceil_step r s h k =
    div-eq-sub-div {m = s} {n = r + s - 1} h (omega arith)
    ∙ ap (λ t. t / s + 1) {x = r + s - 1 - s} {y = r - s + s - 1} (omega arith)

ceil_pos : (r s : ℕ) → 0 < s → 0 < r → 0 < div_ceil r s
ceil_pos r s h k = omega (arith, div-eq-sub-div {m = s} {n = r + s - 1} h (omega arith))

take_all : (n : ℕ) (xs : List ℕ) → length xs ≤ n → take n xs ≡ xs
take_all zero [] h = refl
take_all zero (x ∷ xs) h = absurd (omega arith)
take_all (suc n) [] h = refl
take_all (suc n) (x ∷ xs) h = ap (λ t. x ∷ t) (take_all n xs (omega arith))

drop_all : (n : ℕ) (xs : List ℕ) → length xs ≤ n → drop n xs ≡ []
drop_all zero [] h = refl
drop_all zero (x ∷ xs) h = absurd (omega arith)
drop_all (suc n) [] h = refl
drop_all (suc n) (x ∷ xs) h = drop_all n xs (omega arith)

fragment_loop-nil :
    (fuel step total idx h : ℕ) (l : Bool) → fragment_loop fuel step total idx h l [] ≡ []
unfolding fragment_loop
fragment_loop-nil zero step total idx h l = refl
fragment_loop-nil (suc fuel) step total idx h l = refl

-- The end of a NAL unit: the state that it leaves, and the access unit if it was the last.
abbrev pub settle : Bool → H264Depacketizer → List (List ℕ) × H264Depacketizer
settle l s = let r = maybe_emit l s in (emits r.0, r.1)

-- A later fragment adds its bytes, and the last one ends the unit.
push_next :
    (s : H264Depacketizer) (l e : Bool) (h : ℕ) (bytes : List ℕ)
    → h < 128
    → s.in_fragment ≡ true
    → push s (fu_indicator h ∷ fu_header false l h ∷ bytes) e
      ≡ maybe_emit e (record s { buffer = s.buffer ++ bytes; in_fragment = not l })
unfolding push
push_next s true e h bytes b i = ground (arith, i, header_lem false true h b)
push_next s false e h bytes b i = ground (arith, i, header_lem false false h b)

-- The first fragment opens the unit by its start code and its header.
push_first :
    (s : H264Depacketizer) (l e : Bool) (h : ℕ) (bytes : List ℕ)
    → h < 128
    → push s (fu_indicator h ∷ fu_header true l h ∷ bytes) e
      ≡ maybe_emit e (record {
        buffer = (s.buffer ++ (start_code ++ h ∷ [])) ++ bytes;
        in_fragment = not l;
        frag_header = h;
      })
unfolding push
push_first s true e h bytes b = ground (arith, header_lem true true h b)
push_first s false e h bytes b = ground (arith, header_lem true false h b)

emit_not : (l : Bool) (s : H264Depacketizer) → maybe_emit (l && false) s ≡ (none, s)
unfolding maybe_emit
emit_not true s = refl
emit_not false s = refl

feed_step :
    (s t : H264Depacketizer) (p : FramedPacket) (ps : List FramedPacket) (o : Option (List ℕ))
    → push s p.payload p.is_frame_end ≡ (o, t)
    → feed s (p ∷ ps) ≡ (emits o ++ (feed t ps).0, (feed t ps).1)
unfolding feed
feed_step s t p ps o e = rw e

feed_last :
    (s t : H264Depacketizer) (p : FramedPacket) (l : Bool)
    → push s p.payload p.is_frame_end ≡ maybe_emit l t
    → feed s (p ∷ []) ≡ settle l t
unfolding feed
feed_last s t p l e = rw (e, append-nil)

and_true : (l : Bool) → (l && true) ≡ l
and_true true = refl
and_true false = refl

module _ (step h : ℕ) (l : Bool) (room : 0 < step) (b : h < 128) where
  not_first : (idx : ℕ) → 0 < idx → (idx == 0) ≡ false
  not_first idx i = ground arith

  not_last :
      (idx total r : ℕ) → total ≡ idx + 1 + div_ceil r step → 0 < r → (idx + 1 == total) ≡ false
  not_last idx total r t n = ground (arith, ceil_pos r step room n)

  is_last : (idx total : ℕ) → total ≡ idx + 1 → (idx + 1 == total) ≡ true
  is_last idx total t = ground arith

  -- The fragments behind the first one.
  feed_next :
      (fuel total idx : ℕ) (p : List ℕ) (s : H264Depacketizer)
      → length p ≤ fuel
      → 0 < length p
      → 0 < idx
      → total ≡ idx + div_ceil (length p) step
      → s.in_fragment ≡ true
      → feed s (fragment_loop fuel step total idx h l p)
        ≡ settle l (record s { buffer = s.buffer ++ p; in_fragment = false })
  unfolding fragment_loop
  feed_next zero total idx p s f n i t o = absurd (omega arith)
  feed_next (suc fuel) total idx [] s f n i t o = absurd (omega arith)
  feed_next (suc fuel) total idx (x ∷ p) s f n i t o =
      elim (Bool-cases (ltb step (length (x ∷ p)))) [
        | inl more ↦
            let rest = drop step (x ∷ p) in
            let shorter : length rest ≡ length (x ∷ p) - step = length-drop step (x ∷ p) in
            let t' : total ≡ idx + 1 + div_ceil (length rest) step = omega (
              arith,
              t,
              ceil_step (length (x ∷ p)) step room (ltb→lt step _ more),
              ap (λ r. div_ceil r step) shorter,
            ) in
            let next = record s { buffer = s.buffer ++ take step (x ∷ p); in_fragment = true } in
            rw
              (
                not_first idx i,
                not_last idx total (length rest) t' (omega (arith, ltb→lt step _ more, shorter)),
              )
              (feed_step s next _ _ none
                  (push_next s false (l && false) h (take step (x ∷ p)) b o ∙ emit_not l _)
                ∙ feed_next fuel total (idx + 1) rest next (omega arith)
                    (omega (arith, ltb→lt step _ more)) (omega arith) t' refl
                ∙ ap (λ bytes. settle l (record s { buffer = bytes; in_fragment = false }))
                    (append_assoc s.buffer (take step (x ∷ p)) rest
                      ∙ ap (λ bytes. s.buffer ++ bytes) (take-append-drop step (x ∷ p))))
        | inr last ↦
            rw
              (
                not_first idx i,
                is_last idx total
                    (omega (arith, t, ceil_last (length (x ∷ p)) step n (ltb→le step _ last))),
              )
              (rw
                (
                  take_all step (x ∷ p) (ltb→le step _ last),
                  drop_all step (x ∷ p) (ltb→le step _ last),
                  fragment_loop-nil fuel step total (idx + 1) h l,
                  and_true l,
                )
                (feed_last s _ _ l (push_next s true l h (x ∷ p) b o)))
      ]

  -- All the fragments of a unit that is longer than a packet: its start code, its header and its
  -- bytes are added, and the unit is closed.
  pub feed_fragments :
      (p : List ℕ) (s : H264Depacketizer)
      → step < length p
      → feed s (fragment_loop (length p) step (div_ceil (length p) step) 0 h l p)
        ≡ settle l (record {
          buffer = s.buffer ++ (start_code ++ h ∷ p);
          in_fragment = false;
          frag_header = h;
        })
  unfolding fragment_loop
  feed_fragments [] s n = absurd (omega arith)
  feed_fragments (x ∷ p) s n =
      let rest = drop step (x ∷ p) in
      let head = s.buffer ++ (start_code ++ h ∷ []) in
      let shorter : length rest ≡ length (x ∷ p) - step = length-drop step (x ∷ p) in
      let t' : div_ceil (length (x ∷ p)) step ≡ 0 + 1 + div_ceil (length rest) step =
        omega (arith, ceil_step (length (x ∷ p)) step room n, ap (λ r. div_ceil r step) shorter) in
      let next : H264Depacketizer = record {
        buffer = head ++ take step (x ∷ p);
        in_fragment = true;
        frag_header = h;
      } in
      rw (not_last 0 (div_ceil (length (x ∷ p)) step) (length rest) t' (omega (arith, n, shorter)))
        (feed_step s next _ _ none
            (push_first s false (l && false) h (take step (x ∷ p)) b ∙ emit_not l _)
          ∙ feed_next (length p) _ 1 rest next (omega arith) (omega (arith, n)) (omega arith) t'
              refl
          ∙ ap (λ bytes. settle l (record { buffer = bytes; in_fragment = false; frag_header = h }))
              (append_assoc head (take step (x ∷ p)) rest
                ∙ ap (λ bytes. head ++ bytes) (take-append-drop step (x ∷ p))
                ∙ append_assoc s.buffer (start_code ++ h ∷ []) (x ∷ p)))
