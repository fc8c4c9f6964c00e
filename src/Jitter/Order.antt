-- ===== src/Jitter/Order.antt =====
-- What arrives in any order is played in order.
use wzp.Common.{
  ℕ, zero, suc, ◌+◌, ◌≤◌, ◌<◌, ◌≡◌, ◌≢◌, refl, sym, ap, ap₂, ◌∙◌, true, false, not, ◌&&◌, ◌||◌,
  List, [], ◌∷◌, Option, none, some, arith, ltb, ◌==◌, length, All, Bool-cases, Option-cases, inl,
  inr, subst,
}
use wzp.Common.Words.{add32, sub32, u32_mod, u64_mod}
use wzp.Common.SortedMaps.{lookup, remove, has, lookup-remove, has-remove}
use wzp.Wire.Packet.{MediaPacket}
use wzp.Jitter.{
  JitterBuffer, PlayoutResult, played, missing, new, seq_before, receive, drop_late, push_as, push,
  take_next, pop, count,
}
use wzp.Jitter.Arrival.{push_all, InWindow, Gathers, push_all-Gathers, first-Gathers}
use wzp.Jitter.Window.{find, lowest, lowest-found}

-- A packet is played, or its number is reported as missing.
abbrev result : ℕ → Option MediaPacket → PlayoutResult
result k none = missing k
result k (some p) = played p

-- What the playout gives of the packets that arrived: each number in turn, with the first packet that
-- came with it.
abbrev pub playout : ℕ → ℕ → List MediaPacket → List PlayoutResult
playout zero k ps = []
playout (suc n) k ps = result k (find k ps) ∷ playout n (add32 k 1) ps

abbrev pub pop_all : ℕ → JitterBuffer → List PlayoutResult × JitterBuffer
pop_all zero s = ([], s)
pop_all (suc n) s = let rest = pop_all n (pop s).1 in ((pop s).0 ∷ rest.0, rest.1)

-- The playout has started, and from the number that is next on, round the end of the range from the
-- base, the buffer is what arrived.
record Plays (base : ℕ) (s : JitterBuffer) (ps : List MediaPacket) : Type 0 where
  running : s.initialized ≡ true
  word : s.next_playout_seq < u32_mod
  ahead :
      (k : ℕ)
      → k < u32_mod
      → sub32 s.next_playout_seq base ≤ sub32 k base
      → lookup k s.buffer ≡ find k ps

-- One number further on, and no number from there on is the one before.
further :
    (base a : ℕ)
    → base < u32_mod
    → a < u32_mod
    → sub32 a base + 1 < u32_mod
    → sub32 (add32 a 1) base ≡ sub32 a base + 1
further base a h g b = omega arith

behind_ne : (base a k : ℕ) → sub32 a base + 1 ≤ sub32 k base → (a == k) ≡ false
behind_ne base a k h = ground (arith, h)

pop-Plays :
    (base : ℕ) (s : JitterBuffer) (ps : List MediaPacket)
    → base < u32_mod
    → Plays base s ps
    → (ltb (length s.buffer) s.min_depth && (s.stats.packets_played == 0)) ≡ false
    → sub32 s.next_playout_seq base + 1 < u32_mod
    → ((pop s).0 ≡ result s.next_playout_seq (find s.next_playout_seq ps))
      × (Plays base (pop s).1 ps)
      × ((pop s).1.next_playout_seq ≡ add32 s.next_playout_seq 1)
      × ((pop s).1.stats.packets_played ≡ (elim (find s.next_playout_seq ps) [
        | none ↦ s.stats.packets_played
        | some p ↦ count s.stats.packets_played
      ]))
unfolding pop
pop-Plays base s ps w g r b =
    let next = s.next_playout_seq in
    let on = further base next w g.word b in
    let later : (k : ℕ)
        → sub32 (add32 next 1) base ≤ sub32 k base
        → sub32 next base + 1 ≤ sub32 k base =
      λ k l. subst (λ x. x ≤ sub32 k base) on l in
    elim (Option-cases (lookup next s.buffer)) [
      | inl e ↦
          let found : find next ps ≡ none = sym (g.ahead next g.word (omega arith)) ∙ e in
          rw (pop, g.running, r, take_next, e, found)
            (
              refl,
              record {
                running = g.running;
                word = omega arith;
                ahead = λ k q l. g.ahead k q (omega (arith, later k l));
              },
              refl,
              refl,
            )
      | inr (p, e) ↦
          let found : find next ps ≡ some p = sym (g.ahead next g.word (omega arith)) ∙ e in
          rw (pop, g.running, r, take_next, e, found)
            (
              refl,
              record {
                running = g.running;
                word = omega arith;
                ahead = λ k q l.
                    lookup-remove k next s.buffer
                    ∙ rw (behind_ne base next k (later k l))
                        (g.ahead k q (omega (arith, later k l)));
              },
              refl,
              refl,
            )
    ]

pop_all-Plays :
    (base n : ℕ) (s : JitterBuffer) (ps : List MediaPacket)
    → base < u32_mod
    → sub32 s.next_playout_seq base + n < u32_mod
    → s.stats.packets_played + n < u64_mod
    → 0 < s.stats.packets_played
    → Plays base s ps
    → (pop_all n s).0 ≡ playout n s.next_playout_seq ps
pop_all-Plays base zero s ps w b c d g = refl
pop_all-Plays base (suc n) s ps w b c d g =
    let (r, g', e, c') = pop-Plays base s ps w g (ground (arith, d)) (omega (arith, b)) in
    let on = further base s.next_playout_seq w g.word (omega (arith, b)) in
    let b' : sub32 (pop s).1.next_playout_seq base + n < u32_mod =
      subst (λ x. sub32 x base + n < u32_mod) (sym e) (omega (arith, b, on)) in
    let ih =
      pop_all-Plays base n (pop s).1 ps w b' (ground (arith, c, c')) (ground (arith, c, c', d))
        g' in
    ap₂ (λ x y. x ∷ y) r (ih ∙ ap (λ k. playout n k ps) e)

pop_all-Gathers :
    (base most least n : ℕ) (s : JitterBuffer) (p : MediaPacket) (ps : List MediaPacket)
    → base < u32_mod
    → 0x8000 + n < u32_mod
    → Gathers base most least s (p ∷ ps)
    → least ≤ length s.buffer
    → (pop_all n s).0 ≡ playout n (lowest base (p ∷ ps)) (p ∷ ps)
pop_all-Gathers base most least zero s p ps w b g m = refl
pop_all-Gathers base most least (suc n) s p ps w b g m =
    let plays : Plays base s (p ∷ ps) = record {
      running = g.started;
      word = g.inside.0;
      ahead = λ k q l. g.holds k;
    } in
    let (r, g', e, c) =
      pop-Plays base s (p ∷ ps) w plays (ground (arith, m, g.wanted))
        (omega (arith, b, g.inside.1)) in
    let found : find s.next_playout_seq (p ∷ ps) ≢ none =
      subst (λ k. find k (p ∷ ps) ≢ none) (sym g.first) (lowest-found base p ps) in
    let one : (pop s).1.stats.packets_played ≡ 1 = ground (arith, c, found, g.unplayed) in
    let on = further base s.next_playout_seq w g.inside.0 (omega (arith, b, g.inside.1)) in
    let b' : sub32 (pop s).1.next_playout_seq base + n < u32_mod =
      subst (λ x. sub32 x base + n < u32_mod) (sym e) (omega (arith, b, on, g.inside.1)) in
    let rest =
      pop_all-Plays base n (pop s).1 (p ∷ ps) w b' (omega (arith, one, b)) (omega (arith, one))
        g' in
    let there : (pop s).1.next_playout_seq ≡ add32 (lowest base (p ∷ ps)) 1 =
      e ∙ ap (λ k. add32 k 1) g.first in
    ap₂ (λ x y. x ∷ y) (r ∙ ap (λ k. result k (find k (p ∷ ps))) g.first)
      (rest ∙ ap (λ k. playout n k (p ∷ ps)) there)

-- Packets whose numbers lie in a window of 32768, which may go round the end of their range, pushed in
-- any order into a new buffer with room for all of them, are played from the first number of the
-- window that came, once they are enough: one result for each number in turn, the first packet that
-- came with it, or the number itself where none came. Fewer than 2^32 - 32768 results are asked for.
pub push_all-pop_all :
    (base target most least n : ℕ) (p : MediaPacket) (ps : List MediaPacket)
    → base < u32_mod
    → 0x8000 + n < u32_mod
    → All (InWindow base) (p ∷ ps)
    → length (p ∷ ps) ≤ most
    → least ≤ length (push_all (new target most least) (p ∷ ps)).buffer
    → (pop_all n (push_all (new target most least) (p ∷ ps))).0
      ≡ playout n (lowest base (p ∷ ps)) (p ∷ ps)
push_all-pop_all base target most least n p ps w b (h, r) l m =
    pop_all-Gathers base most least n (push_all (new target most least) (p ∷ ps)) p ps w b
      (push_all-Gathers base most least (push none (new target most least) p) p [] ps w r
        (omega (arith, l)) (first-Gathers base target most least p w h (omega (arith, l))))
      m

-- The buffer behind a packet that was played.
abbrev behind : JitterBuffer → JitterBuffer
behind s = record s {
  buffer = remove s.next_playout_seq s.buffer;
  next_playout_seq = add32 s.next_playout_seq 1;
  stats = record s.stats {
    packets_played = count s.stats.packets_played;
    current_depth = length (remove s.next_playout_seq s.buffer);
  };
}

take_next-played :
    (s : JitterBuffer) (p : MediaPacket) → (take_next s).0 ≡ played p → (take_next s).1 ≡ behind s
unfolding take_next
take_next-played s p e = elim (Option-cases (lookup s.next_playout_seq s.buffer)) [
  | inl a ↦ absurd (cc (rw (take_next, a) at e))
  | inr (r, a) ↦ rw (take_next, a) refl
]

pop-played : (s : JitterBuffer) (p : MediaPacket) → (pop s).0 ≡ played p → (pop s).1 ≡ behind s
unfolding pop
pop-played s p e =
    elim (Bool-cases
      (not s.initialized || (ltb (length s.buffer) s.min_depth && (s.stats.packets_played == 0)))) [
        | inl a ↦ absurd (cc (rw (pop, a) at e))
        | inr a ↦ rw (pop, a) (take_next-played s p (rw (pop, a) at e))
      ]

push-behind :
    (target : Option ℕ) (s : JitterBuffer) (q : MediaPacket)
    → s.initialized ≡ true
    → s.next_playout_seq < u32_mod
    → s.stats.packets_played + 1 < u64_mod
    → q.header.seq ≡ s.next_playout_seq
    → ((push target (behind s) q).buffer ≡ (behind s).buffer)
      × ((push target (behind s) q).next_playout_seq ≡ (behind s).next_playout_seq)
      × ((push target (behind s) q).stats.packets_late ≡ count (behind s).stats.packets_late)
unfolding push push_as receive drop_late
push-behind target s q i n c f =
    let gone : has q.header.seq (remove s.next_playout_seq s.buffer) ≡ false =
      ground (arith, has-remove q.header.seq s.next_playout_seq s.buffer, f) in
    let started : ltb 0 (count s.stats.packets_played) ≡ true = ground (arith, c) in
    let before : seq_before q.header.seq (add32 s.next_playout_seq 1) ≡ true =
      ground (arith, f, n) in
    let near : ltb 100 (sub32 (add32 s.next_playout_seq 1) q.header.seq) ≡ false =
      ground (arith, f, n) in
    rw (push, i, gone, started, before, near) (refl, refl, refl)

-- A packet that comes again after it was played, or any other with its number, is not taken a second
-- time: the buffer and the place of the playout stay, and it is counted as late.
pub push-pop :
    (target : Option ℕ) (s : JitterBuffer) (p q : MediaPacket)
    → s.initialized ≡ true
    → s.next_playout_seq < u32_mod
    → s.stats.packets_played + 1 < u64_mod
    → (pop s).0 ≡ played p
    → q.header.seq ≡ s.next_playout_seq
    → ((push target (pop s).1 q).buffer ≡ (pop s).1.buffer)
      × ((push target (pop s).1 q).next_playout_seq ≡ (pop s).1.next_playout_seq)
      × ((push target (pop s).1 q).stats.packets_late ≡ count (pop s).1.stats.packets_late)
push-pop target s p q i n c e f = rw (pop-played s p e) (push-behind target s q i n c f)
