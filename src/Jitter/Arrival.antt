-- ===== src/Jitter/Arrival.antt =====
-- What the jitter buffer has gathered before the playout starts.
use wzp.Common.{
  ℕ, zero, suc, ◌+◌, ◌≤◌, ◌<◌, ◌≡◌, refl, sym, ap, ◌∙◌, Bool, true, false, List, [], ◌∷◌, ◌++◌,
  Option, none, some, arith, ◌==◌, if◌then◌else◌, length, length-append, append_assoc, append-nil,
  le→ltb, All, Option-cases, inl, inr, subst,
}
use wzp.Common.Words.{u32_mod, sub32}
use wzp.Common.SortedMaps.{lookup, insert, has, length-insert, lookup-insert}
use wzp.Wire.Packet.{MediaPacket}
use wzp.Jitter.{
  JitterBuffer, new, seq_before, receive, drop_duplicate, adapt, evict_loop, measure, store, accept,
  push_as, push,
}
use wzp.Jitter.Window.{
  find, earlier, lowest_from, lowest, Near, find-append, lowest_from-append, find-lowest_from,
  start_next, earlier-Near, earlier_same,
}

abbrev pub push_all : JitterBuffer → List MediaPacket → JitterBuffer
push_all s [] = s
push_all s (p ∷ ps) = push_all (push none s p) ps

abbrev pub InWindow : ℕ → MediaPacket → Type 0
InWindow base p = Near base p.header.seq

-- The buffer waits, and has gathered what arrived, the first one of every number.
pub record Gathers (base most least : ℕ) (s : JitterBuffer) (ps : List MediaPacket) : Type 0 where
  pub started : s.initialized ≡ true
  pub unplayed : s.stats.packets_played ≡ 0
  pub holds : (k : ℕ) → lookup k s.buffer ≡ find k ps
  pub first : s.next_playout_seq ≡ lowest base ps
  pub inside : Near base s.next_playout_seq
  pub small : length s.buffer ≤ length ps
  pub limit : s.max_depth ≡ most
  pub wanted : s.min_depth ≡ least

evict_loop-small :
    (fuel : ℕ) (s : JitterBuffer) → length s.buffer ≤ s.max_depth → evict_loop fuel s ≡ s
unfolding evict_loop
evict_loop-small zero s h = refl
evict_loop-small (suc fuel) s h = rw (le→ltb s.max_depth (length s.buffer) h) refl

accept-small :
    (lower : Bool) (target : Option ℕ) (s : JitterBuffer) (p : MediaPacket)
    → length s.buffer < s.max_depth
    → accept lower target s p ≡ measure (store lower target s p)
unfolding accept store adapt
accept-small lower target s p h =
    let s' = store lower target s p in
    rw
      (evict_loop-small (length s'.buffer) s'
        (omega (arith, h, length-insert p.header.seq p s.buffer)))
      refl

either_same : (b : Bool) (n : ℕ) → (if b then n else n) ≡ n
either_same true n = refl
either_same false n = refl

push-waiting :
    (s : JitterBuffer) (p : MediaPacket)
    → s.stats.packets_played ≡ 0
    → push none s p ≡ (
        if has p.header.seq s.buffer
        then drop_duplicate (receive s p.header.seq)
        else accept true none (receive s p.header.seq) p)
unfolding push push_as receive
push-waiting s p z = rw (push, z) refl

-- A packet with a new number, and one with a number that is there.
push-fresh :
    (base most least : ℕ) (s : JitterBuffer) (p₀ : MediaPacket) (ps : List MediaPacket)
    (p : MediaPacket)
    → base < u32_mod
    → InWindow base p
    → Gathers base most least s (p₀ ∷ ps)
    → lookup p.header.seq s.buffer ≡ none
    → Gathers base most least
        (measure (store true none (receive s p.header.seq) p))
        (p₀ ∷ (ps ++ (p ∷ [])))
unfolding measure store adapt receive
push-fresh base most least s p₀ ps p w (h, h') g e =
    let total = length-append ps (p ∷ []) in
    rw (g.started, g.unplayed)
      (record {
        started = refl;
        unplayed = refl;
        holds = λ k.
            let absent : (p.header.seq == k) ≡ true → lookup k s.buffer ≡ none =
              λ a. subst (λ j. lookup j s.buffer ≡ none) (ground (arith, a)) e in
            ground (
              arith,
              lookup-insert k p.header.seq p s.buffer,
              g.holds k,
              find-append k (p₀ ∷ ps) p,
              absent,
            );
        first =
            start_next base s.next_playout_seq p.header.seq w (h, h') g.inside
            ∙ ap (λ x. earlier base x p.header.seq) g.first
            ∙ sym (lowest_from-append base p₀.header.seq ps p);
        inside =
            subst (Near base)
              (sym (start_next base s.next_playout_seq p.header.seq w (h, h') g.inside))
              (earlier-Near base s.next_playout_seq p.header.seq g.inside (h, h'));
        small = omega (arith, g.small, total, length-insert p.header.seq p s.buffer);
        limit = g.limit;
        wanted = g.wanted;
      })

push-again :
    (base most least : ℕ) (s : JitterBuffer) (p₀ : MediaPacket) (ps : List MediaPacket)
    (p q : MediaPacket)
    → Gathers base most least s (p₀ ∷ ps)
    → lookup p.header.seq s.buffer ≡ some q
    → Gathers base most least (drop_duplicate (receive s p.header.seq)) (p₀ ∷ (ps ++ (p ∷ [])))
unfolding drop_duplicate receive lowest_from
push-again base most least s p₀ ps p q g e =
    let total = length-append ps (p ∷ []) in
    let found : find p.header.seq (p₀ ∷ ps) ≡ some q = sym (g.holds p.header.seq) ∙ e in
    let low : sub32 (lowest_from base p₀.header.seq ps) base ≤ sub32 p.header.seq base =
      subst (λ n. sub32 (lowest_from base n ps) base ≤ sub32 p.header.seq base)
        (earlier_same base p₀.header.seq p₀.header.seq (omega arith))
        (find-lowest_from base p₀.header.seq p.header.seq (p₀ ∷ ps) q found) in
    rw g.started (record {
      started = refl;
      unplayed = g.unplayed;
      holds = λ k.
          let present : (p.header.seq == k) ≡ true → lookup k s.buffer ≡ some q =
            λ a. subst (λ j. lookup j s.buffer ≡ some q) (ground (arith, a)) e in
          ground (arith, g.holds k, find-append k (p₀ ∷ ps) p, present);
      first =
          g.first
          ∙ sym (earlier_same base _ p.header.seq low)
          ∙ sym (lowest_from-append base p₀.header.seq ps p);
      inside = g.inside;
      small = omega (arith, g.small, total);
      limit = g.limit;
      wanted = g.wanted;
    })

push-Gathers :
    (base most least : ℕ) (s : JitterBuffer) (p₀ : MediaPacket) (ps : List MediaPacket)
    (p : MediaPacket)
    → base < u32_mod
    → InWindow base p
    → length (p₀ ∷ ps) < most
    → Gathers base most least s (p₀ ∷ ps)
    → Gathers base most least (push none s p) (p₀ ∷ (ps ++ (p ∷ [])))
unfolding has receive
push-Gathers base most least s p₀ ps p w h l g =
    let room : length s.buffer < s.max_depth = omega (arith, l, g.small, g.limit) in
    elim (Option-cases (lookup p.header.seq s.buffer)) [
      | inl e ↦
          let absent : has p.header.seq s.buffer ≡ false = ground (arith, e) in
          rw
            (
              push-waiting s p g.unplayed,
              absent,
              accept-small true none (receive s p.header.seq) p room,
            )
            (push-fresh base most least s p₀ ps p w h g e)
      | inr (q, e) ↦
          let present : has p.header.seq s.buffer ≡ true = ground (arith, e) in
          rw (push-waiting s p g.unplayed, present) (push-again base most least s p₀ ps p q g e)
    ]

pub push_all-Gathers :
    (base most least : ℕ) (s : JitterBuffer) (p₀ : MediaPacket) (ps qs : List MediaPacket)
    → base < u32_mod
    → All (InWindow base) qs
    → length (p₀ ∷ ps) + length qs ≤ most
    → Gathers base most least s (p₀ ∷ ps)
    → Gathers base most least (push_all s qs) (p₀ ∷ (ps ++ qs))
push_all-Gathers base most least s p₀ ps [] w h l g =
    subst (λ xs. Gathers base most least s (p₀ ∷ xs)) (sym (append-nil ps)) g
push_all-Gathers base most least s p₀ ps (q ∷ qs) w (h, r) l g =
    let next = push-Gathers base most least s p₀ ps q w h (omega (arith, l)) g in
    subst (λ xs. Gathers base most least (push_all (push none s q) qs) (p₀ ∷ xs))
      (append_assoc ps (q ∷ []) qs)
      (push_all-Gathers base most least (push none s q) p₀ (ps ++ (q ∷ [])) qs w r
        (omega (arith, l, length-append ps (q ∷ []))) next)

pub first-Gathers :
    (base target most least : ℕ) (p : MediaPacket)
    → base < u32_mod
    → InWindow base p
    → 0 < most
    → Gathers base most least (push none (new target most least) p) (p ∷ [])
unfolding push push_as receive new store adapt measure find lowest_from insert lookup has
first-Gathers base target most least p w (h, h') l =
    rw (accept-small true none (receive (new target most least) p.header.seq) p (omega (arith, l)))
      (record {
        started = refl;
        unplayed = refl;
        holds = λ k. refl;
        first = either_same (seq_before p.header.seq p.header.seq) p.header.seq;
        inside =
            subst (Near base)
              (sym (either_same (seq_before p.header.seq p.header.seq) p.header.seq)) (h, h');
        small = omega arith;
        limit = refl;
        wanted = refl;
      })
