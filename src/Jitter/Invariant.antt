-- ===== src/Jitter/Invariant.antt =====
-- What holds of the jitter buffer after every operation.
use wzp.Common.{
  ℕ, zero, suc, ◌-◌, ◌≤◌, ◌≡◌, refl, ◌∙◌, Bool, not, ◌&&◌, ◌||◌, List, [], ◌∷◌, Option, arith, ltb,
  ◌==◌, length, All, Bool-cases, Option-cases, inl, inr,
}
use wzp.Common.Words.{sub32}
use wzp.Common.SortedMaps.{lookup, remove, has, length-remove, insert-All, remove-All}
use wzp.Wire.Packet.{MediaPacket}
use wzp.Jitter.{
  JitterBuffer, new, seq_before, receive, drop_duplicate, drop_late, restart, adapt, evict_one,
  evict_loop, measure, store, accept, push_as, take_next, pop, reset, record_underrun,
  record_decode, reset_stats, set_target_depth,
}

-- An entry stands under the number of its packet.
abbrev pub IsKeyed : ℕ × MediaPacket → Type 0
IsKeyed e = e.1.header.seq ≡ e.0

-- The buffer keeps to its limit, the statistics know how many packets it has, and every packet stands
-- under its own number.
pub record IsSound (s : JitterBuffer) : Type 0 where
  pub bounded : length s.buffer ≤ s.max_depth
  pub measured : s.stats.current_depth ≡ length s.buffer
  pub keyed : All IsKeyed s.buffer

-- A round of the eviction.
abbrev Shrinks : JitterBuffer → JitterBuffer → Type 0
Shrinks s t =
    (length t.buffer ≤ length s.buffer - 1)
    × (t.max_depth ≡ s.max_depth)
    × (All IsKeyed s.buffer → All IsKeyed t.buffer)

evict_one-Shrinks : (s : JitterBuffer) → Shrinks s (evict_one s)
unfolding evict_one remove
evict_one-Shrinks s = at s.buffer refl
  where
    at : (m : List (ℕ × MediaPacket)) → s.buffer ≡ m → Shrinks s (evict_one s)
    at [] e = rw e (omega arith, refl, λ h. h)
    at ((k, p) ∷ m) e =
        rw e (ground (arith, length-remove k m), refl, λ h. remove-All IsKeyed k ((k, p) ∷ m) h)

-- What the loop leaves: a buffer within the limit.
abbrev Evicted : JitterBuffer → JitterBuffer → Type 0
Evicted s t =
    (length t.buffer ≤ s.max_depth)
    × (t.max_depth ≡ s.max_depth)
    × (All IsKeyed s.buffer → All IsKeyed t.buffer)

evict_loop-Evicted :
    (fuel : ℕ) (s : JitterBuffer) → length s.buffer ≤ fuel → Evicted s (evict_loop fuel s)
unfolding evict_loop
evict_loop-Evicted zero s h = (omega (arith, h), refl, λ k. k)
evict_loop-Evicted (suc fuel) s h = elim (Bool-cases (ltb s.max_depth (length s.buffer))) [
  | inl e ↦
      let (short, same, keys) = evict_one-Shrinks s in
      let (within, same', keys') =
        evict_loop-Evicted fuel (evict_one s) (omega (arith, short, h)) in
      rw e (omega (arith, within, same), same' ∙ same, λ k. keys' (keys k))
  | inr e ↦ rw e (ground (arith, e), refl, λ k. k)
]

accept-IsSound :
    (lower : Bool) (target : Option ℕ) (s : JitterBuffer) (p : MediaPacket)
    → All IsKeyed s.buffer
    → IsSound (accept lower target s p) × ((accept lower target s p).max_depth ≡ s.max_depth)
unfolding accept measure store adapt
accept-IsSound lower target s p k =
    let s' = store lower target s p in
    let (within, same, keys) = evict_loop-Evicted (length s'.buffer) s' (omega arith) in
    (
      record {
        bounded = omega (arith, within, same);
        measured = refl;
        keyed = keys (insert-All IsKeyed p.header.seq p s.buffer refl k);
      },
      same,
    )

push_as-IsSound :
    (lower : Bool) (target : Option ℕ) (s : JitterBuffer) (p : MediaPacket)
    → IsSound s
    → IsSound (push_as lower target s p) × ((push_as lower target s p).max_depth ≡ s.max_depth)
unfolding push_as receive drop_duplicate drop_late restart
push_as-IsSound lower target s p k = elim (Bool-cases (has p.header.seq s.buffer)) [
  | inl a ↦ rw a (record { bounded = k.bounded; measured = k.measured; keyed = k.keyed }, refl)
  | inr a ↦
      elim (Bool-cases (
        ltb 0 s.stats.packets_played
        && seq_before p.header.seq (receive s p.header.seq).next_playout_seq)) [
          | inl b ↦
              elim (Bool-cases
                (ltb 100 (sub32 (receive s p.header.seq).next_playout_seq p.header.seq))) [
                  | inl c ↦
                      rw (a, b, c)
                        (accept-IsSound lower target (restart (receive s p.header.seq) p.header.seq)
                          p tt)
                  | inr c ↦
                      rw (a, b, c)
                        (
                          record { bounded = k.bounded; measured = k.measured; keyed = k.keyed },
                          refl,
                        )
                ]
          | inr b ↦ rw (a, b) (accept-IsSound lower target (receive s p.header.seq) p k.keyed)
        ]
]

take_next-IsSound :
    (s : JitterBuffer)
    → IsSound s
    → IsSound (take_next s).1 × ((take_next s).1.max_depth ≡ s.max_depth)
unfolding take_next
take_next-IsSound s k = elim (Option-cases (lookup s.next_playout_seq s.buffer)) [
  | inl e ↦
      rw (take_next, e) (record { bounded = k.bounded; measured = refl; keyed = k.keyed }, refl)
  | inr (p, e) ↦
      rw (take_next, e)
        (
          record {
            bounded = omega (arith, length-remove s.next_playout_seq s.buffer, k.bounded);
            measured = refl;
            keyed = remove-All IsKeyed s.next_playout_seq s.buffer k.keyed;
          },
          refl,
        )
]

-- An operation of the buffer.
pub data Operation : Type 0 where
  pushes : Bool → Option ℕ → MediaPacket → Operation
  targets : ℕ → Operation
  pops resets underruns decodes clears : Operation

abbrev pub apply : JitterBuffer → Operation → JitterBuffer
apply s (pushes lower target p) = push_as lower target s p
apply s (targets n) = set_target_depth s n
apply s pops = (pop s).1
apply s resets = reset s
apply s underruns = record_underrun s
apply s decodes = record_decode s
apply s clears = reset_stats s

abbrev pub apply_all : JitterBuffer → List Operation → JitterBuffer
apply_all s [] = s
apply_all s (o ∷ os) = apply_all (apply s o) os

pop-IsSound :
    (s : JitterBuffer) → IsSound s → IsSound (pop s).1 × ((pop s).1.max_depth ≡ s.max_depth)
unfolding pop
pop-IsSound s k =
    elim (Bool-cases
      (not s.initialized || (ltb (length s.buffer) s.min_depth && (s.stats.packets_played == 0)))) [
        | inl e ↦ rw (pop, e) (k, refl)
        | inr e ↦ rw (pop, e) (take_next-IsSound s k)
      ]

apply-IsSound :
    (s : JitterBuffer) (o : Operation)
    → IsSound s
    → IsSound (apply s o) × ((apply s o).max_depth ≡ s.max_depth)
unfolding reset record_underrun record_decode reset_stats set_target_depth
apply-IsSound s (pushes lower target p) k = push_as-IsSound lower target s p k
apply-IsSound s pops k = pop-IsSound s k
apply-IsSound s resets k = (record { bounded = omega arith; measured = refl; keyed = tt }, refl)
apply-IsSound s clears k = (record { bounded = k.bounded; measured = refl; keyed = k.keyed }, refl)
apply-IsSound s underruns k =
    (record { bounded = k.bounded; measured = k.measured; keyed = k.keyed }, refl)
apply-IsSound s decodes k =
    (record { bounded = k.bounded; measured = k.measured; keyed = k.keyed }, refl)
apply-IsSound s (targets n) k =
    (record { bounded = k.bounded; measured = k.measured; keyed = k.keyed }, refl)

-- After any operations on a new buffer, whatever arrives, it holds no more packets than its limit,
-- its statistics know how many, and every packet stands under its own number.
pub apply_all-new-IsSound :
    (target most least : ℕ) (os : List Operation)
    → IsSound (apply_all (new target most least) os)
      × ((apply_all (new target most least) os).max_depth ≡ most)
unfolding new
apply_all-new-IsSound target most least os =
    from (new target most least) os (record { bounded = omega arith; measured = refl; keyed = tt })
  where
    from :
        (s : JitterBuffer) (os : List Operation)
        → IsSound s
        → IsSound (apply_all s os) × ((apply_all s os).max_depth ≡ s.max_depth)
    from s [] k = (k, refl)
    from s (o ∷ os) k =
        let (k', e) = apply-IsSound s o k in let (k'', e') = from (apply s o) os k' in (k'', e' ∙ e)
