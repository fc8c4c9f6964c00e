-- ===== src/Video/Nack/Gaps.antt =====
-- The missing packets of the receiver are the gaps in what came, while the numbers have not passed
-- half of their range.
use wzp.Common.{
  ℕ, zero, suc, ◌+◌, ◌-◌, ◌≤◌, ◌<◌, ◌≡◌, max, Bool, true, false, ◌&&◌, ◌||◌, not, List, [], ◌∷◌,
  arith, leb, ltb, ◌==◌, Bool-cases, inl, inr,
}
use wzp.Common.Words.{add32, sub32, u32_mod}
use wzp.Common.SortedMaps.{mem, has, or_insert, has-or_insert, has-remove}
use wzp.Video.Nack.{NackReceiver, note_missing, on_packet}

abbrev pub half : ℕ
half = 2147483647

-- The number behind the largest one that came.
unfoldable pub next_after : List ℕ → ℕ
next_after [] = 0
next_after (seq ∷ came) = max (seq + 1) (next_after came)

-- The specification: below the largest that came, and not among those that came.
abbrev pub is_gap : ℕ → List ℕ → Bool
is_gap k came = ltb k (next_after came) && not (mem k came)

-- The receiver has seen what came.
pub record Knows (s : NackReceiver) (came : List ℕ) : Type 0 where
  pub next : s.next_expected ≡ next_after came
  pub gaps : (k : ℕ) → has k s.missing ≡ is_gap k came

has-note_missing :
    (n offset next now k : ℕ) (m : List (ℕ × ℕ))
    → next + offset + n < u32_mod
    → has k (note_missing n offset next now m)
      ≡ ((leb (next + offset) k && ltb k (next + offset + n)) || has k m)
unfolding note_missing
has-note_missing zero offset next now k m h = ground arith
has-note_missing (suc n) offset next now k m h = ground (
  arith,
  has-note_missing n (offset + 1) next now k (or_insert (add32 next offset) now m),
  has-or_insert k (add32 next offset) now m,
)

mem-next_after : (k : ℕ) (came : List ℕ) → mem k came ≡ true → k < next_after came
unfolding mem next_after
mem-next_after k [] h = absurd (ground (arith, h))
mem-next_after k (seq ∷ came) h = ground (arith, h, mem-next_after k came)

pub on_packet-Knows :
    (s : NackReceiver) (came : List ℕ) (seq now : ℕ)
    → seq < half
    → next_after came ≤ half
    → Knows s came
    → Knows (on_packet s seq now) (seq ∷ came)
unfolding on_packet next_after mem
on_packet-Knows s came seq now l b k = elim (Bool-cases (seq == s.next_expected)) [
  | inl e ↦
      let in_order : (sub32 seq s.next_expected == 0) ≡ true = ground (arith, e) in
      rw in_order (record {
        next = ground (arith, k.next, e);
        gaps = λ j.
            ground (arith, k.next, e, has-remove j seq s.missing, k.gaps j, mem-next_after j came);
      })
  | inr e ↦ elim (Bool-cases (ltb s.next_expected seq)) [
    | inl g ↦
        let off : sub32 seq s.next_expected ≡ seq - s.next_expected = ground (arith, g, l) in
        let ahead : ltb (seq - s.next_expected) 2147483647 ≡ true = ground (arith, l) in
        let more : (seq - s.next_expected == 0) ≡ false = ground (arith, g) in
        rw (off, more, ahead)
          (record {
            next = ground (arith, k.next, g, l);
            gaps = λ j. ground (
              arith,
              k.next,
              g,
              l,
              e,
              has-remove j seq
                  (note_missing (seq - s.next_expected) 0 s.next_expected now s.missing),
              has-note_missing (seq - s.next_expected) 0 s.next_expected now j s.missing
                  (omega arith),
              k.gaps j,
              mem-next_after j came,
            );
          })
    | inr g ↦
        let behind : (sub32 seq s.next_expected == 0) ≡ false = ground (arith, g, e) in
        let far : ltb (sub32 seq s.next_expected) 2147483647 ≡ false =
          ground (arith, g, e, b, k.next) in
        rw (behind, far)
          (record {
            next = ground (arith, k.next, g, e);
            gaps = λ j. ground (arith, k.next, g, e, has-remove j seq s.missing, k.gaps j);
          })
  ]
]
