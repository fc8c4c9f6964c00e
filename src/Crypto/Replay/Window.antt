-- ===== src/Crypto/Replay/Window.antt =====
-- The anti-replay window as the set of sequence numbers it has accepted.
use wzp.Common.{
  ℕ, zero, suc, ◌+◌, ◌/◌, ◌≤◌, ◌<◌, ◌≡◌, ◌⊎◌, refl, true, false, arith, ltb, leb, ◌==◌, length,
  get_or, replicate, inl, inr, ap, subst, sym, ◌∙◌, Bool-cases,
}
use wzp.Common.Bits.{zero-IsWord}
use wzp.Common.Words.{u32_mod, sub32}
use wzp.Crypto.Replay.{
  AntiReplayWindow, Verdict, fresh, replay, with_window, set_bit, get_bit, advance_window,
  check_and_update,
}
use wzp.Crypto.Replay.Bitmap.{digit, get_bit-digit}
use wzp.Crypto.Replay.Advance.{
  IsWindow, length-set_bit, digit-set_bit, AreWords-set_bit, length-advance_window,
  AreWords-advance_window, digit-advance_window,
}

replicate-zero : (n i : ℕ) → get_or {A = ℕ} (replicate n 0) i 0 ≡ 0
replicate-zero zero i = refl
replicate-zero (suc n) zero = refl
replicate-zero (suc n) (suc i) = replicate-zero n i

length-replicate : (n : ℕ) → length {A = ℕ} (replicate n 0) ≡ n
length-replicate zero = refl
length-replicate (suc n) = ap suc (length-replicate n)

-- A new window of 1 to 2^31 packets is well formed.
pub with_window-IsWindow : (size : ℕ) → 0 < size → size ≤ 0x8000_0000 → IsWindow (with_window size)
unfolding with_window
with_window-IsWindow size h l = record {
  covered = omega (arith, length-replicate ((size + 63) / 64));
  words = λ i. rw (replicate-zero ((size + 63) / 64) i) zero-IsWord;
  positive = omega arith;
  half = omega arith;
  highest_word = omega arith;
  highest_seen = λ e. ground arith;
}

pub window_size-advance_window :
    (s : AntiReplayWindow) (n : ℕ) → (advance_window s n).window_size ≡ s.window_size
unfolding advance_window
window_size-advance_window s n = ground arith

-- The state after a packet that is ahead of the highest number.
unfoldable pub moved : AntiReplayWindow → ℕ → AntiReplayWindow
moved s seq =
    let t : AntiReplayWindow = advance_window s (sub32 seq s.highest) in
    record t { highest = seq; bitmap = set_bit t.bitmap 0 }

-- The state after a packet that fills a gap.
unfoldable pub filled : AntiReplayWindow → ℕ → AntiReplayWindow
filled s seq = record s { bitmap = set_bit s.bitmap (sub32 s.highest seq) }

-- The first packet of a stream.
unfoldable pub begun : AntiReplayWindow → ℕ → AntiReplayWindow
begun s seq = record s { initialized = true; highest = seq; bitmap = set_bit s.bitmap 0 }

-- The five ways through `check_and_update`.
pub check_cases {ℓ} :
    (P : Verdict × AntiReplayWindow → Type ℓ) (s : AntiReplayWindow) (seq : ℕ)
    → (s.initialized ≡ false → P (fresh, begun s seq))
    → (s.initialized ≡ true → sub32 seq s.highest ≡ 0 → P (replay, s))
    → (s.initialized ≡ true
        → 0 < sub32 seq s.highest
        → sub32 seq s.highest < 0x8000_0000
        → P (fresh, moved s seq))
    → (s.initialized ≡ true
        → 0x8000_0000 ≤ sub32 seq s.highest
        → (s.window_size ≤ sub32 s.highest seq) ⊎ (get_bit s.bitmap (sub32 s.highest seq) ≡ true)
        → P (replay, s))
    → (s.initialized ≡ true
        → 0x8000_0000 ≤ sub32 seq s.highest
        → sub32 s.highest seq < s.window_size
        → get_bit s.bitmap (sub32 s.highest seq) ≡ false
        → P (fresh, filled s seq))
    → P (check_and_update s seq)
unfolding check_and_update begun moved filled
check_cases P s seq first same ahead old gap = elim (Bool-cases s.initialized) [
  | inr i ↦ subst P (ground arith) (first i)
  | inl i ↦ elim (Bool-cases (sub32 seq s.highest == 0)) [
    | inl z ↦ subst P (ground arith) (same i (ground arith))
    | inr z ↦ elim (Bool-cases (ltb (sub32 seq s.highest) 0x8000_0000)) [
      | inl l ↦ subst P (ground arith) (ahead i (ground arith) (ground arith))
      | inr l ↦ elim (Bool-cases (leb s.window_size (sub32 s.highest seq))) [
        | inl w ↦ subst P (ground arith) (old i (ground arith) (inl (ground arith)))
        | inr w ↦ elim (Bool-cases (get_bit s.bitmap (sub32 s.highest seq))) [
          | inl g ↦ subst P (ground arith) (old i (ground arith) (inr g))
          | inr g ↦ subst P (ground arith) (gap i (ground arith) (ground arith) g)
        ]
      ]
    ]
  ]
]

marked-IsWindow :
    (s : AntiReplayWindow) (o : ℕ)
    → IsWindow s
    → o < s.window_size
    → ((o ≡ 0) ⊎ (s.initialized ≡ true))
    → IsWindow (record s { initialized = true; bitmap = set_bit s.bitmap o })
marked-IsWindow s o v h e = record {
  covered = omega (arith, v.covered, length-set_bit s.bitmap o);
  words = AreWords-set_bit s.bitmap o v.words;
  positive = v.positive;
  half = v.half;
  highest_word = v.highest_word;
  highest_seen = λ i. ground (arith, digit-set_bit s.bitmap o 0, v.highest_seen);
}

advanced-IsWindow :
    (s : AntiReplayWindow) (n seq : ℕ)
    → IsWindow s
    → seq < u32_mod
    → IsWindow (record (advance_window s n) { highest = seq; initialized = false })
advanced-IsWindow s n seq v h = record {
  covered = omega (arith, v.covered, length-advance_window s n, window_size-advance_window s n);
  words = AreWords-advance_window s n v.words;
  positive = omega (arith, v.positive, window_size-advance_window s n);
  half = omega (arith, v.half, window_size-advance_window s n);
  highest_word = h;
  highest_seen = λ e. ground arith;
}

pub initialized-advance_window :
    (s : AntiReplayWindow) (n : ℕ) → (advance_window s n).initialized ≡ s.initialized
unfolding advance_window
initialized-advance_window s n = ground arith

-- Every packet with a u32 number, accepted or not, keeps a well-formed window well formed.
pub check_and_update-IsWindow :
    (s : AntiReplayWindow) (seq : ℕ)
    → seq < u32_mod
    → IsWindow s
    → IsWindow (check_and_update s seq).1
unfolding begun moved filled
check_and_update-IsWindow s seq h v =
    check_cases (λ r. IsWindow r.1) s seq
      (λ i.
        marked-IsWindow (record s { highest = seq; initialized = false }) 0
          (record {
            covered = v.covered;
            words = v.words;
            positive = v.positive;
            half = v.half;
            highest_word = h;
            highest_seen = λ e. ground arith;
          })
          v.positive (inl refl))
      (λ i z. v)
      (λ i l m.
        let n = sub32 seq s.highest in
        subst (λ b. IsWindow (record (moved s seq) { initialized = b }))
          (sym (initialized-advance_window s n ∙ i))
          (marked-IsWindow (record (advance_window s n) { highest = seq; initialized = false }) 0
            (advanced-IsWindow s n seq v h)
            (omega (arith, v.positive, window_size-advance_window s n)) (inl refl)))
      (λ i l o. v)
      (λ i l m g.
        subst (λ b. IsWindow (record (filled s seq) { initialized = b })) (sym i)
          (marked-IsWindow s (sub32 s.highest seq) v m (inr i)))

-- A number is spent when the window would refuse it: it is behind the highest, and below the window
-- or marked.
pub record Spent (s : AntiReplayWindow) (x : ℕ) : Type 0 where
  pub started : s.initialized ≡ true
  pub behind : sub32 s.highest x < 0x8000_0000
  pub marked : sub32 s.highest x < s.window_size → digit s.bitmap (sub32 s.highest x) ≡ 1

pub check_Spent :
    (s : AntiReplayWindow) (x : ℕ)
    → x < u32_mod
    → IsWindow s
    → Spent s x
    → check_and_update s x ≡ (replay, s)
unfolding check_and_update
check_Spent s x h v p = ground (arith, get_bit-digit s.bitmap (sub32 s.highest x))

pub fresh-Spent :
    (s : AntiReplayWindow) (x : ℕ)
    → x < u32_mod
    → IsWindow s
    → (check_and_update s x).0 ≡ fresh
    → Spent (check_and_update s x).1 x
unfolding begun moved filled
fresh-Spent s x h v =
    check_cases (λ r. r.0 ≡ fresh → Spent r.1 x) s x
      (λ i _. ground (arith, digit-set_bit s.bitmap 0 0)) (λ i z e. absurd (ground arith))
      (λ i l m _.
        let t = advance_window s (sub32 x s.highest) in
        ground (
          arith,
          digit-set_bit t.bitmap 0 0,
          initialized-advance_window s (sub32 x s.highest),
          length-advance_window s (sub32 x s.highest),
        ))
      (λ i l o e. absurd (ground arith))
      (λ i l m g _. ground (arith, digit-set_bit s.bitmap (sub32 s.highest x) (sub32 s.highest x)))

-- A spent number stays spent whatever packet comes, unless the highest number runs half the
-- sequence space past it.
pub check-keeps-Spent :
    (s : AntiReplayWindow) (seq x : ℕ)
    → seq < u32_mod
    → x < u32_mod
    → IsWindow s
    → Spent s x
    → sub32 (check_and_update s seq).1.highest x < 0x8000_0000
    → Spent (check_and_update s seq).1 x
unfolding begun moved filled
check-keeps-Spent s seq x h k v p =
    check_cases (λ r. sub32 r.1.highest x < 0x8000_0000 → Spent r.1 x) s seq
      (λ i _. absurd (ground arith)) (λ i z _. p)
      (λ i l m n.
        let d = sub32 seq s.highest in
        let t = advance_window s d in
        ground (
          arith,
          digit-set_bit t.bitmap 0 (sub32 seq x),
          initialized-advance_window s d,
          length-advance_window s d,
          window_size-advance_window s d,
          digit-advance_window s d (sub32 seq x) v,
        ))
      (λ i l o _. p)
      (λ i l m g _.
        ground (arith, digit-set_bit s.bitmap (sub32 s.highest seq) (sub32 s.highest x)))
