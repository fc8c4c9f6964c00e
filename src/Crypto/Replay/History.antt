-- ===== src/Crypto/Replay/History.antt =====
-- The window over a stream of packets: which are accepted, and that none is accepted twice.
use wzp.Common.{
  ℕ, ◌<◌, ◌≡◌, Bool, true, ◌&&◌, ◌||◌, List, [], ◌∷◌, arith, ltb, leb, ◌==◌, if◌then◌else◌,
}
use wzp.Common.Words.{u32_mod, sub32}
use wzp.Crypto.Replay.{
  AntiReplayWindow, fresh, replay, set_bit, get_bit, advance_window, check_and_update,
}
use wzp.Crypto.Replay.Bitmap.{get_bit-digit}
use wzp.Crypto.Replay.Advance.{
  IsWindow, length-set_bit, digit-set_bit, length-advance_window, digit-advance_window,
}
use wzp.Crypto.Replay.Window.{
  begun, moved, filled, check_cases, check_and_update-IsWindow, Spent, check_Spent, fresh-Spent,
  check-keeps-Spent, window_size-advance_window, initialized-advance_window,
}

-- The window covers `x` and has it marked.
abbrev pub seen : AntiReplayWindow → ℕ → Bool
seen s x =
    let o : ℕ = sub32 s.highest x in s.initialized && (ltb o s.window_size && get_bit s.bitmap o)

-- A well-formed window refuses a packet with a u32 number exactly if it is initialized and has
-- seen the number, or the number is too old: behind the highest one by the size of the window or
-- more, up to half the sequence space.
pub check_and_update_verdict :
    (s : AntiReplayWindow) (x : ℕ)
    → x < u32_mod
    → IsWindow s
    → (check_and_update s x).0 ≡ (
        let o : ℕ = sub32 s.highest x in
        if s.initialized && (seen s x || leb s.window_size o && leb o 0x8000_0000)
        then replay
        else fresh)
unfolding begun moved filled
check_and_update_verdict s x h v =
    check_cases
      (λ r. r.0 ≡ (
        let o : ℕ = sub32 s.highest x in
        if s.initialized && (seen s x || leb s.window_size o && leb o 0x8000_0000)
        then replay
        else fresh))
      s x (λ i. ground arith) (λ i z. ground (arith, get_bit-digit s.bitmap 0))
      (λ i l m. ground arith) (λ i l o. ground arith) (λ i l m g. ground arith)

-- A well-formed, initialized window that accepts a packet has then seen its number, and of the
-- numbers that it still covers exactly those besides that it had seen before.
pub seen-check_and_update :
    (s : AntiReplayWindow) (seq x : ℕ)
    → seq < u32_mod
    → x < u32_mod
    → IsWindow s
    → s.initialized ≡ true
    → (check_and_update s seq).0 ≡ fresh
    → sub32 (check_and_update s seq).1.highest x < s.window_size
    → seen (check_and_update s seq).1 x ≡ (x == seq || seen s x)
unfolding begun moved filled
seen-check_and_update s seq x h k v i =
    check_cases
      (λ r. r.0 ≡ fresh → sub32 r.1.highest x < s.window_size → seen r.1 x ≡ (x == seq || seen s x))
      s seq (λ j _ _. absurd (ground arith)) (λ j z e _. absurd (ground arith))
      (λ j l m _ n.
        let d = sub32 seq s.highest in
        let t = advance_window s d in
        ground (
          arith,
          initialized-advance_window s d,
          window_size-advance_window s d,
          length-advance_window s d,
          length-set_bit t.bitmap 0,
          get_bit-digit (set_bit t.bitmap 0) (sub32 seq x),
          digit-set_bit t.bitmap 0 (sub32 seq x),
          digit-advance_window s d (sub32 seq x) v,
          get_bit-digit s.bitmap (sub32 s.highest x),
        ))
      (λ j l o e _. absurd (ground arith))
      (λ j l m g _ n. ground (
        arith,
        length-set_bit s.bitmap (sub32 s.highest seq),
        get_bit-digit (set_bit s.bitmap (sub32 s.highest seq)) (sub32 s.highest x),
        digit-set_bit s.bitmap (sub32 s.highest seq) (sub32 s.highest x),
        get_bit-digit s.bitmap (sub32 s.highest x),
      ))

-- A stream of packets.
pub run : AntiReplayWindow → List ℕ → AntiReplayWindow
run s [] = s
run s (q ∷ qs) = run (check_and_update s q).1 qs

-- Every packet of the stream has a u32 number, and leaves the highest number less than half the
-- sequence space past `x`.
abbrev pub Near : ℕ → AntiReplayWindow → List ℕ → Type 0
Near x s [] = Unit
Near x s (q ∷ qs) =
    (q < u32_mod)
    × (sub32 (check_and_update s q).1.highest x < 0x8000_0000)
    × Near x (check_and_update s q).1 qs

run-Spent :
    (s : AntiReplayWindow) (x : ℕ) (qs : List ℕ)
    → x < u32_mod
    → IsWindow s
    → Spent s x
    → Near x s qs
    → check_and_update (run s qs) x ≡ (replay, run s qs)
unfolding run
run-Spent s x [] h v p n = check_Spent s x h v p
run-Spent s x (q ∷ qs) h v p n =
    run-Spent (check_and_update s q).1 x qs h (check_and_update-IsWindow s q n.0 v)
      (check-keeps-Spent s q x n.0 h v p n.1) n.2

-- No replay: a u32 number that a well-formed window accepted is refused ever after, whatever
-- packets come in between, as long as their numbers are u32 and the highest one stays within half
-- the sequence space of it. The refusal changes nothing.
pub replay_refused :
    (s : AntiReplayWindow) (x : ℕ) (qs : List ℕ)
    → x < u32_mod
    → IsWindow s
    → (check_and_update s x).0 ≡ fresh
    → Near x (check_and_update s x).1 qs
    → let t = run (check_and_update s x).1 qs in check_and_update t x ≡ (replay, t)
replay_refused s x qs h v e n =
    run-Spent (check_and_update s x).1 x qs h (check_and_update-IsWindow s x h v)
      (fresh-Spent s x h v e) n
