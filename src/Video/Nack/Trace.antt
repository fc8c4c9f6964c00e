-- ===== src/Video/Nack/Trace.antt =====
-- Runs of the receiver: packets, ticks and new estimates of the round trip in any order.
use wzp.Common.{
  ℕ, ◌-◌, ◌≤◌, ◌<◌, ◌≡◌, ◌≢◌, refl, sym, ap, ◌∙◌, true, false, List, [], ◌∷◌, some, arith, take,
  if◌then◌else◌, Bool-cases, inl, inr, All,
}
use wzp.Common.SortedMaps.{mem, has, lookup, insert, lookup-insert, lookup-remove}
use wzp.Video.Nack.{
  NackReceiver, new_receiver, advance_window, on_packet, act, send_nacks, tick, set_rtt,
  mark_nacked, due, saturating_mul,
}
use wzp.Video.Nack.Ticks.{nacked, nacked-tick}
use wzp.Video.Nack.Gaps.{half, next_after, is_gap, Knows, on_packet-Knows}

pub data Event : Type 0 where
  packet : ℕ → ℕ → Event
  timer : ℕ → Event
  estimate : ℕ → Event

abbrev pub apply : NackReceiver → Event → NackReceiver
apply s (packet seq now) = on_packet s seq now
apply s (timer now) = (tick s now).1
apply s (estimate rtt) = set_rtt s rtt

abbrev pub run : NackReceiver → List Event → NackReceiver
run s [] = s
run s (e ∷ es) = run (apply s e) es

-- The numbers that came, the last one first.
abbrev pub came : List ℕ → List Event → List ℕ
came seen [] = seen
came seen (packet seq now ∷ es) = came (seq ∷ seen) es
came seen (timer now ∷ es) = came seen es
came seen (estimate rtt ∷ es) = came seen es

abbrev pub InRange : Event → Type 0
InRange (packet seq now) = seq < half
InRange (timer now) = Unit
InRange (estimate rtt) = Unit

act-keeps :
    (s : NackReceiver) (seqs : List ℕ) (now : ℕ)
    → ((act s seqs now).1.missing ≡ s.missing)
      × ((act s seqs now).1.next_expected ≡ s.next_expected)
unfolding act send_nacks
act-keeps s [] now = (refl, refl)
act-keeps s (seq ∷ seqs) now = (ground arith, ground arith)

tick-Knows : (s : NackReceiver) (seen : List ℕ) (now : ℕ) → Knows s seen → Knows (tick s now).1 seen
unfolding tick
tick-Knows s seen now k =
    let d = due now s.frame_interval (saturating_mul s.rtt 2) s.last_nack s.missing in
    let (a, b) = act-keeps (advance_window s now) d now in
    record { next = b ∙ k.next; gaps = λ j. ap (has j) a ∙ k.gaps j }

run-Knows :
    (s : NackReceiver) (seen : List ℕ) (es : List Event)
    → All InRange es
    → next_after seen ≤ half
    → Knows s seen
    → Knows (run s es) (came seen es)
unfolding next_after set_rtt
run-Knows s seen [] r b k = k
run-Knows s seen (packet seq now ∷ es) (l, r) b k =
    run-Knows (on_packet s seq now) (seq ∷ seen) es r (omega (arith, l, b))
      (on_packet-Knows s seen seq now l b k)
run-Knows s seen (timer now ∷ es) (l, r) b k =
    run-Knows (tick s now).1 seen es r b (tick-Knows s seen now k)
run-Knows s seen (estimate rtt ∷ es) (l, r) b k =
    run-Knows (set_rtt s rtt) seen es r b (record { next = k.next; gaps = k.gaps })

-- After any run of a new receiver on numbers below half of their range, the missing packets are
-- exactly the gaps: the numbers below the largest that came which did not come themselves. And
-- whatever the next tick asks for is such a gap.
pub run_gaps :
    (frame_interval rtt start : ℕ) (es : List Event)
    → All InRange es
    → ((k : ℕ)
        → has k (run (new_receiver frame_interval rtt start) es).missing ≡ is_gap k (came [] es))
      × ((k now : ℕ)
          → nacked k (tick (run (new_receiver frame_interval rtt start) es) now).0 ≡ true
          → is_gap k (came [] es) ≡ true)
unfolding new_receiver next_after has lookup mem
run_gaps frame_interval rtt start es r =
    let s₀ = new_receiver frame_interval rtt start in
    let first : Knows s₀ [] = record { next = refl; gaps = λ j. ground arith } in
    let k = run-Knows s₀ [] es r (omega arith) first in
    (k.gaps, λ j now h. sym (k.gaps j) ∙ (nacked-tick (run s₀ es) now j h).0)

-- The number was asked for at an instant or later.
abbrev pub AskedSince : ℕ → ℕ → NackReceiver → Type 0
AskedSince k since s = (t : ℕ) × (lookup k s.last_nack ≡ some t) × (since ≤ t)

lookup-mark_nacked :
    (k : ℕ) (seqs : List ℕ) (now : ℕ) (last : List (ℕ × ℕ))
    → lookup k (mark_nacked seqs now last) ≡ (if mem k seqs then some now else lookup k last)
unfolding mark_nacked mem
lookup-mark_nacked k [] now last = refl
lookup-mark_nacked k (seq ∷ seqs) now last =
    ground
      (arith, lookup-mark_nacked k seqs now (insert seq now last), lookup-insert k seq now last)

-- `act` leaves the last request of a number, or it is now.
act-last :
    (s : NackReceiver) (seqs : List ℕ) (now k : ℕ)
    → lookup k (act s seqs now).1.last_nack
      ≡ (if nacked k (act s seqs now).0 then some now else lookup k s.last_nack)
unfolding act send_nacks nacked
act-last s [] now k = refl
act-last s (seq ∷ seqs) now k = ground (
  arith,
  lookup-mark_nacked k (take (s.max_nack_rate - s.nacks_this_sec) (seq ∷ seqs)) now s.last_nack,
)

tick-last :
    (s : NackReceiver) (now k : ℕ)
    → lookup k (tick s now).1.last_nack
      ≡ (if nacked k (tick s now).0 then some now else lookup k s.last_nack)
unfolding tick
tick-last s now k = act-last (advance_window s now) _ now k

-- An event that is not the packet itself, and is no earlier.
abbrev pub Leaves : ℕ → ℕ → Event → Type 0
Leaves k since (packet seq now) = seq ≢ k
Leaves k since (timer now) = since ≤ now
Leaves k since (estimate rtt) = Unit

apply-AskedSince :
    (k since : ℕ) (s : NackReceiver) (e : Event)
    → Leaves k since e
    → AskedSince k since s
    → AskedSince k since (apply s e)
unfolding on_packet set_rtt
apply-AskedSince k since s (packet seq now) l (t, a, b) =
    (t, ground (arith, l, a, lookup-remove k seq s.last_nack), b)
apply-AskedSince k since s (timer now) l (t, a, b) = elim (Bool-cases (nacked k (tick s now).0)) [
  | inl n ↦ (now, ground (arith, n, tick-last s now k), l)
  | inr n ↦ (t, ground (arith, n, a, tick-last s now k), b)
]
apply-AskedSince k since s (estimate rtt) l a = a

run-AskedSince :
    (k since : ℕ) (s : NackReceiver) (es : List Event)
    → All (Leaves k since) es
    → AskedSince k since s
    → AskedSince k since (run s es)
run-AskedSince k since s [] l a = a
run-AskedSince k since s (e ∷ es) (l, r) a =
    run-AskedSince k since (apply s e) es r (apply-AskedSince k since s e l a)

-- Once a tick has asked for a packet, no later tick asks for it again within twice the round trip that
-- is estimated then, whatever happens in between, if the packet itself does not come and the
-- clock does not run back.
pub run_backoff :
    (s : NackReceiver) (k since now : ℕ) (es : List Event)
    → nacked k (tick s since).0 ≡ true
    → All (Leaves k since) es
    → now - since < saturating_mul (run (tick s since).1 es).rtt 2
    → nacked k (tick (run (tick s since).1 es) now).0 ≡ false
run_backoff s k since now es n l b =
    let asked : AskedSince k since (tick s since).1 =
      (since, ground (arith, n, tick-last s since k), omega arith) in
    let (t, e, o) = run-AskedSince k since (tick s since).1 es l asked in
    let s' = run (tick s since).1 es in
    elim (Bool-cases (nacked k (tick s' now).0)) [
      | inl m ↦ let free = (nacked-tick s' now k m).2 in absurd (ground (arith, free, e, o, b))
      | inr m ↦ m
    ]
