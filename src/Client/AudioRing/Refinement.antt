-- ===== src/Client/AudioRing/Refinement.antt =====
-- The ring as a stream with a place in it: what is written is added, and what is read is what comes
-- next, or the oldest sample that is still there.
use wzp.Common.{
  ℕ, zero, suc, ◌+◌, ◌-◌, ◌≤◌, ◌<◌, ◌≡◌, refl, ap, ap₂, ◌∙◌, min, max, List, [], ◌∷◌, ◌++◌, arith,
  ltb, ◌==◌, if◌then◌else◌, length, take, drop, replicate, length-append, length-take, Bool-cases,
  inl, inr,
}
use wzp.Common.Words.{u64_mod}
use wzp.Client.AudioRing.{
  AudioRing, ring_capacity, add64, sub64, new_ring, available, write, read, read_from,
}
use wzp.Client.AudioRing.Stream.{HasTail, write_loop-HasTail, read_loop-HasTail}

-- The specification.
pub record Stream : Type 0 where
  pub samples : List ℕ
  pub at : ℕ

abbrev pub stream_write : Stream → List ℕ → Stream
stream_write t xs = record {
  samples = t.samples ++ take (min (length xs) ring_capacity) xs;
  at = t.at;
}

-- The place of the next sample that is still there.
abbrev pub oldest : Stream → ℕ
oldest t = max t.at (length t.samples - ring_capacity)

abbrev pub read_count : Stream → ℕ → ℕ
read_count t room = min room (length t.samples - oldest t)

abbrev pub stream_read : Stream → ℕ → List ℕ × Stream
stream_read t room =
    let count = read_count t room in
    (
      take count (drop (oldest t) t.samples),
      record { samples = t.samples; at = if count == 0 then t.at else oldest t + count },
    )

pub record Refines (s : AudioRing) (t : Stream) : Type 0 where
  pub tail : HasTail s.buf t.samples
  pub wrote : s.write_pos ≡ length t.samples
  pub reads : s.read_pos ≡ t.at
  pub order : t.at ≤ length t.samples
  pub short : length t.samples < u64_mod

replicate-HasTail : HasTail (replicate ring_capacity 0) []
replicate-HasTail = record {
  room = length-replicate ring_capacity;
  place = λ p a b. absurd (omega arith);
}
  where
    length-replicate : (n : ℕ) → length {A = ℕ} (replicate n 0) ≡ n
    length-replicate zero = refl
    length-replicate (suc n) = ap suc (length-replicate n)

new-Refines : Refines new_ring (record { samples = []; at = 0 })
unfolding new_ring
new-Refines = record {
  tail = replicate-HasTail;
  wrote = refl;
  reads = refl;
  order = omega arith;
  short = omega arith;
}

write-Refines :
    (s : AudioRing) (t : Stream) (xs : List ℕ)
    → Refines s t
    → length (stream_write t xs).samples < u64_mod
    → Refines (write s xs).1 (stream_write t xs)
unfolding write
write-Refines s t xs r l =
    let n = min (length xs) ring_capacity in
    let part = take n xs in
    let size = length-take n xs in
    let whole = length-append t.samples part in
    record {
      tail = write_loop-HasTail part s.buf t.samples s.write_pos r.wrote r.tail;
      wrote = omega (arith, r.wrote, size, whole, l);
      reads = r.reads;
      order = omega (arith, r.order, whole);
      short = l;
    }

read_from-Refines :
    (s : AudioRing) (t : Stream) (from avail room : ℕ)
    → Refines s t
    → from ≡ oldest t
    → avail ≡ length t.samples - oldest t
    → ((read_from s from avail room).0 ≡ (stream_read t room).0)
      × Refines (read_from s from avail room).1 (stream_read t room).1
unfolding read_from
read_from-Refines s t from avail room r f a = elim (Bool-cases (read_count t room == 0)) [
  | inl z ↦
      let none : min room avail ≡ 0 = ground (arith, z, a) in
      let none' : read_count t room ≡ 0 = ground (arith, z) in
      rw (none, none')
        (
          refl,
          record {
            tail = r.tail;
            wrote = r.wrote;
            reads = r.reads;
            order = r.order;
            short = r.short;
          },
        )
  | inr z ↦
      let same : min room avail ≡ read_count t room = omega (arith, a) in
      let got =
        read_loop-HasTail (read_count t room) from s.buf t.samples r.tail
          (omega (arith, f, r.order)) (omega (arith, f)) in
      rw (same, z)
        (
          got ∙ ap (λ i. take (read_count t room) (drop i t.samples)) f,
          record {
            tail = r.tail;
            wrote = r.wrote;
            reads = omega (arith, f, r.order, r.short);
            order = omega (arith, r.order);
            short = r.short;
          },
        )
]

read-Refines :
    (s : AudioRing) (t : Stream) (room : ℕ)
    → Refines s t
    → ((read s room).0 ≡ (stream_read t room).0) × Refines (read s room).1 (stream_read t room).1
unfolding read
read-Refines s t room r =
    let gap : sub64 s.write_pos s.read_pos ≡ length t.samples - t.at =
      omega (arith, r.wrote, r.reads, r.order, r.short) in
    elim (Bool-cases (ltb ring_capacity (sub64 s.write_pos s.read_pos))) [
      | inl lap ↦
          let s' : AudioRing = record s { overflow_count = add64 s.overflow_count 1 } in
          let r' : Refines s' t = record {
            tail = r.tail;
            wrote = r.wrote;
            reads = r.reads;
            order = r.order;
            short = r.short;
          } in
          rw lap (
            read_from-Refines s' t (sub64 s.write_pos ring_capacity) ring_capacity room r'
              (ground (arith, lap, gap, r.wrote, r.short)) (ground (arith, lap, gap)))
      | inr lap ↦ rw lap (
          read_from-Refines s t s.read_pos (sub64 s.write_pos s.read_pos) room r
            (ground (arith, lap, gap, r.reads)) (ground (arith, lap, gap, r.order)))
    ]

-- Runs of the two threads, one call after the other.
pub data Call : Type 0 where
  writes : List ℕ → Call
  reads : ℕ → Call

-- What the reads of a run return, and the ring behind it.
abbrev pub run : AudioRing → List Call → List (List ℕ) × AudioRing
run s [] = ([], s)
run s (writes xs ∷ cs) = run (write s xs).1 cs
run s (reads room ∷ cs) = let rest = run (read s room).1 cs in ((read s room).0 ∷ rest.0, rest.1)

abbrev pub stream_run : Stream → List Call → List (List ℕ) × Stream
stream_run t [] = ([], t)
stream_run t (writes xs ∷ cs) = stream_run (stream_write t xs) cs
stream_run t (reads room ∷ cs) =
    let rest = stream_run (stream_read t room).1 cs in ((stream_read t room).0 ∷ rest.0, rest.1)

-- All that a run may write.
abbrev pub volume : List Call → ℕ
volume [] = 0
volume (writes xs ∷ cs) = min (length xs) ring_capacity + volume cs
volume (reads room ∷ cs) = volume cs

run-Refines :
    (s : AudioRing) (t : Stream) (cs : List Call)
    → Refines s t
    → length t.samples + volume cs < u64_mod
    → ((run s cs).0 ≡ (stream_run t cs).0) × Refines (run s cs).1 (stream_run t cs).1
run-Refines s t [] r v = (refl, r)
run-Refines s t (writes xs ∷ cs) r v =
    let size = length-append t.samples (take (min (length xs) ring_capacity) xs) in
    let part = length-take (min (length xs) ring_capacity) xs in
    run-Refines (write s xs).1 (stream_write t xs) cs
      (write-Refines s t xs r (omega (arith, size, part, v))) (omega (arith, size, part, v))
run-Refines s t (reads room ∷ cs) r v =
    let (same, r') = read-Refines s t room r in
    let (rest, r'') = run-Refines (read s room).1 (stream_read t room).1 cs r' v in
    (ap₂ (λ x y. x ∷ y) same rest, r'')

-- Whatever the two threads call, one call after the other, below 2^64 samples in all: every read
-- returns what the stream gives, the samples that come next in it or, when more than a whole ring is
-- unread, the oldest of the last 16384; and `available` is the number that a read would find.
pub run_lem :
    (cs : List Call)
    → volume cs < u64_mod
    → ((run new_ring cs).0 ≡ (stream_run (record { samples = []; at = 0 }) cs).0)
      × (available (run new_ring cs).1 ≡ (
          let t = (stream_run (record { samples = []; at = 0 }) cs).1 in
          length t.samples - oldest t))
unfolding available
run_lem cs v =
    let (same, r) =
      run-Refines new_ring (record { samples = []; at = 0 }) cs new-Refines (omega (arith, v)) in
    (same, omega (arith, r.wrote, r.reads, r.order, r.short))
