-- ===== src/Jitter/Tests.antt =====
-- The jitter buffer at concrete values.
use wzp.Common.{ℕ, ◌*◌, ◌≡◌, refl, true, false, List, [], ◌∷◌, some, none, arith, length}
use wzp.Common.SortedMaps.{has, lookup, insert}
use wzp.Wire.Kinds.Media.{audio}
use wzp.Wire.Kinds.Codec.{opus24k}
use wzp.Wire.Packet.{MediaPacket}
use wzp.Jitter.{
  JitterBuffer, new, push, push_as, pop, take_next, receive, accept, store, adapt, measure,
  evict_loop, played,
}
use wzp.Jitter.Arrival.{push_all}
use wzp.Jitter.Window.{lowest}
use wzp.Jitter.Order.{playout, pop_all, push_all-pop_all}
use wzp.Jitter.Invariant.{IsSound, apply_all, pushes, pops, apply_all-new-IsSound}

abbrev packet : ℕ → MediaPacket
packet n = record {
  header = record {
    version = 2;
    flags = 0;
    media_type = audio;
    codec_id = opus24k;
    stream_id = 0;
    fec_ratio = 0;
    seq = n;
    timestamp = n * 20;
    fec_block = 0;
  };
  payload = n ∷ [];
  quality_report = none;
}

-- Room for one packet, and three of them.
apply_all-new-IsSound_example :
    IsSound (
      apply_all (new 1 1 1) (
        pushes true none (packet 7)
        ∷ pops
        ∷ pushes false (some 3) (packet 9)
        ∷ pushes true none (packet 8)
        ∷ []))
    × ((apply_all (new 1 1 1) (
          pushes true none (packet 7)
          ∷ pops
          ∷ pushes false (some 3) (packet 9)
          ∷ pushes true none (packet 8)
          ∷ [])).max_depth
        ≡ 1)
apply_all-new-IsSound_example = apply_all-new-IsSound 1 1 1 (
    pushes true none (packet 7)
    ∷ pops
    ∷ pushes false (some 3) (packet 9)
    ∷ pushes true none (packet 8)
    ∷ [])

-- 4, the last number but one and 5 arrive, and 4 once more.
abbrev arriving : List MediaPacket
arriving = packet 4 ∷ packet 4294967294 ∷ packet 5 ∷ packet 4 ∷ []

three : length (push_all (new 5 10 3) arriving).buffer ≡ 3
unfolding push push_as receive accept store adapt measure evict_loop has lookup insert new
three = refl

push_all-pop_all_example :
    (pop_all 8 (push_all (new 5 10 3) arriving)).0 ≡ playout 8 (lowest 4294967290 arriving) arriving
push_all-pop_all_example =
    push_all-pop_all 4294967290 5 10 3 8 (packet 4) (packet 4294967294 ∷ packet 5 ∷ packet 4 ∷ [])
      (omega arith) (omega arith)
      (
        (omega arith, omega arith),
        (
          (omega arith, omega arith),
          ((omega arith, omega arith), ((omega arith, omega arith), tt)),
        ),
      )
      (omega arith) (omega (arith, three))

-- One packet, which is played and comes again.
abbrev one : JitterBuffer
one = push none (new 1 10 1) (packet 7)

one_ready :
    (one.initialized ≡ true)
    × (one.next_playout_seq ≡ 7)
    × (one.stats.packets_played ≡ 0)
    × ((pop one).0 ≡ played (packet 7))
unfolding push push_as receive accept store adapt measure evict_loop has lookup insert new pop
    take_next
one_ready = (refl, refl, refl, refl)
