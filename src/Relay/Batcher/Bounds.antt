-- ===== src/Relay/Batcher/Bounds.antt =====
-- What the batcher keeps: its count of bytes, its limits, and every packet in order.
use wzp.Common.{
  ℕ, ◌+◌, ◌≤◌, ◌<◌, ◌≡◌, ◌⊎◌, refl, ap, ◌∙◌, sym, List, [], ◌∷◌, ◌++◌, Option, none, some, arith,
  length-append, append_assoc, append-nil, length-eq_zero, All, subst,
}
use wzp.Wire.Trunk.{TrunkEntry, TrunkFrame, total_size, wire_size, len}
use wzp.Relay.Batcher.{TrunkBatcher, new_batcher, push, flush}

-- A frame within the limits: at most `max_entries` packets, and at most `max_bytes` on the wire
-- unless it is a single packet.
pub record Within (max_entries max_bytes : ℕ) (f : TrunkFrame) : Type 0 where
  pub entries : len f ≤ max_entries
  pub size : (wire_size f ≤ max_bytes) ⊎ (len f ≤ 1)

pub record IsBatcher (b : TrunkBatcher) : Type 0 where
  pub counted : b.pending_bytes ≡ wire_size b.pending
  pub some_entries : 0 < b.max_entries
  pub within : Within b.max_entries b.max_bytes b.pending

total_size-append :
    (xs ys : List TrunkEntry) → total_size (xs ++ ys) ≡ total_size xs + total_size ys
total_size-append [] ys = omega arith
total_size-append (x ∷ xs) ys = omega (arith, total_size-append xs ys)

-- A frame that is sent is within the limits.
abbrev pub SentWithin : TrunkBatcher → Option TrunkFrame → Type 0
SentWithin b none = Unit
SentWithin b (some f) = Within b.max_entries b.max_bytes f

pub new_batcher-IsBatcher : IsBatcher new_batcher
unfolding new_batcher wire_size
new_batcher-IsBatcher = omega arith

-- A push keeps the count of bytes equal to the size on the wire and the pending frame within the
-- limits, and a frame that it sends is within them.
pub push-IsBatcher :
    (b : TrunkBatcher) (e : TrunkEntry)
    → IsBatcher b
    → IsBatcher (push b e).1 × SentWithin b (push b e).0
unfolding push wire_size
push-IsBatcher b e v =
    ground (
      arith,
      total_size-append b.pending.packets (e ∷ []),
      length-append b.pending.packets (e ∷ []),
    )

abbrev pub sent : Option TrunkFrame → List TrunkEntry
sent none = []
sent (some f) = f.packets

-- No packet is lost, repeated or reordered: what is sent and then what is pending is what was
-- pending and the new packet.
pub push_conserves :
    (b : TrunkBatcher) (e : TrunkEntry)
    → sent (push b e).0 ++ (push b e).1.pending.packets ≡ b.pending.packets ++ e ∷ []
unfolding push
push_conserves b e = ground (arith, append-nil (b.pending.packets ++ e ∷ []))

abbrev pub opt_cons : Option TrunkFrame → List TrunkFrame → List TrunkFrame
opt_cons none fs = fs
opt_cons (some f) fs = f ∷ fs

-- Packets pushed one after another: the frames that go out, and the batcher at the end.
pub push_all : TrunkBatcher → List TrunkEntry → List TrunkFrame × TrunkBatcher
push_all b [] = ([], b)
push_all b (e ∷ es) = let (o, b') = push b e in let (fs, c) = push_all b' es in (opt_cons o fs, c)

abbrev pub all_packets : List TrunkFrame → List TrunkEntry
all_packets [] = []
all_packets (f ∷ fs) = f.packets ++ all_packets fs

all_packets-opt_cons :
    (o : Option TrunkFrame) (fs : List TrunkFrame)
    → all_packets (opt_cons o fs) ≡ sent o ++ all_packets fs
all_packets-opt_cons none fs = refl
all_packets-opt_cons (some f) fs = refl

-- Over any run of pushes the frames sent, followed by what is pending, are the packets pushed, in
-- their order, behind what was pending before.
pub push_all_conserves :
    (b : TrunkBatcher) (es : List TrunkEntry)
    → all_packets (push_all b es).0 ++ (push_all b es).1.pending.packets ≡ b.pending.packets ++ es
unfolding push_all
push_all_conserves b [] = sym (append-nil b.pending.packets)
push_all_conserves b (e ∷ es) =
    let (o, b') = push b e in
    let (fs, c) = push_all b' es in
    ap (λ xs. xs ++ c.pending.packets) (all_packets-opt_cons o fs)
    ∙ append_assoc (sent o) (all_packets fs) c.pending.packets
    ∙ ap (λ xs. sent o ++ xs) (push_all_conserves b' es)
    ∙ sym (append_assoc (sent o) b'.pending.packets es)
    ∙ ap (λ xs. xs ++ es) (push_conserves b e)
    ∙ append_assoc b.pending.packets (e ∷ []) es

-- Every frame that a run of pushes sends is within the limits.
push_limits :
    (b : TrunkBatcher) (e : TrunkEntry)
    → ((push b e).1.max_entries ≡ b.max_entries) × ((push b e).1.max_bytes ≡ b.max_bytes)
unfolding push
push_limits b e = (ground arith, ground arith)

opt_cons-All :
    (b : TrunkBatcher) (o : Option TrunkFrame) (fs : List TrunkFrame)
    → SentWithin b o
    → All (Within b.max_entries b.max_bytes) fs
    → All (Within b.max_entries b.max_bytes) (opt_cons o fs)
opt_cons-All b none fs h k = k
opt_cons-All b (some f) fs h k = (h, k)

-- From a well-formed batcher every frame that a run of pushes sends has at most `max_entries`
-- packets, and at most `max_bytes` on the wire unless it is a single packet.
pub push_all-Within :
    (b : TrunkBatcher) (es : List TrunkEntry)
    → IsBatcher b
    → All (Within b.max_entries b.max_bytes) (push_all b es).0
unfolding push_all
push_all-Within b [] v = tt
push_all-Within b (e ∷ es) v =
    let (v', s) = push-IsBatcher b e v in
    let (le, lb) = push_limits b e in
    let rest = push_all-Within (push b e).1 es v' in
    opt_cons-All b (push b e).0 (push_all (push b e).1 es).0 s (
      subst (λ n. All (Within n b.max_bytes) (push_all (push b e).1 es).0) le
        (subst (λ n. All (Within (push b e).1.max_entries n) (push_all (push b e).1 es).0) lb rest))

-- A flush of a well-formed batcher sends what is pending, if anything, in a frame within the
-- limits, and leaves the batcher well formed and empty.
pub flush_lem :
    (b : TrunkBatcher)
    → IsBatcher b
    → IsBatcher (flush b).1
      × SentWithin b (flush b).0
      × (sent (flush b).0 ≡ b.pending.packets)
      × ((flush b).1.pending.packets ≡ [])
unfolding flush wire_size
flush_lem b v = (
  ground arith,
  ground arith,
  ground (arith, length-eq_zero b.pending.packets),
  ground (arith, length-eq_zero b.pending.packets),
)
