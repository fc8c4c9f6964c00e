-- ===== src/Jitter.antt =====
-- crates/wzp-proto/src/jitter.rs: the jitter buffer. The adaptive estimate of the delay is in floating
-- point: `push` takes the target that it gives, or `none` where it is off.
pub mod Window
pub mod Arrival
pub mod Order
pub mod Invariant
mod Tests
use wzp.Common.{
  ℕ, zero, suc, ◌+◌, ◌%◌, min, max, Bool, true, false, not, ◌&&◌, ◌||◌, List, [], ◌∷◌, Option, none,
  some, arith, leb, ltb, ◌==◌, if◌then◌else◌, length,
}
use wzp.Common.Words.{add32, sub32, u64_mod}
use wzp.Common.SortedMaps.{lookup, insert, remove, has}
use wzp.Wire.Packet.{MediaPacket}

-- A counter of 64 bits, one further.
abbrev pub count : ℕ → ℕ
count n = (n + 1) % u64_mod

pub record JitterStats : Type 0 where
  pub packets_received : ℕ
  pub packets_played : ℕ
  pub packets_lost : ℕ
  pub packets_late : ℕ
  pub packets_duplicate : ℕ
  pub current_depth : ℕ
  pub total_decoded : ℕ
  pub underruns : ℕ
  pub overruns : ℕ
  pub max_depth_seen : ℕ

abbrev pub no_stats : JitterStats
no_stats = record {
  packets_received = 0;
  packets_played = 0;
  packets_lost = 0;
  packets_late = 0;
  packets_duplicate = 0;
  current_depth = 0;
  total_decoded = 0;
  underruns = 0;
  overruns = 0;
  max_depth_seen = 0;
}

pub record JitterBuffer : Type 0 where
  pub buffer : List (ℕ × MediaPacket)
  pub next_playout_seq : ℕ
  pub max_depth : ℕ
  pub target_depth : ℕ
  pub min_depth : ℕ
  pub initialized : Bool
  pub stats : JitterStats

pub data PlayoutResult : Type 0 where
  played : MediaPacket → PlayoutResult
  missing : ℕ → PlayoutResult
  not_ready : PlayoutResult

unfoldable pub new : ℕ → ℕ → ℕ → JitterBuffer
new target_depth max_depth min_depth = record {
  buffer = [];
  next_playout_seq = 0;
  max_depth = max_depth;
  target_depth = target_depth;
  min_depth = min_depth;
  initialized = false;
  stats = no_stats;
}

abbrev pub seq_before : ℕ → ℕ → Bool
seq_before a b = let diff : ℕ = sub32 b a in ltb 0 diff && ltb diff 0x8000

-- The first lines of `push`: the packet is counted, and the first one starts the playout.
unfoldable pub receive : JitterBuffer → ℕ → JitterBuffer
receive s seq = record s {
  next_playout_seq = if s.initialized then s.next_playout_seq else seq;
  initialized = true;
  stats = record s.stats { packets_received = count s.stats.packets_received };
}

unfoldable pub drop_duplicate : JitterBuffer → JitterBuffer
drop_duplicate s = record s {
  stats = record s.stats { packets_duplicate = count s.stats.packets_duplicate };
}

unfoldable pub drop_late : JitterBuffer → JitterBuffer
drop_late s = record s { stats = record s.stats { packets_late = count s.stats.packets_late } }

-- A new sender.
unfoldable pub restart : JitterBuffer → ℕ → JitterBuffer
restart s seq = record s {
  buffer = [];
  next_playout_seq = seq;
  stats = record s.stats { packets_late = 0 };
}

abbrev pub lowered : ℕ → Option ℕ → ℕ
lowered n none = n
lowered n (some target) = min n target

abbrev pub given : ℕ → Option ℕ → ℕ
given n none = n
given n (some target) = target

-- `push` lowers the least depth with the target, and `push_with_arrival` does not.
unfoldable pub adapt : Bool → Option ℕ → JitterBuffer → JitterBuffer
adapt lower target s = record s {
  target_depth = given s.target_depth target;
  min_depth = if lower then lowered s.min_depth target else s.min_depth;
}

-- One round of the eviction.
unfoldable pub evict_one : JitterBuffer → JitterBuffer
evict_one s = elim s.buffer [
  | [] ↦ s
  | (oldest, p) ∷ rest ↦
      let past : ℕ = add32 oldest 1 in
      let behind = seq_before s.next_playout_seq past in
      record s {
        buffer = remove oldest s.buffer;
        next_playout_seq = if behind then past else s.next_playout_seq;
        stats = record s.stats {
          overruns = count s.stats.overruns;
          packets_lost = if behind then count s.stats.packets_lost else s.stats.packets_lost;
        };
      }
]

-- The loop, which takes an entry away in each round.
unfoldable pub evict_loop : ℕ → JitterBuffer → JitterBuffer
evict_loop zero s = s
evict_loop (suc fuel) s =
    let rest = evict_loop fuel (evict_one s) in
    if ltb s.max_depth (length s.buffer) then rest else s

unfoldable pub measure : JitterBuffer → JitterBuffer
measure s = record s {
  stats = record s.stats {
    current_depth = length s.buffer;
    max_depth_seen = max s.stats.max_depth_seen (length s.buffer);
  };
}

-- The rest of `push`, for a packet that is taken: up to the insertion, and all of it.
unfoldable pub store : Bool → Option ℕ → JitterBuffer → MediaPacket → JitterBuffer
unfolding adapt
store lower target s p =
    let seq : ℕ = p.header.seq in
    let early = (s.stats.packets_played == 0) && seq_before seq s.next_playout_seq in
    let adapted =
      adapt lower target
        (record s { next_playout_seq = if early then seq else s.next_playout_seq }) in
    record adapted { buffer = insert seq p adapted.buffer }

unfoldable pub accept : Bool → Option ℕ → JitterBuffer → MediaPacket → JitterBuffer
accept lower target s p =
    let stored = store lower target s p in measure (evict_loop (length stored.buffer) stored)

unfoldable pub push_as : Bool → Option ℕ → JitterBuffer → MediaPacket → JitterBuffer
unfolding receive drop_duplicate drop_late restart
push_as lower target s₀ p =
    let seq : ℕ = p.header.seq in
    let s = receive s₀ seq in
    if has seq s.buffer
    then drop_duplicate s
    else (if ltb 0 s.stats.packets_played && seq_before seq s.next_playout_seq
        then (if ltb 100 (sub32 s.next_playout_seq seq)
            then accept lower target (restart s seq) p
            else drop_late s)
        else accept lower target s p)

unfoldable pub push : Option ℕ → JitterBuffer → MediaPacket → JitterBuffer
push target s p = push_as true target s p

unfoldable pub push_with_arrival : Option ℕ → JitterBuffer → MediaPacket → JitterBuffer
push_with_arrival target s p = push_as false target s p

-- `pop`, when it does not wait.
unfoldable pub take_next : JitterBuffer → PlayoutResult × JitterBuffer
take_next s = elim (lookup s.next_playout_seq s.buffer) [
  | some p ↦ (
    played p,
    record s {
      buffer = remove s.next_playout_seq s.buffer;
      next_playout_seq = add32 s.next_playout_seq 1;
      stats = record s.stats {
        packets_played = count s.stats.packets_played;
        current_depth = length (remove s.next_playout_seq s.buffer);
      };
    },
  )
  | none ↦ (
    missing s.next_playout_seq,
    record s {
      next_playout_seq = add32 s.next_playout_seq 1;
      stats = record s.stats {
        packets_lost = count s.stats.packets_lost;
        current_depth = length s.buffer;
      };
    },
  )
]

unfoldable pub pop : JitterBuffer → PlayoutResult × JitterBuffer
unfolding take_next
pop s =
    if not s.initialized || (ltb (length s.buffer) s.min_depth && (s.stats.packets_played == 0))
    then (not_ready, s)
    else take_next s

unfoldable pub reset : JitterBuffer → JitterBuffer
reset s = record s { buffer = []; initialized = false; stats = no_stats }

unfoldable pub record_underrun : JitterBuffer → JitterBuffer
record_underrun s = record s { stats = record s.stats { underruns = count s.stats.underruns } }

unfoldable pub record_decode : JitterBuffer → JitterBuffer
record_decode s = record s {
  stats = record s.stats { total_decoded = count s.stats.total_decoded };
}

unfoldable pub reset_stats : JitterBuffer → JitterBuffer
reset_stats s = record s { stats = record no_stats { current_depth = length s.buffer } }

unfoldable pub set_target_depth : JitterBuffer → ℕ → JitterBuffer
set_target_depth s depth = record s { target_depth = min depth s.max_depth }
