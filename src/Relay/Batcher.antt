-- ===== src/Relay/Batcher.antt =====
-- crates/wzp-relay/src/trunk.rs: packets of several sessions gathered into trunk frames. The
-- interval between flushes is the caller's and plays no part in the batcher.
pub mod Bounds
use wzp.Common.{ℕ, ◌+◌, Bool, not, ◌&&◌, ◌||◌, Option, none, some, ltb, leb, if◌then◌else◌, length}
use wzp.Wire.Trunk.{TrunkEntry, TrunkFrame, empty_frame, len, is_empty, overhead}
use wzp.Wire.Trunk

-- `TrunkBatcher`
pub record TrunkBatcher : Type 0 where
  pub pending : TrunkFrame
  pub pending_bytes : ℕ
  pub max_entries : ℕ
  pub max_bytes : ℕ
  pub flush_interval_ms : ℕ

abbrev pub frame_header : ℕ
frame_header = 2

unfoldable pub new_batcher : TrunkBatcher
new_batcher = record {
  pending = empty_frame;
  pending_bytes = frame_header;
  max_entries = 10;
  max_bytes = 1200;
  flush_interval_ms = 5;
}

abbrev pub should_flush : TrunkBatcher → Bool
should_flush b = leb b.max_entries (len b.pending) || leb b.max_bytes b.pending_bytes

abbrev pub should_flush_with : TrunkBatcher → ℕ → Bool
should_flush_with b extra_bytes =
    ltb b.max_entries (len b.pending + 1) || ltb b.max_bytes (b.pending_bytes + extra_bytes)

unfoldable pub take_pending : TrunkBatcher → TrunkFrame × TrunkBatcher
take_pending b = (b.pending, record b { pending = empty_frame; pending_bytes = frame_header })

-- `self.pending.push(..); self.pending_bytes += entry_wire`
unfoldable pub add_entry : TrunkBatcher → TrunkEntry → TrunkBatcher
unfolding Trunk.push
add_entry b e = record b {
  pending = Trunk.push b.pending e;
  pending_bytes = b.pending_bytes + (overhead + length e.payload);
}

unfoldable pub push : TrunkBatcher → TrunkEntry → Option TrunkFrame × TrunkBatcher
unfolding take_pending add_entry
push b e =
    let added : TrunkBatcher = add_entry b e in
    if should_flush_with b (overhead + length e.payload) && not (is_empty b.pending)
    then (some (take_pending b).0, add_entry (take_pending b).1 e)
    else (if should_flush added
        then (some (take_pending added).0, (take_pending added).1)
        else (none, added))

unfoldable pub flush : TrunkBatcher → Option TrunkFrame × TrunkBatcher
unfolding take_pending
flush b = if is_empty b.pending then (none, b) else (some (take_pending b).0, (take_pending b).1)
