-- ===== src/Client/AudioRing.antt =====
-- crates/wzp-client/src/audio_ring.rs: the ring between the thread that captures samples and the one
-- that plays them. Each call of one thread is one step.
pub mod Stream
pub mod Refinement
use wzp.Common.{
  ℕ, zero, suc, ◌+◌, ◌-◌, ◌%◌, min, bit_and, List, [], ◌∷◌, arith, ltb, ◌==◌, if◌then◌else◌, length,
  take, get_or, set, replicate,
}
use wzp.Common.Words.{u64_mod}

abbrev pub ring_capacity : ℕ
ring_capacity = 16384

abbrev pub ring_mask : ℕ
ring_mask = 16383

-- `usize::wrapping_add` and `usize::wrapping_sub`
abbrev pub add64 : ℕ → ℕ → ℕ
add64 a b = (a + b) % u64_mod

abbrev pub sub64 : ℕ → ℕ → ℕ
sub64 a b = (a + u64_mod - b) % u64_mod

pub record AudioRing : Type 0 where
  pub buf : List ℕ
  pub write_pos : ℕ
  pub read_pos : ℕ
  pub overflow_count : ℕ
  pub underrun_count : ℕ

unfoldable pub new_ring : AudioRing
new_ring = record {
  buf = replicate ring_capacity 0;
  write_pos = 0;
  read_pos = 0;
  overflow_count = 0;
  underrun_count = 0;
}

unfoldable pub available : AudioRing → ℕ
available s = min (sub64 s.write_pos s.read_pos) ring_capacity

-- The loop of `write`: the samples left, and `w + i`.
unfoldable pub write_loop : List ℕ → ℕ → List ℕ → List ℕ
write_loop [] i buf = buf
write_loop (x ∷ xs) i buf = write_loop xs (i + 1) (set buf (bit_and i ring_mask) x)

unfoldable pub write : AudioRing → List ℕ → ℕ × AudioRing
write s samples =
    let count = min (length samples) ring_capacity in
    (
      count,
      record s {
        buf = write_loop (take count samples) s.write_pos s.buf;
        write_pos = add64 s.write_pos count;
      },
    )

-- The loop of `read`: the samples left, and `r + i`.
unfoldable pub read_loop : ℕ → ℕ → List ℕ → List ℕ
read_loop zero i buf = []
read_loop (suc n) i buf = get_or buf (bit_and i ring_mask) 0 ∷ read_loop n (i + 1) buf

-- `read` behind the detection of a lap, with the position to read from.
unfoldable pub read_from : AudioRing → ℕ → ℕ → ℕ → List ℕ × AudioRing
read_from s r avail room =
    let count = min room avail in
    if count == 0
    then (
      [],
      record s {
        underrun_count = if s.write_pos == r then add64 s.underrun_count 1 else s.underrun_count;
      },
    )
    else (read_loop count r s.buf, record s { read_pos = add64 r count })

-- `read` into a slice of some length: the samples, whose number it returns.
unfoldable pub read : AudioRing → ℕ → List ℕ × AudioRing
unfolding read_from
read s room =
    let avail = sub64 s.write_pos s.read_pos in
    if ltb ring_capacity avail
    then read_from (record s { overflow_count = add64 s.overflow_count 1 })
        (sub64 s.write_pos ring_capacity) ring_capacity room
    else read_from s s.read_pos avail room
