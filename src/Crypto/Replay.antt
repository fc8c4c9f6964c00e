-- ===== src/Crypto/Replay.antt =====
-- crates/wzp-crypto/src/anti_replay.rs: the sliding window over u32 sequence numbers, with its
-- bitmap of u64 words. `&mut self` is passed in and returned.
pub mod Bitmap
pub mod Advance
pub mod Window
pub mod History
use wzp.Common.{
  ℕ, zero, suc, ◌+◌, ◌-◌, ◌*◌, ◌/◌, ◌%◌, ◌^◌, Bool, true, false, not, ◌&&◌, List, ◌≡◌, min, bit_and,
  bit_or, ltb, leb, ◌==◌, if◌then◌else◌, length, get_or, set, replicate,
}
use wzp.Common.Words.{u32_mod, u64_mod, sub32}

pub record AntiReplayWindow : Type 0 where
  pub window_size : ℕ
  pub highest : ℕ
  pub bitmap : List ℕ
  pub initialized : Bool

-- `CryptoError::ReplayDetected`, or success.
pub data Verdict : Type 0 where
  fresh replay : Verdict

unfoldable pub with_window : ℕ → AntiReplayWindow
with_window size = record {
  window_size = size % u32_mod;
  highest = 0;
  bitmap = replicate ((size + 63) / 64) 0;
  initialized = false;
}

unfoldable pub set_bit : List ℕ → ℕ → List ℕ
set_bit b offset =
    let word : ℕ = offset / 64 in
    if ltb word (length b)
    then set b word (bit_or (get_or b word 0) (1 * 2 ^ (offset % 64) % u64_mod))
    else b

unfoldable pub get_bit : List ℕ → ℕ → Bool
get_bit b offset =
    let word : ℕ = offset / 64 in
    if ltb word (length b) then bit_and (get_or b word 0 / 2 ^ (offset % 64)) 1 == 1 else false

-- The word that the loop stores at `i`; its reads are at or below `i`, in range.
unfoldable pub moved_word : List ℕ → ℕ → ℕ → ℕ → ℕ
moved_word b word_shift bit_shift i =
    if leb word_shift i
    then (let val : ℕ = get_or b (i - word_shift) 0 * 2 ^ bit_shift % u64_mod in
        if ltb 0 bit_shift && ltb word_shift i
        then bit_or val (get_or b (i - word_shift - 1) 0 / 2 ^ (64 - bit_shift))
        else val)
    else 0

-- `for i in (0..len).rev()`, in place, with the rounds left.
unfoldable pub move_words : ℕ → ℕ → ℕ → List ℕ → List ℕ
move_words word_shift bit_shift zero b = b
move_words word_shift bit_shift (suc i) b =
    move_words word_shift bit_shift i (set b i (moved_word b word_shift bit_shift i))

-- `for word in &mut bitmap[..n] { *word = 0 }`
unfoldable pub clear_words : ℕ → List ℕ → List ℕ
clear_words zero b = b
clear_words (suc n) b = clear_words n (set b n 0)

-- `!((1u64 << s) - 1)`
abbrev pub high_mask : ℕ → ℕ
high_mask s = u64_mod - 1 - (1 * 2 ^ s % u64_mod - 1)

unfoldable pub advance_window : AntiReplayWindow → ℕ → AntiReplayWindow
advance_window s shift =
    let word_shift : ℕ = shift / 64 in
    let bit_shift : ℕ = shift % 64 in
    let len : ℕ = length s.bitmap in
    let moved : List ℕ = move_words word_shift bit_shift len s.bitmap in
    let cleared : List ℕ = clear_words (min word_shift len) moved in
    if leb s.window_size shift then record s { bitmap = clear_words len s.bitmap } else record s {
      bitmap =
          if ltb word_shift len && ltb 0 bit_shift
          then set cleared word_shift (bit_and (get_or cleared word_shift 0) (high_mask bit_shift))
          else cleared;
    }

-- Both branches that accept mark the offset 0 or `behind`.
unfoldable pub check_and_update : AntiReplayWindow → ℕ → Verdict × AntiReplayWindow
check_and_update s seq =
    let diff : ℕ = sub32 seq s.highest in
    let behind : ℕ = sub32 s.highest seq in
    let ahead : AntiReplayWindow = advance_window s diff in
    if not s.initialized
    then (fresh, record s { initialized = true; highest = seq; bitmap = set_bit s.bitmap 0 })
    else (if diff == 0
        then (replay, s)
        else (if ltb diff 0x8000_0000
            then (fresh, record ahead { highest = seq; bitmap = set_bit ahead.bitmap 0 })
            else (if leb s.window_size behind
                then (replay, s)
                else (if get_bit s.bitmap behind
                    then (replay, s)
                    else (fresh, record s { bitmap = set_bit s.bitmap behind })))))
