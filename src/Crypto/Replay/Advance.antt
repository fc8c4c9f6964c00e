-- ===== src/Crypto/Replay/Advance.antt =====
-- What `set_bit` and `advance_window` do to the digits of the window.
use wzp.Common.{
  ℕ, zero, suc, ◌-◌, ◌*◌, ◌/◌, ◌%◌, ◌^◌, ◌≤◌, ◌<◌, ◌≡◌, true, ◌&&◌, List, min, bit_and, bit_or,
  arith, ltb, leb, ◌==◌, if◌then◌else◌, length, get_or, set, length-set, get_or-set_self,
  get_or-set_ne, get_or-set_either, Bool-cases, inl, inr,
}
use wzp.Common.Bits.{
  bit, bit-lt, zero-bit, bit-bit_or, bit-bit_and, bit-shl, bit-mod, bit-high_mask, one-bit, IsWord,
  zero-IsWord, bit_or-IsWord, bit_and-IsWord, mod-IsWord,
}
use wzp.Common.Words.{u32_mod, u64_mod}
use wzp.Crypto.Replay.{
  AntiReplayWindow, set_bit, moved_word, move_words, clear_words, high_mask, advance_window,
}
use wzp.Crypto.Replay.Bitmap.{
  digit, AreWords, length-move_words, get_or-move_words, bit-moved_word, moved_word-IsWord,
  length-clear_words, get_or-clear_words,
}

-- The window as it is kept: the words cover it and are u64, it is at most half the sequence space,
-- and once a packet has come the highest number is marked.
pub record IsWindow (s : AntiReplayWindow) : Type 0 where
  pub covered : s.window_size ≤ length s.bitmap * 64
  pub words : AreWords s.bitmap
  pub positive : 0 < s.window_size
  pub half : s.window_size ≤ 0x8000_0000
  pub highest_word : s.highest < u32_mod
  pub highest_seen : s.initialized ≡ true → digit s.bitmap 0 ≡ 1

one_shifted : (s k : ℕ) → s < 64 → k < 64 → bit (1 * 2 ^ s % u64_mod) k ≡ (if k == s then 1 else 0)
one_shifted s k h l = ground (arith, bit-mod 64 (1 * 2 ^ s) k l, bit-shl s 1 k, one-bit (k - s))

pub length-set_bit : (b : List ℕ) (o : ℕ) → length (set_bit b o) ≡ length b
unfolding set_bit
length-set_bit b o =
    ground
      (arith, length-set b (o / 64) (bit_or (get_or b (o / 64) 0) (1 * 2 ^ (o % 64) % u64_mod)))

-- Setting a bit in range makes that digit one and leaves the others.
pub digit-set_bit :
    (b : List ℕ) (o j : ℕ)
    → o / 64 < length b
    → digit (set_bit b o) j ≡ (if j == o then 1 else digit b j)
unfolding set_bit
digit-set_bit b o j h =
    let v = bit_or (get_or b (o / 64) 0) (1 * 2 ^ (o % 64) % u64_mod) in
    ground (
      arith,
      get_or-set_self b (o / 64) v 0,
      get_or-set_ne b (o / 64) (j / 64) v 0,
      bit-bit_or (get_or b (o / 64) 0) (1 * 2 ^ (o % 64) % u64_mod) (j % 64),
      one_shifted (o % 64) (j % 64),
      bit-lt (get_or b (o / 64) 0) (j % 64),
    )

AreWords-set : (b : List ℕ) (i v : ℕ) → AreWords b → IsWord v → AreWords (set b i v)
AreWords-set b i v h w j = get_or-set_either IsWord b i j v 0 w (h j)

pub AreWords-set_bit : (b : List ℕ) (o : ℕ) → AreWords b → AreWords (set_bit b o)
unfolding set_bit
AreWords-set_bit b o h = elim (Bool-cases (ltb (o / 64) (length b))) [
  | inr e ↦ rw e h
  | inl e ↦ rw e (
      AreWords-set b (o / 64) _ h (
        bit_or-IsWord (get_or b (o / 64) 0) (1 * 2 ^ (o % 64) % u64_mod) (h (o / 64))
          (mod-IsWord (1 * 2 ^ (o % 64)))))
]

AreWords-clear_words : (n : ℕ) (b : List ℕ) → AreWords b → AreWords (clear_words n b)
unfolding clear_words
AreWords-clear_words zero b h = h
AreWords-clear_words (suc n) b h =
    AreWords-clear_words n (set b n 0) (AreWords-set b n 0 h zero-IsWord)

AreWords-move_words : (ws bs n : ℕ) (b : List ℕ) → AreWords b → AreWords (move_words ws bs n b)
unfolding move_words
AreWords-move_words ws bs zero b h = h
AreWords-move_words ws bs (suc n) b h =
    AreWords-move_words ws bs n (set b n (moved_word b ws bs n))
      (AreWords-set b n (moved_word b ws bs n) h (moved_word-IsWord ws bs b n h))

pub length-advance_window :
    (s : AntiReplayWindow) (n : ℕ) → length (advance_window s n).bitmap ≡ length s.bitmap
unfolding advance_window
length-advance_window s n =
    let moved = move_words (n / 64) (n % 64) (length s.bitmap) s.bitmap in
    let cleared = clear_words (min (n / 64) (length s.bitmap)) moved in
    ground (
      arith,
      length-clear_words (length s.bitmap) s.bitmap,
      length-clear_words (min (n / 64) (length s.bitmap)) moved,
      length-move_words (n / 64) (n % 64) (length s.bitmap) s.bitmap,
      length-set cleared (n / 64) (bit_and (get_or cleared (n / 64) 0) (high_mask (n % 64))),
    )

pub AreWords-advance_window :
    (s : AntiReplayWindow) (n : ℕ) → AreWords s.bitmap → AreWords (advance_window s n).bitmap
unfolding advance_window
AreWords-advance_window s n h =
    let l = length s.bitmap in
    let moved = move_words (n / 64) (n % 64) l s.bitmap in
    let cleared = clear_words (min (n / 64) l) moved in
    let hc : AreWords cleared =
      AreWords-clear_words (min (n / 64) l) moved
        (AreWords-move_words (n / 64) (n % 64) l s.bitmap h) in
    elim (Bool-cases (leb s.window_size n)) [
      | inl e ↦ rw e (AreWords-clear_words l s.bitmap h)
      | inr e ↦ rw e (elim (Bool-cases (ltb (n / 64) l && ltb 0 (n % 64))) [
        | inr g ↦ rw g hc
        | inl g ↦ rw g (
            AreWords-set cleared (n / 64) _ hc
              (bit_and-IsWord (get_or cleared (n / 64) 0) (high_mask (n % 64)) (hc (n / 64))))
      ])
    ]

-- Moving the window by `n` moves each digit up by `n`; the digits below `n` are zero.
pub digit-advance_window :
    (s : AntiReplayWindow) (n o : ℕ)
    → IsWindow s
    → o < s.window_size
    → digit (advance_window s n).bitmap o ≡ (if ltb o n then 0 else digit s.bitmap (o - n))
unfolding advance_window
digit-advance_window s n o v h =
    let l = length s.bitmap in
    let ws = n / 64 in
    let bs = n % 64 in
    let moved = move_words ws bs l s.bitmap in
    let cleared = clear_words (min ws l) moved in
    ground (
      arith,
      zero-bit (o % 64),
      get_or-clear_words l s.bitmap (o / 64),
      length-clear_words (min ws l) moved,
      length-move_words ws bs l s.bitmap,
      get_or-clear_words (min ws l) moved (o / 64),
      get_or-move_words ws bs l s.bitmap (o / 64),
      bit-moved_word ws bs s.bitmap (o / 64) (o % 64) v.words,
      get_or-set_self cleared ws (bit_and (get_or cleared ws 0) (high_mask bs)) 0,
      get_or-set_ne cleared ws (o / 64) (bit_and (get_or cleared ws 0) (high_mask bs)) 0,
      bit-bit_and (get_or cleared ws 0) (high_mask bs) (o % 64),
      bit-high_mask bs (o % 64),
      bit-lt (get_or cleared ws 0) (o % 64),
    )
