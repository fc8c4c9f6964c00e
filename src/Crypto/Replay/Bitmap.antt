-- ===== src/Crypto/Replay/Bitmap.antt =====
-- The bitmap as a function from offsets to digits: what setting a bit and moving the words do.
use wzp.Common.{
  ℕ, zero, suc, ◌+◌, ◌-◌, ◌*◌, ◌/◌, ◌%◌, ◌^◌, ◌≤◌, ◌<◌, ◌≡◌, refl, ap, ◌∙◌, List, arith, ltb, ◌==◌,
  if◌then◌else◌, length, get_or, set, length-set, get_or-set_self, get_or-set_ne,
}
use wzp.Common.Bits.{
  bit, zero-bit, bit_cong, bit-bit_or, bit-shr, bit-shl, bit-mod, bit_and-one, IsWord, mod-IsWord,
  shr-IsWord,
}
use wzp.Common.Words.{u64_mod}
use wzp.Crypto.Replay.{get_bit, moved_word, move_words, clear_words}

-- The digit of the bitmap at an offset.
abbrev pub digit : List ℕ → ℕ → ℕ
digit b o = bit (get_or b (o / 64) 0) (o % 64)

-- Every entry is a u64.
abbrev pub AreWords : List ℕ → Type 0
AreWords b = (i : ℕ) → IsWord (get_or b i 0)

pub get_bit-digit : (b : List ℕ) (o : ℕ) → o / 64 < length b → get_bit b o ≡ (digit b o == 1)
unfolding get_bit
get_bit-digit b o h = ground (
  arith,
  bit_and-one (get_or b (o / 64) 0 / 2 ^ (o % 64)),
  bit-shr (o % 64) (get_or b (o / 64) 0) 0,
  bit_cong (get_or b (o / 64) 0) (get_or b (o / 64) 0) (o % 64 + 0) (o % 64) refl (omega arith),
)

pub digit_at : (b : List ℕ) (o i k : ℕ) → o ≡ i * 64 + k → k < 64 → digit b o ≡ bit (get_or b i 0) k
digit_at b o i k e h =
    bit_cong (get_or b (o / 64) 0) (get_or b i 0) (o % 64) k
      (ap (λ (j : ℕ). get_or b j 0) (omega arith)) (omega arith)

module _ (ws bs : ℕ) where
  pub length-move_words : (n : ℕ) (b : List ℕ) → length (move_words ws bs n b) ≡ length b
  unfolding move_words
  length-move_words zero b = refl
  length-move_words (suc n) b =
      length-move_words n (set b n (moved_word b ws bs n)) ∙ length-set b n (moved_word b ws bs n)

  moved_word-set :
      (b : List ℕ) (n v j : ℕ) → j < n → moved_word (set b n v) ws bs j ≡ moved_word b ws bs j
  unfolding moved_word
  moved_word-set b n v j h =
      rw
        (
          get_or-set_ne b n (j - ws) v 0 (omega arith),
          get_or-set_ne b n (j - ws - 1) v 0 (omega arith),
        )
        refl

  -- The loop runs down and reads at or below where it writes: it reads the old words.
  pub get_or-move_words :
      (n : ℕ) (b : List ℕ) (j : ℕ)
      → n ≤ length b
      → get_or (move_words ws bs n b) j 0 ≡ (if ltb j n then moved_word b ws bs j else get_or b j 0)
  unfolding move_words
  get_or-move_words zero b j h = ground arith
  get_or-move_words (suc n) b j h =
      let v = moved_word b ws bs n in
      ground (
        arith,
        get_or-move_words n (set b n v) j,
        length-set b n v,
        moved_word-set b n v j,
        get_or-set_self b n v 0,
        get_or-set_ne b n j v 0,
      )

  pub moved_word-IsWord : (b : List ℕ) (i : ℕ) → AreWords b → IsWord (moved_word b ws bs i)
  unfolding moved_word
  moved_word-IsWord b i h k l = ground (
    arith,
    zero-bit k,
    mod-IsWord (get_or b (i - ws) 0 * 2 ^ bs) k l,
    bit-bit_or (get_or b (i - ws) 0 * 2 ^ bs % u64_mod) (get_or b (i - ws - 1) 0 / 2 ^ (64 - bs)) k,
    shr-IsWord (get_or b (i - ws - 1) 0) (64 - bs) (h (i - ws - 1)) k l,
  )

  -- A moved word holds the digits that stood `64 * ws + bs` below.
  pub bit-moved_word :
      (b : List ℕ) (i k : ℕ)
      → AreWords b
      → bs < 64
      → k < 64
      → bit (moved_word b ws bs i) k
        ≡ (if ltb (i * 64 + k) (ws * 64 + bs) then 0 else digit b (i * 64 + k - (ws * 64 + bs)))
  unfolding moved_word
  bit-moved_word b i k v h l =
      let x = get_or b (i - ws) 0 in
      let y = get_or b (i - ws - 1) 0 in
      let o = i * 64 + k - (ws * 64 + bs) in
      ground (
        arith,
        zero-bit k,
        bit-mod 64 (x * 2 ^ bs) k l,
        bit-shl bs x k,
        bit-bit_or (x * 2 ^ bs % u64_mod) (y / 2 ^ (64 - bs)) k,
        bit-shr (64 - bs) y k,
        v (i - ws - 1) (64 - bs + k),
        digit_at b o (i - ws) (k - bs),
        digit_at b o (i - ws - 1) (64 - bs + k),
      )

pub length-clear_words : (n : ℕ) (b : List ℕ) → length (clear_words n b) ≡ length b
unfolding clear_words
length-clear_words zero b = refl
length-clear_words (suc n) b = length-clear_words n (set b n 0) ∙ length-set b n 0

pub get_or-clear_words :
    (n : ℕ) (b : List ℕ) (j : ℕ)
    → n ≤ length b
    → get_or (clear_words n b) j 0 ≡ (if ltb j n then 0 else get_or b j 0)
unfolding clear_words
get_or-clear_words zero b j h = ground arith
get_or-clear_words (suc n) b j h = ground (
  arith,
  get_or-clear_words n (set b n 0) j,
  length-set b n 0,
  get_or-set_self b n 0 0,
  get_or-set_ne b n j 0 0,
)
