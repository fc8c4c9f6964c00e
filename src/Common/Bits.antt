-- ===== src/Common/Bits.antt =====
-- The binary digits of a number, and what shifts, masks and the bit operations do to them.
use Prim.Native.Nat.{digits, bit_and-bitwise, bit_or-bitwise, bit_xor-bitwise, differ}
use Prim.Native.Nat.add
use native.Mathlib.Nat.{
  pow-succ', div-div-eq-div-mul, add-mul-mod_self_left, mod-eq_of_lt, mod-lt, div-add-mod,
  one-le-pow,
}
use wzp.Common.{
  ℕ, zero, suc, ◌+◌, ◌-◌, ◌*◌, ◌/◌, ◌%◌, ◌^◌, ◌≤◌, ◌<◌, ◌≡◌, refl, sym, ap, ap₂, ◌∙◌, min, max,
  bit_and, bit_or, bit_xor, arith, ltb, ◌==◌, if◌then◌else◌,
}

-- Digit `k` of `w`, the lowest first.
unfoldable pub bit : ℕ → ℕ → ℕ
bit w zero = w % 2
bit w (suc k) = bit (w / 2) k

pub bit-lt : (w k : ℕ) → bit w k < 2
unfolding bit
bit-lt w zero = omega arith
bit-lt w (suc k) = bit-lt (w / 2) k

pub zero-bit : (k : ℕ) → bit 0 k ≡ 0
unfolding bit
zero-bit zero = refl
zero-bit (suc k) = zero-bit k

-- A bit operation that works digit by digit, with `z` for what is left of the second number.
module _ (z : ℕ → ℕ) (f : ℕ → ℕ → ℕ) (z_law : (b k : ℕ) → bit (z b) k ≡ f 0 (bit b k))
    (f_small : (a b : ℕ) → a < 2 → b < 2 → f a b < 2) where
  bit-digits : (n a b k : ℕ) → a ≤ n → bit (digits z f n a b) k ≡ f (bit a k) (bit b k)
  unfolding bit
  bit-digits zero zero b k h = z_law b k ∙ ap (λ d. f d (bit b k)) (sym (zero-bit k))
  bit-digits zero (suc a) b k h = absurd (omega arith)
  bit-digits (suc n) zero b k h = z_law b k ∙ ap (λ d. f d (bit b k)) (sym (zero-bit k))
  bit-digits (suc n) (suc a) b zero h =
      let s = f_small (suc a % 2) (b % 2) (omega arith) (omega arith) in omega arith
  bit-digits (suc n) (suc a) b (suc k) h =
      let s = f_small (suc a % 2) (b % 2) (omega arith) (omega arith) in
      let d = digits z f n (suc a / 2) (b / 2) in
      let e : (d * 2 + f (suc a % 2) (b % 2)) / 2 ≡ d = omega arith in
      ap (λ x. bit x k) e ∙ bit-digits n (suc a / 2) (b / 2) k (omega arith)

pub bit-bit_or : (a b k : ℕ) → bit (bit_or a b) k ≡ max (bit a k) (bit b k)
bit-bit_or a b k =
    ap (λ x. bit x k) (bit_or-bitwise a b)
    ∙ bit-digits (λ y. y) max (λ y j. omega arith) (λ x y h g. omega arith) a a b k (omega arith)

pub bit-bit_and : (a b k : ℕ) → bit (bit_and a b) k ≡ min (bit a k) (bit b k)
bit-bit_and a b k =
    ap (λ x. bit x k) (bit_and-bitwise a b)
    ∙ bit-digits (λ y. 0) min (λ y j. omega (arith, zero-bit j)) (λ x y h g. omega arith) a a b k
        (omega arith)

differ_small : (c d : ℕ) → c < 2 → d < 2 → differ c d < 2
differ_small zero d h g = g
differ_small (suc c) zero h g = h
differ_small (suc c) (suc d) h g = differ_small c d (omega arith) (omega arith)

pub bit-bit_xor : (a b k : ℕ) → bit (bit_xor a b) k ≡ differ (bit a k) (bit b k)
bit-bit_xor a b k =
    ap (λ x. bit x k) (bit_xor-bitwise a b)
    ∙ bit-digits (λ y. y) differ (λ y j. refl) differ_small a a b k (omega arith)

-- Two digits that differ twice in the same way are the first one.
pub differ_again : (c d : ℕ) → c < 2 → d < 2 → differ (differ c d) d ≡ c
differ_again zero zero h g = refl
differ_again zero (suc zero) h g = refl
differ_again (suc zero) zero h g = refl
differ_again (suc zero) (suc zero) h g = refl
differ_again c (suc (suc d)) h g = absurd (omega arith)
differ_again (suc (suc c)) d h g = absurd (omega arith)

pub bit_cong : (a b k j : ℕ) → a ≡ b → k ≡ j → bit a k ≡ bit b j
bit_cong a b k j p q = ap₂ bit p q

pub two_pow_pos : (n : ℕ) → 0 < 2 ^ n
two_pow_pos n = one-le-pow n 2 (omega arith)

-- `w >> s`
pub bit-shr : (s w k : ℕ) → bit (w / 2 ^ s) k ≡ bit w (s + k)
unfolding bit
bit-shr zero w k = bit_cong (w / 1) w k (0 + k) (omega arith) (omega arith)
bit-shr (suc s) w k =
    bit_cong (w / 2 ^ suc s) (w / 2 / 2 ^ s) k k
      (ap (λ d. w / d) (pow-succ' 2 s) ∙ sym (div-div-eq-div-mul w 2 (2 ^ s))) refl
    ∙ bit-shr s (w / 2) k
    ∙ bit_cong w w (suc (s + k)) (suc s + k) refl (omega arith)

double_pow : (w s : ℕ) → w * 2 ^ suc s ≡ 2 * (w * 2 ^ s)
double_pow w s = omega (arith, ap (λ (t : ℕ). w * t) (pow-succ' 2 s))

-- `w << s`, before it is cut to the word
pub bit-shl : (s w k : ℕ) → bit (w * 2 ^ s) k ≡ (if ltb k s then 0 else bit w (k - s))
unfolding bit
bit-shl zero w k = bit_cong (w * 1) w k (k - 0) (omega arith) (omega arith) ∙ ground arith
bit-shl (suc s) w zero = ground (arith, double_pow w s)
bit-shl (suc s) w (suc k) =
    bit_cong (w * 2 ^ suc s / 2) (w * 2 ^ s) k k (omega (arith, double_pow w s)) refl
    ∙ bit-shl s w k
    ∙ ground (arith)

mod_double : (w m : ℕ) → 0 < m → w % (2 * m) ≡ 2 * (w / 2 % m) + w % 2
mod_double w m h =
    let q = w / 2 / m in
    let r = w / 2 % m in
    let l = mod-lt (w / 2) h in
    ap (λ x. x % (2 * m)) split
    ∙ add-mul-mod_self_left (2 * r + w % 2) (2 * m) q
    ∙ mod-eq_of_lt (omega (arith, l))
  where
    split : w ≡ 2 * (w / 2 % m) + w % 2 + 2 * m * (w / 2 / m)
    split = omega (arith, div-add-mod (w / 2) m)

-- Cutting to `n` bits keeps the lower digits.
pub bit-mod : (n w k : ℕ) → k < n → bit (w % 2 ^ n) k ≡ bit w k
unfolding bit
bit-mod zero w k h = absurd (omega arith)
bit-mod (suc n) w zero h = rw (pow-succ' 2 n) (omega (arith, mod_double w (2 ^ n) (two_pow_pos n)))
bit-mod (suc n) w (suc k) h = rw (pow-succ' 2 n) (
    bit_cong (w % (2 * 2 ^ n) / 2) (w / 2 % 2 ^ n) k k
      (omega (arith, mod_double w (2 ^ n) (two_pow_pos n))) refl
    ∙ bit-mod n (w / 2) k (omega arith))

-- `2 ^ n - 1` has ones below `n`.
pub bit-ones : (n k : ℕ) → k < n → bit (2 ^ n - 1) k ≡ 1
unfolding bit
bit-ones zero k h = absurd (omega arith)
bit-ones (suc n) zero h = omega (arith, pow-succ' 2 n, two_pow_pos n)
bit-ones (suc n) (suc k) h =
    bit_cong ((2 ^ suc n - 1) / 2) (2 ^ n - 1) k k (omega (arith, pow-succ' 2 n, two_pow_pos n))
      refl
    ∙ bit-ones n k (omega arith)

-- `w & 1` is the lowest digit.
digits-zero : (n a : ℕ) → digits (λ b. 0) min n a 0 ≡ 0
digits-zero zero a = refl
digits-zero (suc n) zero = refl
digits-zero (suc n) (suc a) = omega (arith, digits-zero n (suc a / 2))

pub bit_and-one : (w : ℕ) → bit_and w 1 ≡ bit w 0
unfolding bit
bit_and-one zero = refl
bit_and-one (suc w) = bit_and-bitwise (suc w) 1 ∙ omega (arith, digits-zero w (suc w / 2))

-- A number with no digit from 64 on: what a u64 holds.
abbrev pub IsWord : ℕ → Type 0
IsWord w = (k : ℕ) → 64 ≤ k → bit w k ≡ 0

pub bit-mod_high : (n w k : ℕ) → n ≤ k → bit (w % 2 ^ n) k ≡ 0
unfolding bit
bit-mod_high zero w k h = bit_cong (w % 1) 0 k k (omega arith) refl ∙ zero-bit k
bit-mod_high (suc n) w zero h = absurd (omega arith)
bit-mod_high (suc n) w (suc k) h = rw (pow-succ' 2 n) (
    bit_cong (w % (2 * 2 ^ n) / 2) (w / 2 % 2 ^ n) k k
      (omega (arith, mod_double w (2 ^ n) (two_pow_pos n))) refl
    ∙ bit-mod_high n (w / 2) k (omega arith))

pub zero-IsWord : IsWord 0
zero-IsWord k h = zero-bit k

pub bit_or-IsWord : (a b : ℕ) → IsWord a → IsWord b → IsWord (bit_or a b)
bit_or-IsWord a b p q k h = omega (arith, bit-bit_or a b k, p k h, q k h)

pub bit_and-IsWord : (a b : ℕ) → IsWord a → IsWord (bit_and a b)
bit_and-IsWord a b p k h = omega (arith, bit-bit_and a b k, p k h)

pub mod-IsWord : (w : ℕ) → IsWord (w % 2 ^ 64)
mod-IsWord w k h = bit-mod_high 64 w k h

pub shr-IsWord : (w s : ℕ) → IsWord w → IsWord (w / 2 ^ s)
shr-IsWord w s p k h = bit-shr s w k ∙ p (s + k) (omega arith)

pub pow_add : (s n : ℕ) → 2 ^ (s + n) ≡ 2 ^ n * 2 ^ s
pow_add zero n = rw (add.zero n) (omega arith)
pow_add (suc s) n = rw (add.suc s n, pow-succ' 2 (s + n), pow_add s n, pow-succ' 2 s) (omega arith)

two_le_pow : (n : ℕ) → 2 ≤ 2 ^ suc n
two_le_pow n = omega (arith, pow-succ' 2 n, two_pow_pos n)

pred_suc : (a : ℕ) → suc a - 1 ≡ a
pred_suc a = omega arith

pred_mul : (a b : ℕ) → 0 < a → (a - 1) * b + b ≡ a * b
pred_mul zero b h = absurd (omega arith)
pred_mul (suc a) b h = ap (λ (t : ℕ). t * b + b) (pred_suc a) ∙ omega arith

mask_sub : (m b p : ℕ) → p + b ≡ m → 0 < b → m - 1 - (b - 1) ≡ p
mask_sub m b p e h = omega arith

mask_product : (m a b : ℕ) → m ≡ a * b → 2 ≤ a → 0 < b → m - 1 - (1 * b % m - 1) ≡ (a - 1) * b
mask_product m a b e h g =
    let l : b < m = grind arith in
    let r : 1 * b % m ≡ b = ap (λ (t : ℕ). t % m) (omega arith) ∙ mod-eq_of_lt l in
    rw r (mask_sub m b ((a - 1) * b) (pred_mul a b (omega arith) ∙ sym e) g)

split_64 : (s n : ℕ) → s + n ≡ 64 → 2 ^ 64 ≡ 2 ^ n * 2 ^ s
split_64 s n e = ap (λ (t : ℕ). 2 ^ t) (sym e) ∙ pow_add s n

-- The ones from `s` up to the end of the word: `!((1 << s) - 1)`.
high_ones :
    (s : ℕ) → s < 64 → 2 ^ 64 - 1 - (1 * 2 ^ s % 2 ^ 64 - 1) ≡ (2 ^ suc (63 - s) - 1) * 2 ^ s
high_ones s h =
    mask_product (2 ^ 64) (2 ^ suc (63 - s)) (2 ^ s) (split_64 s (suc (63 - s)) (omega arith))
      (two_le_pow (63 - s)) (two_pow_pos s)

pub bit-high_mask :
    (s k : ℕ) → s < 64 → s ≤ k → k < 64 → bit (2 ^ 64 - 1 - (1 * 2 ^ s % 2 ^ 64 - 1)) k ≡ 1
bit-high_mask s k h g l =
    rw (high_ones s h)
      (ground (arith, bit-shl s (2 ^ suc (63 - s) - 1) k, bit-ones (suc (63 - s)) (k - s)))

pub one-bit : (k : ℕ) → bit 1 k ≡ (if k == 0 then 1 else 0)
unfolding bit
one-bit zero = refl
one-bit (suc k) = zero-bit k ∙ ground arith
