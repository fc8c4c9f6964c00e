-- ===== src/Common/BitSums.antt =====
-- When a bitwise or is a sum, a mask that is taken twice, and small masks as arithmetic.
use Prim.Native.Nat.{differ}
use native.Mathlib.Nat.{pow-succ', mod-eq_of_lt}
use wzp.Common.{
  ℕ, zero, suc, ◌+◌, ◌-◌, ◌*◌, ◌/◌, ◌%◌, ◌^◌, ◌≤◌, ◌<◌, ◌≡◌, sym, ap, ap₂, ◌∙◌, max, bit_and,
  bit_or, bit_xor, arith, Bool, true, ◌&&◌, ltb, Bool-cases, inl, inr,
}
use wzp.Common.Bits.{
  bit, zero-bit, bit-bit_or, bit-bit_xor, differ_again, two_pow_pos, bit-bit_and, bit-mod, bit-ones,
  bit-lt, bit-mod_high,
}

-- Numbers with the same digits are the same.
pub bit_ext : (n x y : ℕ) → x ≤ n → y ≤ n → ((k : ℕ) → bit x k ≡ bit y k) → x ≡ y
unfolding bit
bit_ext zero x y h l e = omega arith
bit_ext (suc n) x y h l e =
    let low = e 0 in
    let high = bit_ext n (x / 2) (y / 2) (omega arith) (omega arith) (λ k. e (suc k)) in omega arith

bit_or-half : (a b : ℕ) → bit_or a b / 2 ≡ bit_or (a / 2) (b / 2)
unfolding bit
bit_or-half a b =
    bit_ext (bit_or a b / 2 + bit_or (a / 2) (b / 2)) _ _ (omega arith) (omega arith)
      (λ k. bit-bit_or a b (suc k) ∙ sym (bit-bit_or (a / 2) (b / 2) k))

bit_or-low : (a b : ℕ) → bit_or a b % 2 ≡ max (a % 2) (b % 2)
unfolding bit
bit_or-low a b = bit-bit_or a b 0

zero-bit_or : (b : ℕ) → bit_or 0 b ≡ b
zero-bit_or b =
    bit_ext (bit_or 0 b + b) _ _ (omega arith) (omega arith)
      (λ k. bit-bit_or 0 b k ∙ omega (arith, zero-bit k))

-- Bits that lie apart: the or is the sum.
pub bit_or-shifted : (s a b : ℕ) → a < 2 ^ s → bit_or a (b * 2 ^ s) ≡ a + b * 2 ^ s
bit_or-shifted zero a b h =
    let none : a ≡ 0 = omega arith in
    let one : b * 2 ^ 0 ≡ b = omega arith in
    ap₂ bit_or none one ∙ zero-bit_or b ∙ omega (arith, none, one)
bit_or-shifted (suc s) a b h =
    let t = b * 2 ^ suc s in
    let double : t ≡ b * 2 ^ s * 2 = omega (arith, ap (λ x. b * x) (pow-succ' 2 s)) in
    let half : bit_or (a / 2) (t / 2) ≡ bit_or (a / 2) (b * 2 ^ s) =
      ap (bit_or (a / 2)) (omega (arith, double)) in
    omega (
      arith,
      double,
      half,
      bit_or-half a t,
      bit_or-low a t,
      bit_or-shifted s (a / 2) b (omega (arith, h, pow-succ' 2 s)),
    )

-- A mask of ones is a remainder.
pub bit_and-ones : (n v : ℕ) → bit_and v (2 ^ n - 1) ≡ v % 2 ^ n
bit_and-ones n v = bit_ext (bit_and v (2 ^ n - 1) + v % 2 ^ n) _ _ (omega arith) (omega arith) digit
  where
    ones : 2 ^ n - 1 ≡ (2 ^ n - 1) % 2 ^ n
    ones = sym (mod-eq_of_lt (omega (arith, two_pow_pos n)))

    digit : (k : ℕ) → bit (bit_and v (2 ^ n - 1)) k ≡ bit (v % 2 ^ n) k
    digit k = elim (Bool-cases (ltb k n)) [
      | inl e ↦ ground (arith, bit-bit_and v (2 ^ n - 1) k, bit-mod n v k, bit-ones n k, bit-lt v k)
      | inr e ↦
          let none : bit (2 ^ n - 1) k ≡ 0 =
            ap (λ x. bit x k) ones ∙ bit-mod_high n (2 ^ n - 1) k (ground (arith, e)) in
          ground (arith, bit-bit_and v (2 ^ n - 1) k, bit-mod_high n v k, none)
    ]

-- What holds of every number below a bound, by evaluation.
unfoldable pub all_below : ℕ → (ℕ → Bool) → Bool
all_below zero p = true
all_below (suc n) p = p n && all_below n p

pub all_below_holds : (n : ℕ) (p : ℕ → Bool) (x : ℕ) → all_below n p ≡ true → x < n → p x ≡ true
unfolding all_below
all_below_holds zero p x h l = absurd (omega arith)
all_below_holds (suc n) p x h l = ground (arith, all_below_holds n p x)

-- The same mask twice takes itself away.
pub bit_xor-again : (a c : ℕ) → bit_xor (bit_xor a c) c ≡ a
bit_xor-again a c =
    bit_ext (bit_xor (bit_xor a c) c + a) (bit_xor (bit_xor a c) c) a (omega arith) (omega arith)
      (λ k.
        bit-bit_xor (bit_xor a c) c k
        ∙ (ap (λ d. differ d (bit c k)) (bit-bit_xor a c k)
            ∙ differ_again (bit a k) (bit c k) (bit-lt a k) (bit-lt c k)))
