-- ===== src/Video/Av1/Leb128.antt =====
-- LEB128: what is written is read back.
use native.Mathlib.Nat.{div-add-mod, add-mul, mul_assoc, mul-le-mul_right, mul-lt-mul_of_pos_right}
use wzp.Common.{
  ℕ, zero, suc, ◌+◌, ◌-◌, ◌*◌, ◌/◌, ◌%◌, ◌^◌, ◌≤◌, ◌<◌, ◌≡◌, refl, sym, ap, ◌∙◌, ap₂, subst, Bool,
  true, ◌&&◌, not, List, ◌∷◌, ◌++◌, some, arith, bit_and, bit_or, leb, ◌==◌, length, Bool-cases,
  inl, inr,
}
use wzp.Common.Words.{u64_mod}
use wzp.Common.Bits.{pow_add, two_pow_pos}
use wzp.Common.BitSums.{bit_and-ones, bit_or-shifted, all_below, all_below_holds}
use wzp.Video.Av1.{read_loop, read_leb128, write_loop, write_leb128}

-- The masks of LEB128 on a byte.
abbrev mask_test : ℕ → Bool
mask_test g =
    (bit_and g 0x7F == g)
    && ((bit_and g 0x80 == 0)
        && ((bit_and (bit_or g 0x80) 0x7F == g) && not (bit_and (bit_or g 0x80) 0x80 == 0)))

masks : (g : ℕ) → g < 128 → mask_test g ≡ true
unfolding all_below
masks g h = all_below_holds 128 mask_test g refl h

pub low_seven : (v : ℕ) → bit_and v 0x7F ≡ v % 128
low_seven v = bit_and-ones 7 v

small_pow : (w : ℕ) → w < 8 → leb (2 ^ w) 128 ≡ true
unfolding all_below
small_pow w h = all_below_holds 8 (λ x. leb (2 ^ x) 128) w refl h

scaled : (v w s : ℕ) → s + w ≡ 64 → v < 2 ^ w → v * 2 ^ s < u64_mod
scaled v w s e h =
    omega (arith, mul-lt-mul_of_pos_right h (two_pow_pos s), pow_add s w, ap (λ x. 2 ^ x) e)

-- A value of at most w bits takes less than w bits and seven, and what is above seven of them has
-- seven bits fewer.
wide : (v w : ℕ) → v < 2 ^ w → 128 ≤ v → 8 ≤ w
wide v w h l = ground (arith, small_pow w)

narrower : (v w : ℕ) → v < 2 ^ (7 + w) → v / 128 < 2 ^ w
narrower v w h = omega (arith, pow_add 7 w)

-- What a round adds to the sum of those before it.
summed :
    (acc g w s : ℕ)
    → s + w ≡ 64
    → acc < 2 ^ s
    → g < 2 ^ w
    → bit_or acc (g * 2 ^ s % u64_mod) ≡ acc + g * 2 ^ s
summed acc g w s e h l =
    let whole : g * 2 ^ s % u64_mod ≡ g * 2 ^ s = omega (arith, scaled g w s e l) in
    ap (bit_or acc) whole ∙ bit_or-shifted s acc g h

read_last :
    (g acc s n : ℕ) (r : List ℕ)
    → g < 128
    → read_loop (g ∷ r) acc s n ≡ some (bit_or acc (g * 2 ^ s % u64_mod), n + 1)
unfolding read_loop
read_last g acc s n r l = ground (arith, masks g l)

read_more :
    (g acc s n : ℕ) (r : List ℕ)
    → g < 128
    → s + 7 < 64
    → read_loop (bit_or g 0x80 ∷ r) acc s n
      ≡ read_loop r (bit_or acc (g * 2 ^ s % u64_mod)) (s + 7) (n + 1)
unfolding read_loop
read_more g acc s n r l h = ground (arith, masks g l)

-- The value behind a byte: seven bits and the rest of them.
parted : (acc v s : ℕ) → acc + v % 128 * 2 ^ s + v / 128 * 2 ^ (s + 7) ≡ acc + v * 2 ^ s
parted acc v s =
    let p = 2 ^ s in
    let whole : (128 * (v / 128) + v % 128) * p ≡ v * p = ap (λ x. x * p) (div-add-mod v 128) in
    let up : 2 ^ (s + 7) ≡ 128 * p = pow_add s 7 in
    let high : v / 128 * 2 ^ (s + 7) ≡ 128 * (v / 128) * p =
      ap (λ x. v / 128 * x) up ∙ sym (mul_assoc (v / 128) 128 p) ∙ ap (λ x. x * p) (omega arith) in
    omega (arith, high, whole, add-mul (128 * (v / 128)) (v % 128) p)

le_127 : (v : ℕ) → v % 128 ≤ 127
le_127 v = omega arith

bound_more : (acc v s : ℕ) → acc < 2 ^ s → acc + v % 128 * 2 ^ s < 2 ^ (s + 7)
bound_more acc v s h = omega (arith, pow_add s 7, mul-le-mul_right (2 ^ s) (le_127 v))

read_loop-write_loop :
    (fuel v acc w s n : ℕ) (r : List ℕ)
    → s + w ≡ 64
    → w ≤ 7 * fuel
    → 0 < w
    → acc < 2 ^ s
    → v < 2 ^ w
    → read_loop (write_loop fuel v ++ r) acc s n
      ≡ some (acc + v * 2 ^ s, n + length (write_loop fuel v))
unfolding write_loop
read_loop-write_loop zero v acc w s n r e hf pos ha hv = absurd (omega arith)
read_loop-write_loop (suc fuel) v acc w s n r e hf pos ha hv = elim (Bool-cases (v / 128 == 0)) [
  | inl t ↦
      let small : v < 128 = ground arith in
      let same : bit_and v 0x7F ≡ v = low_seven v ∙ omega arith in
      rw (t, same, read_last v acc s n r small, summed acc v w s e ha hv) refl
  | inr t ↦
      let large : 8 ≤ w = wide v w hv (ground arith) in
      let w' = w - 7 in
      let same : 7 + w' ≡ w = omega arith in
      let hv' : v / 128 < 2 ^ w' = narrower v w' (subst (λ x. v < 2 ^ x) (sym same) hv) in
      let g = v % 128 in
      let acc' = acc + g * 2 ^ s in
      let ih =
        read_loop-write_loop fuel (v / 128) acc' w' (s + 7) (n + 1) r (omega arith) (omega arith)
          (omega arith) (bound_more acc v s ha) hv' in
      let step = read_more g acc s n (write_loop fuel (v / 128) ++ r) (omega arith) (omega arith) in
      let sum : bit_or acc (g * 2 ^ s % u64_mod) ≡ acc' =
        summed acc g w s e ha (omega (arith, hv)) in
      rw (t, low_seven v, step, sum, ih, parted acc v s)
        (ap some (ap₂ (λ x y. (x, y)) refl (omega arith)))
]

-- What `write_leb128` writes of any 64-bit value, `read_leb128` reads back, at the head of any bytes, and
-- says how many bytes it took.
pub read_leb128-write_leb128 :
    (v : ℕ) (r : List ℕ)
    → v < u64_mod
    → read_leb128 (write_leb128 v ++ r) ≡ some (v, length (write_leb128 v))
unfolding read_leb128 write_leb128
read_leb128-write_leb128 v r h =
    read_loop-write_loop 10 v 0 64 0 0 r refl (omega arith) (omega arith) (omega arith) h
    ∙ ap₂ (λ x y. some (x, y)) (omega arith) (omega arith)

write_loop-length : (fuel v : ℕ) → 0 < fuel → 0 < length (write_loop fuel v)
unfolding write_loop
write_loop-length zero v h = absurd (omega arith)
write_loop-length (suc fuel) v h = ground arith

pub length-write_loop : (fuel v : ℕ) → length (write_loop fuel v) ≤ fuel
unfolding write_loop
length-write_loop zero v = omega arith
length-write_loop (suc fuel) v = ground (arith, length-write_loop fuel (v / 128))
