-- ===== src/Wire/Buf.antt =====
-- The `Buf` and `BufMut` traits of the `bytes` crate, as the wire code uses them. A buffer is its
-- list of bytes; a write gives the bytes that it appends, a read gives its value and what is left,
-- and no value stands for the panic that the crate documents. The laws are the documented
-- behaviour: integers are written big-endian, and a read that finds its bytes takes them.
use wzp.Common.{
  ℕ, ◌+◌, ◌*◌, ◌/◌, ◌%◌, ◌≤◌, ◌<◌, ◌≡◌, ◌∙◌, ap, List, [], ◌∷◌, ◌++◌, Option, none, some, arith,
  length, drop, take, ◌-◌, ◌&&◌, refl, leb, if◌then◌else◌,
}
use wzp.Common.Words.{u16_mod, u32_mod}

-- One of the crate's buffers: its operations and what its documentation says of them.
pub record ByteBuf : Type 0 where
  pub put_u8 : ℕ → List ℕ
  pub put_u16 : ℕ → List ℕ
  pub put_u32 : ℕ → List ℕ
  pub get_u8 : List ℕ → Option (ℕ × List ℕ)
  pub get_u16 : List ℕ → Option (ℕ × List ℕ)
  pub get_u32 : List ℕ → Option (ℕ × List ℕ)
  pub advance : ℕ → List ℕ → Option (List ℕ)
  pub slice : ℕ → ℕ → List ℕ → Option (List ℕ)
  pub put_u8_bytes : (v : ℕ) → v < 256 → put_u8 v ≡ v ∷ []
  pub put_u16_bytes : (v : ℕ) → v < u16_mod → put_u16 v ≡ v / 256 ∷ v % 256 ∷ []
  pub put_u32_bytes :
      (v : ℕ)
      → v < u32_mod
      → put_u32 v ≡ v / 16777216 ∷ v / 65536 % 256 ∷ v / 256 % 256 ∷ v % 256 ∷ []
  pub get_u8_takes : (a : ℕ) (r : List ℕ) → get_u8 (a ∷ r) ≡ some (a, r)
  pub get_u16_takes : (a b : ℕ) (r : List ℕ) → get_u16 (a ∷ b ∷ r) ≡ some (a * 256 + b, r)
  pub get_u32_takes :
      (a b c d : ℕ) (r : List ℕ)
      → get_u32 (a ∷ b ∷ c ∷ d ∷ r) ≡ some (a * 16777216 + b * 65536 + c * 256 + d, r)
  pub advance_drops : (n : ℕ) (r : List ℕ) → n ≤ length r → advance n r ≡ some (drop n r)
  pub slice_takes :
      (a b : ℕ) (r : List ℕ) → a ≤ b → b ≤ length r → slice a b r ≡ some (take (b - a) (drop a r))

module _ (w : ByteBuf) where
  open w use {
    put_u8, put_u16, put_u32, get_u8, get_u16, get_u32, put_u8_bytes, put_u16_bytes, put_u32_bytes,
    get_u8_takes, get_u16_takes, get_u32_takes,
  }

  -- What was written is read back, whatever follows.
  pub get_u8-put_u8 : (v : ℕ) (r : List ℕ) → v < 256 → get_u8 (put_u8 v ++ r) ≡ some (v, r)
  get_u8-put_u8 v r h = ap (λ b. get_u8 (b ++ r)) (put_u8_bytes v h) ∙ get_u8_takes v r

  pub get_u16-put_u16 : (v : ℕ) (r : List ℕ) → v < u16_mod → get_u16 (put_u16 v ++ r) ≡ some (v, r)
  get_u16-put_u16 v r h =
      ap (λ b. get_u16 (b ++ r)) (put_u16_bytes v h)
      ∙ get_u16_takes (v / 256) (v % 256) r
      ∙ ap {B = Option (ℕ × List ℕ)} (λ k. some (k, r)) (omega arith)

  pub get_u32-put_u32 : (v : ℕ) (r : List ℕ) → v < u32_mod → get_u32 (put_u32 v ++ r) ≡ some (v, r)
  get_u32-put_u32 v r h =
      ap (λ b. get_u32 (b ++ r)) (put_u32_bytes v h)
      ∙ get_u32_takes (v / 16777216) (v / 65536 % 256) (v / 256 % 256) (v % 256) r
      ∙ ap {B = Option (ℕ × List ℕ)} (λ k. some (k, r)) (omega arith)

  pub length-put_u8 : (v : ℕ) → v < 256 → length (put_u8 v) ≡ 1
  length-put_u8 v h = rw (put_u8_bytes v h)

  pub length-put_u16 : (v : ℕ) → v < u16_mod → length (put_u16 v) ≡ 2
  length-put_u16 v h = rw (put_u16_bytes v h)

  pub length-put_u32 : (v : ℕ) → v < u32_mod → length (put_u32 v) ≡ 4
  length-put_u32 v h = rw (put_u32_bytes v h)

-- The crate's behaviour as functions: the laws can be met.
abbrev read_u8 : List ℕ → Option (ℕ × List ℕ)
read_u8 [] = none
read_u8 (a ∷ r) = some (a, r)

abbrev read_u16 : List ℕ → Option (ℕ × List ℕ)
read_u16 (a ∷ b ∷ r) = some (a * 256 + b, r)
read_u16 _ = none

abbrev read_u32 : List ℕ → Option (ℕ × List ℕ)
read_u32 (a ∷ b ∷ c ∷ d ∷ r) = some (a * 16777216 + b * 65536 + c * 256 + d, r)
read_u32 _ = none

abbrev skip : ℕ → List ℕ → Option (List ℕ)
skip n r = if leb n (length r) then some (drop n r) else none

pub skip_drops : (n : ℕ) (r : List ℕ) → n ≤ length r → skip n r ≡ some (drop n r)
skip_drops n r h = ground arith

abbrev cut : ℕ → ℕ → List ℕ → Option (List ℕ)
cut a b r = if leb a b && leb b (length r) then some (take (b - a) (drop a r)) else none

pub cut_takes :
    (a b : ℕ) (r : List ℕ) → a ≤ b → b ≤ length r → cut a b r ≡ some (take (b - a) (drop a r))
cut_takes a b r h k = ground arith

abbrev pub big_endian : ByteBuf
big_endian = record {
  put_u8 = λ v. v ∷ [];
  put_u16 = λ v. v / 256 ∷ v % 256 ∷ [];
  put_u32 = λ v. v / 16777216 ∷ v / 65536 % 256 ∷ v / 256 % 256 ∷ v % 256 ∷ [];
  get_u8 = read_u8;
  get_u16 = read_u16;
  get_u32 = read_u32;
  advance = skip;
  slice = cut;
  put_u8_bytes = λ v h. refl;
  put_u16_bytes = λ v h. refl;
  put_u32_bytes = λ v h. refl;
  get_u8_takes = λ a r. refl;
  get_u16_takes = λ a b r. refl;
  get_u32_takes = λ a b c d r. refl;
  advance_drops = skip_drops;
  slice_takes = cut_takes;
}
