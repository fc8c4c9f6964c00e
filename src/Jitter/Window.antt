-- ===== src/Jitter/Window.antt =====
-- The numbers of a window, in their order from its base on.
use wzp.Common.{
  ℕ, ◌≤◌, ◌<◌, ◌≡◌, ◌≢◌, ◌⊎◌, refl, List, [], ◌∷◌, ◌++◌, Option, none, some, arith, ◌==◌,
  if◌then◌else◌, ltb, Bool-cases, inl, inr, subst,
}
use wzp.Common.Words.{u32_mod, sub32}
use wzp.Wire.Packet.{MediaPacket}
use wzp.Jitter.{seq_before}

-- The first of the packets with a number.
unfoldable pub find : ℕ → List MediaPacket → Option MediaPacket
find k [] = none
find k (p ∷ ps) = if p.header.seq == k then some p else find k ps

-- The one of two numbers that comes first from a base on, round the end of the range.
unfoldable pub earlier : ℕ → ℕ → ℕ → ℕ
earlier base a b = if ltb (sub32 b base) (sub32 a base) then b else a

unfoldable pub lowest_from : ℕ → ℕ → List MediaPacket → ℕ
lowest_from base n [] = n
lowest_from base n (p ∷ ps) = lowest_from base (earlier base n p.header.seq) ps

abbrev pub lowest : ℕ → List MediaPacket → ℕ
lowest base [] = 0
lowest base (p ∷ ps) = lowest_from base p.header.seq ps

-- A number in a window of half the range of `seq_before`, round the end of the range.
abbrev pub Near : ℕ → ℕ → Type 0
Near base n = (n < u32_mod) × (sub32 n base < 0x8000)

pub find-append :
    (k : ℕ) (ps : List MediaPacket) (p : MediaPacket)
    → find k (ps ++ (p ∷ []))
      ≡ (elim (find k ps) [ none ↦ (if p.header.seq == k then some p else none) | some q ↦ some q ])
unfolding find
find-append k [] p = ground arith
find-append k (q ∷ ps) p = ground (arith, find-append k ps p)

le_trans : {a b c : ℕ} → a ≤ b → b ≤ c → a ≤ c
le_trans h g = omega (arith, h, g)

pub lowest_from-append :
    (base n : ℕ) (ps : List MediaPacket) (p : MediaPacket)
    → lowest_from base n (ps ++ (p ∷ [])) ≡ earlier base (lowest_from base n ps) p.header.seq
unfolding lowest_from
lowest_from-append base n [] p = refl
lowest_from-append base n (q ∷ ps) p = lowest_from-append base (earlier base n q.header.seq) ps p

earlier-le :
    (base a b : ℕ)
    → (sub32 (earlier base a b) base ≤ sub32 a base)
      × (sub32 (earlier base a b) base ≤ sub32 b base)
unfolding earlier
earlier-le base a b = elim (Bool-cases (ltb (sub32 b base) (sub32 a base))) [
  | inl e ↦ rw e (ground (arith, e), omega arith)
  | inr e ↦ rw e (omega arith, ground (arith, e))
]

lowest_from-le :
    (base n : ℕ) (ps : List MediaPacket) → sub32 (lowest_from base n ps) base ≤ sub32 n base
unfolding lowest_from
lowest_from-le base n [] = omega arith
lowest_from-le base n (q ∷ ps) =
    let rest = lowest_from-le base (earlier base n q.header.seq) ps in
    let here = (earlier-le base n q.header.seq).0 in le_trans rest here

pub find-lowest_from :
    (base n k : ℕ) (ps : List MediaPacket) (q : MediaPacket)
    → find k ps ≡ some q
    → sub32 (lowest_from base n ps) base ≤ sub32 k base
unfolding find lowest_from
find-lowest_from base n k [] q e = absurd (ground (arith, e))
find-lowest_from base n k (p ∷ ps) q e = elim (Bool-cases (p.header.seq == k)) [
  | inl a ↦
      let same : p.header.seq ≡ k = ground (arith, a) in
      let here : sub32 (earlier base n p.header.seq) base ≤ sub32 k base =
        subst (λ j. sub32 (earlier base n p.header.seq) base ≤ sub32 j base) same
          (earlier-le base n p.header.seq).1 in
      le_trans (lowest_from-le base (earlier base n p.header.seq) ps) here
  | inr a ↦ find-lowest_from base (earlier base n p.header.seq) k ps q (rw a at e)
]

-- The order of `seq_before` within a window is the order from its base on.
before-offset :
    (base a b : ℕ)
    → base < u32_mod
    → Near base a
    → Near base b
    → seq_before a b ≡ ltb (sub32 a base) (sub32 b base)
before-offset base a b h (x, x') (y, y') = ground (arith, h, x, x', y, y')

pub start_next :
    (base a b : ℕ)
    → base < u32_mod
    → Near base b
    → Near base a
    → (if seq_before b a then b else a) ≡ earlier base a b
unfolding earlier
start_next base a b h x y = rw (before-offset base b a h x y) refl

pub earlier-Near : (base a b : ℕ) → Near base a → Near base b → Near base (earlier base a b)
unfolding earlier
earlier-Near base a b x y = elim (Bool-cases (ltb (sub32 b base) (sub32 a base))) [
  | inl e ↦ rw e y
  | inr e ↦ rw e x
]

pub earlier_same : (base a b : ℕ) → sub32 a base ≤ sub32 b base → earlier base a b ≡ a
unfolding earlier
earlier_same base a b h = ground (arith, h)

earlier-either : (base a b : ℕ) → (earlier base a b ≡ a) ⊎ (earlier base a b ≡ b)
unfolding earlier
earlier-either base a b = elim (Bool-cases (ltb (sub32 b base) (sub32 a base))) [
  | inl e ↦ inr (rw e refl)
  | inr e ↦ inl (rw e refl)
]

found_lowest :
    (base n : ℕ) (ps : List MediaPacket)
    → lowest_from base n ps ≢ n
    → find (lowest_from base n ps) ps ≢ none
unfolding find lowest_from
found_lowest base n [] h e = h refl
found_lowest base n (q ∷ ps) h e = ground (
  arith,
  e,
  h,
  earlier-either base n q.header.seq,
  found_lowest base (earlier base n q.header.seq) ps,
)

pub lowest-found :
    (base : ℕ) (p : MediaPacket) (ps : List MediaPacket)
    → find (lowest base (p ∷ ps)) (p ∷ ps) ≢ none
unfolding find
lowest-found base p ps e = ground (arith, e, found_lowest base p.header.seq ps)
