-- ===== src/Fec/Interleave.antt =====
-- crates/wzp-fec/src/interleave.rs: symbols of several blocks in round robin.
use wzp.Common.{
  ℕ, zero, suc, ◌+◌, ◌≤◌, ◌≡◌, refl, ap, ◌∙◌, Bool, List, [], ◌∷◌, ◌++◌, Option, none, some, arith,
  max, if◌then◌else◌, length, get_elem?,
}

-- `Symbol`
pub record Symbol : Type 0 where
  pub block_id : ℕ
  pub index : ℕ
  pub is_repair : Bool
  pub bytes : List ℕ

-- `Interleaver`
pub record Interleaver : Type 0 where
  pub depth : ℕ

abbrev pub with_default_depth : Interleaver
with_default_depth = record { depth = 3 }

abbrev pub Block : Type 0
Block = List Symbol

unfoldable pub max_len : List Block → ℕ
max_len [] = 0
max_len (b ∷ bs) = max (length b) (max_len bs)

-- `block[slot]`, if the block has that slot
abbrev pub at_slot : Option Symbol → List Symbol
at_slot none = []
at_slot (some s) = s ∷ []

-- The inner loop: one slot of every block.
unfoldable pub row : ℕ → List Block → List Symbol
row slot [] = []
row slot (b ∷ bs) = at_slot (get_elem? b slot) ++ row slot bs

-- The outer loop, from a slot on, with the rounds left.
unfoldable pub rows : ℕ → ℕ → List Block → List Symbol
rows slot zero bs = []
rows slot (suc n) bs = row slot bs ++ rows (slot + 1) n bs

-- The depth is not used; for no block the loop has no rounds.
unfoldable pub interleave : Interleaver → List Block → List Symbol
interleave i bs = rows 0 (max_len bs) bs

-- How many symbols of a list pass a test.
abbrev pub count : (Symbol → Bool) → List Symbol → ℕ
count p [] = 0
count p (s ∷ ss) = (if p s then 1 else 0) + count p ss

abbrev pub count_all : (Symbol → Bool) → List Block → ℕ
count_all p [] = 0
count_all p (b ∷ bs) = count p b + count_all p bs

module _ (p : Symbol → Bool) where
  count-append : (xs ys : List Symbol) → count p (xs ++ ys) ≡ count p xs + count p ys
  count-append [] ys = omega arith
  count-append (x ∷ xs) ys = omega (arith, count-append xs ys)

  -- The symbols that one block gives to the rounds.
  abbrev hits : ℕ → ℕ → Block → ℕ
  hits slot zero b = 0
  hits slot (suc n) b = count p (at_slot (get_elem? b slot)) + hits (slot + 1) n b

  count-rows_cons :
      (slot n : ℕ) (b : Block) (bs : List Block)
      → count p (rows slot n (b ∷ bs)) ≡ hits slot n b + count p (rows slot n bs)
  unfolding rows row
  count-rows_cons slot zero b bs = omega arith
  count-rows_cons slot (suc n) b bs = omega (
    arith,
    count-append (at_slot (get_elem? b slot) ++ row slot bs) (rows (slot + 1) n (b ∷ bs)),
    count-append (at_slot (get_elem? b slot)) (row slot bs),
    count-append (row slot bs) (rows (slot + 1) n bs),
    count-rows_cons (slot + 1) n b bs,
  )

  hits_past : (slot n : ℕ) (b : Block) → length b ≤ slot → hits slot n b ≡ 0
  hits_past slot zero b h = refl
  hits_past slot (suc n) b h =
      rw (get_elem?-past b slot h, hits_past (slot + 1) n b (omega arith)) refl
    where
      get_elem?-past : (c : Block) (i : ℕ) → length c ≤ i → get_elem? c i ≡ none
      get_elem?-past [] i l = refl
      get_elem?-past (x ∷ c) zero l = absurd (omega arith)
      get_elem?-past (x ∷ c) (suc i) l = get_elem?-past c i (omega arith)

  hits_cons : (slot n : ℕ) (x : Symbol) (b : Block) → hits (suc slot) n (x ∷ b) ≡ hits slot n b
  hits_cons slot zero x b = refl
  hits_cons slot (suc n) x b =
      ap (λ (t : ℕ). count p (at_slot (get_elem? b slot)) + t)
        (ap (λ (t : ℕ). hits t n (x ∷ b)) (omega arith) ∙ hits_cons (slot + 1) n x b)

  hits-count : (n : ℕ) (b : Block) → length b ≤ n → hits 0 n b ≡ count p b
  hits-count zero [] h = refl
  hits-count zero (x ∷ b) h = absurd (omega arith)
  hits-count (suc n) [] h = hits_past 0 (suc n) [] (omega arith)
  hits-count (suc n) (x ∷ b) h = omega (
    arith,
    ap (λ (t : ℕ). hits t n (x ∷ b)) one_past ∙ hits_cons 0 n x b ∙ hits-count n b (omega arith),
  )
    where
      one_past : 0 + 1 ≡ suc 0
      one_past = refl

  count-rows : (n : ℕ) (bs : List Block) → max_len bs ≤ n → count p (rows 0 n bs) ≡ count_all p bs
  unfolding max_len rows row
  count-rows n [] h = no_rows 0 n
    where
      no_rows : (slot n : ℕ) → count p (rows slot n []) ≡ 0
      no_rows slot zero = refl
      no_rows slot (suc n) = no_rows (slot + 1) n
  count-rows n (b ∷ bs) h =
      omega (
        arith,
        count-rows_cons 0 n b bs,
        hits-count n b (omega arith),
        count-rows n bs (omega arith),
      )

-- The interleaver sends exactly the symbols of its blocks, each as often as they hold it: of every
-- kind of symbol the output has as many as the blocks together.
pub count-interleave :
    (i : Interleaver) (bs : List Block) (p : Symbol → Bool)
    → count p (interleave i bs) ≡ count_all p bs
unfolding interleave
count-interleave i bs p = count-rows p (max_len bs) bs (omega arith)
