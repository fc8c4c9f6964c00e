-- ===== src/Common/SortedMaps.antt =====
-- A `BTreeMap` with numbers as keys: its entries in ascending order.
use wzp.Common.{
  ℕ, ◌≡◌, refl, List, [], ◌∷◌, Option, none, some, Bool, true, false, not, ◌&&◌, ◌||◌, arith,
  if◌then◌else◌, ltb, ◌==◌, Bool-cases, inl, inr, ◌+◌, length, ◌≤◌, All, subst, ap₂,
}

-- `contains` of a list of numbers.
unfoldable pub mem : ℕ → List ℕ → Bool
mem k [] = false
mem k (x ∷ xs) = (x == k) || mem k xs

module _ {ℓ} {V : Type ℓ} where
  unfoldable pub lookup : ℕ → List (ℕ × V) → Option V
  lookup k [] = none
  lookup k ((j, v) ∷ m) = if j == k then some v else lookup k m

  unfoldable pub insert : ℕ → V → List (ℕ × V) → List (ℕ × V)
  insert k v [] = (k, v) ∷ []
  insert k v ((j, u) ∷ m) =
      let rest = insert k v m in
      if ltb k j then (k, v) ∷ (j, u) ∷ m else (if j == k then (k, v) ∷ m else (j, u) ∷ rest)

  unfoldable pub remove : ℕ → List (ℕ × V) → List (ℕ × V)
  remove k [] = []
  remove k ((j, v) ∷ m) = let rest = remove k m in if j == k then rest else (j, v) ∷ rest

  -- `map.entry(k).or_insert(v)`
  unfoldable pub or_insert : ℕ → V → List (ℕ × V) → List (ℕ × V)
  or_insert k v m = elim (lookup k m) [ none ↦ insert k v m | some u ↦ m ]

  pub lookup-insert :
      (k j : ℕ) (v : V) (m : List (ℕ × V))
      → lookup k (insert j v m) ≡ (if j == k then some v else lookup k m)
  unfolding lookup insert
  lookup-insert k j v [] = refl
  lookup-insert k j v ((i, u) ∷ m) = ground (arith, lookup-insert k j v m)

  pub lookup-remove :
      (k j : ℕ) (m : List (ℕ × V)) → lookup k (remove j m) ≡ (if j == k then none else lookup k m)
  unfolding lookup remove
  lookup-remove k j [] = ground arith
  lookup-remove k j ((i, u) ∷ m) = ground (arith, lookup-remove k j m)

  unfoldable pub has : ℕ → List (ℕ × V) → Bool
  has k m = elim (lookup k m) [ none ↦ false | some v ↦ true ]

  pub has-insert :
      (k j : ℕ) (v : V) (m : List (ℕ × V)) → has k (insert j v m) ≡ ((j == k) || has k m)
  unfolding has
  has-insert k j v m = ground (arith, lookup-insert k j v m)

  pub has-remove : (k j : ℕ) (m : List (ℕ × V)) → has k (remove j m) ≡ (not (j == k) && has k m)
  unfolding has
  has-remove k j m = ground (arith, lookup-remove k j m)

  pub has-or_insert :
      (k j : ℕ) (v : V) (m : List (ℕ × V)) → has k (or_insert j v m) ≡ ((j == k) || has k m)
  unfolding has or_insert
  has-or_insert k j v m = ground (arith, lookup-insert k j v m)

  pub length-remove : (k : ℕ) (m : List (ℕ × V)) → length (remove k m) ≤ length m
  unfolding remove
  length-remove k [] = omega arith
  length-remove k ((i, u) ∷ m) = ground (arith, length-remove k m)

  pub length-insert : (k : ℕ) (v : V) (m : List (ℕ × V)) → length (insert k v m) ≤ length m + 1
  unfolding insert
  length-insert k v [] = omega arith
  length-insert k v ((i, u) ∷ m) = ground (arith, length-insert k v m)

  pub insert-All {κ} :
      (P : ℕ × V → Type κ) (k : ℕ) (v : V) (m : List (ℕ × V))
      → P (k, v)
      → All P m
      → All P (insert k v m)
  unfolding insert
  insert-All P k v [] p h = (p, tt)
  insert-All P k v ((i, u) ∷ m) p (q, h) = elim (Bool-cases (ltb k i)) [
    | inl a ↦ rw a (p, (q, h))
    | inr a ↦ elim (Bool-cases (i == k)) [
      | inl b ↦ rw (a, b) (p, h)
      | inr b ↦ rw (a, b) (q, insert-All P k v m p h)
    ]
  ]

  pub remove-All {κ} :
      (P : ℕ × V → Type κ) (k : ℕ) (m : List (ℕ × V)) → All P m → All P (remove k m)
  unfolding remove
  remove-All P k [] h = tt
  remove-All P k ((i, u) ∷ m) (q, h) = elim (Bool-cases (i == k)) [
    | inl e ↦ rw e (remove-All P k m h)
    | inr e ↦ rw e (q, remove-All P k m h)
  ]

  pub lookup-All {κ} :
      (P : ℕ × V → Type κ) (k : ℕ) (v : V) (m : List (ℕ × V))
      → All P m
      → lookup k m ≡ some v
      → P (k, v)
  unfolding lookup
  lookup-All P k v [] h e = absurd (ground (arith, e))
  lookup-All P k v ((i, u) ∷ m) (q, h) e = elim (Bool-cases (i == k)) [
    | inl a ↦
        let same : i ≡ k = ground (arith, a) in
        let value : some u ≡ some v = rw a at e in subst P (ap₂ (λ x y. (x, y)) same (cc)) q
    | inr a ↦ lookup-All P k v m h (rw a at e)
  ]
