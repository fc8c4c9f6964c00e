-- ===== src/Video/H264/Nals.antt =====
-- Access units in Annex B form, and what `split_nals` makes of them.
use wzp.Common.{
  ℕ, zero, suc, ◌≤◌, ◌≡◌, refl, Bool, true, false, not, ◌&&◌, List, [], ◌∷◌, ◌++◌, arith, leb, ◌==◌,
  if◌then◌else◌, length, append-nil, length-append, All, some, Bool-cases, inl, inr, ap, ◌∙◌,
}
use wzp.Video.H264.{
  at_start, scan, skip_zeros, push_nal, push_some, split_loop, or_empty, split_nals, start_code,
}

-- A NAL unit as an encoder writes it: not empty, no start code or three zeros within, and no zero
-- at the end.
abbrev pub is_nal : List ℕ → Bool
is_nal [] = false
is_nal (a ∷ []) = not (a == 0)
is_nal (a ∷ b ∷ []) = not (b == 0)
is_nal (a ∷ b ∷ c ∷ r) = not (a == 0 && (b == 0 && leb c 1)) && is_nal (b ∷ c ∷ r)

-- The units one after another, each behind a start code.
unfoldable pub annex_b : List (List ℕ) → List ℕ
annex_b [] = []
annex_b (n ∷ ns) = start_code ++ (n ++ annex_b ns)

at_start-head :
    (a b c : ℕ) (r : List ℕ)
    → (a == 0 && (b == 0 && leb c 1)) ≡ false
    → at_start (a ∷ b ∷ c ∷ r) ≡ false
unfolding at_start
at_start-head a b c [] h = refl
at_start-head a b c (d ∷ []) h = ground arith
at_start-head a b c (d ∷ e ∷ r) h = ground arith

scan_code : (y : ℕ) (r : List ℕ) → scan (0 ∷ 0 ∷ 1 ∷ y ∷ r) ≡ ([], 0 ∷ 0 ∷ 1 ∷ y ∷ r)
unfolding scan
scan_code y [] = refl
scan_code y (z ∷ r) = refl

-- One step of the inner loop, in the form that an induction uses.
scan_step :
    (a : ℕ) (r n t : List ℕ)
    → at_start (a ∷ r) ≡ false
    → scan r ≡ (n, t)
    → scan (a ∷ r) ≡ (a ∷ n, t)
unfolding scan
scan_step a r n t h e = rw (h, e)

scan_before :
    (n : List ℕ) (y : ℕ) (r : List ℕ)
    → is_nal n ≡ true
    → scan (n ++ 0 ∷ 0 ∷ 1 ∷ y ∷ r) ≡ (n, 0 ∷ 0 ∷ 1 ∷ y ∷ r)
scan_before [] y r h = cc
scan_before (a ∷ []) y r h =
    scan_step a _ _ _ (ground (arith, h, at_start-head a 0 0 (1 ∷ y ∷ r))) (scan_code y r)
scan_before (a ∷ b ∷ []) y r h =
    scan_step a _ _ _ (ground (arith, h, at_start-head a b 0 (0 ∷ 1 ∷ y ∷ r)))
      (scan_before (b ∷ []) y r (ground (arith, h)))
scan_before (a ∷ b ∷ c ∷ m) y r h =
    scan_step a _ _ _ (ground (arith, h, at_start-head a b c (m ++ 0 ∷ 0 ∷ 1 ∷ y ∷ r)))
      (scan_before (b ∷ c ∷ m) y r (ground (arith, h)))

scan_end : (n : List ℕ) → is_nal n ≡ true → scan n ≡ (n, [])
unfolding scan
scan_end [] h = refl
scan_end (a ∷ []) h = refl
scan_end (a ∷ b ∷ []) h = refl
scan_end (a ∷ b ∷ c ∷ m) h = ground (arith, at_start-head a b c m, scan_end (b ∷ c ∷ m))

push_nal_lem : (n : List ℕ) (ns : List (List ℕ)) → is_nal n ≡ true → push_nal n ns ≡ n ∷ ns
unfolding push_nal
push_nal_lem [] ns h = cc
push_nal_lem (a ∷ n) ns h = refl

-- The rest of an access unit is empty or begins with a start code and a byte.
scan-annex_b :
    (n : List ℕ) (ns : List (List ℕ))
    → is_nal n ≡ true
    → All (λ m. is_nal m ≡ true) ns
    → scan (n ++ annex_b ns) ≡ (n, annex_b ns)
unfolding annex_b
scan-annex_b n [] h k = rw append-nil (scan_end n h)
scan-annex_b n ([] ∷ ns) h k = ground (arith, k)
scan-annex_b n ((y ∷ m) ∷ ns) h k = scan_before n y (m ++ annex_b ns) h

split_loop-annex_b :
    (f : ℕ) (ns : List (List ℕ))
    → length ns ≤ f
    → All (λ n. is_nal n ≡ true) ns
    → split_loop f (annex_b ns) ≡ some ns
unfolding split_loop annex_b push_some
split_loop-annex_b zero [] l h = refl
split_loop-annex_b (suc f) [] l h = refl
split_loop-annex_b zero (n ∷ ns) l h = absurd (omega arith)
split_loop-annex_b (suc f) (n ∷ ns) l h =
    rw (scan-annex_b n ns h.0 h.1)
      (rw (split_loop-annex_b f ns (omega arith) h.1) (ap some (push_nal_lem n ns h.0)))

length-annex_b : (ns : List (List ℕ)) → length ns ≤ length (annex_b ns)
unfolding annex_b
length-annex_b [] = omega arith
length-annex_b (n ∷ ns) = omega (arith, length-append {0} n (annex_b ns), length-annex_b ns)

-- An access unit in Annex B form is split into the units that it was put together from, in order,
-- where each is nonempty, has no start code or three zeros within, and does not end in a zero.
pub split_nals-annex_b :
    (ns : List (List ℕ)) → All (λ n. is_nal n ≡ true) ns → split_nals (annex_b ns) ≡ ns
unfolding split_nals or_empty
split_nals-annex_b ns h =
    ap or_empty (split_loop-annex_b (length (annex_b ns)) ns (length-annex_b ns) h)

length-skip_zeros : (d : List ℕ) → length (skip_zeros d) ≤ length d
unfolding skip_zeros
length-skip_zeros [] = omega arith
length-skip_zeros (a ∷ r) = ground (arith, length-skip_zeros r)

length-scan : (d : List ℕ) → length (scan d).1 ≤ length d
unfolding scan
length-scan [] = omega arith
length-scan (a ∷ r) = ground (arith, length-scan r)

push_one : (n : List ℕ) (ns : List (List ℕ)) → push_some n (some ns) ≡ some (push_nal n ns)
unfolding push_some
push_one n ns = refl

-- The loop ends within the rounds, and more of them change nothing.
split_loop_ends :
    (f g : ℕ) (d : List ℕ)
    → length d ≤ f
    → length d ≤ g
    → (ns : List (List ℕ)) × (split_loop f d ≡ some ns) × (split_loop g d ≡ some ns)
unfolding split_loop
split_loop_ends zero zero [] l k = ([], refl, refl)
split_loop_ends zero (suc g) [] l k = ([], refl, refl)
split_loop_ends zero g (a ∷ d) l k = absurd (omega arith)
split_loop_ends (suc f) zero [] l k = ([], refl, refl)
split_loop_ends (suc f) zero (a ∷ d) l k = absurd (omega arith)
split_loop_ends (suc f) (suc g) d l k =
    round (λ r p q. split_loop_ends f g r p q) (skip_zeros d) (omega (arith, length-skip_zeros d))
      (omega (arith, length-skip_zeros d))
  where
    round :
        ((r : List ℕ)
          → length r ≤ f
          → length r ≤ g
          → (ns : List (List ℕ)) × (split_loop f r ≡ some ns) × (split_loop g r ≡ some ns))
        → (e : List ℕ) → length e ≤ suc f
        → length e ≤ suc g
        → (ns : List (List ℕ)) × ((elim e [
          | [] ↦ some []
          | a ∷ r ↦ if a == 1 then push_some (scan r).0 (split_loop f (scan r).1) else some []
        ])
            ≡ some ns)
          × ((elim e [
            | [] ↦ some []
            | a ∷ r ↦ if a == 1 then push_some (scan r).0 (split_loop g (scan r).1) else some []
          ])
              ≡ some ns)
    round ih [] p q = ([], refl, refl)
    round ih (a ∷ r) p q =
        let (ns, x, y) =
          ih (scan r).1 (omega (arith, length-scan r)) (omega (arith, length-scan r)) in
        elim (Bool-cases (a == 1)) [
          | inl o ↦ (
            push_nal (scan r).0 ns,
            rw (o, x) (push_one (scan r).0 ns),
            rw (o, y) (push_one (scan r).0 ns),
          )
          | inr o ↦ ([], rw o refl, rw o refl)
        ]

-- The outer loop ends by itself, not for want of rounds: as many rounds as there are bytes are enough,
-- and with them or more it gives what `split_nals` does.
pub split_loop_enough :
    (fuel : ℕ) (d : List ℕ) → length d ≤ fuel → split_loop fuel d ≡ some (split_nals d)
unfolding split_nals or_empty
split_loop_enough fuel d h =
    let (ns, x, y) = split_loop_ends fuel (length d) d h (omega arith) in x ∙ rw y refl
