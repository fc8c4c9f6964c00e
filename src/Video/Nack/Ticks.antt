-- ===== src/Video/Nack/Ticks.antt =====
-- What a tick of the receiver asks for.
use wzp.Common.{
  ℕ, zero, suc, ◌+◌, ◌-◌, ◌≤◌, ◌<◌, ◌≡◌, ◌⊎◌, Bool, true, false, ◌&&◌, ◌||◌, List, [], ◌∷◌, arith,
  leb, ltb, ◌==◌, length, take, length-take, Bool-cases, inl, inr, subst,
}
use wzp.Common.SortedMaps.{lookup, mem, has}
use wzp.Video.Nack.{
  NackAction, nack, picture_loss_indication, NackReceiver, saturating_mul, advance_window,
  in_backoff, due, send_nacks, act, tick,
}

-- An entry of the map says that the packet was missed early enough.
unfoldable pub waited : ℕ → ℕ → ℕ → List (ℕ × ℕ) → Bool
waited k now interval [] = false
waited k now interval ((seq, noticed_at) ∷ m) =
    ((seq == k) && leb interval (now - noticed_at)) || waited k now interval m

unfoldable pub nacked : ℕ → List NackAction → Bool
nacked k [] = false
nacked k (nack seqs ∷ rest) = mem k seqs || nacked k rest
nacked k (picture_loss_indication ∷ rest) = nacked k rest

unfoldable pub nack_count : List NackAction → ℕ
nack_count [] = 0
nack_count (nack seqs ∷ rest) = length seqs + nack_count rest
nack_count (picture_loss_indication ∷ rest) = nack_count rest

-- What is asked for was missing for a frame at least, and was not asked for a short time ago.
abbrev pub MayAsk : ℕ → NackReceiver → ℕ → Type 0
MayAsk k s now =
    (has k s.missing ≡ true)
    × (waited k now s.frame_interval s.missing ≡ true)
    × (in_backoff now (saturating_mul s.rtt 2) (lookup k s.last_nack) ≡ false)

mem-take : (k n : ℕ) (xs : List ℕ) → mem k (take n xs) ≡ true → mem k xs ≡ true
unfolding mem
mem-take k zero xs h = absurd (ground (arith, h))
mem-take k (suc n) [] h = h
mem-take k (suc n) (x ∷ xs) h = ground (arith, h, mem-take k n xs)

-- The same of the entries of a map alone.
abbrev Due : ℕ → ℕ → ℕ → ℕ → List (ℕ × ℕ) → List (ℕ × ℕ) → Type 0
Due k now interval backoff last m =
    (has k m ≡ true)
    × (waited k now interval m ≡ true)
    × (in_backoff now backoff (lookup k last) ≡ false)

Due-cons :
    (k now interval backoff : ℕ) (last m : List (ℕ × ℕ)) (seq t : ℕ)
    → Due k now interval backoff last m
    → Due k now interval backoff last ((seq, t) ∷ m)
unfolding has waited lookup
Due-cons k now interval backoff last m seq t (h, w, b) = (ground (arith, h), ground (arith, w), b)

Due-here :
    (k now interval backoff : ℕ) (last m : List (ℕ × ℕ)) (seq t : ℕ)
    → seq ≡ k
    → ltb (now - t) interval ≡ false
    → in_backoff now backoff (lookup seq last) ≡ false
    → Due k now interval backoff last ((seq, t) ∷ m)
unfolding has waited lookup
Due-here k now interval backoff last m seq t e l b = (
  ground (arith, e),
  ground (arith, e, l),
  subst (λ x. in_backoff now backoff (lookup x last) ≡ false) e b,
)

mem-due :
    (k now interval backoff : ℕ) (last m : List (ℕ × ℕ))
    → mem k (due now interval backoff last m) ≡ true
    → Due k now interval backoff last m
unfolding mem due
mem-due k now interval backoff last [] h = absurd (ground (arith, h))
mem-due k now interval backoff last ((seq, t) ∷ m) h =
    let later : mem k (due now interval backoff last m) ≡ true
        → Due k now interval backoff last ((seq, t) ∷ m) =
      λ i. Due-cons k now interval backoff last m seq t (mem-due k now interval backoff last m i) in
    elim (Bool-cases (ltb (now - t) interval)) [
      | inl a ↦ later (ground (arith, h, a))
      | inr a ↦ elim (Bool-cases (in_backoff now backoff (lookup seq last))) [
        | inl b ↦ later (ground (arith, h, a, b))
        | inr b ↦ elim (Bool-cases (seq == k)) [
          | inl c ↦ Due-here k now interval backoff last m seq t (ground (arith, c)) a b
          | inr c ↦ later (ground (arith, h, a, b, c))
        ]
      ]
    ]

act-asked :
    (s : NackReceiver) (seqs : List ℕ) (now k : ℕ)
    → nacked k (act s seqs now).0 ≡ true
    → mem k seqs ≡ true
unfolding act send_nacks nacked
act-asked s [] now k h = absurd (ground (arith, h))
act-asked s (seq ∷ seqs) now k h =
    ground (arith, h, mem-take k (s.max_nack_rate - s.nacks_this_sec) (seq ∷ seqs))

-- Whatever a tick asks for has been missing for a frame's time, and was not asked for within twice
-- the round trip.
pub nacked-tick : (s : NackReceiver) (now k : ℕ) → nacked k (tick s now).0 ≡ true → MayAsk k s now
unfolding tick
nacked-tick s now k h = mem-due k now _ _ _ _ (act-asked (advance_window s now) _ now k h)

act-budget :
    (s : NackReceiver) (seqs : List ℕ) (now : ℕ)
    → s.nacks_this_sec ≤ s.max_nack_rate
    → ((act s seqs now).1.nacks_this_sec ≡ s.nacks_this_sec + nack_count (act s seqs now).0)
      × ((act s seqs now).1.nacks_this_sec ≤ s.max_nack_rate)
unfolding act send_nacks nack_count
act-budget s [] now h = (ground arith, ground arith)
act-budget s (seq ∷ seqs) now h =
    let len = length-take (s.max_nack_rate - s.nacks_this_sec) (seq ∷ seqs) in
    (ground (arith, len), ground (arith, len))

-- A tick keeps the count of the second within its limit, and adds exactly what it asks for.
pub tick_budget :
    (s : NackReceiver) (now : ℕ)
    → s.nacks_this_sec ≤ s.max_nack_rate
    → ((tick s now).1.nacks_this_sec
        ≡ (advance_window s now).nacks_this_sec + nack_count (tick s now).0)
      × ((tick s now).1.nacks_this_sec ≤ s.max_nack_rate)
unfolding tick
tick_budget s now h = act-budget (advance_window s now) _ now (within s now h)
  where
    within :
        (s : NackReceiver) (now : ℕ)
        → s.nacks_this_sec ≤ s.max_nack_rate
        → (advance_window s now).nacks_this_sec ≤ s.max_nack_rate
    within s now h = ground (arith, h)

-- What is asked for at once: a packet at least, in time and within the limit of the second; or else a
-- new picture, where the round trip takes two frames or more, or the limit is reached.
unfoldable Asks : NackReceiver → List NackAction → Type 0
Asks s actions =
    ((q : ℕ) × (qs : List ℕ) × (actions ≡ nack (q ∷ qs) ∷ [])
      × (s.rtt < saturating_mul s.frame_interval 2))
    ⊎ ((actions ≡ picture_loss_indication ∷ [])
        × ((saturating_mul s.frame_interval 2 ≤ s.rtt) ⊎ (s.max_nack_rate ≤ s.nacks_this_sec)))

-- The same of a tick, and that the packet may be asked for.
unfoldable pub AsksDue : NackReceiver → ℕ → List NackAction → Type 0
AsksDue s now actions =
    ((q : ℕ) × (qs : List ℕ) × (actions ≡ nack (q ∷ qs) ∷ [])
      × (s.rtt < saturating_mul s.frame_interval 2)
      × MayAsk q s now)
    ⊎ ((actions ≡ picture_loss_indication ∷ [])
        × ((saturating_mul s.frame_interval 2 ≤ s.rtt) ⊎ (s.max_nack_rate ≤ s.nacks_this_sec)))
