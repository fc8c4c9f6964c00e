-- ===== src/Client/AudioRing/Stream.antt =====
-- The ring holds the end of the stream of samples.
use wzp.Common.{
  ℕ, zero, suc, ◌+◌, ◌%◌, ◌≤◌, ◌<◌, ◌≡◌, refl, sym, ap, ◌∙◌, bit_and, List, [], ◌∷◌, ◌++◌, arith,
  ◌==◌, length, take, drop, get_or, set, length-append, length-set, append_assoc, append-nil, subst,
  get_or-set_self, get_or-set_ne, Bool-cases, inl, inr,
}
use wzp.Common.BitSums.{bit_and-ones}
use wzp.Client.AudioRing.{ring_capacity, ring_mask, write_loop, read_loop}

masked : (i : ℕ) → bit_and i ring_mask ≡ i % ring_capacity
masked i = bit_and-ones 14 i

-- Every one of the last samples of the stream is in its place.
pub record HasTail (buf stream : List ℕ) : Type 0 where
  pub room : length buf ≡ ring_capacity
  pub place :
      (p : ℕ)
      → p < length stream
      → length stream ≤ p + ring_capacity
      → get_or buf (p % ring_capacity) 0 ≡ get_or stream p 0

get_or-append_before :
    (xs ys : List ℕ) (p : ℕ) → p < length xs → get_or (xs ++ ys) p 0 ≡ get_or xs p 0
get_or-append_before [] ys p h = absurd (omega arith)
get_or-append_before (x ∷ xs) ys zero h = refl
get_or-append_before (x ∷ xs) ys (suc p) h = get_or-append_before xs ys p (omega arith)

get_or-append_at : (xs ys : List ℕ) (x : ℕ) → get_or (xs ++ (x ∷ ys)) (length xs) 0 ≡ x
get_or-append_at [] ys x = refl
get_or-append_at (y ∷ xs) ys x = get_or-append_at xs ys x

take-drop-suc :
    (n i : ℕ) (xs : List ℕ)
    → i < length xs
    → take (suc n) (drop i xs) ≡ get_or xs i 0 ∷ take n (drop (suc i) xs)
take-drop-suc n i [] h = absurd (omega arith)
take-drop-suc n zero (x ∷ xs) h = refl
take-drop-suc n (suc i) (x ∷ xs) h = take-drop-suc n i xs (omega arith)

take-drop :
    (n i : ℕ) (xs : List ℕ)
    → i < length xs
    → take (suc n) (drop i xs) ≡ get_or xs i 0 ∷ take n (drop (i + 1) xs)
take-drop n i xs h =
    let next : suc i ≡ i + 1 = omega arith in
    take-drop-suc n i xs h ∙ ap (λ j. get_or xs i 0 ∷ take n (drop j xs)) next

set-HasTail :
    (buf stream : List ℕ) (x : ℕ)
    → HasTail buf stream
    → HasTail (set buf (bit_and (length stream) ring_mask) x) (stream ++ (x ∷ []))
set-HasTail buf stream x h =
    let n = length stream in
    let grown = length-append stream (x ∷ []) in
    rw (masked n) (record {
      room = length-set buf (n % ring_capacity) x ∙ h.room;
      place = λ p a b. elim (Bool-cases (p == n)) [
        | inl e ↦
            let same : p ≡ n = ground (arith, e) in
            subst
              (λ q.
                get_or (set buf (n % ring_capacity) x) (q % ring_capacity) 0
                ≡ get_or (stream ++ (x ∷ [])) q 0)
              (sym same)
              (get_or-set_self buf (n % ring_capacity) x 0 (omega (arith, h.room))
                ∙ sym (get_or-append_at stream [] x))
        | inr e ↦
            let below : p < n = ground (arith, e, a, grown) in
            let near : n ≤ p + ring_capacity = omega (arith, b, grown) in
            get_or-set_ne buf (n % ring_capacity) (p % ring_capacity) x 0
              (λ c. omega (arith, c, below, b, grown))
            ∙ h.place p below near
            ∙ sym (get_or-append_before stream (x ∷ []) p below)
      ];
    })

pub write_loop-HasTail :
    (xs buf stream : List ℕ) (w : ℕ)
    → w ≡ length stream
    → HasTail buf stream
    → HasTail (write_loop xs w buf) (stream ++ xs)
unfolding write_loop
write_loop-HasTail [] buf stream w e h = subst (HasTail buf) (sym (append-nil stream)) h
write_loop-HasTail (x ∷ xs) buf stream w e h =
    let done = length-append stream (x ∷ []) in
    let start : HasTail (set buf (bit_and w ring_mask) x) (stream ++ (x ∷ [])) =
      rw e (set-HasTail buf stream x h) in
    subst (HasTail (write_loop xs (w + 1) (set buf (bit_and w ring_mask) x)))
      (append_assoc stream (x ∷ []) xs)
      (write_loop-HasTail xs (set buf (bit_and w ring_mask) x) (stream ++ (x ∷ [])) (w + 1)
        (omega (arith, e, done)) start)

pub read_loop-HasTail :
    (n i : ℕ) (buf stream : List ℕ)
    → HasTail buf stream
    → i + n ≤ length stream
    → length stream ≤ i + ring_capacity
    → read_loop n i buf ≡ take n (drop i stream)
unfolding read_loop
read_loop-HasTail zero i buf stream h a b = refl
read_loop-HasTail (suc n) i buf stream h a b =
    rw
      (
        masked i,
        h.place i (omega arith) b,
        read_loop-HasTail n (i + 1) buf stream h (omega arith) (omega arith),
        take-drop n i stream (omega arith),
      )
      refl
