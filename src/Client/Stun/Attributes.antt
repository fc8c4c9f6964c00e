-- ===== src/Client/Stun/Attributes.antt =====
-- The walk over the attributes of a packet takes them one after the other.
use wzp.Common.{
  ℕ, zero, suc, ◌+◌, ◌/◌, ◌%◌, ◌≤◌, ◌≡◌, refl, true, false, List, [], ◌∷◌, ◌++◌, arith, leb, ltb,
  length, replicate, ap, ap₂, ◌∙◌, sym, subst, length-append, append_assoc,
}
use wzp.Client.Stun.{
  Result, ok, err, panicked, ◌>>=◌, byte_at, u16_at, slice, Found, take_attribute, walk, padding,
}
use wzp.Client.Stun.Writer.{attribute, attributes, u16_bytes, slice-append}

byte_at-append : (pre xs : List ℕ) (i : ℕ) → byte_at (pre ++ xs) (length pre + i) ≡ byte_at xs i
unfolding byte_at
byte_at-append [] xs i = let same : 0 + i ≡ i = omega arith in ap (byte_at xs) same
byte_at-append (x ∷ pre) xs i =
    let same : length (x ∷ pre) + i ≡ suc (length pre + i) = omega arith in
    ap (byte_at (x ∷ (pre ++ xs))) same ∙ byte_at-append pre xs i

u16_at-append :
    (pre xs : List ℕ) (i v : ℕ)
    → byte_at xs i ≡ ok (v / 256)
    → byte_at xs (i + 1) ≡ ok (v % 256)
    → u16_at (pre ++ xs) (length pre + i) ≡ ok v
unfolding u16_at
u16_at-append pre xs i v h l =
    let low : byte_at (pre ++ xs) (length pre + i + 1) ≡ ok (v % 256) =
      ap (byte_at (pre ++ xs)) (omega arith) ∙ (byte_at-append pre xs (i + 1) ∙ l) in
    rw (byte_at-append pre xs i ∙ h, low) (ap ok (omega arith))

length-replicate : (n x : ℕ) → length (replicate n x) ≡ n
length-replicate zero x = refl
length-replicate (suc n) x = ap suc (length-replicate n x)

length-attribute :
    (t : ℕ) (v : List ℕ) → length (attribute (t, v)) ≡ 4 + length v + padding (length v)
unfolding attribute
length-attribute t v = omega (
  arith,
  length-append v (replicate (padding (length v)) 0),
  length-replicate (padding (length v)) 0,
)

-- Where the parts of an attribute are, behind the bytes before it.
module _ (pre : List ℕ) (t : ℕ) (v rest : List ℕ) where
  abbrev behind : List ℕ
  behind = pre ++ (attribute (t, v) ++ rest)

  type_read : u16_at behind (length pre) ≡ ok t
  unfolding attribute byte_at
  type_read =
      ap (u16_at behind) (omega arith) ∙ u16_at-append pre (attribute (t, v) ++ rest) 0 t refl refl

  length_read : u16_at behind (length pre + 2) ≡ ok (length v)
  unfolding attribute byte_at
  length_read = u16_at-append pre (attribute (t, v) ++ rest) 2 (length v) refl refl

  value_read : slice behind (length pre + 4) (length pre + 4 + length v) ≡ ok v
  unfolding attribute
  value_read =
      let head = u16_bytes t ++ u16_bytes (length v) in
      let pads = replicate (padding (length v)) 0 in
      let parts : behind ≡ (pre ++ head) ++ (v ++ (pads ++ rest)) =
        ap (λ xs. pre ++ (head ++ xs)) (append_assoc v pads rest)
        ∙ sym (append_assoc pre head (v ++ (pads ++ rest))) in
      let place : length (pre ++ head) ≡ length pre + 4 = length-append pre head in
      subst (λ k. slice behind k (k + length v) ≡ ok v) place
        (ap (λ xs. slice xs (length (pre ++ head)) (length (pre ++ head) + length v)) parts
          ∙ slice-append (pre ++ head) v (pads ++ rest))

-- One round of the walk takes the attribute at its place.
walk_one :
    (n : ℕ) (pre : List ℕ) (t : ℕ) (v rest txn_id : List ℕ) (f : Found)
    → walk (suc n) (pre ++ (attribute (t, v) ++ rest)) txn_id (length pre) f ≡ (
        take_attribute f t v txn_id >>= (λ g.
          walk n
            (pre ++ (attribute (t, v) ++ rest))
            txn_id
            (length pre + 4 + length v + padding (length v))
            g))
unfolding walk
walk_one n pre t v rest txn_id f =
    let ats = pre ++ (attribute (t, v) ++ rest) in
    let room : leb (length pre + 4) (length ats) ≡ true = ground (arith, long) in
    let fits : ltb (length ats) (length pre + 4 + length v) ≡ false = ground (arith, long) in
    rw (room, type_read pre t v rest, length_read pre t v rest, fits, value_read pre t v rest) refl
  where
    long :
        length (pre ++ (attribute (t, v) ++ rest))
        ≡ length pre + (4 + length v + padding (length v) + length rest)
    long = omega (
      arith,
      length-append pre (attribute (t, v) ++ rest),
      length-append (attribute (t, v)) rest,
      length-attribute t v,
    )

-- What the walk makes of attributes, one after the other.
unfoldable pub take_all : Found → List (ℕ × List ℕ) → List ℕ → Result Found
take_all f [] txn_id = ok f
take_all f ((t, v) ∷ ats) txn_id = take_attribute f t v txn_id >>= (λ g. take_all g ats txn_id)

bind_cong {ℓ κ} :
    {A : Type ℓ} {B : Type κ} (r : Result A) (f g : A → Result B)
    → ((a : A) → f a ≡ g a)
    → (r >>= f) ≡ (r >>= g)
bind_cong (ok a) f g h = h a
bind_cong (err e) f g h = refl
bind_cong panicked f g h = refl

walk_end :
    (n : ℕ) (pre txn_id : List ℕ) (f : Found) → walk n (pre ++ []) txn_id (length pre) f ≡ ok f
unfolding walk
walk_end zero pre txn_id f = refl
walk_end (suc n) pre txn_id f =
    let over : leb (length pre + 4) (length (pre ++ [])) ≡ false =
      ground (arith, length-append pre []) in
    rw over refl

-- Rounds for every attribute are enough.
pub walk_all :
    (n : ℕ) (pre : List ℕ) (ats : List (ℕ × List ℕ)) (txn_id : List ℕ) (f : Found)
    → length ats ≤ n
    → walk n (pre ++ attributes ats) txn_id (length pre) f ≡ take_all f ats txn_id
unfolding attributes take_all
walk_all n pre [] txn_id f h = walk_end n pre txn_id f
walk_all zero pre ((t, v) ∷ ats) txn_id f h = absurd (omega arith)
walk_all (suc n) pre ((t, v) ∷ ats) txn_id f h =
    walk_one n pre t v (attributes ats) txn_id f
    ∙ bind_cong (take_attribute f t v txn_id) _ _ (λ g.
      ap₂ (λ xs k. walk n xs txn_id k g)
        (sym (append_assoc pre (attribute (t, v)) (attributes ats)))
        (omega (arith, length-append pre (attribute (t, v)), length-attribute t v))
      ∙ walk_all n (pre ++ attribute (t, v)) ats txn_id g (omega arith))

pub attributes_long : (ats : List (ℕ × List ℕ)) → length ats ≤ length (attributes ats)
unfolding attributes
attributes_long [] = omega arith
attributes_long ((t, v) ∷ ats) = omega (
  arith,
  attributes_long ats,
  length-append (attribute (t, v)) (attributes ats),
  length-attribute t v,
)
