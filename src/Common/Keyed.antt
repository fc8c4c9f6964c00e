-- ===== src/Common/Keyed.antt =====
-- Hash maps whose keys are compared by an `Eq`, as association lists; the order plays no part in what
-- is looked up.
use Prim.Native.String.{String}
use text.Mathlib.Text.{◌==◌ as str_eq}
use text.Mathlib.TextEquality.{eq_iff}
use wzp.Common.{
  ℕ, ◌≡◌, ◌↔◌, refl, Bool, true, ◌&&◌, List, [], ◌∷◌, Option, none, some, arith, if◌then◌else◌, All,
  Bool-cases, inl, inr, ap, subst, ap₂,
}
use wzp.Common.{◌==◌ as nat_beq, ==_iff}

pub record Eq {ℓ} (A : Type ℓ) : Type ℓ where
  pub beq : A → A → Bool
  pub beq_iff : (a b : A) → (beq a b ≡ true) ↔ (a ≡ b)

instance abbrev pub nat_eq : Eq ℕ
nat_eq = record { beq = nat_beq; beq_iff = ==_iff }

instance abbrev pub string_eq : Eq String
string_eq = record { beq = str_eq; beq_iff = eq_iff }

module _ {ℓ κ} {A : Type ℓ} {B : Type κ} where
  pub pair_iff :
      (a : Eq A) (b : Eq B) (p q : A × B) → ((a.beq p.0 q.0 && b.beq p.1 q.1) ≡ true) ↔ (p ≡ q)
  pair_iff a b p q = (
    λ h. elim (Bool-cases (a.beq p.0 q.0)) [
      | inl e ↦ ap₂ (λ x y. (x, y)) ((a.beq_iff p.0 q.0).0 e) ((b.beq_iff p.1 q.1).0 (rw e at h))
      | inr e ↦ absurd (ground (arith, h, e))
    ],
    λ h. rw ((a.beq_iff p.0 q.0).1 (ap (λ x. x.0) h), (b.beq_iff p.1 q.1).1 (ap (λ x. x.1) h)) refl,
  )

  instance abbrev pub pair_eq : ⦃a : Eq A⦄ ⦃b : Eq B⦄ → Eq (A × B)
  pair_eq ⦃a⦄ ⦃b⦄ = record { beq = λ p q. a.beq p.0 q.0 && b.beq p.1 q.1; beq_iff = pair_iff a b }

module _ {ℓ κ} {K : Type ℓ} {V : Type κ} ⦃e : Eq K⦄ where
  unfoldable pub find : K → List (K × V) → Option V
  find k [] = none
  find k ((j, v) ∷ m) = if e.beq j k then some v else find k m

  unfoldable pub put : K → V → List (K × V) → List (K × V)
  put k v [] = (k, v) ∷ []
  put k v ((j, u) ∷ m) = let rest = put k v m in if e.beq j k then (k, v) ∷ m else (j, u) ∷ rest

  unfoldable pub delete : K → List (K × V) → List (K × V)
  delete k [] = []
  delete k ((j, v) ∷ m) = let rest = delete k m in if e.beq j k then rest else (j, v) ∷ rest

  pub find-put :
      (k j : K) (v : V) (m : List (K × V))
      → find k (put j v m) ≡ (if e.beq j k then some v else find k m)
  unfolding find put
  find-put k j v [] = refl
  find-put k j v ((i, u) ∷ m) =
      ground (arith, find-put k j v m, e.beq_iff i j, e.beq_iff i k, e.beq_iff j k)

  pub find-put_self : (k : K) (v : V) (m : List (K × V)) → find k (put k v m) ≡ some v
  find-put_self k v m = rw (find-put k k v m, (e.beq_iff k k).1 refl) refl

  pub find-delete :
      (k j : K) (m : List (K × V)) → find k (delete j m) ≡ (if e.beq j k then none else find k m)
  unfolding find delete
  find-delete k j [] = ground arith
  find-delete k j ((i, u) ∷ m) =
      ground (arith, find-delete k j m, e.beq_iff i j, e.beq_iff i k, e.beq_iff j k)

  pub put-All {τ} :
      (P : K × V → Type τ) (k : K) (v : V) (m : List (K × V))
      → P (k, v)
      → All P m
      → All P (put k v m)
  unfolding put
  put-All P k v [] p h = (p, tt)
  put-All P k v ((j, u) ∷ m) p h = elim (Bool-cases (e.beq j k)) [
    | inl a ↦ rw a (p, h.1)
    | inr a ↦ rw a (h.0, put-All P k v m p h.1)
  ]

  pub delete-All {τ} :
      (P : K × V → Type τ) (k : K) (m : List (K × V)) → All P m → All P (delete k m)
  unfolding delete
  delete-All P k [] h = tt
  delete-All P k ((j, u) ∷ m) h = elim (Bool-cases (e.beq j k)) [
    | inl a ↦ rw a (delete-All P k m h.1)
    | inr a ↦ rw a (h.0, delete-All P k m h.1)
  ]

  pub find-All {τ} :
      (P : K × V → Type τ) (k : K) (v : V) (m : List (K × V))
      → All P m
      → find k m ≡ some v
      → P (k, v)
  unfolding find
  find-All P k v [] h f = absurd (ground (arith, f))
  find-All P k v ((j, u) ∷ m) h f = elim (Bool-cases (e.beq j k)) [
    | inl a ↦
        let value : some u ≡ some v = rw a at f in
        let same : u ≡ v = cc in subst P (ap₂ (λ x y. (x, y)) ((e.beq_iff j k).0 a) same) h.0
    | inr a ↦ find-All P k v m h.1 (rw a at f)
  ]

-- `retain`
module _ {ℓ} {A : Type ℓ} where
  unfoldable pub retain : (A → Bool) → List A → List A
  retain p [] = []
  retain p (x ∷ xs) = let rest = retain p xs in if p x then x ∷ rest else rest

  pub retain-All {τ σ} :
      (P : A → Type τ) (Q : A → Type σ) (p : A → Bool) (xs : List A)
      → ((x : A) → P x → p x ≡ true → Q x)
      → All P xs
      → All Q (retain p xs)
  unfolding retain
  retain-All P Q p [] f h = tt
  retain-All P Q p (x ∷ xs) f h = elim (Bool-cases (p x)) [
    | inl a ↦ rw a (f x h.0 a, retain-All P Q p xs f h.1)
    | inr a ↦ rw a (retain-All P Q p xs f h.1)
  ]

  pub All-imp {τ σ} :
      (P : A → Type τ) (Q : A → Type σ) (xs : List A) → ((x : A) → P x → Q x) → All P xs → All Q xs
  All-imp P Q [] f h = tt
  All-imp P Q (x ∷ xs) f h = (f x h.0, All-imp P Q xs f h.1)
