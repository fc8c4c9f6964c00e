-- ===== src/Common/Results.antt =====
-- What a call of fallible code comes to: a value, the `None` that the code returns, or a panic
-- (a read past the end, a slice out of range).
use mathlib.Core.Path.{◌≡◌, refl}
use mathlib.Core.Option.{Option, none, some}
use mathlib.Core.Bool.{Bool, true, false}
use mathlib.Core.Logic.{◌⊎◌, inl, inr}

pub data Outcome {ℓ} (A : Type ℓ) : Type ℓ where
  ok : A → Outcome A
  absent : Outcome A
  panicked : Outcome A

infixl 5 ◌>>=◌ ◌>>◌
abbrev pub ◌>>=◌ {ℓ κ} : {A : Type ℓ} {B : Type κ} → Outcome A → (A → Outcome B) → Outcome B
absent >>= step = absent
panicked >>= step = panicked
ok x >>= step = step x

-- `if !b { return None; }`
abbrev pub ensure : Bool → Outcome (Unit {0})
ensure true = ok tt
ensure false = absent

-- A test whose value is not used, and what follows it.
abbrev pub ◌>>◌ {κ} : {B : Type κ} → Outcome (Unit {0}) → Outcome B → Outcome B
first >> second = first >>= λ passed. second

-- The `?` operator on an option.
abbrev pub try_some {ℓ} : {A : Type ℓ} → Option A → Outcome A
try_some none = absent
try_some (some a) = ok a

-- A call that panics where the parameter has no value.
abbrev pub or_panic {ℓ} : {A : Type ℓ} → Option A → Outcome A
or_panic none = panicked
or_panic (some a) = ok a

pub Outcome-cases {ℓ} :
    {A : Type ℓ} (m : Outcome A) → ((a : A) × (m ≡ ok a)) ⊎ ((m ≡ absent) ⊎ (m ≡ panicked))
Outcome-cases (ok a) = inl (a, refl)
Outcome-cases absent = inr (inl refl)
Outcome-cases panicked = inr (inr refl)

-- A chain that succeeded had a value on the way.
pub >>=-eq-ok {ℓ κ} :
    {X : Type ℓ} {Y : Type κ} (start : Outcome X) (step : X → Outcome Y) {out : Y}
    → (start >>= step) ≡ ok out
    → (mid : X) × (start ≡ ok mid) × (step mid ≡ ok out)
>>=-eq-ok absent step e = cc
>>=-eq-ok panicked step e = cc
>>=-eq-ok (ok mid) step e = (mid, refl, e)
