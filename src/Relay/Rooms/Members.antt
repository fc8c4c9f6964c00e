-- ===== src/Relay/Rooms/Members.antt =====
-- The participants of a room: no number twice, no fingerprint twice, and one quality each.
use Prim.Native.String.{String}
use wzp.Common.{
  ℕ, ◌<◌, ◌≡◌, refl, Bool, true, false, not, ◌&&◌, ◌||◌, List, [], ◌∷◌, ◌++◌, Option, none, some,
  arith, inl, inr, Bool-cases, All, ◌==◌,
}
use wzp.Common.SortedMaps.{mem}
use wzp.Common.Keyed.{nat_eq, find, put, delete, retain, find-put, find-delete}
use wzp.Relay.Rooms.{
  Participant, ParticipantQuality, new_quality, matches, other_than, ids, any_id, delete_all,
}

abbrev pub is_some {ℓ} : {A : Type ℓ} → Option A → Bool
is_some none = false
is_some (some x) = true

-- The fingerprint, if there is one, is of no one in the list.
abbrev pub IsNew : Option String → List Participant → Type 0
IsNew none ps = Unit
IsNew (some fp) ps = All (λ p. matches fp p ≡ false) ps

abbrev pub Distinct : List Participant → Type 0
Distinct [] = Unit
Distinct (p ∷ ps) = (any_id p.id ps ≡ false) × (IsNew p.fingerprint ps × Distinct ps)

-- No one beyond the numbers given out.
abbrev pub Below : ℕ → List Participant → Type 0
Below next ps = All (λ p. p.id < next) ps

-- Each participant has a quality, and no one else has.
abbrev pub HasQualities : List Participant → List (ℕ × ParticipantQuality) → Type 0
HasQualities ps qs = (i : ℕ) → is_some (find i qs) ≡ any_id i ps

retain-IsNew :
    (p : Participant → Bool) (fp : Option String) (ps : List Participant)
    → IsNew fp ps
    → IsNew fp (retain p ps)
unfolding retain
retain-IsNew p none ps h = tt
retain-IsNew p (some fp) [] h = tt
retain-IsNew p (some fp) (q ∷ ps) h = elim (Bool-cases (p q)) [
  | inl e ↦ rw e (h.0, retain-IsNew p (some fp) ps h.1)
  | inr e ↦ rw e (retain-IsNew p (some fp) ps h.1)
]

any_id-retain :
    (p : Participant → Bool) (i : ℕ) (ps : List Participant)
    → any_id i ps ≡ false
    → any_id i (retain p ps) ≡ false
unfolding retain any_id
any_id-retain p i [] h = refl
any_id-retain p i (q ∷ ps) h = ground (arith, any_id-retain p i ps)

pub retain-Distinct :
    (p : Participant → Bool) (ps : List Participant) → Distinct ps → Distinct (retain p ps)
unfolding retain
retain-Distinct p [] h = tt
retain-Distinct p (q ∷ ps) h = elim (Bool-cases (p q)) [
  | inl e ↦ rw e (
    any_id-retain p q.id ps h.0,
    (retain-IsNew p q.fingerprint ps h.1.0, retain-Distinct p ps h.1.1),
  )
  | inr e ↦ rw e (retain-Distinct p ps h.1.1)
]

pub any_id-remove :
    (i id : ℕ) (ps : List Participant)
    → any_id i (retain (other_than id) ps) ≡ (any_id i ps && not (i == id))
unfolding retain any_id
any_id-remove i id [] = refl
any_id-remove i id (q ∷ ps) = ground (arith, any_id-remove i id ps)

-- Who is left when a fingerprint is taken out: all but the ones whose numbers were removed.
pub any_id-spared :
    (fp : String) (i : ℕ) (ps : List Participant)
    → any_id i ps ≡ true
    → mem i (ids (retain (matches fp) ps)) ≡ false
    → any_id i (retain (λ p. not (matches fp p)) ps) ≡ true
unfolding retain any_id ids mem
any_id-spared fp i [] a m = ground (arith, a)
any_id-spared fp i (q ∷ ps) a m = ground (arith, any_id-spared fp i ps)

removed_absent :
    (fp : String) (i : ℕ) (ps : List Participant)
    → any_id i ps ≡ false
    → mem i (ids (retain (matches fp) ps)) ≡ false
unfolding retain any_id ids mem
removed_absent fp i [] a = refl
removed_absent fp i (q ∷ ps) a = ground (arith, removed_absent fp i ps)

any_id-split :
    (fp : String) (i : ℕ) (ps : List Participant)
    → Distinct ps
    → any_id i (retain (λ p. not (matches fp p)) ps)
      ≡ (any_id i ps && not (mem i (ids (retain (matches fp) ps))))
unfolding retain any_id ids mem
any_id-split fp i [] h = refl
any_id-split fp i (q ∷ ps) h = ground (
  arith,
  any_id-split fp i ps h.1.1,
  removed_absent fp i ps,
  any_id-retain (λ p. not (matches fp p)) i ps,
  h.0,
)

find-delete_all :
    (removed : List ℕ) (i : ℕ) (qs : List (ℕ × ParticipantQuality))
    → is_some (find i (delete_all removed qs)) ≡ (is_some (find i qs) && not (mem i removed))
unfolding delete_all mem
find-delete_all [] i qs = ground arith
find-delete_all (id ∷ rest) i qs =
    ground (arith, find-delete_all rest i (delete id qs), find-delete i id qs)

pub remove_by_fingerprint-HasQualities :
    (fp : String) (ps : List Participant) (qs : List (ℕ × ParticipantQuality))
    → Distinct ps
    → HasQualities ps qs
    → HasQualities
        (retain (λ p. not (matches fp p)) ps)
        (delete_all (ids (retain (matches fp) ps)) qs)
remove_by_fingerprint-HasQualities fp ps qs d h i =
    rw (any_id-split fp i ps d, find-delete_all (ids (retain (matches fp) ps)) i qs, h i) refl

pub remove-HasQualities :
    (id : ℕ) (ps : List Participant) (qs : List (ℕ × ParticipantQuality))
    → HasQualities ps qs
    → HasQualities (retain (other_than id) ps) (delete id qs)
remove-HasQualities id ps qs h i = ground (arith, any_id-remove i id ps, find-delete i id qs, h i)

pub any_id-append :
    (i : ℕ) (ps qs : List Participant) → any_id i (ps ++ qs) ≡ (any_id i ps || any_id i qs)
unfolding any_id
any_id-append i [] qs = refl
any_id-append i (p ∷ ps) qs = ground (arith, any_id-append i ps qs)

pub add-HasQualities :
    (p : Participant) (ps : List Participant) (qs : List (ℕ × ParticipantQuality))
    → HasQualities ps qs
    → HasQualities (ps ++ (p ∷ [])) (put p.id new_quality qs)
unfolding any_id
add-HasQualities p ps qs h i =
    ground (arith, any_id-append i ps (p ∷ []), find-put i p.id new_quality qs, h i)

fresh_id : (next : ℕ) (ps : List Participant) → Below next ps → any_id next ps ≡ false
unfolding any_id
fresh_id next [] b = refl
fresh_id next (p ∷ ps) b = ground (arith, fresh_id next ps b.1, b.0)
