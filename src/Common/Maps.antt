-- ===== src/Common/Maps.antt =====
-- Association lists for the hash maps of the program, keyed by text. An entry stands at its first
-- occurrence; the order plays no part in what is looked up.
use Prim.Native.String.{String}
use text.Mathlib.Text.{◌==◌}
use text.Mathlib.TextEquality.{eq_iff}
use wzp.Common.{
  ℕ, ◌+◌, ◌≡◌, refl, List, [], ◌∷◌, Option, none, some, Bool, true, false, arith, if◌then◌else◌,
  length,
}

abbrev pub str_eq : String → String → Bool
str_eq a b = a == b

unfoldable pub among : String → List String → Bool
among key [] = false
among key (here ∷ js) = if here == key then true else among key js

abbrev pub option_cons {ℓ} : {A : Type ℓ} → Option A → List A → List A
option_cons none l = l
option_cons (some x) l = x ∷ l

module _ {ℓ} {V : Type ℓ} where
  unfoldable pub lookup : String → List (String × V) → Option V
  lookup key [] = none
  lookup key ((here, val) ∷ entries) = if here == key then some val else lookup key entries

  unfoldable pub insert : String → V → List (String × V) → List (String × V)
  insert key val [] = (key, val) ∷ []
  insert key val ((here, old) ∷ entries) =
      if here == key then (key, val) ∷ entries else (here, old) ∷ insert key val entries

  unfoldable pub remove : String → List (String × V) → List (String × V)
  remove key [] = []
  remove key ((here, val) ∷ entries) =
      if here == key then remove key entries else (here, val) ∷ remove key entries

  -- `if let Some(v) = map.get_mut(k) { *v = f(v) }`
  unfoldable pub modify : String → (V → V) → List (String × V) → List (String × V)
  modify key f [] = []
  modify key f ((here, val) ∷ entries) =
      if here == key then (here, f val) ∷ entries else (here, val) ∷ modify key f entries

  -- `iter().filter(p).map(key).collect()`
  unfoldable pub keys : (V → Bool) → List (String × V) → List String
  keys p [] = []
  keys p ((here, val) ∷ entries) = if p val then here ∷ keys p entries else keys p entries

  -- `filter_map(|id| map.remove(&id)).collect()`, with the map that is left.
  unfoldable pub remove_all : List String → List (String × V) → List V × List (String × V)
  remove_all [] entries = ([], entries)
  remove_all (key ∷ ks) entries =
      let after = remove_all ks (remove key entries) in
      (option_cons (lookup key entries) after.0, after.1)

  unfoldable pub count : (V → Bool) → List (String × V) → ℕ
  count p [] = 0
  count p ((here, val) ∷ entries) = (if p val then 1 else 0) + count p entries

  unfoldable pub values : (V → Bool) → List (String × V) → List V
  values p [] = []
  values p ((here, val) ∷ entries) = if p val then val ∷ values p entries else values p entries

  -- No key twice.
  abbrev pub Fresh : String → List (String × V) → Type ℓ
  Fresh key entries = lookup key entries ≡ none

  abbrev pub Unique : List (String × V) → Type ℓ
  Unique [] = Unit
  Unique ((here, val) ∷ entries) = Fresh here entries × Unique entries

  pub lookup-insert :
      (key here : String) (val : V) (entries : List (String × V))
      → lookup here (insert key val entries)
        ≡ (if key == here then some val else lookup here entries)
  unfolding lookup insert
  lookup-insert key here val [] = refl
  lookup-insert key here val ((front, old) ∷ entries) = ground (
    arith,
    eq_iff key here,
    eq_iff front key,
    eq_iff front here,
    lookup-insert key here val entries,
  )

  pub lookup-remove :
      (key here : String) (entries : List (String × V))
      → lookup here (remove key entries) ≡ (if key == here then none else lookup here entries)
  unfolding lookup remove
  lookup-remove key here [] = ground arith
  lookup-remove key here ((front, old) ∷ entries) =
      ground (
        arith,
        eq_iff key here,
        eq_iff front key,
        eq_iff front here,
        lookup-remove key here entries,
      )

  abbrev pub map_option : (V → V) → Option V → Option V
  map_option f none = none
  map_option f (some val) = some (f val)

  pub lookup-modify :
      (key here : String) (f : V → V) (entries : List (String × V))
      → lookup here (modify key f entries)
        ≡ (if key == here then map_option f (lookup here entries) else lookup here entries)
  unfolding lookup modify
  lookup-modify key here f [] = ground arith
  lookup-modify key here f ((front, old) ∷ entries) = ground (
    arith,
    eq_iff key here,
    eq_iff front key,
    eq_iff front here,
    lookup-modify key here f entries,
  )

  -- Whether the value that was found, if any, passes the test.
  abbrev pub holds : (V → Bool) → Option V → Bool
  holds p none = false
  holds p (some val) = p val

  pub among-keys :
      (p : V → Bool) (key : String) (entries : List (String × V))
      → Unique entries
      → among key (keys p entries) ≡ holds p (lookup key entries)
  unfolding lookup keys among
  among-keys p key [] h = refl
  among-keys p key ((front, old) ∷ entries) h =
      ground (arith, eq_iff front key, among-keys p key entries h.1, lookup front entries)

  pub lookup-remove_all :
      (ks : List String) (here : String) (entries : List (String × V))
      → lookup here (remove_all ks entries).1
        ≡ (if among here ks then none else lookup here entries)
  unfolding remove_all among
  lookup-remove_all [] here entries = refl
  lookup-remove_all (key ∷ ks) here entries =
      ground (arith, lookup-remove_all ks here (remove key entries), lookup-remove key here entries)

  pub insert-Unique :
      (key : String) (val : V) (entries : List (String × V))
      → Unique entries
      → Unique (insert key val entries)
  unfolding insert lookup
  insert-Unique key val [] h = (refl, tt)
  insert-Unique key val ((front, old) ∷ entries) h = ground (
    arith,
    eq_iff front key,
    eq_iff key front,
    insert-Unique key val entries h.1,
    lookup-insert key front val entries,
  )

  pub remove-Unique :
      (key : String) (entries : List (String × V)) → Unique entries → Unique (remove key entries)
  unfolding remove
  remove-Unique key [] h = tt
  remove-Unique key ((front, old) ∷ entries) h = ground (
    arith,
    eq_iff front key,
    eq_iff key front,
    remove-Unique key entries h.1,
    lookup-remove key front entries,
  )

  pub modify-Unique :
      (key : String) (f : V → V) (entries : List (String × V))
      → Unique entries
      → Unique (modify key f entries)
  unfolding modify
  modify-Unique key f [] h = tt
  modify-Unique key f ((front, old) ∷ entries) h = ground (
    arith,
    eq_iff front key,
    eq_iff key front,
    modify-Unique key f entries h.1,
    lookup-modify key front f entries,
  )

  pub remove_all-Unique :
      (ks : List String) (entries : List (String × V))
      → Unique entries
      → Unique (remove_all ks entries).1
  unfolding remove_all
  remove_all-Unique [] entries h = h
  remove_all-Unique (key ∷ ks) entries h =
      remove_all-Unique ks (remove key entries) (remove-Unique key entries h)

  -- Every value of a map without double keys is found, so a count of them all is the size.
  pub count_all :
      (p : V → Bool) (entries : List (String × V))
      → Unique entries
      → ((key : String) (val : V) → lookup key entries ≡ some val → p val ≡ true)
      → count p entries ≡ length entries
  unfolding count lookup
  count_all p [] u h = ground arith
  count_all p ((here, val) ∷ entries) u h =
      let first = h here val (ground (arith, eq_iff here here)) in
      ground (
        arith,
        first,
        count_all p entries u.1 (λ key old e. h key old (ground (arith, eq_iff here key, u.0))),
      )
