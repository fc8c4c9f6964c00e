-- ===== src/Relay/Calls/Lifecycle.antt =====
-- What every operation of the registry keeps of the calls that it holds.
use Prim.Native.String.{String}
use text.Mathlib.TextEquality.{eq_iff}
use wzp.Common.{
  ℕ, ◌≡◌, refl, sym, List, [], ◌∷◌, Option, none, some, Bool, true, false, ◌||◌, inl, inr, arith,
  if◌then◌else◌, subst, Bool-cases,
}
use wzp.Common.Maps.{
  lookup, modify, keys, among, map_option, Unique, lookup-insert, lookup-remove, lookup-modify,
  lookup-remove_all, insert-Unique, remove-Unique, modify-Unique, remove_all-Unique, str_eq,
}
use wzp.Relay.Calls.{
  pending, ringing, ended, state_eq, CallAcceptMode, DirectCall, CallRegistry, new_registry,
  offered, create_call, update, Note, set_caller_local_addrs, set_callee_local_addrs,
  set_peer_relay_fp, set_caller_reflexive_addr, set_callee_reflexive_addr, set_caller_mapped_addr,
  set_callee_mapped_addr, note, set_note, get, ring, advance_if, set_ringing, answer, set_active,
  hang_up, end_call, is_stale, expire_stale,
}

-- The operations, with the time at which each is called where it reads the clock.
pub data Op : Type 0 where
  create_op : String → String → String → ℕ → Op
  note_op : String → Note → Op
  ring_op : String → Op
  activate_op : String → CallAcceptMode → String → ℕ → Op
  end_op : String → ℕ → Op
  expire_op : ℕ → ℕ → Op

unfoldable pub apply : CallRegistry → Op → CallRegistry
apply r (create_op id caller callee now) = create_call r id caller callee now
apply r (note_op id n) = set_note r id n
apply r (ring_op id) = (set_ringing r id).1
apply r (activate_op id mode room now) = (set_active r id mode room now).1
apply r (end_op id now) = (end_call r id now).1
apply r (expire_op timeout now) = (expire_stale r timeout now).1

unfoldable pub apply_all : CallRegistry → List Op → CallRegistry
apply_all r [] = r
apply_all r (o ∷ os) = apply_all (apply r o) os

-- A call as the registry may hold it under a key.
abbrev pub IsHeld : String → DirectCall → Type 0
IsHeld id c = (c.call_id ≡ id) × (state_eq c.state ended ≡ false)

abbrev pub HeldAt : String → Option DirectCall → Type 0
HeldAt id none = Unit
HeldAt id (some c) = IsHeld id c

pub record IsRegistry (r : CallRegistry) : Type 0 where
  pub unique : Unique r.calls
  pub held : (id : String) → HeldAt id (get r id)

note-IsHeld : (id : String) (n : Note) (c : DirectCall) → IsHeld id c → IsHeld id (note n c)
unfolding note
note-IsHeld id (set_caller_local_addrs a) c h = h
note-IsHeld id (set_callee_local_addrs a) c h = h
note-IsHeld id (set_peer_relay_fp a) c h = h
note-IsHeld id (set_caller_reflexive_addr a) c h = h
note-IsHeld id (set_callee_reflexive_addr a) c h = h
note-IsHeld id (set_caller_mapped_addr a) c h = h
note-IsHeld id (set_callee_mapped_addr a) c h = h

update-IsRegistry :
    (r : CallRegistry) (id : String) (f : DirectCall → DirectCall)
    → ((j : String) (c : DirectCall) → IsHeld j c → IsHeld j (f c))
    → IsRegistry r
    → IsRegistry (update r id f)
unfolding update get
update-IsRegistry r id f keeps h = record {
  unique = modify-Unique id f r.calls h.unique;
  held = λ j.
      subst (HeldAt j) (sym (lookup-modify id j f r.calls)) (at j (lookup j r.calls) (h.held j));
}
  where
    at :
        (j : String) (o : Option DirectCall)
        → HeldAt j o
        → HeldAt j (if str_eq id j then map_option f o else o)
    at j none g = ground arith
    at j (some c) g = elim (Bool-cases (str_eq id j)) [
      | inl e ↦ rw e (keeps j c g)
      | inr e ↦ rw e (g)
    ]

advance_if-IsRegistry :
    (r : CallRegistry) (id : String) (ok : DirectCall → Bool) (f : DirectCall → DirectCall)
    (o : Option DirectCall)
    → ((j : String) (c : DirectCall) → IsHeld j c → IsHeld j (f c))
    → IsRegistry r
    → IsRegistry (advance_if ok f r id o).1
unfolding advance_if
advance_if-IsRegistry r id ok f none keeps h = h
advance_if-IsRegistry r id ok f (some c) keeps h = elim (Bool-cases (ok c)) [
  | inl e ↦ rw e (update-IsRegistry r id f keeps h)
  | inr e ↦ rw e (h)
]

create_call-IsRegistry :
    (r : CallRegistry) (id caller callee : String) (now : ℕ)
    → IsRegistry r
    → IsRegistry (create_call r id caller callee now)
unfolding create_call get offered state_eq
create_call-IsRegistry r id caller callee now h = record {
  unique = insert-Unique id (offered id caller callee now) r.calls h.unique;
  held = λ j.
      subst (HeldAt j) (sym (lookup-insert id j (offered id caller callee now) r.calls))
        (at j (lookup j r.calls) (h.held j));
}
  where
    at :
        (j : String) (o : Option DirectCall)
        → HeldAt j o
        → HeldAt j (if str_eq id j then some (offered id caller callee now) else o)
    at j o g = elim (Bool-cases (str_eq id j)) [
      | inl e ↦ rw e (((eq_iff id j).0 e, refl))
      | inr e ↦ rw e (g)
    ]

expire_stale-IsRegistry :
    (r : CallRegistry) (timeout now : ℕ) → IsRegistry r → IsRegistry (expire_stale r timeout now).1
unfolding expire_stale get
expire_stale-IsRegistry r timeout now h =
    let ks = keys (is_stale timeout now) r.calls in
    record {
      unique = remove_all-Unique ks r.calls h.unique;
      held = λ j.
          subst (HeldAt j) (sym (lookup-remove_all ks j r.calls)) (at j (among j ks) (h.held j));
    }
  where
    at :
        (j : String) (b : Bool)
        → HeldAt j (lookup j r.calls)
        → HeldAt j (if b then none else lookup j r.calls)
    at j true g = tt
    at j false g = g

pub get-end_call :
    (r : CallRegistry) (id j : String) (now : ℕ)
    → get (end_call r id now).1 j ≡ (if str_eq id j then none else get r j)
unfolding end_call get
get-end_call r id j now = ground (
  arith,
  lookup-remove id j (modify id (hang_up now) r.calls),
  lookup-modify id j (hang_up now) r.calls,
)

end_call-Unique :
    (r : CallRegistry) (id : String) (now : ℕ) → Unique r.calls → Unique (end_call r id now).1.calls
unfolding end_call
end_call-Unique r id now u =
    remove-Unique id (modify id (hang_up now) r.calls) (modify-Unique id (hang_up now) r.calls u)

end_call-IsRegistry :
    (r : CallRegistry) (id : String) (now : ℕ) → IsRegistry r → IsRegistry (end_call r id now).1
end_call-IsRegistry r id now h = record {
  unique = end_call-Unique r id now h.unique;
  held = λ j. subst (HeldAt j) (sym (get-end_call r id j now)) (at j (str_eq id j) (h.held j));
}
  where
    at : (j : String) (b : Bool) → HeldAt j (get r j) → HeldAt j (if b then none else get r j)
    at j true g = tt
    at j false g = g

ring-IsHeld : (j : String) (c : DirectCall) → IsHeld j c → IsHeld j (ring c)
unfolding ring state_eq
ring-IsHeld j c h = (h.0, refl)

answer-IsHeld :
    (mode : CallAcceptMode) (room : String) (now : ℕ) (j : String) (c : DirectCall)
    → IsHeld j c
    → IsHeld j (answer mode room now c)
unfolding answer state_eq
answer-IsHeld mode room now j c h = (h.0, refl)

apply-IsRegistry : (r : CallRegistry) (o : Op) → IsRegistry r → IsRegistry (apply r o)
unfolding apply set_note set_ringing set_active
apply-IsRegistry r (create_op id caller callee now) h =
    create_call-IsRegistry r id caller callee now h
apply-IsRegistry r (note_op id n) h = update-IsRegistry r id (note n) (λ j. note-IsHeld j n) h
apply-IsRegistry r (ring_op id) h =
    advance_if-IsRegistry r id (λ c. state_eq c.state pending) ring (get r id) ring-IsHeld h
apply-IsRegistry r (activate_op id mode room now) h =
    advance_if-IsRegistry r id (λ c. state_eq c.state pending || state_eq c.state ringing)
      (answer mode room now) (get r id) (answer-IsHeld mode room now) h
apply-IsRegistry r (end_op id now) h = end_call-IsRegistry r id now h
apply-IsRegistry r (expire_op timeout now) h = expire_stale-IsRegistry r timeout now h

pub apply_all-IsRegistry :
    (r : CallRegistry) (os : List Op) → IsRegistry r → IsRegistry (apply_all r os)
unfolding apply_all
apply_all-IsRegistry r [] h = h
apply_all-IsRegistry r (o ∷ os) h = apply_all-IsRegistry (apply r o) os (apply-IsRegistry r o h)

pub new_registry-IsRegistry : IsRegistry new_registry
unfolding new_registry get lookup
new_registry-IsRegistry = record { unique = tt; held = λ j. tt }
