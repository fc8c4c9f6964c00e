-- ===== src/Relay/Calls/Answers.antt =====
-- What the registry answers, after any operations.
use Prim.Native.String.{String}
use text.Mathlib.TextEquality.{eq_iff}
use wzp.Common.{
  ℕ, ◌≤◌, ◌≡◌, refl, List, Option, none, some, Bool, true, false, not, ◌||◌, inl, inr, arith,
  if◌then◌else◌, length, subst, Bool-cases, All,
}
use wzp.Common.Maps.{lookup, holds, lookup-modify, among-keys, count_all, str_eq}
use wzp.Relay.Calls.{
  DirectCallState, pending, ringing, active, ended, state_eq, CallAcceptMode, DirectCall,
  CallRegistry, new_registry, update, get, advance_if, answer, set_active, is_stale, expire_stale,
  active_count, peer_of, peer_fingerprint,
}
use wzp.Relay.Calls.Lifecycle.{
  Op, apply_all, IsRegistry, HeldAt, apply_all-IsRegistry, new_registry-IsRegistry,
}
use wzp.Relay.Calls.Forward.{rank, OnlyForward, creates, apply_all_forward, expire_stale_lookup}

-- After any operations on a new registry, the count of the active calls is the number of the calls
-- that the registry holds: no ended call stays in it.
pub active_count_lem :
    (os : List Op)
    → active_count (apply_all new_registry os) ≡ length (apply_all new_registry os).calls
unfolding active_count get
active_count_lem os =
    let h = apply_all-IsRegistry new_registry os new_registry-IsRegistry in
    count_all (λ c. not (state_eq c.state ended)) (apply_all new_registry os).calls h.unique
      (λ k c e. ground (arith, subst (HeldAt k) e (h.held k)))

-- A registry as it is after any operations, and a new one.
apply-new : (os : List Op) → IsRegistry (apply_all new_registry os)
apply-new os = apply_all-IsRegistry new_registry os new_registry-IsRegistry

-- After any operations on a new registry, `expire_stale` removes the pending calls that are older
-- than the timeout and no other: a call is found afterwards exactly when it was found before and
-- is not stale.
pub expire_stale_lem :
    (os : List Op) (timeout now : ℕ) (id : String)
    → get (expire_stale (apply_all new_registry os) timeout now).1 id ≡ (
        if holds (is_stale timeout now) (get (apply_all new_registry os) id)
        then none
        else get (apply_all new_registry os) id)
unfolding get
expire_stale_lem os timeout now id =
    let r = apply_all new_registry os in
    ground (
      arith,
      expire_stale_lookup r timeout now id,
      among-keys (is_stale timeout now) id r.calls (apply-new os).unique,
    )

-- The entry that a successful `set_active` leaves.
set_active-get :
    (r : CallRegistry) (id : String) (mode : CallAcceptMode) (room : String) (now : ℕ)
    → (set_active r id mode room now).0 ≡ true
    → (c : DirectCall) × (get (set_active r id mode room now).1 id ≡ some c) × (c.state ≡ active)
unfolding set_active advance_if get update answer
set_active-get r id mode room now h = at (lookup id r.calls) refl h
  where
    ok : DirectCall → Bool
    ok d = state_eq d.state pending || state_eq d.state ringing

    at :
        (o : Option DirectCall)
        → lookup id r.calls ≡ o
        → (advance_if ok (answer mode room now) r id o).0 ≡ true
        → (c : DirectCall) × (get (advance_if ok (answer mode room now) r id o).1 id ≡ some c)
          × (c.state ≡ active)
    at none e g = ground (arith, g)
    at (some d) e g = elim (Bool-cases (ok d)) [
      | inl t ↦ rw t (
        answer mode room now d,
        ground (arith, lookup-modify id id (answer mode room now) r.calls, eq_iff id id),
        refl,
      )
      | inr t ↦ ground (arith, g, t)
    ]

-- What is past the guard of `set_active` is refused.
past_guard : (s : DirectCallState) → 2 ≤ rank s → (state_eq s pending || state_eq s ringing) ≡ false
unfolding state_eq
past_guard pending h = ground (arith, h)
past_guard ringing h = ground (arith, h)
past_guard active h = refl
past_guard ended h = refl

set_active_past :
    (r : CallRegistry) (id : String) (mode : CallAcceptMode) (room : String) (now : ℕ)
    (c : DirectCall)
    → c.state ≡ active
    → OnlyForward (some c) (get r id)
    → (set_active r id mode room now).0 ≡ false
unfolding set_active advance_if
set_active_past r id mode room now c a h = at (get r id) h
  where
    at :
        (o : Option DirectCall)
        → OnlyForward (some c) o
        → (advance_if
            (λ d. state_eq d.state pending || state_eq d.state ringing)
            (answer mode room now)
            r
            id
            o).0
          ≡ false
    at none g = refl
    at (some d) g = rw (past_guard d.state (subst (λ s. rank s ≤ rank d.state) a g.4)) refl

-- A call is accepted once: when `set_active` succeeded, `set_active` on the same identifier fails
-- after any operations that do not create a call under that identifier again.
pub set_active_once :
    (r : CallRegistry) (id : String) (mode : CallAcceptMode) (room : String) (now : ℕ)
    (os : List Op) (mode_two : CallAcceptMode) (room_two : String) (later : ℕ)
    → (set_active r id mode room now).0 ≡ true
    → All (λ o. creates id o ≡ false) os
    → (set_active (apply_all (set_active r id mode room now).1 os) id mode_two room_two later).0
      ≡ false
set_active_once r id mode room now os mode_two room_two later h g =
    let before = (set_active r id mode room now).1 in
    let found = set_active-get r id mode room now h in
    let after = apply_all before os in
    set_active_past after id mode_two room_two later found.0 found.2
      (subst (λ o. OnlyForward o (get after id)) found.1 (apply_all_forward before os id g))

-- The peer of the peer is oneself: in a call that the registry holds between two different
-- fingerprints, the peer of either party is the other one.
pub peer_fingerprint_swap :
    (r : CallRegistry) (id : String) (c : DirectCall)
    → get r id ≡ some c
    → str_eq c.caller_fingerprint c.callee_fingerprint ≡ false
    → (peer_fingerprint r id c.caller_fingerprint ≡ some c.callee_fingerprint)
      × (peer_fingerprint r id c.callee_fingerprint ≡ some c.caller_fingerprint)
unfolding peer_fingerprint peer_of
peer_fingerprint_swap r id c e h =
    rw e (ground (arith, eq_iff c.caller_fingerprint c.caller_fingerprint))
