-- ===== src/Relay/Calls/Forward.antt =====
-- A call moves forward through its states, and its parties stay.
use Prim.Native.String.{String}
use text.Mathlib.TextEquality.{eq_iff}
use wzp.Common.{
  ℕ, ◌≤◌, ◌≡◌, refl, sym, List, [], ◌∷◌, Option, none, some, Bool, true, false, ◌||◌, inl, inr,
  arith, if◌then◌else◌, subst, Bool-cases, All,
}
use wzp.Common.Maps.{
  lookup, keys, among, map_option, lookup-insert, lookup-modify, lookup-remove_all, str_eq,
}
use wzp.Relay.Calls.{
  DirectCallState, pending, ringing, active, ended, state_eq, CallAcceptMode, DirectCall,
  CallRegistry, offered, create_call, update, Note, set_caller_local_addrs, set_callee_local_addrs,
  set_peer_relay_fp, set_caller_reflexive_addr, set_callee_reflexive_addr, set_caller_mapped_addr,
  set_callee_mapped_addr, note, set_note, get, ring, advance_if, set_ringing, answer, set_active,
  is_stale, expire_stale,
}
use wzp.Relay.Calls.Lifecycle.{
  Op, create_op, note_op, ring_op, activate_op, end_op, expire_op, apply, apply_all, get-end_call,
}

-- How far a call has come.
abbrev pub rank : DirectCallState → ℕ
rank pending = 0
rank ringing = 1
rank active = 2
rank ended = 3

-- The same parties and call, no step back.
abbrev pub Forward : DirectCall → DirectCall → Type 0
Forward c d =
    (d.call_id ≡ c.call_id)
    × (d.caller_fingerprint ≡ c.caller_fingerprint)
    × (d.callee_fingerprint ≡ c.callee_fingerprint)
    × (d.created_at ≡ c.created_at)
    × (rank c.state ≤ rank d.state)

-- An entry may vanish, and moves forward as long as it stays; none comes from nothing.
abbrev pub OnlyForward : Option DirectCall → Option DirectCall → Type 0
OnlyForward none none = Unit
OnlyForward none (some d) = ⊥
OnlyForward (some c) none = Unit
OnlyForward (some c) (some d) = Forward c d

abbrev pub creates : String → Op → Bool
creates id (create_op j caller callee now) = str_eq j id
creates id _ = false

OnlyForward-refl : (o : Option DirectCall) → OnlyForward o o
OnlyForward-refl none = tt
OnlyForward-refl (some c) = (refl, refl, refl, refl, omega arith)

OnlyForward-trans :
    (a b c : Option DirectCall) → OnlyForward a b → OnlyForward b c → OnlyForward a c
OnlyForward-trans none none none p q = tt
OnlyForward-trans none none (some c) p q = elim q [ ]
OnlyForward-trans none (some b) c p q = elim p [ ]
OnlyForward-trans (some a) none (some c) p q = elim q [ ]
OnlyForward-trans (some a) none none p q = tt
OnlyForward-trans (some a) (some b) none p q = tt
OnlyForward-trans (some a) (some b) (some c) p q = ground arith

note-Forward : (n : Note) (c : DirectCall) → Forward c (note n c)
unfolding note
note-Forward (set_caller_local_addrs a) c = (refl, refl, refl, refl, omega arith)
note-Forward (set_callee_local_addrs a) c = (refl, refl, refl, refl, omega arith)
note-Forward (set_peer_relay_fp a) c = (refl, refl, refl, refl, omega arith)
note-Forward (set_caller_reflexive_addr a) c = (refl, refl, refl, refl, omega arith)
note-Forward (set_callee_reflexive_addr a) c = (refl, refl, refl, refl, omega arith)
note-Forward (set_caller_mapped_addr a) c = (refl, refl, refl, refl, omega arith)
note-Forward (set_callee_mapped_addr a) c = (refl, refl, refl, refl, omega arith)

-- One entry is updated and the others are left.
update-Forward :
    (r : CallRegistry) (j id : String) (f : DirectCall → DirectCall)
    → ((c : DirectCall) → get r j ≡ some c → Forward c (f c))
    → OnlyForward (get r id) (get (update r j f) id)
unfolding update get
update-Forward r j id f h =
    subst (OnlyForward (lookup id r.calls)) (sym (lookup-modify j id f r.calls))
      (elim (Bool-cases (str_eq j id)) [
        | inl e ↦ rw e (at (lookup id r.calls) (λ c g. h c (ground (arith, eq_iff j id))))
        | inr e ↦ rw e (OnlyForward-refl (lookup id r.calls))
      ])
  where
    at :
        (o : Option DirectCall)
        → ((c : DirectCall) → o ≡ some c → Forward c (f c))
        → OnlyForward o (map_option f o)
    at none g = tt
    at (some c) g = g c refl

advance_if-Forward :
    (r : CallRegistry) (j id : String) (ok : DirectCall → Bool) (f : DirectCall → DirectCall)
    → ((c : DirectCall) → ok c ≡ true → Forward c (f c))
    → OnlyForward (get r id) (get (advance_if ok f r j (get r j)).1 id)
unfolding advance_if
advance_if-Forward r j id ok f h = at (get r j) refl
  where
    at :
        (o : Option DirectCall)
        → get r j ≡ o
        → OnlyForward (get r id) (get (advance_if ok f r j o).1 id)
    at none e = OnlyForward-refl (get r id)
    at (some c) e = elim (Bool-cases (ok c)) [
      | inl t ↦ rw t (update-Forward r j id f (λ d g. ground (arith, h c t)))
      | inr t ↦ rw t (OnlyForward-refl (get r id))
    ]

ring-Forward : (c : DirectCall) → state_eq c.state pending ≡ true → Forward c (ring c)
unfolding ring state_eq
ring-Forward c t = (refl, refl, refl, refl, from c.state t)
  where
    from : (s : DirectCallState) → state_eq s pending ≡ true → rank s ≤ 1
    from pending t = omega arith
    from ringing t = omega arith
    from active t = ground (arith, t)
    from ended t = ground (arith, t)

answer-Forward :
    (mode : CallAcceptMode) (room : String) (now : ℕ) (c : DirectCall)
    → (state_eq c.state pending || state_eq c.state ringing) ≡ true
    → Forward c (answer mode room now c)
unfolding answer state_eq
answer-Forward mode room now c t = (refl, refl, refl, refl, from c.state t)
  where
    from : (s : DirectCallState) → (state_eq s pending || state_eq s ringing) ≡ true → rank s ≤ 2
    from pending t = omega arith
    from ringing t = omega arith
    from active t = omega arith
    from ended t = ground (arith, t)

drop-Forward : (b : Bool) (o : Option DirectCall) → OnlyForward o (if b then none else o)
drop-Forward false o = OnlyForward-refl o
drop-Forward true none = tt
drop-Forward true (some c) = tt

pub expire_stale_lookup :
    (r : CallRegistry) (timeout now : ℕ) (id : String)
    → get (expire_stale r timeout now).1 id
      ≡ (if among id (keys (is_stale timeout now) r.calls) then none else get r id)
unfolding expire_stale get
expire_stale_lookup r timeout now id =
    lookup-remove_all (keys (is_stale timeout now) r.calls) id r.calls

apply_forward :
    (r : CallRegistry) (o : Op) (id : String)
    → creates id o ≡ false
    → OnlyForward (get r id) (get (apply r o) id)
unfolding apply set_note set_ringing set_active create_call get
apply_forward r (create_op j caller callee now) id h =
    subst (OnlyForward (lookup id r.calls))
      (sym (lookup-insert j id (offered j caller callee now) r.calls))
      (rw h (OnlyForward-refl (lookup id r.calls)))
apply_forward r (note_op j n) id h = update-Forward r j id (note n) (λ c g. note-Forward n c)
apply_forward r (ring_op j) id h =
    advance_if-Forward r j id (λ c. state_eq c.state pending) ring (λ c t. ring-Forward c t)
apply_forward r (activate_op j mode room now) id h =
    advance_if-Forward r j id (λ c. state_eq c.state pending || state_eq c.state ringing)
      (answer mode room now) (λ c t. answer-Forward mode room now c t)
apply_forward r (end_op j now) id h =
    subst (OnlyForward (get r id)) (sym (get-end_call r j id now))
      (drop-Forward (str_eq j id) (get r id))
apply_forward r (expire_op timeout now) id h =
    subst (OnlyForward (get r id)) (sym (expire_stale_lookup r timeout now id))
      (drop-Forward (among id (keys (is_stale timeout now) r.calls)) (get r id))

-- Over any operations that do not create a call under its identifier again, a call that the
-- registry holds is either removed or keeps its identifier, its two parties and the time of its
-- creation, and its state never steps back; no call appears under the identifier.
pub apply_all_forward :
    (r : CallRegistry) (os : List Op) (id : String)
    → All (λ o. creates id o ≡ false) os
    → OnlyForward (get r id) (get (apply_all r os) id)
unfolding apply_all
apply_all_forward r [] id h = OnlyForward-refl (get r id)
apply_all_forward r (o ∷ os) id h =
    OnlyForward-trans (get r id) (get (apply r o) id) (get (apply_all (apply r o) os) id)
      (apply_forward r o id h.0) (apply_all_forward (apply r o) os id h.1)
