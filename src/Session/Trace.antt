-- ===== src/Session/Trace.antt =====
-- What a session has been through: the events that it accepted.
use wzp.Common.{ℕ, suc, ◌+◌, ◌%◌, ◌≡◌, refl, true, false, List, [], ◌∷◌, ◌++◌, arith, ap, ◌∙◌}
use wzp.Common.Words.{u32_mod}
use wzp.Session.{
  Session, SessionState, idle, connecting, handshaking, active, rekeying, closed, SessionEvent,
  initiate, connected, handshake_complete, rekey_start, rekey_complete, terminate, connection_lost,
  Transition, moved, refused, Target, goes, counts, stuck, new_session, target, transition,
  is_media_active,
}

-- A session and the events that it accepted so far; a refused event leaves both as they were.
pub record Traced : Type 0 where
  pub session : Session
  pub accepted : List SessionEvent

abbrev pub after : Traced → SessionEvent → Transition → Traced
after t e (moved s) = record { session = s; accepted = t.accepted ++ e ∷ [] }
after t e (refused r) = t

unfoldable pub run : Traced → List (SessionEvent × ℕ) → Traced
run t [] = t
run t ((e, now) ∷ es) = run (after t e (transition t.session e now)) es

abbrev pub start : List ℕ → Traced
start id = record { session = new_session id; accepted = [] }

abbrev pub rekeys : List SessionEvent → ℕ
rekeys [] = 0
rekeys (rekey_complete ∷ es) = suc (rekeys es)
rekeys (_ ∷ es) = rekeys es

-- Where each state stands on the way of a call.
abbrev pub Travelled : SessionState → List SessionEvent → Type 0
Travelled idle es = es ≡ []
Travelled connecting es = es ≡ initiate ∷ []
Travelled handshaking es = es ≡ initiate ∷ connected ∷ []
Travelled active es =
    (rest : List SessionEvent) × (es ≡ initiate ∷ connected ∷ handshake_complete ∷ rest)
Travelled rekeying es =
    (rest : List SessionEvent) × (es ≡ initiate ∷ connected ∷ handshake_complete ∷ rest)
Travelled closed es = (rest : List SessionEvent) × (es ≡ initiate ∷ rest)

step-Travelled :
    (s : SessionState) (e : SessionEvent) (es : List SessionEvent)
    → Travelled s es
    → elim (target s e) as (λ t. Type 0) [
      | goes t ↦ Travelled t (es ++ e ∷ [])
      | counts t ↦ Travelled t (es ++ e ∷ [])
      | stuck ↦ Unit
    ]
unfolding target
step-Travelled idle initiate es p = ground arith
step-Travelled connecting connected es p = ground arith
step-Travelled connecting (terminate r) es p = (terminate r ∷ [], ground arith)
step-Travelled connecting connection_lost es p = (connection_lost ∷ [], ground arith)
step-Travelled handshaking handshake_complete es p = ([], ground arith)
step-Travelled handshaking (terminate r) es p = (connected ∷ terminate r ∷ [], ground arith)
step-Travelled handshaking connection_lost es p = (connected ∷ connection_lost ∷ [], ground arith)
step-Travelled active rekey_start es (r, p) = (r ++ rekey_start ∷ [], ground arith)
step-Travelled active (terminate t) es (r, p) =
    (connected ∷ handshake_complete ∷ r ++ terminate t ∷ [], ground arith)
step-Travelled active connection_lost es (r, p) =
    (connected ∷ handshake_complete ∷ r ++ connection_lost ∷ [], ground arith)
step-Travelled rekeying rekey_complete es (r, p) = (r ++ rekey_complete ∷ [], ground arith)
step-Travelled rekeying (terminate t) es (r, p) =
    (connected ∷ handshake_complete ∷ r ++ terminate t ∷ [], ground arith)
step-Travelled rekeying connection_lost es (r, p) =
    (connected ∷ handshake_complete ∷ r ++ connection_lost ∷ [], ground arith)
step-Travelled _ _ es p = tt

after-Travelled :
    (t : Traced) (e : SessionEvent) (now : ℕ)
    → Travelled t.session.state t.accepted
    → let u = after t e (transition t.session e now) in Travelled u.session.state u.accepted
unfolding transition
after-Travelled t e now p =
    go (target t.session.state e) (step-Travelled t.session.state e t.accepted p)
  where
    go :
        (g : Target)
        → elim g as (λ g. Type 0) [
          | goes s ↦ Travelled s (t.accepted ++ e ∷ [])
          | counts s ↦ Travelled s (t.accepted ++ e ∷ [])
          | stuck ↦ Unit
        ]
        → let u = after t e (elim g [
          | goes s ↦ moved (record t.session { state = s; last_transition_ms = now })
          | counts s ↦ moved (record t.session {
            state = s;
            last_transition_ms = now;
            rekey_count = (t.session.rekey_count + 1) % u32_mod;
          })
          | stuck ↦ refused (record { from = t.session.state; event = e })
        ]) in
          Travelled u.session.state u.accepted
    go (goes s) q = q
    go (counts s) q = q
    go stuck q = p

run-Travelled :
    (t : Traced) (es : List (SessionEvent × ℕ))
    → Travelled t.session.state t.accepted
    → Travelled (run t es).session.state (run t es).accepted
unfolding run
run-Travelled t [] p = p
run-Travelled t ((e, now) ∷ es) p =
    run-Travelled (after t e (transition t.session e now)) es (after-Travelled t e now p)

media-Travelled :
    (s : SessionState) (es : List SessionEvent)
    → Travelled s es
    → elim s [ active ↦ true | rekeying ↦ true | _ ↦ false ] ≡ true
    → (rest : List SessionEvent) × (es ≡ initiate ∷ connected ∷ handshake_complete ∷ rest)
media-Travelled active es p h = p
media-Travelled rekeying es p h = p
media-Travelled _ es p h = absurd (ground arith)

-- Media can flow in a session only after it accepted the initiation, the connection and the
-- completed handshake as its first three events, whatever events it was sent.
pub media_after_handshake :
    (id : List ℕ) (es : List (SessionEvent × ℕ))
    → is_media_active (run (start id) es).session ≡ true
    → (rest : List SessionEvent) × ((run (start id) es).accepted
        ≡ initiate ∷ connected ∷ handshake_complete ∷ rest)
unfolding new_session
media_after_handshake id es h = media-Travelled _ _ (run-Travelled (start id) es refl) h

rekeys-append :
    (es : List SessionEvent) (e : SessionEvent)
    → rekeys (es ++ e ∷ []) ≡ rekeys es + rekeys (e ∷ [])
rekeys-append [] e = omega arith
rekeys-append (rekey_complete ∷ es) e = omega (arith, rekeys-append es e)
rekeys-append (_ ∷ es) e = rekeys-append es e

-- The rekeys counted by an event are the ones that `transition` counts.
target_counts : (s : SessionState) (e : SessionEvent) → elim (target s e) as (λ t. Type 0) [
  | goes t ↦ rekeys (e ∷ []) ≡ 0
  | counts t ↦ rekeys (e ∷ []) ≡ 1
  | stuck ↦ Unit
]
unfolding target
target_counts idle initiate = refl
target_counts connecting connected = refl
target_counts connecting (terminate r) = refl
target_counts connecting connection_lost = refl
target_counts handshaking handshake_complete = refl
target_counts handshaking (terminate r) = refl
target_counts handshaking connection_lost = refl
target_counts active rekey_start = refl
target_counts active (terminate r) = refl
target_counts active connection_lost = refl
target_counts rekeying rekey_complete = refl
target_counts rekeying (terminate r) = refl
target_counts rekeying connection_lost = refl
target_counts _ _ = tt

after_rekey_count :
    (t : Traced) (e : SessionEvent) (now : ℕ)
    → t.session.rekey_count ≡ rekeys t.accepted % u32_mod
    → let u = after t e (transition t.session e now) in
      u.session.rekey_count ≡ rekeys u.accepted % u32_mod
unfolding transition
after_rekey_count t e now p =
    ground (arith, target_counts t.session.state e, rekeys-append t.accepted e)

run_rekey_count :
    (t : Traced) (es : List (SessionEvent × ℕ))
    → t.session.rekey_count ≡ rekeys t.accepted % u32_mod
    → (run t es).session.rekey_count ≡ rekeys (run t es).accepted % u32_mod
unfolding run
run_rekey_count t [] p = p
run_rekey_count t ((e, now) ∷ es) p =
    run_rekey_count (after t e (transition t.session e now)) es (after_rekey_count t e now p)

-- After any events on a new session its counter is the number of rekeys that it completed, mod
-- 2^32.
pub rekey_count-rekeys :
    (id : List ℕ) (es : List (SessionEvent × ℕ))
    → (run (start id) es).session.rekey_count ≡ rekeys (run (start id) es).accepted % u32_mod
unfolding new_session
rekey_count-rekeys id es = run_rekey_count (start id) es refl

closed-target : (e : SessionEvent) → target closed e ≡ stuck
unfolding target
closed-target initiate = refl
closed-target _ = refl

closed-after :
    (t : Traced) (e : SessionEvent) (now : ℕ)
    → t.session.state ≡ closed
    → after t e (transition t.session e now) ≡ t
unfolding transition
closed-after t e now h = ground (arith, closed-target e)

-- A closed session is closed for good: it refuses every event and stays as it is.
pub closed_forever :
    (t : Traced) (es : List (SessionEvent × ℕ)) → t.session.state ≡ closed → run t es ≡ t
unfolding run
closed_forever t [] h = refl
closed_forever t ((e, now) ∷ es) h =
    let a = closed-after t e now h in ap (λ u. run u es) a ∙ closed_forever t es h
