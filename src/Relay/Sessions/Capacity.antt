-- ===== src/Relay/Sessions/Capacity.antt =====
-- The relay never holds more sessions than its limit, and admits one exactly below it.
use Prim.Native.String.{String}
use wzp.Common.{
  ℕ, ◌+◌, ◌≤◌, ◌<◌, ◌≡◌, ◌⊎◌, ◌∙◌, refl, inl, inr, Bool-cases, Option-cases, List, [], ◌∷◌, Option,
  none, some, arith, leb, if◌then◌else◌, length,
}
use wzp.Common.SortedMaps.{lookup, or_insert, lookup-insert, length-insert, length-remove}
use wzp.Relay.Sessions.{
  RelaySession, SessionInfo, active, SessionManager, new_manager, new_relay_session, total_count,
  create_pipeline_session, remove_pipeline_session, retain_busy, expire_idle, create_session,
  remove_session,
}

pub data Operation : Type 0 where
  create_pipeline remove_pipeline removes : ℕ → Operation
  creates : String → Option String → ℕ → ℕ → Operation
  expires : ℕ → ℕ → Operation

abbrev pub apply : SessionManager → Operation → SessionManager
apply m (create_pipeline id) = (create_pipeline_session m id).1
apply m (remove_pipeline id) = (remove_pipeline_session m id).1
apply m (removes id) = remove_session m id
apply m (creates room fingerprint id now) = (create_session m room fingerprint id now).1
apply m (expires now timeout) = (expire_idle m now timeout).1

abbrev pub apply_all : SessionManager → List Operation → SessionManager
apply_all m [] = m
apply_all m (o ∷ os) = apply_all (apply m o) os

length-or_insert :
    (id : ℕ) (s : RelaySession) (ss : List (ℕ × RelaySession))
    → length (or_insert id s ss) ≤ length ss + 1
unfolding or_insert
length-or_insert id s ss = ground (arith, length-insert id s ss)

length-retain_busy :
    (now timeout : ℕ) (ss : List (ℕ × RelaySession))
    → length (retain_busy now timeout ss) ≤ length ss
unfolding retain_busy
length-retain_busy now timeout [] = omega arith
length-retain_busy now timeout ((id, s) ∷ ss) = ground (arith, length-retain_busy now timeout ss)

-- The sessions keep to the limit, which stays.
abbrev pub Holds : ℕ → SessionManager → Type 0
Holds most m = (total_count m ≤ most) × (m.max_sessions ≡ most)

apply-Holds :
    (most : ℕ) (m : SessionManager) (o : Operation) → Holds most m → Holds most (apply m o)
unfolding create_pipeline_session remove_pipeline_session expire_idle create_session remove_session
apply-Holds most m (create_pipeline id) (h, e) =
    (ground (arith, h, e, length-or_insert id (new_relay_session id) m.sessions), ground (arith, e))
apply-Holds most m (remove_pipeline id) (h, e) = (omega (arith, h, length-remove id m.sessions), e)
apply-Holds most m (removes id) (h, e) = (omega (arith, h, length-remove id m.tracked), e)
apply-Holds most m (creates room fingerprint id now) (h, e) =
    let info : SessionInfo = record {
      room_name = room;
      fingerprint = fingerprint;
      connected_at = now;
      state = active;
    } in
    (ground (arith, h, e, length-insert id info m.tracked), ground (arith, e))
apply-Holds most m (expires now timeout) (h, e) =
    (omega (arith, h, length-retain_busy now timeout m.sessions), e)

lookup-or_insert :
    (id : ℕ) (s : RelaySession) (ss : List (ℕ × RelaySession))
    → (t : RelaySession) × (lookup id (or_insert id s ss) ≡ some t)
unfolding or_insert lookup
lookup-or_insert id s ss = elim (Option-cases (lookup id ss)) [
  | inl n ↦ (s, rw (or_insert, n) (lookup-insert id id s ss ∙ ground arith))
  | inr (t, e) ↦ (t, rw (or_insert, e) e)
]

-- A session of a pipeline is admitted below the limit: it is stored and given out.
unfoldable pub Admits : ℕ → SessionManager → ℕ → Type 0
Admits most m id =
    let r = create_pipeline_session m id in
    ((most ≤ total_count m) × (r.0 ≡ none) × (r.1 ≡ m))
    ⊎ ((total_count m < most)
        × ((s : RelaySession) × (r.0 ≡ some s) × (lookup id r.1.sessions ≡ some s)))

create_pipeline_session-Admits :
    (most : ℕ) (m : SessionManager) (id : ℕ) → m.max_sessions ≡ most → Admits most m id
unfolding Admits create_pipeline_session
create_pipeline_session-Admits most m id e =
    elim (Bool-cases (leb m.max_sessions (total_count m))) [
      | inl f ↦ rw f (inl (ground (arith, f, e), refl, refl))
      | inr f ↦
          let (s, l) = lookup-or_insert id (new_relay_session id) m.sessions in
          rw f (inr (ground (arith, f, e), (s, l, l)))
    ]

-- After any operations, whatever identifiers come up, the pipeline sessions and the tracked ones
-- together keep to the limit; and one more, of either kind, is refused exactly when the limit is
-- reached. A refused pipeline session changes nothing, and an admitted one is stored and given out.
pub apply_all-capacity :
    (most : ℕ) (os : List Operation) (room : String) (fingerprint : Option String) (id now : ℕ)
    → Holds most (apply_all (new_manager most) os)
      × ((create_session (apply_all (new_manager most) os) room fingerprint id now).0
          ≡ (if leb most (total_count (apply_all (new_manager most) os)) then none else some id))
      × Admits most (apply_all (new_manager most) os) id
unfolding new_manager create_session
apply_all-capacity most os room fingerprint id now =
    let h = from most (new_manager most) os (omega arith, refl) in
    (
      h,
      ground (arith, h.1),
      create_pipeline_session-Admits most (apply_all (new_manager most) os) id h.1,
    )
  where
    from :
        (most : ℕ) (m : SessionManager) (os : List Operation)
        → Holds most m
        → Holds most (apply_all m os)
    from most m [] h = h
    from most m (o ∷ os) h = from most (apply m o) os (apply-Holds most m o h)
