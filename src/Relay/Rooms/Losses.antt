-- ===== src/Relay/Rooms/Losses.antt =====
-- How often the relay asks a sender for a new picture.
use Prim.Native.String.{String}
use wzp.Common.{
  ℕ, ◌+◌, ◌≤◌, ◌<◌, ◌≡◌, ◌≢◌, refl, Bool, true, false, List, [], ◌∷◌, Option, none, some, arith,
  inl, inr, Bool-cases, if◌then◌else◌, All, sym, subst, ◌∙◌,
}
use wzp.Common.Keyed.{nat_eq, string_eq, pair_eq, find, put, find-put, find-put_self}
use wzp.Common.Maps.{lookup}
use wzp.Wire.Header.{QualityReport}
use wzp.Wire.Packet.{MediaPacket}
use wzp.Relay.Rooms.{Room}
use wzp.Relay.Rooms.Manager.{RoomManager, StreamKey, allow}
use wzp.Relay.Rooms.Media.{
  update_keyframe_cache, own_stream, update_receiver_state, observe_quality, observe_room,
  take_report, forward_media, suppressed, pli_to, should_forward_pli, handle_pli, if_some,
  contains_participant,
}
use wzp.Relay.Rooms.Trace.{RoomOp, joins, leaves, sends, loses_picture, allows, apply, apply_all}

-- No one joins or leaves, and no picture is lost before the given time.
abbrev pub StaysFrom : ℕ → RoomOp → Type 0
StaysFrom t (joins name sender fp alias) = ⊥
StaysFrom t (leaves name id) = ⊥
StaysFrom t (sends name id pkt now) = Unit
StaysFrom t (loses_picture name id stream now) = t ≤ now
StaysFrom t (allows name fp) = Unit

-- The sender was asked at the time or later.
abbrev AskedFrom : ℕ → Option ℕ → Type 0
AskedFrom t none = ⊥
AskedFrom t (some u) = t ≤ u

either_asked :
    (t now : ℕ) (b : Bool) (o : Option ℕ)
    → t ≤ now
    → AskedFrom t o
    → AskedFrom t (if b then some now else o)
either_asked t now true o b h = b
either_asked t now false o b h = h

put_later :
    (t now : ℕ) (k j : StreamKey) (m : List (StreamKey × ℕ)) (late : Bool)
    → t ≤ now
    → AskedFrom t (find k m)
    → AskedFrom t (find k (if late then m else put j now m))
put_later t now k j m true b h = h
put_later t now k j m false b h =
    subst (AskedFrom t) (sym (find-put k j now m)) (either_asked t now _ (find k m) b h)

take_report-pli :
    (m : RoomManager) (name : String) (id : ℕ) (r : Option QualityReport) (now : ℕ)
    → (take_report m name id r now).1.pli_state ≡ m.pli_state
unfolding take_report observe_quality update_receiver_state
take_report-pli m name id none now = refl
take_report-pli m name id (some r) now = found (lookup name m.rooms)
  where
    found :
        (o : Option Room)
        → (observe_room
            (update_receiver_state m name id r.bitrate_cap_kbps r.loss_pct now)
            name
            o
            id
            r
            now).1.pli_state
          ≡ m.pli_state
    found none = refl
    found (some room) = refl

forward_media-pli :
    (m : RoomManager) (name : String) (id : ℕ) (pkt : MediaPacket) (now : ℕ)
    → (forward_media m name id pkt now).1.pli_state ≡ m.pli_state
unfolding forward_media update_keyframe_cache own_stream
forward_media-pli m name id pkt now = elim (Bool-cases (contains_participant m name id)) [
  | inl e ↦ rw e (take_report-pli _ name id pkt.quality_report now)
  | inr e ↦ rw e refl
]

pli_to-Asked :
    (t : ℕ) (k : StreamKey) (m : RoomManager) (name : String) (stream now : ℕ) (o : Option ℕ)
    → t ≤ now
    → AskedFrom t (find k m.pli_state)
    → AskedFrom t (find k (pli_to m name stream now o).1.pli_state)
unfolding pli_to
pli_to-Asked t k m name stream now none b h = h
pli_to-Asked t k m name stream now (some i) b h = put_later t now k _ m.pli_state _ b h

apply-Asked :
    (t : ℕ) (k : StreamKey) (m : RoomManager) (o : RoomOp)
    → StaysFrom t o
    → AskedFrom t (find k m.pli_state)
    → AskedFrom t (find k (apply m o).pli_state)
unfolding apply allow handle_pli should_forward_pli
apply-Asked t k m (joins name sender fp alias) s h = absurd s
apply-Asked t k m (leaves name id) s h = absurd s
apply-Asked t k m (sends name id pkt now) s h = rw (forward_media-pli m name id pkt now) h
apply-Asked t k m (loses_picture name id stream now) s h =
    pli_to-Asked t k m name stream now (find (name, stream) m.stream_owner) s h
apply-Asked t k m (allows name fp) s h = h

apply_all-Asked :
    (t : ℕ) (k : StreamKey) (m : RoomManager) (os : List RoomOp)
    → All (StaysFrom t) os
    → AskedFrom t (find k m.pli_state)
    → AskedFrom t (find k (apply_all m os).pli_state)
unfolding apply_all
apply_all-Asked t k m [] s h = h
apply_all-Asked t k m (o ∷ os) s h =
    apply_all-Asked t k (apply m o) os s.1 (apply-Asked t k m o s.0 h)

-- A signal that goes on leaves the time at which it did.
forwarded-Asked :
    (m : RoomManager) (name : String) (stream now id : ℕ) (o : Option ℕ)
    → (pli_to m name stream now o).0 ≡ some id
    → AskedFrom now (find (name, (id, stream)) (pli_to m name stream now o).1.pli_state)
unfolding pli_to
forwarded-Asked m name stream now id none e = absurd (ground (arith, e))
forwarded-Asked m name stream now id (some i) e =
    elim (Bool-cases (suppressed (find (name, (i, stream)) m.pli_state) now)) [
      | inl l ↦ let silent : none ≡ some id = rw l at e in absurd (ground (arith, silent))
      | inr l ↦
          let heard : some i ≡ some id = rw l at e in
          let same : i ≡ id = cc in
          rw (l, same, find-put_self (name, (id, stream)) now m.pli_state) (omega arith)
    ]

asked_late :
    (m : RoomManager) (name : String) (stream t now id : ℕ) (o : Option ℕ)
    → now < t + 200
    → AskedFrom t (find (name, (id, stream)) m.pli_state)
    → (pli_to m name stream now o).0 ≢ some id
unfolding pli_to
asked_late m name stream t now id none b h e = absurd (ground (arith, e))
asked_late m name stream t now id (some i) b h e =
    elim (Bool-cases (suppressed (find (name, (i, stream)) m.pli_state) now)) [
      | inl l ↦ let silent : none ≡ some id = rw l at e in absurd (ground (arith, silent))
      | inr l ↦
          let heard : some i ≡ some id = rw l at e in
          let same : i ≡ id = cc in
          let loud : suppressed (find (name, (id, stream)) m.pli_state) now ≡ false =
            rw same at l in
          absurd (ground (arith, asked_quiet (find (name, (id, stream)) m.pli_state) h, loud))
    ]
  where
    asked_quiet : (o : Option ℕ) → AskedFrom t o → suppressed o now ≡ true
    asked_quiet none h = absurd h
    asked_quiet (some u) h = ground (arith, h)

pli_to_either :
    (m : RoomManager) (name : String) (stream now id : ℕ)
    → (pli_to m name stream now (some id)).0 ≢ some id
    → (pli_to m name stream now (some id)).0 ≡ none
unfolding pli_to
pli_to_either m name stream now id h =
    elim (Bool-cases (suppressed (find (name, (id, stream)) m.pli_state) now)) [
      | inl l ↦ rw l refl
      | inr l ↦ absurd (h (rw l refl))
    ]

passed_to :
    (m : RoomManager) (name : String) (stream now : ℕ) (o : Option ℕ) (l : List ℕ)
    → if_some (pli_to m name stream now o).0 l ≢ []
    → (id : ℕ) × (o ≡ some id) × ((pli_to m name stream now o).0 ≡ some id)
unfolding pli_to
passed_to m name stream now none l h = absurd (h refl)
passed_to m name stream now (some id) l h =
    elim (Bool-cases (suppressed (find (name, (id, stream)) m.pli_state) now)) [
      | inl s ↦ absurd (h (rw s refl))
      | inr s ↦ (id, refl, rw s refl)
    ]

-- Once a loss of a stream was passed on to anyone, no loss of that stream in the room that comes within
-- 200 ms is passed on to anyone, whichever participant reports it, and whatever is sent, lost and
-- granted in between: as long as the stream then has the owner that it had, no one joins or leaves,
-- and no loss is timed before.
pub handle_pli_pace :
    (m : RoomManager) (name : String) (reporter other stream t now : ℕ) (os : List RoomOp)
    → (handle_pli m name reporter stream t).0 ≢ []
    → All (StaysFrom t) os
    → now < t + 200
    → find (name, stream) (apply_all (handle_pli m name reporter stream t).1 os).stream_owner
      ≡ find (name, stream) m.stream_owner
    → (handle_pli (apply_all (handle_pli m name reporter stream t).1 os) name other stream now).0
      ≡ []
unfolding handle_pli should_forward_pli
handle_pli_pace m name reporter other stream t now os e s b o =
    let r = pli_to m name stream t (find (name, stream) m.stream_owner) in
    let after = apply_all r.1 os in
    let (id, owner, passed) = passed_to m name stream t (find (name, stream) m.stream_owner) _ e in
    let asked =
      apply_all-Asked t (name, (id, stream)) r.1 os s
        (forwarded-Asked m name stream t id (find (name, stream) m.stream_owner) passed) in
    let silent =
      pli_to_either after name stream now id
        (asked_late after name stream t now id (some id) b asked) in
    let quiet : (pli_to after name stream now (find (name, stream) after.stream_owner)).0 ≡ none =
      subst (λ x. (pli_to after name stream now x).0 ≡ none) (sym (o ∙ owner)) silent in
    rw quiet refl
