-- ===== src/Relay/Rooms/Trace.antt =====
-- The rooms of a relay over any run of what participants do.
use Prim.Native.String.{String}
use wzp.Common.{
  ℕ, ◌+◌, ◌≤◌, ◌<◌, ◌≡◌, refl, List, [], ◌∷◌, Option, none, some, arith, inl, inr, Bool-cases,
  length,
}
use wzp.Common.Words.{u64_mod}
use wzp.Common.Maps.{lookup}
use wzp.Common.Keyed.{nat_eq, string_eq, find, find-All, pair_eq}
use wzp.Wire.Header.{QualityReport}
use wzp.Wire.Packet.{MediaPacket}
use wzp.Relay.Rooms.{ParticipantSender, Room, is_empty}
use wzp.Relay.Rooms.Manager.{
  RoomManager, manager_with, allow, is_authorized, clear_room_state, clear_participant_state,
}
use wzp.Relay.Rooms.Membership.{join, admit, leave, leave_room, without}
use wzp.Relay.Rooms.Media.{
  contains_participant, update_keyframe_cache, own_stream, update_receiver_state, observe_quality,
  observe_room, take_report, forward_media, handle_pli, pli_to, should_forward_pli,
}
use wzp.Relay.Rooms.Tidy.{OfOwner}
use wzp.Relay.Rooms.Steps.{pli_to-IsTidy}
use wzp.Relay.Rooms.Entering.{Present, IsRelay, join-IsRelay, rooms-IsTidy}
use wzp.Relay.Rooms.Leaving.{leave-IsRelay}
use wzp.Relay.Rooms.Reports.{forward_media-IsRelay}

-- What reaches the rooms of a relay.
pub data RoomOp : Type 0 where
  joins : String → ParticipantSender → Option String → Option String → RoomOp
  leaves : String → ℕ → RoomOp
  sends : String → ℕ → MediaPacket → ℕ → RoomOp
  loses_picture : String → ℕ → ℕ → ℕ → RoomOp
  allows : String → String → RoomOp

unfoldable pub apply : RoomManager → RoomOp → RoomManager
apply m (joins name sender fp alias) = (join m name sender fp alias).1
apply m (leaves name id) = (leave m name id).1
apply m (sends name id pkt now) = (forward_media m name id pkt now).1
apply m (loses_picture name id stream now) = (handle_pli m name id stream now).1
apply m (allows name fp) = allow m name fp

unfoldable pub apply_all : RoomManager → List RoomOp → RoomManager
apply_all m [] = m
apply_all m (o ∷ os) = apply_all (apply m o) os

pli_to-IsRelay :
    (m : RoomManager) (name : String) (stream now : ℕ) (o : Option ℕ)
    → ((i : ℕ) → o ≡ some i → Present m.rooms name i)
    → IsRelay m
    → IsRelay (pli_to m name stream now o).1
unfolding pli_to
pli_to-IsRelay m name stream now none f h = h
pli_to-IsRelay m name stream now (some i) f h = record {
  tidy = pli_to-IsTidy (Present m.rooms) m name stream now (some i) f h.tidy;
  occupied = h.occupied;
}

handle_pli-IsRelay :
    (m : RoomManager) (name : String) (id stream now : ℕ)
    → IsRelay m
    → IsRelay (handle_pli m name id stream now).1
unfolding handle_pli should_forward_pli
handle_pli-IsRelay m name id stream now h =
    pli_to-IsRelay m name stream now (find (name, stream) m.stream_owner)
      (λ i e.
        find-All (OfOwner (Present m.rooms)) (name, stream) i m.stream_owner h.tidy.owner_tidy e)
      h

apply-IsRelay :
    (m : RoomManager) (o : RoomOp)
    → m.next_participant_id + 1 < u64_mod
    → IsRelay m
    → IsRelay (apply m o)
unfolding apply allow
apply-IsRelay m (joins name sender fp alias) b h = join-IsRelay m name sender fp alias b h
apply-IsRelay m (leaves name id) b h = leave-IsRelay m name id h
apply-IsRelay m (sends name id pkt now) b h = forward_media-IsRelay m name id pkt now h
apply-IsRelay m (loses_picture name id stream now) b h = handle_pli-IsRelay m name id stream now h
apply-IsRelay m (allows name fp) b h = record {
  tidy = rooms-IsTidy _ m _ refl refl refl refl refl h.tidy;
  occupied = h.occupied;
}

join-next :
    (m : RoomManager) (name : String) (sender : ParticipantSender) (fp alias : Option String)
    → (join m name sender fp alias).1.next_participant_id ≤ m.next_participant_id + 1
unfolding join admit
join-next m name sender fp alias = elim (Bool-cases (is_authorized m name fp)) [
  | inl e ↦ rw e (omega arith)
  | inr e ↦ rw e (omega arith)
]

leave_room-next :
    (m : RoomManager) (name : String) (o : Option Room) (id : ℕ)
    → (leave_room m name o id).1.next_participant_id ≡ m.next_participant_id
unfolding leave_room clear_room_state clear_participant_state
leave_room-next m name none id = refl
leave_room-next m name (some room) id = elim (Bool-cases (is_empty (without room id))) [
  | inl e ↦ rw e refl
  | inr e ↦ rw e refl
]

observe_room-next :
    (m : RoomManager) (name : String) (o : Option Room) (id : ℕ) (r : QualityReport) (now : ℕ)
    → (observe_room m name o id r now).1.next_participant_id ≡ m.next_participant_id
observe_room-next m name none id r now = refl
observe_room-next m name (some room) id r now = refl

take_report-next :
    (m : RoomManager) (name : String) (id : ℕ) (r : Option QualityReport) (now : ℕ)
    → (take_report m name id r now).1.next_participant_id ≡ m.next_participant_id
unfolding take_report observe_quality update_receiver_state
take_report-next m name id none now = refl
take_report-next m name id (some r) now = observe_room-next _ name (lookup name m.rooms) id r now

forward_media-next :
    (m : RoomManager) (name : String) (id : ℕ) (pkt : MediaPacket) (now : ℕ)
    → (forward_media m name id pkt now).1.next_participant_id ≡ m.next_participant_id
unfolding forward_media update_keyframe_cache own_stream
forward_media-next m name id pkt now = elim (Bool-cases (contains_participant m name id)) [
  | inl e ↦ rw e (take_report-next _ name id pkt.quality_report now)
  | inr e ↦ rw e refl
]

pli_to-next :
    (m : RoomManager) (name : String) (stream now : ℕ) (o : Option ℕ)
    → (pli_to m name stream now o).1.next_participant_id ≡ m.next_participant_id
unfolding pli_to
pli_to-next m name stream now none = refl
pli_to-next m name stream now (some i) = refl

apply-next :
    (m : RoomManager) (o : RoomOp) → (apply m o).next_participant_id ≤ m.next_participant_id + 1
unfolding apply allow leave handle_pli should_forward_pli
apply-next m (joins name sender fp alias) = join-next m name sender fp alias
apply-next m (leaves name id) = omega (arith, leave_room-next m name (lookup name m.rooms) id)
apply-next m (sends name id pkt now) = omega (arith, forward_media-next m name id pkt now)
apply-next m (loses_picture name id stream now) =
    omega (arith, pli_to-next m name stream now (find (name, stream) m.stream_owner))
apply-next m (allows name fp) = omega arith

apply_all-IsRelay :
    (m : RoomManager) (os : List RoomOp)
    → m.next_participant_id + length os < u64_mod
    → IsRelay m
    → IsRelay (apply_all m os)
unfolding apply_all
apply_all-IsRelay m [] b h = h
apply_all-IsRelay m (o ∷ os) b h =
    apply_all-IsRelay (apply m o) os (omega (arith, apply-next m o))
      (apply-IsRelay m o (omega arith) h)

-- After any run of joins, departures, media, picture losses and grants on a new relay, with an access
-- list or without, and fewer than 2^64 - 1 of them: no empty room is kept; in each room no number and
-- no fingerprint is there twice, and exactly the participants have a quality; and whatever is kept
-- per stream or per receiver (keyframes, signal times, owners, layers) is of a participant who is in
-- the room now.
pub apply_all_new-IsRelay :
    (acl : Option (List (String × List String))) (os : List RoomOp)
    → length os + 1 < u64_mod
    → IsRelay (apply_all (manager_with acl) os)
unfolding manager_with lookup
apply_all_new-IsRelay acl os b = apply_all-IsRelay (manager_with acl) os (omega arith) (record {
  tidy = record {
    cache_tidy = tt;
    buffer_tidy = tt;
    pli_tidy = tt;
    owner_tidy = tt;
    receiver_tidy = tt;
  };
  occupied = λ name. tt;
})
