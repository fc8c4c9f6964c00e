-- ===== src/Relay/Rooms/Layers.antt =====
-- Which layers of a simulcast the relay ever forwards.
use Prim.Native.String.{String}
use wzp.Common.{
  ℕ, ◌<◌, ◌≡◌, refl, List, [], ◌∷◌, Option, none, some, arith, inl, inr, Bool-cases, Option-cases,
  All,
}
use wzp.Common.Keyed.{nat_eq, string_eq, pair_eq, find, put-All, find-All, retain-All}
use wzp.Common.Maps.{lookup}
use wzp.Wire.Header.{QualityReport, IsReport}
use wzp.Wire.Packet.{MediaPacket}
use wzp.Relay.Receiver.{ReceiverState, new_receiver, suggest_layer, update_receiver}
use wzp.Relay.Rooms.{ParticipantSender, Room, is_empty}
use wzp.Relay.Rooms.Manager.{
  RoomManager, RoomKey, manager_with, allow, is_authorized, clear_room_state,
  clear_participant_state, clear_all,
}
use wzp.Relay.Rooms.Membership.{
  join, admit, leave, leave_room, replace_fingerprint, or_new_room, without,
}
use wzp.Relay.Rooms.Media.{
  update_keyframe_cache, own_stream, receiver_or, update_receiver_state, selected_layer, layer_of,
  observe_quality, observe_room, take_report, forward_media, pli_to, should_forward_pli, handle_pli,
  contains_participant,
}
use wzp.Relay.Rooms.Trace.{RoomOp, joins, leaves, sends, loses_picture, allows, apply, apply_all}

abbrev IsLow : RoomKey × ReceiverState → Type 0
IsLow (k, s) = s.selected_layer ≡ 0

-- Every receiver is on the lowest layer.
abbrev AllLow : RoomManager → Type 0
AllLow m = All IsLow m.receiver_states

abbrev pub ReportFits : Option QualityReport → Type 0
ReportFits none = Unit
ReportFits (some r) = IsReport r

-- The reports of the packets are as a packet carries them, in a byte for each number.
abbrev pub ReportsFit : RoomOp → Type 0
ReportsFit (sends name id pkt now) = ReportFits pkt.quality_report
ReportsFit _ = Unit

update_receiver_low :
    (s : ReceiverState) (bwe_kbps loss_pct now : ℕ)
    → bwe_kbps < 256
    → s.selected_layer ≡ 0
    → (update_receiver s bwe_kbps loss_pct now).selected_layer ≡ 0
unfolding update_receiver suggest_layer
update_receiver_low s bwe_kbps loss_pct now b h = ground arith

receiver_or_low :
    (k : RoomKey) (m : List (RoomKey × ReceiverState)) (now : ℕ)
    → All IsLow m
    → (receiver_or (find k m) now).selected_layer ≡ 0
unfolding new_receiver
receiver_or_low k m now h = elim (Option-cases (find k m)) [
  | inl e ↦ rw e refl
  | inr (s, e) ↦ rw e (find-All IsLow k s m h e)
]

clear_all_low :
    (m : RoomManager) (room : String) (ids : List ℕ) → AllLow m → AllLow (clear_all m room ids)
unfolding clear_all clear_participant_state
clear_all_low m room [] h = h
clear_all_low m room (id ∷ ids) h =
    clear_all_low (clear_participant_state m room id) room ids
      (retain-All IsLow IsLow _ m.receiver_states (λ e p k. p) h)

leave_room_low :
    (m : RoomManager) (name : String) (o : Option Room) (id : ℕ)
    → AllLow m
    → AllLow (leave_room m name o id).1
unfolding leave_room clear_room_state clear_participant_state
leave_room_low m name none id h = h
leave_room_low m name (some room) id h =
    let kept = retain-All IsLow IsLow _ m.receiver_states (λ e p k. p) h in
    elim (Bool-cases (is_empty (without room id))) [
      | inl e ↦ rw e (retain-All IsLow IsLow _ _ (λ e p k. p) kept)
      | inr e ↦ rw e kept
    ]

observe_room_low :
    (m : RoomManager) (name : String) (o : Option Room) (id : ℕ) (r : QualityReport) (now : ℕ)
    → AllLow m
    → AllLow (observe_room m name o id r now).1
observe_room_low m name none id r now h = h
observe_room_low m name (some room) id r now h = h

take_report_low :
    (m : RoomManager) (name : String) (id : ℕ) (r : Option QualityReport) (now : ℕ)
    → ReportFits r
    → AllLow m
    → AllLow (take_report m name id r now).1
unfolding take_report observe_quality update_receiver_state
take_report_low m name id none now b h = h
take_report_low m name id (some r) now b h =
    observe_room_low _ name (lookup name m.rooms) id r now (
      put-All IsLow (name, id) _ m.receiver_states
        (update_receiver_low _ r.bitrate_cap_kbps r.loss_pct now b.cap_byte
          (receiver_or_low (name, id) m.receiver_states now h))
        h)

pli_to_low :
    (m : RoomManager) (name : String) (stream now : ℕ) (o : Option ℕ)
    → AllLow m
    → AllLow (pli_to m name stream now o).1
unfolding pli_to
pli_to_low m name stream now none h = h
pli_to_low m name stream now (some i) h = h

join_low :
    (m : RoomManager) (name : String) (sender : ParticipantSender) (fp alias : Option String)
    → AllLow m
    → AllLow (join m name sender fp alias).1
unfolding join admit
join_low m name sender fp alias h = elim (Bool-cases (is_authorized m name fp)) [
  | inl e ↦
      rw e (clear_all_low m name (replace_fingerprint (or_new_room (lookup name m.rooms)) fp).0 h)
  | inr e ↦ rw e h
]

forward_media_low :
    (m : RoomManager) (name : String) (id : ℕ) (pkt : MediaPacket) (now : ℕ)
    → ReportFits pkt.quality_report
    → AllLow m
    → AllLow (forward_media m name id pkt now).1
unfolding forward_media update_keyframe_cache own_stream
forward_media_low m name id pkt now b h = elim (Bool-cases (contains_participant m name id)) [
  | inl e ↦ rw e (take_report_low _ name id pkt.quality_report now b h)
  | inr e ↦ rw e h
]

apply_low : (m : RoomManager) (o : RoomOp) → ReportsFit o → AllLow m → AllLow (apply m o)
unfolding apply allow leave handle_pli should_forward_pli
apply_low m (joins name sender fp alias) b h = join_low m name sender fp alias h
apply_low m (leaves name id) b h = leave_room_low m name (lookup name m.rooms) id h
apply_low m (sends name id pkt now) b h = forward_media_low m name id pkt now b h
apply_low m (loses_picture name id stream now) b h =
    pli_to_low m name stream now (find (name, stream) m.stream_owner) h
apply_low m (allows name fp) b h = h

apply_all_low :
    (m : RoomManager) (os : List RoomOp) → All ReportsFit os → AllLow m → AllLow (apply_all m os)
unfolding apply_all
apply_all_low m [] b h = h
apply_all_low m (o ∷ os) b h = apply_all_low (apply m o) os b.1 (apply_low m o b.0 h)

-- The relay never leaves the lowest layer: after any run on a new relay whose reports are in range, the
-- layer selected for every receiver of every room is 0, whatever bandwidth the receivers report.
pub selected_layer_low :
    (acl : Option (List (String × List String))) (os : List RoomOp) (name : String) (receiver : ℕ)
    → All ReportsFit os
    → selected_layer (apply_all (manager_with acl) os) name receiver ≡ 0
unfolding selected_layer manager_with
selected_layer_low acl os name receiver b = low (find (name, receiver) after.receiver_states) refl
  where
    after : RoomManager
    after = apply_all (manager_with acl) os

    low :
        (o : Option ReceiverState)
        → find (name, receiver) after.receiver_states ≡ o
        → layer_of o ≡ 0
    low none e = refl
    low (some s) e =
        find-All IsLow (name, receiver) s after.receiver_states
          (apply_all_low (manager_with acl) os b tt) e
