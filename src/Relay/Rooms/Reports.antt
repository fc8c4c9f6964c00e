-- ===== src/Relay/Rooms/Reports.antt =====
-- The state of a relay stays in order when a packet with a quality report comes in.
use Prim.Native.String.{String}
use wzp.Common.{
  ℕ, ◌≡◌, refl, true, List, Option, none, some, inl, inr, Bool-cases, ◌==◌, ap, sym, ◌∙◌, ==_iff,
  subst,
}
use wzp.Common.Maps.{lookup}
use wzp.Common.Keyed.{nat_eq, string_eq, find, put, find-put}
use wzp.Wire.Header.{QualityReport}
use wzp.Wire.Packet.{MediaPacket}
use wzp.Quality.Tiers.{Tier, rank}
use wzp.Relay.Rooms.{
  ParticipantQuality, Room, contains, is_empty, any_id, observe_participant, weakest_tier,
}
use wzp.Relay.Rooms.Manager.{RoomManager}
use wzp.Relay.Rooms.Media.{
  contains_in, contains_participant, update_keyframe_cache, own_stream, update_receiver_state,
  observe_quality, observe_in, observe_found, observe_room, changed_tier, room_directive,
  take_report, forward_media,
}
use wzp.Relay.Rooms.Tidy.{IsTidy-imp}
use wzp.Relay.Rooms.Steps.{
  update_keyframe_cache-IsTidy, own_stream-IsTidy, update_receiver_state-IsTidy,
}
use wzp.Relay.Rooms.Members.{is_some, HasQualities}
use wzp.Relay.Rooms.Entering.{
  Present, Occupied, IsRelay, insert-Present, insert-Occupied, rooms-IsTidy,
}

-- The same participants, each with a quality.
abbrev Kept : Room → Room → Type 0
Kept room after =
    (after.participants ≡ room.participants)
    × (HasQualities room.participants room.qualities
        → HasQualities after.participants after.qualities)

put_again-HasQualities :
    (id : ℕ) (pq old : ParticipantQuality) (room : Room)
    → find id room.qualities ≡ some old
    → HasQualities room.participants room.qualities
    → HasQualities room.participants (put id pq room.qualities)
put_again-HasQualities id pq old room f h i = elim (Bool-cases (id == i)) [
  | inl e ↦
      let here : find i room.qualities ≡ some old =
        subst (λ j. find j room.qualities ≡ some old) ((==_iff id i).0 e) f in
      let there : any_id i room.participants ≡ true = sym (h i) ∙ ap is_some here in
      rw (find-put i id pq room.qualities, e) (sym there)
  | inr e ↦ rw (find-put i id pq room.qualities, e) (h i)
]

room_directive-Kept :
    (room : Room) (qs : List (ℕ × ParticipantQuality))
    → (HasQualities room.participants room.qualities → HasQualities room.participants qs)
    → Kept room (room_directive (record room { qualities = qs })).1
unfolding room_directive
room_directive-Kept room qs h =
    elim (Bool-cases (rank (weakest_tier qs) == rank room.current_tier)) [
      | inl e ↦ rw e (refl, h)
      | inr e ↦ rw e (refl, h)
    ]

changed_tier-Kept :
    (room : Room) (id : ℕ) (old : ParticipantQuality) (r : Option Tier × ParticipantQuality)
    → find id room.qualities ≡ some old
    → Kept room (changed_tier room id r).1
changed_tier-Kept room id old (none, pq) f = (refl, put_again-HasQualities id pq old room f)
changed_tier-Kept room id old (some t, pq) f =
    room_directive-Kept room (put id pq room.qualities) (put_again-HasQualities id pq old room f)

observe_in-Kept :
    (room : Room) (id : ℕ) (o : Option ParticipantQuality) (report : QualityReport) (now : ℕ)
    → find id room.qualities ≡ o
    → Kept room (observe_found room id o report now).1
observe_in-Kept room id none report now f = (refl, λ h. h)
observe_in-Kept room id (some pq) report now f =
    changed_tier-Kept room id pq (observe_participant pq report now) f

Kept-IsRoom :
    (next : ℕ) (room after : Room)
    → Kept room after
    → Occupied next (some room)
    → Occupied next (some after)
unfolding is_empty
Kept-IsRoom next room after k h = (
  record {
    distinct = rw (k.0) h.0.distinct;
    below = rw (k.0) h.0.below;
    has_qualities = k.1 h.0.has_qualities;
  },
  rw (k.0) h.1,
)

observe_room-IsRelay :
    (m : RoomManager) (name : String) (o : Option Room) (id : ℕ) (report : QualityReport) (now : ℕ)
    → lookup name m.rooms ≡ o
    → IsRelay m
    → IsRelay (observe_room m name o id report now).1
unfolding observe_in contains
observe_room-IsRelay m name none id report now l h = h
observe_room-IsRelay m name (some room) id report now l h =
    let after = (observe_in room id report now).1 in
    let kept = observe_in-Kept room id (find id room.qualities) report now refl in
    let old : Occupied m.next_participant_id (some room) =
      subst (λ o. Occupied m.next_participant_id o) l (h.occupied name) in
    record {
      tidy = rooms-IsTidy _ m _ refl refl refl refl refl (
          IsTidy-imp _ _ m
            (λ r i p. insert-Present m.rooms name after r i (same_members room after id kept l i) p)
            h.tidy);
      occupied =
          insert-Occupied m.next_participant_id m.next_participant_id m.rooms name after
            (Kept-IsRoom m.next_participant_id room after kept old) (λ o k. k) h.occupied;
    }
  where
    same_members :
        (room after : Room) (id : ℕ)
        → Kept room after
        → lookup name m.rooms ≡ some room
        → (i : ℕ) → contains_in (lookup name m.rooms) i ≡ true
        → contains after i ≡ true
    same_members room after id kept l i c =
        let here : contains room i ≡ true = rw l at c in rw (kept.0) here

observe_quality-IsRelay :
    (m : RoomManager) (name : String) (id : ℕ) (report : QualityReport) (now : ℕ)
    → IsRelay m
    → IsRelay (observe_quality m name id report now).1
unfolding observe_quality
observe_quality-IsRelay m name id report now h =
    observe_room-IsRelay m name (lookup name m.rooms) id report now refl h

take_report-IsRelay :
    (m : RoomManager) (name : String) (id : ℕ) (r : Option QualityReport) (now : ℕ)
    → Present m.rooms name id
    → IsRelay m
    → IsRelay (take_report m name id r now).1
unfolding take_report update_receiver_state
take_report-IsRelay m name id none now p h = h
take_report-IsRelay m name id (some r) now p h = observe_quality-IsRelay _ name id r now (record {
  tidy =
      update_receiver_state-IsTidy (Present m.rooms) name id p m r.bitrate_cap_kbps r.loss_pct now
        h.tidy;
  occupied = h.occupied;
})

own_packet-IsRelay :
    (m : RoomManager) (name : String) (id : ℕ) (pkt : MediaPacket)
    → Present m.rooms name id
    → IsRelay m
    → IsRelay (own_stream (update_keyframe_cache m name id pkt) name id pkt)
unfolding update_keyframe_cache own_stream
own_packet-IsRelay m name id pkt p h = record {
  tidy =
      own_stream-IsTidy (Present m.rooms) name id p _ pkt
        (update_keyframe_cache-IsTidy (Present m.rooms) name id p m pkt h.tidy);
  occupied = h.occupied;
}

pub forward_media-IsRelay :
    (m : RoomManager) (name : String) (id : ℕ) (pkt : MediaPacket) (now : ℕ)
    → IsRelay m
    → IsRelay (forward_media m name id pkt now).1
unfolding forward_media contains_participant update_keyframe_cache own_stream
forward_media-IsRelay m name id pkt now h =
    elim (Bool-cases (contains_in (lookup name m.rooms) id)) [
      | inl e ↦ rw e (
          take_report-IsRelay _ name id pkt.quality_report now e
            (own_packet-IsRelay m name id pkt e h))
      | inr e ↦ rw e h
    ]
