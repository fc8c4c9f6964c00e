-- ===== src/Relay/Rooms/Membership.antt =====
-- crates/wzp-relay/src/room.rs: how participants enter and leave the rooms of a RoomManager. `none` of
-- `join` stands for its error.
use Prim.Native.String.{String}
use wzp.Common.{ℕ, ◌+◌, ◌%◌, Bool, true, List, [], ◌∷◌, Option, none, some, if◌then◌else◌}
use wzp.Common.Words.{u64_mod}
use wzp.Common.Maps.{lookup, insert, remove}
use wzp.Common.Keyed.{nat_eq, put, delete}
use wzp.Wire.Packet.{MediaPacket}
use wzp.Relay.Rooms.{
  ParticipantSender, new_quality, Room, new_room, add, remove_participant, remove_by_fingerprint,
  all_senders, is_empty, RoomUpdate, room_update,
}
use wzp.Relay.Rooms.Manager.{
  local_join, local_leave, RoomManager, is_authorized, clear_room_state, clear_participant_state,
  clear_all, cached_keyframes_for_room,
}

abbrev pub or_new_room : Option Room → Room
or_new_room none = new_room
or_new_room (some r) = r

abbrev pub empty_or_missing : Option Room → Bool
empty_or_missing none = true
empty_or_missing (some r) = is_empty r

pub record Joined : Type 0 where
  pub id : ℕ
  pub update : RoomUpdate
  pub senders : List ParticipantSender
  pub keyframes : List (List MediaPacket)

abbrev pub replace_fingerprint : Room → Option String → List ℕ × Room
replace_fingerprint room none = ([], room)
replace_fingerprint room (some fp) = remove_by_fingerprint room fp

-- The room with the participant that enters, whose quality is new.
unfoldable pub enter : Room → ℕ → ParticipantSender → Option String → Option String → Room
enter room id sender fp alias =
    let added = add room id sender fp alias in
    record added { qualities = put id new_quality added.qualities }

unfoldable pub admit :
    RoomManager → String → ParticipantSender → Option String → Option String → Joined × RoomManager
admit m name sender fp alias =
    let found = lookup name m.rooms in
    let replaced = replace_fingerprint (or_new_room found) fp in
    let id = m.next_participant_id in
    let room = enter replaced.1 id sender fp alias in
    let cleared = clear_all m name replaced.0 in
    let after = record cleared {
      rooms = insert name room m.rooms;
      next_participant_id = (id + 1) % u64_mod;
      events = if empty_or_missing found then local_join name ∷ m.events else m.events;
    } in
    (
      record {
        id = id;
        update = room_update room;
        senders = all_senders room;
        keyframes = cached_keyframes_for_room after name;
      },
      after,
    )

unfoldable pub join :
    RoomManager
    → String
    → ParticipantSender
    → Option String
    → Option String
    → Option Joined × RoomManager
join m name sender fp alias =
    let admitted = admit m name sender fp alias in
    if is_authorized m name fp then (some admitted.0, admitted.1) else (none, m)

abbrev pub joined_id : Option Joined → Option ℕ
joined_id none = none
joined_id (some j) = some j.id

unfoldable pub join_ws : RoomManager → String → ℕ → Option String → Option ℕ × RoomManager
join_ws m name sender fp =
    let r = join m name (ParticipantSender.web_socket sender) fp none in (joined_id r.0, r.1)

abbrev pub without : Room → ℕ → Room
without room id =
    let left = remove_participant room id in record left { qualities = delete id room.qualities }

unfoldable pub leave_room :
    RoomManager
    → String
    → Option Room
    → ℕ
    → Option (RoomUpdate × List ParticipantSender) × RoomManager
leave_room m name none id = (none, m)
leave_room m name (some room) id =
    let left = without room id in
    let cleared = clear_participant_state m name id in
    let closed = clear_room_state (record cleared { rooms = remove name m.rooms }) name in
    if is_empty left then (none, record closed { events = local_leave name ∷ m.events }) else (
      some (room_update left, all_senders left),
      record cleared { rooms = insert name left m.rooms },
    )

unfoldable pub leave :
    RoomManager → String → ℕ → Option (RoomUpdate × List ParticipantSender) × RoomManager
leave m name id = leave_room m name (lookup name m.rooms) id
