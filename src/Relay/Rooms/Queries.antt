-- ===== src/Relay/Rooms/Queries.antt =====
-- crates/wzp-relay/src/room.rs, RoomManager: what it tells of its rooms without changing them.
use Prim.Native.String.{String}
use wzp.Common.{ℕ, Bool, true, false, List, [], map, Option, none, some, length}
use wzp.Common.Maps.{lookup}
use wzp.Relay.Rooms.{Room, ParticipantSender, RoomParticipant, participant_list, all_senders}
use wzp.Relay.Rooms.Manager.{RoomManager}

abbrev size_in : Option Room → ℕ
size_in none = 0
size_in (some room) = length room.participants

unfoldable room_size : RoomManager → String → ℕ
room_size m name = size_in (lookup name m.rooms)

abbrev is_known : Option Room → Bool
is_known none = false
is_known (some room) = true

unfoldable is_room_active : RoomManager → String → Bool
is_room_active m name = is_known (lookup name m.rooms)

unfoldable active_rooms : RoomManager → List String
active_rooms m = map (λ r. r.0) m.rooms

-- `list`
unfoldable rooms_with_sizes : RoomManager → List (String × ℕ)
rooms_with_sizes m = map (λ r. (r.0, length (r.1).participants)) m.rooms

abbrev list_in : Option Room → List RoomParticipant
list_in none = []
list_in (some room) = participant_list room

unfoldable local_participant_list : RoomManager → String → List RoomParticipant
local_participant_list m name = list_in (lookup name m.rooms)

abbrev all_in : Option Room → List ParticipantSender
all_in none = []
all_in (some room) = all_senders room

unfoldable local_senders : RoomManager → String → List ParticipantSender
local_senders m name = all_in (lookup name m.rooms)
