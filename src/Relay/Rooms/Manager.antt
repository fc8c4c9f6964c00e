-- ===== src/Relay/Rooms/Manager.antt =====
-- crates/wzp-relay/src/room.rs, RoomManager: the rooms of the relay and what it keeps per stream and per
-- receiver. The counter of the participants' numbers is a field; the events that it sends to the
-- federation are gathered, the latest first.
use Prim.Native.String.{String}
use wzp.Common.{
  ℕ, ◌+◌, ◌-◌, ◌%◌, Bool, true, false, not, ◌&&◌, List, [], ◌∷◌, map, Option, none, some, ◌==◌,
  if◌then◌else◌,
}
use wzp.Common.Maps.{str_eq, among, lookup, insert}
use wzp.Common.Keyed.{nat_eq, string_eq, pair_eq, retain}
use wzp.Wire.Kinds.Media.{video}
use wzp.Wire.Kinds.Media
use wzp.Wire.Packet.{MediaPacket}
use wzp.Relay.Receiver.{ReceiverState}
use wzp.Relay.Rooms.{Room}

abbrev pub keyframe_cache_max_bytes : ℕ
keyframe_cache_max_bytes = 200000

abbrev pub pli_suppress_ms : ℕ
pli_suppress_ms = 200

-- `KeyframeCacheEntry` and `KeyframeBuffer`, whose fields are the same.
pub record Keyframe : Type 0 where
  pub packets : List MediaPacket
  pub sequence_first : ℕ
  pub timestamp_ms : ℕ
  pub total_bytes : ℕ

pub data RoomEvent : Type 0 where
  local_join local_leave : String → RoomEvent

-- A room with a sender and a stream.
abbrev pub StreamKey : Type 0
StreamKey = String × (ℕ × ℕ)

-- A room with a stream, or with a receiver.
abbrev pub RoomKey : Type 0
RoomKey = String × ℕ

pub record RoomManager : Type 0 where
  pub rooms : List (String × Room)
  pub acl : Option (List (String × List String))
  pub events : List RoomEvent
  pub keyframe_cache : List (StreamKey × Keyframe)
  pub keyframe_buffer : List (StreamKey × Keyframe)
  pub pli_state : List (StreamKey × ℕ)
  pub stream_owner : List (RoomKey × ℕ)
  pub receiver_states : List (RoomKey × ReceiverState)
  pub next_participant_id : ℕ

unfoldable pub manager_with : Option (List (String × List String)) → RoomManager
manager_with acl = record {
  rooms = [];
  acl = acl;
  events = [];
  keyframe_cache = [];
  keyframe_buffer = [];
  pli_state = [];
  stream_owner = [];
  receiver_states = [];
  next_participant_id = 1;
}

unfoldable pub new_rooms : RoomManager
new_rooms = manager_with none

unfoldable pub with_acl : RoomManager
with_acl = manager_with (some [])

abbrev pub or_no_names : Option (List String) → List String
or_no_names none = []
or_no_names (some l) = l

abbrev pub add_name : String → List String → List String
add_name fp l = if among fp l then l else fp ∷ l

abbrev pub allow_in :
    Option (List (String × List String)) → String → String → Option (List (String × List String))
allow_in none room fp = none
allow_in (some acl) room fp = some (insert room (add_name fp (or_no_names (lookup room acl))) acl)

unfoldable pub allow : RoomManager → String → String → RoomManager
allow m room fp = record m { acl = allow_in m.acl room fp }

-- A room that is not in the list is open to all with a fingerprint.
abbrev pub listed : Option (List String) → String → Bool
listed none fp = true
listed (some allowed) fp = among fp allowed

unfoldable pub authorized_by : Option (List (String × List String)) → String → Option String → Bool
authorized_by none room fp = true
authorized_by (some acl) room none = false
authorized_by (some acl) room (some fp) = listed (lookup room acl) fp

unfoldable pub is_authorized : RoomManager → String → Option String → Bool
is_authorized m room fp = authorized_by m.acl room fp

abbrev pub in_room {ℓ κ} : {A : Type ℓ} {V : Type κ} → String → (String × A) × V → Bool
in_room room ((r, a), v) = str_eq r room

abbrev pub of_sender {ℓ} : {V : Type ℓ} → String → ℕ → StreamKey × V → Bool
of_sender room id ((r, (s, t)), v) = str_eq r room && (s == id)

abbrev pub of_owner : String → ℕ → RoomKey × ℕ → Bool
of_owner room id ((r, t), owner) = str_eq r room && (owner == id)

abbrev pub of_receiver {ℓ} : {V : Type ℓ} → String → ℕ → RoomKey × V → Bool
of_receiver room id ((r, s), v) = str_eq r room && (s == id)

unfoldable pub clear_room_state : RoomManager → String → RoomManager
clear_room_state m room = record m {
  keyframe_cache = retain (λ e. not (in_room room e)) m.keyframe_cache;
  keyframe_buffer = retain (λ e. not (in_room room e)) m.keyframe_buffer;
  pli_state = retain (λ e. not (in_room room e)) m.pli_state;
  stream_owner = retain (λ e. not (in_room room e)) m.stream_owner;
  receiver_states = retain (λ e. not (in_room room e)) m.receiver_states;
}

unfoldable pub clear_participant_state : RoomManager → String → ℕ → RoomManager
clear_participant_state m room id = record m {
  keyframe_cache = retain (λ e. not (of_sender room id e)) m.keyframe_cache;
  keyframe_buffer = retain (λ e. not (of_sender room id e)) m.keyframe_buffer;
  pli_state = retain (λ e. not (of_sender room id e)) m.pli_state;
  stream_owner = retain (λ e. not (of_owner room id e)) m.stream_owner;
  receiver_states = retain (λ e. not (of_receiver room id e)) m.receiver_states;
}

unfoldable pub clear_all : RoomManager → String → List ℕ → RoomManager
clear_all m room [] = m
clear_all m room (id ∷ rest) = clear_all (clear_participant_state m room id) room rest

-- The stream that a participant's video is forwarded as.
unfoldable pub outbound_video_stream_id : ℕ → ℕ
outbound_video_stream_id id = (id - 1) % 250 + 1

abbrev pub is_video : MediaPacket → Bool
is_video pkt = Media.to_wire pkt.header.media_type == 1

unfoldable pub with_outbound_video_stream_id : MediaPacket → ℕ → MediaPacket
unfolding Media.to_wire
with_outbound_video_stream_id pkt id = record pkt {
  header = record (pkt.header) {
    stream_id = if is_video pkt then outbound_video_stream_id id else pkt.header.stream_id;
  };
}

abbrev pub replayed : StreamKey × Keyframe → List MediaPacket
replayed ((r, (sender, t)), kf) = map (λ pkt. with_outbound_video_stream_id pkt sender) kf.packets

unfoldable pub cached_keyframes_for_room : RoomManager → String → List (List MediaPacket)
cached_keyframes_for_room m room = map replayed (retain (in_room room) m.keyframe_cache)
