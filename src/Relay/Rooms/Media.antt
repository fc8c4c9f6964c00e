-- ===== src/Relay/Rooms/Media.antt =====
-- crates/wzp-relay/src/room.rs: what the relay does with one packet or one signal of a participant. The
-- loop of `run_participant` is taken packet by packet; what it only logs or measures is left out, and
-- so is the batching of the trunked loop, which treats the rooms in the same way.
use Prim.Native.String.{String}
use wzp.Common.{
  ℕ, ◌+◌, ◌-◌, Bool, true, false, ◌&&◌, List, [], ◌∷◌, ◌++◌, Option, none, some, ltb, ◌==◌,
  if◌then◌else◌, length,
}
use wzp.Common.Maps.{lookup, insert}
use wzp.Common.Keyed.{nat_eq, string_eq, pair_eq, find, put, delete}
use wzp.Wire.Header.{QualityReport, is_repair, is_keyframe, is_frame_end}
use wzp.Wire.Packet.{MediaPacket}
use wzp.Quality.Tiers.{Tier, rank, QualityProfile, profile}
use wzp.Relay.Receiver.{
  ReceiverState, new_receiver, update_receiver, RouteReason, video_route_reason,
}
use wzp.Relay.Rooms.{
  ParticipantSender, quic, web_socket, ParticipantQuality, observe_participant, weakest_tier, Room,
  contains, others, others_with_id, all_senders,
}
use wzp.Relay.Rooms.Manager.{
  keyframe_cache_max_bytes, pli_suppress_ms, Keyframe, StreamKey, RoomKey, RoomManager, is_video,
  outbound_video_stream_id, with_outbound_video_stream_id,
}

abbrev pub contains_in : Option Room → ℕ → Bool
contains_in none id = false
contains_in (some room) id = contains room id

unfoldable pub contains_participant : RoomManager → String → ℕ → Bool
contains_participant m name id = contains_in (lookup name m.rooms) id

abbrev pub others_in : Option Room → ℕ → List (ℕ × ParticipantSender)
others_in none id = []
others_in (some room) id = others_with_id room id

abbrev pub empty_from : MediaPacket → Keyframe
empty_from pkt = record {
  packets = [];
  sequence_first = pkt.header.seq;
  timestamp_ms = pkt.header.timestamp;
  total_bytes = 0;
}

abbrev pub buffer_or : Option Keyframe → MediaPacket → Keyframe
buffer_or none pkt = empty_from pkt
buffer_or (some b) pkt = b

-- A buffer that the packet would overflow is started again.
unfoldable pub push_packet : Keyframe → MediaPacket → Keyframe
push_packet b pkt =
    let room_left =
      if ltb keyframe_cache_max_bytes (b.total_bytes + length pkt.payload)
      then empty_from pkt
      else b in
    record room_left {
      packets = room_left.packets ++ (pkt ∷ []);
      total_bytes = room_left.total_bytes + length pkt.payload;
    }

unfoldable pub update_keyframe_cache : RoomManager → String → ℕ → MediaPacket → RoomManager
update_keyframe_cache m room sender pkt =
    let key : StreamKey = (room, (sender, pkt.header.stream_id)) in
    let pushed = push_packet (buffer_or (find key m.keyframe_buffer) pkt) pkt in
    let ends = is_frame_end pkt.header in
    let taken = record pushed { packets = []; total_bytes = 0 } in
    record m {
      keyframe_cache =
          if is_repair pkt.header
          then m.keyframe_cache
          else (if is_keyframe pkt.header && ends
              then put key pushed m.keyframe_cache
              else m.keyframe_cache);
      keyframe_buffer =
          if is_repair pkt.header
          then m.keyframe_buffer
          else (if is_keyframe pkt.header
              then put key (if ends then taken else pushed) m.keyframe_buffer
              else delete key m.keyframe_buffer);
    }

-- The participant is the one to ask for keyframes of its stream, under both of its numbers.
unfoldable pub own_stream : RoomManager → String → ℕ → MediaPacket → RoomManager
own_stream m room id pkt =
    let own = put (room, pkt.header.stream_id) id m.stream_owner in
    record m {
      stream_owner =
          if is_repair pkt.header
          then m.stream_owner
          else (if is_video pkt then put (room, outbound_video_stream_id id) id own else own);
    }

abbrev pub suppressed : Option ℕ → ℕ → Bool
suppressed none now = false
suppressed (some last_pli) now = ltb (now - last_pli) pli_suppress_ms

unfoldable pub pli_to : RoomManager → String → ℕ → ℕ → Option ℕ → Option ℕ × RoomManager
pli_to m room stream now none = (none, m)
pli_to m room stream now (some sender) =
    let key : StreamKey = (room, (sender, stream)) in
    let late = suppressed (find key m.pli_state) now in
    (
      if late then none else some sender,
      record m { pli_state = if late then m.pli_state else put key now m.pli_state },
    )

unfoldable pub should_forward_pli : RoomManager → String → ℕ → ℕ → Option ℕ × RoomManager
should_forward_pli m room stream now = pli_to m room stream now (find (room, stream) m.stream_owner)

abbrev pub connections : List ParticipantSender → List ℕ
connections [] = []
connections (quic c ∷ ps) = c ∷ connections ps
connections (web_socket c ∷ ps) = connections ps

abbrev pub senders_in : Option Room → ℕ → List ParticipantSender
senders_in none id = []
senders_in (some room) id = others room id

abbrev pub if_some {ℓ κ} : {A : Type ℓ} {B : Type κ} → Option A → List B → List B
if_some none l = []
if_some (some x) l = l

-- The loop of `run_participant_signals` at a picture loss: the connections that the signal goes on to.
unfoldable pub handle_pli : RoomManager → String → ℕ → ℕ → ℕ → List ℕ × RoomManager
handle_pli m room id stream now =
    let r = should_forward_pli m room stream now in
    (if_some r.0 (connections (senders_in (lookup room r.1.rooms) id)), r.1)

abbrev pub receiver_or : Option ReceiverState → ℕ → ReceiverState
receiver_or none now = new_receiver now
receiver_or (some s) now = s

unfoldable pub update_receiver_state : RoomManager → String → ℕ → ℕ → ℕ → ℕ → RoomManager
update_receiver_state m room receiver bwe_kbps loss_pct now =
    let key : RoomKey = (room, receiver) in
    let state = receiver_or (find key m.receiver_states) now in
    record m {
      receiver_states = put key (update_receiver state bwe_kbps loss_pct now) m.receiver_states;
    }

abbrev pub layer_of : Option ReceiverState → ℕ
layer_of none = 0
layer_of (some s) = s.selected_layer

unfoldable pub selected_layer : RoomManager → String → ℕ → ℕ
selected_layer m room receiver = layer_of (find (room, receiver) m.receiver_states)

-- `QualityDirective`: the profile that all are told to use.
abbrev pub Directive : Type 0
Directive = QualityProfile × List ParticipantSender

-- Only a QUIC connection is sent a signal.
unfoldable pub broadcast_signal : List ParticipantSender → List ℕ
broadcast_signal senders = connections senders

-- The connections that a directive is sent to.
unfoldable pub broadcast_directive : Option Directive → List ℕ
broadcast_directive none = []
broadcast_directive (some (p, to)) = broadcast_signal to

-- The room once a participant's tier has changed.
unfoldable pub room_directive : Room → Option Directive × Room
room_directive room =
    let weakest = weakest_tier room.qualities in
    if rank weakest == rank room.current_tier
    then (none, room)
    else (some (profile weakest, all_senders room), record room { current_tier = weakest })

abbrev pub changed_tier : Room → ℕ → Option Tier × ParticipantQuality → Option Directive × Room
changed_tier room id (none, pq) = (none, record room { qualities = put id pq room.qualities })
changed_tier room id (some t, pq) =
    room_directive (record room { qualities = put id pq room.qualities })

abbrev pub observe_found :
    Room → ℕ → Option ParticipantQuality → QualityReport → ℕ → Option Directive × Room
observe_found room id none report now = (none, room)
observe_found room id (some pq) report now =
    changed_tier room id (observe_participant pq report now)

unfoldable pub observe_in : Room → ℕ → QualityReport → ℕ → Option Directive × Room
observe_in room id report now = observe_found room id (find id room.qualities) report now

abbrev pub observe_room :
    RoomManager → String → Option Room → ℕ → QualityReport → ℕ → Option Directive × RoomManager
observe_room m name none id report now = (none, m)
observe_room m name (some room) id report now =
    let r = observe_in room id report now in (r.0, record m { rooms = insert name r.1 m.rooms })

unfoldable pub observe_quality :
    RoomManager → String → ℕ → QualityReport → ℕ → Option Directive × RoomManager
observe_quality m name id report now = observe_room m name (lookup name m.rooms) id report now

-- The two uses of a packet's report.
unfoldable pub take_report :
    RoomManager → String → ℕ → Option QualityReport → ℕ → Option Directive × RoomManager
take_report m name id none now = (none, m)
take_report m name id (some r) now =
    observe_quality (update_receiver_state m name id r.bitrate_cap_kbps r.loss_pct now) name id r
      now

pub data Delivery : Type 0 where
  send_media : ℕ → MediaPacket → Delivery
  send_raw : ℕ → List ℕ → Delivery

unfoldable pub deliver : ℕ → MediaPacket → ParticipantSender → Delivery
deliver id pkt (quic c) =
    send_media c (if is_video pkt then with_outbound_video_stream_id pkt id else pkt)
deliver id pkt (web_socket c) = send_raw c pkt.payload

abbrev pub is_reason : Option RouteReason → Bool
is_reason none = false
is_reason (some r) = true

-- Whether the packet goes to the receiver: all but video that is not of its layer.
unfoldable pub routes : RoomManager → String → MediaPacket → ℕ → Bool
routes m name pkt receiver =
    if is_video pkt
    then is_reason (video_route_reason pkt.header (selected_layer m name receiver))
    else true

unfoldable pub fan_out :
    RoomManager → String → ℕ → MediaPacket → List (ℕ × ParticipantSender) → List (ℕ × Delivery)
fan_out m name id pkt [] = []
fan_out m name id pkt ((other, sender) ∷ rest) =
    let more = fan_out m name id pkt rest in
    if routes m name pkt other then (other, deliver id pkt sender) ∷ more else more

pub record Forwarded : Type 0 where
  pub directive : Option Directive
  pub deliveries : List (ℕ × Delivery)

-- One packet of a participant's loop, which ends (`none`) once the participant is in the room no more.
unfoldable pub forward_media :
    RoomManager → String → ℕ → MediaPacket → ℕ → Option Forwarded × RoomManager
forward_media m name id pkt now =
    let owned = own_stream (update_keyframe_cache m name id pkt) name id pkt in
    let reported = take_report owned name id pkt.quality_report now in
    let receivers = others_in (lookup name reported.1.rooms) id in
    if contains_participant m name id
    then (
      some (record {
        directive = reported.0;
        deliveries = fan_out reported.1 name id pkt receivers;
      }),
      reported.1,
    )
    else (none, m)
