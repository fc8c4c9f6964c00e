-- ===== src/Relay/Rooms/Tests.antt =====
-- The rooms of the relay at concrete values.
use wzp.Common.{ℕ, ◌≡◌, ◌≢◌, refl, not, ◌&&◌, List, [], ◌∷◌, ◌++◌, none, some, arith, ◌==◌, ap, ◌∙◌}
use wzp.Common.Keyed.{nat_eq, string_eq, pair_eq, find, put, retain}
use wzp.Common.Maps.{lookup}
use wzp.Wire.Header.{QualityReport, IsReport}
use wzp.Wire.Kinds.Media.{video}
use wzp.Wire.Kinds.Media
use wzp.Wire.Kinds.Codec.{h265_main}
use wzp.Wire.Packet.{MediaPacket}
use wzp.Quality.Tiers.{good}
use wzp.Quality.Controller.{new_controller}
use wzp.Relay.Rooms.Membership.{enter}
use wzp.Relay.Receiver.{new_receiver, suggest_layer, update_receiver}
use wzp.Relay.Receiver.Pace.{Measure, update_all, update_all_pace}
use wzp.Relay.Rooms.{quic, web_socket, Room, new_room, others, contains, any_id}
use wzp.Relay.Rooms.Manager.{RoomManager, manager_with, outbound_video_stream_id}
use wzp.Relay.Rooms.Media.{
  contains_participant, forward_media, routes, observe_in, should_forward_pli, pli_to, handle_pli,
  own_stream, update_keyframe_cache, take_report, observe_quality, update_receiver_state,
  selected_layer,
}
use wzp.Relay.Rooms.Entering.{IsRelay}
use wzp.Relay.Rooms.Trace.{
  RoomOp, joins, leaves, sends, loses_picture, allows, apply, apply_all, apply_all_new-IsRelay,
}
use wzp.Relay.Rooms.Losses.{handle_pli_pace}
use wzp.Relay.Rooms.Layers.{selected_layer_low}
use wzp.Relay.Rooms.Keyframes.{packets_of, bytes_of, cache_all, payload_bytes, cache_all-frame}
use wzp.Relay.Rooms.Forwarding.{
  reaches, deliveries_of, forward_media-reaches, Tells, observe_in-Tells,
}

abbrev report : QualityReport
report = record { loss_pct = 9; rtt_4ms = 12; jitter_ms = 3; bitrate_cap_kbps = 255 }

-- A part of a keyframe on the stream, at the end of the frame or not.
abbrev picture : ℕ → ℕ → ℕ → MediaPacket
picture stream flags seq = record {
  header = record {
    version = 2;
    flags = flags;
    media_type = video;
    codec_id = h265_main;
    stream_id = stream;
    fec_ratio = 0;
    seq = seq;
    timestamp = 40;
    fec_block = 0;
  };
  payload = 1 ∷ 2 ∷ 3 ∷ [];
  quality_report = some report;
}

abbrev part : MediaPacket
part = picture 1 0b0010_0000 7

abbrev end_part : MediaPacket
end_part = picture 1 0b0011_0000 8

-- Two users meet, one of them comes in again, both send and lose a picture, and one leaves.
abbrev meeting : List RoomOp
meeting =
    allows "room" "alice"
    ∷ allows "room" "bob"
    ∷ joins "room" (quic 10) (some "alice") none
    ∷ joins "room" (web_socket 11) (some "bob") (some "Bob")
    ∷ joins "room" (quic 12) (some "alice") none
    ∷ joins "room" (quic 13) (some "eve") none
    ∷ sends "room" 3 part 100
    ∷ sends "room" 3 end_part 101
    ∷ loses_picture "room" 2 1 120
    ∷ loses_picture "room" 2 1 130
    ∷ sends "other" 3 part 140
    ∷ leaves "room" 2
    ∷ []

fits : IsReport report
fits = record {
  loss_byte = omega arith;
  rtt_byte = omega arith;
  jitter_byte = omega arith;
  cap_byte = omega arith;
}

apply_all_new-IsRelay_example : IsRelay (apply_all (manager_with (some [])) meeting)
apply_all_new-IsRelay_example = apply_all_new-IsRelay (some []) meeting (omega arith)

selected_layer_low_example :
    selected_layer (apply_all (manager_with (some [])) meeting) "room" 3 ≡ 0
selected_layer_low_example =
    selected_layer_low (some []) meeting "room" 3
      (tt, (tt, (tt, (tt, (tt, (tt, (fits, (fits, (tt, (tt, (fits, (tt, tt))))))))))))

abbrev held : RoomManager
held = apply_all (manager_with none) (
    joins "room" (quic 10) (some "alice") none
    ∷ joins "room" (web_socket 11) (some "bob") none
    ∷ [])

forward_media-reaches_example :
    reaches 2 (deliveries_of (forward_media held "room" 1 part 100).0) ≡ (
      contains_participant held "room" 1
      && ((contains_participant (forward_media held "room" 1 part 100).1 "room" 2 && not (2 == 1))
          && routes (forward_media held "room" 1 part 100).1 "room" part 2))
forward_media-reaches_example = forward_media-reaches held "room" 1 2 part 100

-- One more bad report, and the only participant's tier falls.
abbrev failing : Room
failing = record (enter new_room 1 (quic 10) none none) {
  qualities =
      (
        1,
        record { controller = record new_controller { consecutive_down = 2 }; current_tier = good },
      )
      ∷ [];
}

abbrev bad_report : QualityReport
bad_report = record { loss_pct = 200; rtt_4ms = 12; jitter_ms = 3; bitrate_cap_kbps = 255 }

observe_in-Tells_example : Tells (observe_in failing 1 bad_report 100) failing
observe_in-Tells_example = observe_in-Tells failing 1 bad_report 100

-- A room of two, in which the first sends a stream.
abbrev two : Room
two = record {
  participants =
      record { id = 1; sender = quic 10; fingerprint = none; alias = none }
      ∷ record { id = 2; sender = quic 11; fingerprint = none; alias = none }
      ∷ [];
  qualities = [];
  current_tier = good;
}

abbrev owned : RoomManager
owned = record (manager_with none) {
  rooms = ("room", two) ∷ [];
  stream_owner = (("room", 1), 1) ∷ [];
}

passed_on : (handle_pli owned "room" 2 1 100).0 ≡ 10 ∷ []
unfolding handle_pli should_forward_pli pli_to manager_with find lookup others retain put
passed_on = refl

abbrev meanwhile : List RoomOp
meanwhile = sends "room" 1 part 110 ∷ loses_picture "room" 2 1 250 ∷ []

owner_kept :
    find ("room", 1) (apply_all (handle_pli owned "room" 2 1 100).1 meanwhile).stream_owner
    ≡ find ("room", 1) owned.stream_owner
unfolding apply_all apply handle_pli should_forward_pli pli_to manager_with find lookup
    forward_media contains_participant contains own_stream update_keyframe_cache take_report put
    any_id observe_quality update_receiver_state Media.to_wire outbound_video_stream_id
owner_kept = refl

handle_pli_pace_example :
    (handle_pli (apply_all (handle_pli owned "room" 2 1 100).1 meanwhile) "room" 2 1 299).0 ≡ []
handle_pli_pace_example =
    handle_pli_pace owned "room" 2 2 1 100 299 meanwhile (λ e. ground (arith, e, passed_on))
      (tt, (omega arith, tt)) (omega arith) owner_kept

part_small : payload_bytes (part ∷ end_part ∷ []) ≡ 6
unfolding payload_bytes
part_small = refl

no_buffer : find ("room", (3, 1)) (manager_with none).keyframe_buffer ≡ none
unfolding manager_with find
no_buffer = refl

cache_all-frame_example :
    packets_of (
      find
        ("room", (3, 1))
        (cache_all (manager_with none) "room" 3 ((part ∷ []) ++ (end_part ∷ []))).keyframe_cache)
    ≡ (part ∷ []) ++ (end_part ∷ [])
cache_all-frame_example =
    cache_all-frame "room" 3 1 (manager_with none) (part ∷ []) end_part (ap packets_of no_buffer)
      (ap bytes_of no_buffer)
      (record { of_stream = refl; no_repair = refl; of_keyframe = refl; ending = refl }, tt)
      (record { of_stream = refl; no_repair = refl; of_keyframe = refl; ending = refl })
      (omega (arith, part_small))

abbrev fast : Measure
fast = record { bwe_kbps = 4000; loss_pct = 0; now = 1000 }

abbrev slow : Measure
slow = record { bwe_kbps = 100; loss_pct = 0; now = 3999 }

switched : (update_receiver (new_receiver 0) 4000 0 1000).selected_layer ≢ 0
unfolding update_receiver new_receiver suggest_layer
switched e = absurd (omega (arith, e))

new_low : (new_receiver 0).selected_layer ≡ 0
unfolding new_receiver
new_low = refl

update_all_pace_example :
    (update_all (update_receiver (new_receiver 0) 4000 0 1000) (slow ∷ [])).selected_layer
    ≡ (update_receiver (new_receiver 0) 4000 0 1000).selected_layer
update_all_pace_example =
    update_all_pace (new_receiver 0) fast (slow ∷ []) (omega arith) (λ e. switched (e ∙ new_low))
      ((omega arith, (omega arith, omega arith)), tt)
