-- ===== src/Relay/Rooms/Steps.antt =====
-- The handling of packets and signals keeps the state of streams and receivers with present participants.
use Prim.Native.String.{String}
use wzp.Common.{ℕ, ◌≡◌, refl, Bool, true, false, ◌&&◌, [], Option, none, some, if◌then◌else◌, All}
use wzp.Common.Keyed.{nat_eq, string_eq, pair_eq, find, put, delete, put-All, delete-All}
use wzp.Wire.Header.{is_repair, is_keyframe, is_frame_end}
use wzp.Wire.Packet.{MediaPacket}
use wzp.Relay.Rooms.Manager.{Keyframe, RoomManager, is_video, outbound_video_stream_id}
use wzp.Relay.Rooms.Media.{
  buffer_or, push_packet, update_keyframe_cache, own_stream, suppressed, pli_to,
  update_receiver_state,
}
use wzp.Relay.Rooms.Tidy.{OfSender, OfOwner, OfReceiver, IsTidy}

module _ (P : String → ℕ → Type 0) (room : String) (id : ℕ) (here : P room id) where
  pub update_keyframe_cache-IsTidy :
      (m : RoomManager) (pkt : MediaPacket)
      → IsTidy P m
      → IsTidy P (update_keyframe_cache m room id pkt)
  unfolding update_keyframe_cache
  update_keyframe_cache-IsTidy m pkt h = record {
    cache_tidy =
        stored (is_repair pkt.header) (is_keyframe pkt.header && is_frame_end pkt.header) pushed;
    buffer_tidy = buffered (is_repair pkt.header) (is_keyframe pkt.header) (
        if is_frame_end pkt.header
        then record pushed { packets = []; total_bytes = 0 }
        else pushed);
    pli_tidy = h.pli_tidy;
    owner_tidy = h.owner_tidy;
    receiver_tidy = h.receiver_tidy;
  }
    where
      pushed : Keyframe
      pushed =
          push_packet (buffer_or (find (room, (id, pkt.header.stream_id)) m.keyframe_buffer) pkt)
            pkt

      stored :
          (a b : Bool) (kf : Keyframe)
          → All (OfSender P) (
              if a
              then m.keyframe_cache
              else (if b
                  then put (room, (id, pkt.header.stream_id)) kf m.keyframe_cache
                  else m.keyframe_cache))
      stored true b kf = h.cache_tidy
      stored false true kf = put-All (OfSender P) _ _ m.keyframe_cache here h.cache_tidy
      stored false false kf = h.cache_tidy

      buffered :
          (a b : Bool) (kf : Keyframe)
          → All (OfSender P) (
              if a
              then m.keyframe_buffer
              else (if b
                  then put (room, (id, pkt.header.stream_id)) kf m.keyframe_buffer
                  else delete (room, (id, pkt.header.stream_id)) m.keyframe_buffer))
      buffered true b kf = h.buffer_tidy
      buffered false true kf = put-All (OfSender P) _ _ m.keyframe_buffer here h.buffer_tidy
      buffered false false kf = delete-All (OfSender P) _ m.keyframe_buffer h.buffer_tidy

  pub own_stream-IsTidy :
      (m : RoomManager) (pkt : MediaPacket) → IsTidy P m → IsTidy P (own_stream m room id pkt)
  unfolding own_stream
  own_stream-IsTidy m pkt h = record {
    cache_tidy = h.cache_tidy;
    buffer_tidy = h.buffer_tidy;
    pli_tidy = h.pli_tidy;
    owner_tidy = owned (is_repair pkt.header) (is_video pkt);
    receiver_tidy = h.receiver_tidy;
  }
    where
      own : All (OfOwner P) (put (room, pkt.header.stream_id) id m.stream_owner)
      own = put-All (OfOwner P) _ _ m.stream_owner here h.owner_tidy

      owned :
          (a b : Bool)
          → All (OfOwner P) (
              if a
              then m.stream_owner
              else (if b
                  then put
                      (room, outbound_video_stream_id id)
                      id
                      (put (room, pkt.header.stream_id) id m.stream_owner)
                  else put (room, pkt.header.stream_id) id m.stream_owner))
      owned true b = h.owner_tidy
      owned false true = put-All (OfOwner P) _ _ _ here own
      owned false false = own

  pub update_receiver_state-IsTidy :
      (m : RoomManager) (bwe_kbps loss_pct now : ℕ)
      → IsTidy P m
      → IsTidy P (update_receiver_state m room id bwe_kbps loss_pct now)
  unfolding update_receiver_state
  update_receiver_state-IsTidy m bwe_kbps loss_pct now h = record {
    cache_tidy = h.cache_tidy;
    buffer_tidy = h.buffer_tidy;
    pli_tidy = h.pli_tidy;
    owner_tidy = h.owner_tidy;
    receiver_tidy = put-All (OfReceiver P) _ _ m.receiver_states here h.receiver_tidy;
  }

pub pli_to-IsTidy :
    (P : String → ℕ → Type 0) (m : RoomManager) (room : String) (stream now : ℕ) (o : Option ℕ)
    → ((i : ℕ) → o ≡ some i → P room i)
    → IsTidy P m
    → IsTidy P (pli_to m room stream now o).1
unfolding pli_to
pli_to-IsTidy P m room stream now none f h = h
pli_to-IsTidy P m room stream now (some i) f h = record {
  cache_tidy = h.cache_tidy;
  buffer_tidy = h.buffer_tidy;
  pli_tidy = marked (suppressed (find (room, (i, stream)) m.pli_state) now);
  owner_tidy = h.owner_tidy;
  receiver_tidy = h.receiver_tidy;
}
  where
    marked :
        (late : Bool)
        → All (OfSender P) (if late then m.pli_state else put (room, (i, stream)) now m.pli_state)
    marked true = h.pli_tidy
    marked false = put-All (OfSender P) _ now m.pli_state (f i refl) h.pli_tidy
