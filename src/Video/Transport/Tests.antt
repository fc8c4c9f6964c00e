-- ===== src/Video/Transport/Tests.antt =====
-- A small frame and its packets, cut and put together.
use wzp.Common.{ℕ, ◌≡◌, refl, true, List, [], ◌∷◌, map, Option, none, some, All, arith}
use wzp.Wire.Kinds.Codec.{h264_baseline}
use wzp.Common.Keyed.{find}
use wzp.Wire.Packet.{MediaPacket}
use wzp.Video.Transport.{
  VideoFrame, new_reassembler, packetize_video_frame, fragments_from, fragment_header, chunks,
  chunk_loop, framed, dimension_bytes,
}
use wzp.Video.Transport.Fragments.{shown}
use wzp.Video.Transport.Origin.{Event, comes, evicts, frames_of, IsFrom, IsSent, frames_of-IsSent}
use wzp.Video.Transport.RoundTrip.{frames_of-packetize_video_frame}

abbrev frame : VideoFrame
frame = record {
  bytes = 1 ∷ 2 ∷ 3 ∷ [];
  codec_id = h264_baseline;
  is_keyframe = true;
  timestamp_ms = 40;
  width = 640;
  height = 70000;
}

abbrev frame_at : ℕ → Option VideoFrame
frame_at t = some frame

abbrev packet : MediaPacket
packet = record {
  header = fragment_header frame 1 0 9;
  payload = 87 ∷ 90 ∷ 86 ∷ 49 ∷ 2 ∷ 128 ∷ 255 ∷ 255 ∷ 1 ∷ 2 ∷ 3 ∷ [];
  quality_report = none;
}

frame_cut : (packetize_video_frame frame 9).0 ≡ packet ∷ []
unfolding packetize_video_frame fragments_from chunks chunk_loop framed dimension_bytes
frame_cut = refl

frames_of-packetize_video_frame_example :
    frames_of new_reassembler (map comes (packetize_video_frame frame 9).0) ≡ shown frame ∷ []
unfolding new_reassembler find
frames_of-packetize_video_frame_example =
    frames_of-packetize_video_frame frame 9 new_reassembler (omega arith) (omega arith) refl

-- The packet comes twice, with an eviction in between.
abbrev events : List Event
events = comes packet ∷ evicts 2100 2000 ∷ comes packet ∷ []

events-IsFrom : All (IsFrom frame_at) events
unfolding IsFrom packetize_video_frame fragments_from chunks chunk_loop framed dimension_bytes
    fragment_header
events-IsFrom =
    ((frame, 9, 0, omega arith, refl, refl), (tt, ((frame, 9, 0, omega arith, refl, refl), tt)))

frames_of-IsSent_example : All (IsSent frame_at) (frames_of new_reassembler events)
frames_of-IsSent_example = frames_of-IsSent frame_at events events-IsFrom
