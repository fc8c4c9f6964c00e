-- ===== src/Relay/Rooms/Keyframes.antt =====
-- What a newcomer is shown: the last complete keyframe of each stream.
use Prim.Native.String.{String}
use wzp.Common.{
  ℕ, ◌+◌, ◌≤◌, ◌≡◌, refl, Bool, true, false, List, [], ◌∷◌, ◌++◌, Option, none, some, arith, inl,
  inr, Bool-cases, All, ◌∙◌, ap, subst, length, ltb, append_assoc,
}
use wzp.Common.Keyed.{nat_eq, string_eq, pair_eq, find, find-put_self}
use wzp.Wire.Header.{is_repair, is_keyframe, is_frame_end}
use wzp.Wire.Packet.{MediaPacket}
use wzp.Relay.Rooms.Manager.{RoomManager, Keyframe, StreamKey}
use wzp.Relay.Rooms.Media.{buffer_or, push_packet, update_keyframe_cache}

unfoldable pub cache_all : RoomManager → String → ℕ → List MediaPacket → RoomManager
cache_all m room sender [] = m
cache_all m room sender (pkt ∷ pkts) =
    cache_all (update_keyframe_cache m room sender pkt) room sender pkts

abbrev pub packets_of : Option Keyframe → List MediaPacket
packets_of none = []
packets_of (some kf) = kf.packets

abbrev pub bytes_of : Option Keyframe → ℕ
bytes_of none = 0
bytes_of (some kf) = kf.total_bytes

unfoldable pub payload_bytes : List MediaPacket → ℕ
payload_bytes [] = 0
payload_bytes (pkt ∷ pkts) = length pkt.payload + payload_bytes pkts

-- A source packet of a keyframe of the stream, at the end of the frame or not.
pub record IsPart (stream : ℕ) (ends : Bool) (pkt : MediaPacket) : Type 0 where
  pub of_stream : pkt.header.stream_id ≡ stream
  pub no_repair : is_repair pkt.header ≡ false
  pub of_keyframe : is_keyframe pkt.header ≡ true
  pub ending : is_frame_end pkt.header ≡ ends

push_packet_fits :
    (o : Option Keyframe) (pkt : MediaPacket)
    → bytes_of o + length pkt.payload ≤ 200000
    → ((push_packet (buffer_or o pkt) pkt).packets ≡ packets_of o ++ (pkt ∷ []))
      × ((push_packet (buffer_or o pkt) pkt).total_bytes ≡ bytes_of o + length pkt.payload)
unfolding push_packet
push_packet_fits none pkt b = elim (Bool-cases (ltb 200000 (0 + length pkt.payload))) [
  | inl e ↦ absurd (ground (arith, e, b))
  | inr e ↦ rw e (refl, refl)
]
push_packet_fits (some kf) pkt b =
    elim (Bool-cases (ltb 200000 (kf.total_bytes + length pkt.payload))) [
      | inl e ↦ absurd (ground (arith, e, b))
      | inr e ↦ rw e (refl, refl)
    ]

module _ (room : String) (sender stream : ℕ) where
  abbrev key : StreamKey
  key = (room, (sender, stream))

  part_pushed :
      (m : RoomManager) (pkt : MediaPacket)
      → IsPart stream false pkt
      → find key (update_keyframe_cache m room sender pkt).keyframe_buffer
        ≡ some (push_packet (buffer_or (find key m.keyframe_buffer) pkt) pkt)
  unfolding update_keyframe_cache
  part_pushed m pkt p =
      let own : StreamKey = (room, (sender, pkt.header.stream_id)) in
      subst
        (λ t.
          find (room, (sender, t)) (update_keyframe_cache m room sender pkt).keyframe_buffer
          ≡ some (push_packet (buffer_or (find (room, (sender, t)) m.keyframe_buffer) pkt) pkt))
        p.of_stream
        (rw (p.no_repair, p.of_keyframe, p.ending)
          (find-put_self own (push_packet (buffer_or (find own m.keyframe_buffer) pkt) pkt)
            m.keyframe_buffer))

  end_cached :
      (m : RoomManager) (pkt : MediaPacket)
      → IsPart stream true pkt
      → find key (update_keyframe_cache m room sender pkt).keyframe_cache
        ≡ some (push_packet (buffer_or (find key m.keyframe_buffer) pkt) pkt)
  unfolding update_keyframe_cache
  end_cached m pkt p =
      let own : StreamKey = (room, (sender, pkt.header.stream_id)) in
      subst
        (λ t.
          find (room, (sender, t)) (update_keyframe_cache m room sender pkt).keyframe_cache
          ≡ some (push_packet (buffer_or (find (room, (sender, t)) m.keyframe_buffer) pkt) pkt))
        p.of_stream
        (rw (p.no_repair, p.of_keyframe, p.ending)
          (find-put_self own (push_packet (buffer_or (find own m.keyframe_buffer) pkt) pkt)
            m.keyframe_cache))

  cache_all_from :
      (m : RoomManager) (parts : List MediaPacket) (last : MediaPacket)
      → All (IsPart stream false) parts
      → IsPart stream true last
      → bytes_of (find key m.keyframe_buffer) + payload_bytes (parts ++ (last ∷ [])) ≤ 200000
      → packets_of (find key (cache_all m room sender (parts ++ (last ∷ []))).keyframe_cache)
        ≡ packets_of (find key m.keyframe_buffer) ++ (parts ++ (last ∷ []))
  unfolding cache_all payload_bytes
  cache_all_from m [] last h l b =
      rw (end_cached m last l)
        ((push_packet_fits (find key m.keyframe_buffer) last (omega arith)).0)
  cache_all_from m (pkt ∷ parts) last h l b =
      let pushed = part_pushed m pkt h.0 in
      let fits = push_packet_fits (find key m.keyframe_buffer) pkt (omega arith) in
      let bytes : bytes_of (find key (update_keyframe_cache m room sender pkt).keyframe_buffer)
          ≡ bytes_of (find key m.keyframe_buffer) + length pkt.payload =
        ap bytes_of pushed ∙ fits.1 in
      let packets : packets_of (find key (update_keyframe_cache m room sender pkt).keyframe_buffer)
          ≡ packets_of (find key m.keyframe_buffer) ++ (pkt ∷ []) =
        ap packets_of pushed ∙ fits.0 in
      cache_all_from (update_keyframe_cache m room sender pkt) parts last h.1 l
        (omega (arith, bytes))
      ∙ (ap (λ ps. ps ++ (parts ++ (last ∷ []))) packets
          ∙ append_assoc (packets_of (find key m.keyframe_buffer)) (pkt ∷ [])
              (parts ++ (last ∷ [])))

  -- Where no part of a keyframe is pending, the source packets of one, in order and of 200000 bytes of
  -- payload at most, are cached as they came once the last has arrived.
  pub cache_all-frame :
      (m : RoomManager) (parts : List MediaPacket) (last : MediaPacket)
      → packets_of (find key m.keyframe_buffer) ≡ []
      → bytes_of (find key m.keyframe_buffer) ≡ 0
      → All (IsPart stream false) parts
      → IsPart stream true last
      → payload_bytes (parts ++ (last ∷ [])) ≤ 200000
      → packets_of (find key (cache_all m room sender (parts ++ (last ∷ []))).keyframe_cache)
        ≡ parts ++ (last ∷ [])
  cache_all-frame m parts last e z h l b =
      cache_all_from m parts last h l (omega (arith, z)) ∙ ap (λ ps. ps ++ (parts ++ (last ∷ []))) e
