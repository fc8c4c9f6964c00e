-- ===== src/Relay/Rooms/Forwarding.antt =====
-- Whom a packet of media reaches, and what all are told of the quality.
use Prim.Native.String.{String}
use wzp.Common.{
  ℕ, ◌≤◌, ◌≡◌, refl, Bool, false, not, ◌&&◌, ◌||◌, List, [], ◌∷◌, map, Option, none, some, arith,
  inl, inr, Bool-cases, All, ◌==◌, ==_iff, ◌≢◌, ltb, ap, ◌∙◌,
}
use wzp.Common.Keyed.{nat_eq, find, put, retain}
use wzp.Common.Maps.{lookup}
use wzp.Wire.Header.{QualityReport}
use wzp.Wire.Packet.{MediaPacket}
use wzp.Quality.Tiers.{Tier, rank, profile}
use wzp.Relay.Rooms.{
  ParticipantSender, quic, web_socket, senders_of, Participant, ParticipantQuality, Room,
  other_than, any_id, contains, others_with_id, lower_tier, weakest_from, weakest_tier,
  observe_participant, all_senders,
}
use wzp.Relay.Rooms.Members.{any_id-remove}
use wzp.Relay.Rooms.Manager.{RoomManager}
use wzp.Relay.Rooms.Media.{
  contains_in, connections, broadcast_signal, broadcast_directive, contains_participant, others_in,
  Delivery, routes, fan_out, Forwarded, Directive, forward_media, room_directive, changed_tier,
  observe_found, observe_in,
}

-- Whether a delivery is to the participant.
unfoldable pub reaches : ℕ → List (ℕ × Delivery) → Bool
reaches i [] = false
reaches i ((other, d) ∷ ds) = (other == i) || reaches i ds

listed : ℕ → List (ℕ × ParticipantSender) → Bool
listed i [] = false
listed i ((other, s) ∷ ps) = (other == i) || listed i ps

reaches-fan_out :
    (m : RoomManager) (name : String) (id i : ℕ) (pkt : MediaPacket)
    → (ps : List (ℕ × ParticipantSender))
    → reaches i (fan_out m name id pkt ps) ≡ (listed i ps && routes m name pkt i)
unfolding reaches fan_out listed
reaches-fan_out m name id i pkt [] = refl
reaches-fan_out m name id i pkt ((other, s) ∷ ps) = elim (Bool-cases (other == i)) [
  | inl e ↦
      let same : routes m name pkt other ≡ routes m name pkt i =
        ap (λ j. routes m name pkt j) ((==_iff other i).0 e) in
      ground (arith, reaches-fan_out m name id i pkt ps, same, e)
  | inr e ↦ ground (arith, reaches-fan_out m name id i pkt ps, e)
]

listed-senders :
    (i : ℕ) (ps : List Participant) → listed i (map (λ p. (p.id, p.sender)) ps) ≡ any_id i ps
unfolding listed any_id
listed-senders i [] = refl
listed-senders i (p ∷ ps) = ground (arith, listed-senders i ps)

listed-others_in :
    (o : Option Room) (id i : ℕ) → listed i (others_in o id) ≡ (contains_in o i && not (i == id))
unfolding listed others_with_id contains
listed-others_in none id i = refl
listed-others_in (some room) id i =
    listed-senders i (retain (other_than id) room.participants)
    ∙ any_id-remove i id room.participants

unfoldable pub deliveries_of : Option Forwarded → List (ℕ × Delivery)
deliveries_of none = []
deliveries_of (some f) = f.deliveries

fan_out-others :
    (m : RoomManager) (name : String) (id i : ℕ) (pkt : MediaPacket)
    → reaches i (fan_out m name id pkt (others_in (lookup name m.rooms) id))
      ≡ ((contains_participant m name i && not (i == id)) && routes m name pkt i)
unfolding contains_participant
fan_out-others m name id i pkt =
    rw
      (
        reaches-fan_out m name id i pkt (others_in (lookup name m.rooms) id),
        listed-others_in (lookup name m.rooms) id i,
      )
      refl

-- A packet of a participant in the room reaches exactly the others in the room to whom it is routed,
-- which are all others unless it is video; it never comes back to its sender. A packet of anyone else
-- reaches no one.
pub forward_media-reaches :
    (m : RoomManager) (name : String) (id i : ℕ) (pkt : MediaPacket) (now : ℕ)
    → (let r = forward_media m name id pkt now in
        reaches i (deliveries_of r.0) ≡ (
          contains_participant m name id
          && ((contains_participant r.1 name i && not (i == id)) && routes r.1 name pkt i)))
unfolding forward_media deliveries_of reaches
forward_media-reaches m name id i pkt now = elim (Bool-cases (contains_participant m name id)) [
  | inl e ↦ rw e (fan_out-others _ name id i pkt)
  | inr e ↦ rw e refl
]

abbrev pub AtLeast : Tier → ℕ × ParticipantQuality → Type 0
AtLeast t (id, pq) = rank t ≤ rank pq.current_tier

weakest_from_le :
    (t : Tier) (qs : List (ℕ × ParticipantQuality))
    → (rank (weakest_from t qs) ≤ rank t) × All (AtLeast (weakest_from t qs)) qs
unfolding weakest_from
weakest_from_le t [] = (omega arith, tt)
weakest_from_le t ((id, pq) ∷ qs) =
    let r = weakest_from_le (lower_tier t pq.current_tier) qs in
    let l = lower_le t pq.current_tier in (omega (arith, r.0, l.0), (omega (arith, r.0, l.1), r.1))
  where
    lower_le : (a b : Tier) → (rank (lower_tier a b) ≤ rank a) × (rank (lower_tier a b) ≤ rank b)
    lower_le a b = elim (Bool-cases (ltb (rank b) (rank a))) [
      | inl e ↦ rw e (ground (arith, e), omega arith)
      | inr e ↦ rw e (omega arith, ground (arith, e))
    ]

weakest_tier_le : (qs : List (ℕ × ParticipantQuality)) → All (AtLeast (weakest_tier qs)) qs
unfolding weakest_tier
weakest_tier_le [] = tt
weakest_tier_le ((id, pq) ∷ qs) = weakest_from_le pq.current_tier qs

-- The QUIC connections of the participants.
unfoldable pub quic_of : List Participant → List ℕ
quic_of [] = []
quic_of (p ∷ ps) = elim p.sender [ quic c ↦ c ∷ quic_of ps | web_socket c ↦ quic_of ps ]

quic_of-senders : (ps : List Participant) → connections (senders_of ps) ≡ quic_of ps
unfolding quic_of
quic_of-senders [] = refl
quic_of-senders (p ∷ ps) = at p.sender (quic_of-senders ps)
  where
    at :
        (s : ParticipantSender)
        → connections (senders_of ps) ≡ quic_of ps
        → connections (s ∷ senders_of ps)
          ≡ (elim s [ quic c ↦ c ∷ quic_of ps | web_socket c ↦ quic_of ps ])
    at (quic c) h = ap (λ cs. c ∷ cs) h
    at (web_socket c) h = h

-- What a directive says of the room that it leaves, and which connections of the room it is sent to.
unfoldable pub Tells : Option Directive × Room → Room → Type 0
Tells (none, after) before =
    (rank after.current_tier ≡ rank before.current_tier) × (broadcast_directive none ≡ [])
Tells (some (p, to), after) before =
    (p ≡ profile after.current_tier)
    × ((broadcast_directive (some (p, to)) ≡ quic_of before.participants)
        × ((rank after.current_tier ≢ rank before.current_tier)
            × All (AtLeast after.current_tier) after.qualities))

room_directive-Tells : (room : Room) → Tells (room_directive room) room
unfolding room_directive Tells broadcast_directive broadcast_signal all_senders
room_directive-Tells room =
    let weakest = weakest_tier room.qualities in
    elim (Bool-cases (rank weakest == rank room.current_tier)) [
      | inl e ↦ rw e (refl, refl)
      | inr e ↦ rw e (
        refl,
        (quic_of-senders room.participants, (ground (arith, e), weakest_tier_le room.qualities)),
      )
    ]

changed_tier-Tells :
    (room : Room) (id : ℕ) (r : Option Tier × ParticipantQuality)
    → Tells (changed_tier room id r) room
unfolding Tells broadcast_directive
changed_tier-Tells room id (none, pq) = (refl, refl)
changed_tier-Tells room id (some t, pq) =
    same_senders (room_directive changed) (room_directive-Tells changed)
  where
    changed : Room
    changed = record room { qualities = put id pq room.qualities }

    same_senders : (r : Option Directive × Room) → Tells r changed → Tells r room
    same_senders (none, after) h = h
    same_senders (some (p, to), after) h = h

observe_found-Tells :
    (room : Room) (id : ℕ) (o : Option ParticipantQuality) (report : QualityReport) (now : ℕ)
    → Tells (observe_found room id o report now) room
unfolding Tells broadcast_directive
observe_found-Tells room id none report now = (refl, refl)
observe_found-Tells room id (some pq) report now =
    changed_tier-Tells room id (observe_participant pq report now)

-- A report leaves the room's tier as it was and is followed by no directive; or a profile is sent to
-- the QUIC participants of the room, to all of them and to no one else, so never to one on a WebSocket:
-- that of the room's new tier, which differs from the old one and is no better than the tier of any
-- participant.
pub observe_in-Tells :
    (room : Room) (id : ℕ) (report : QualityReport) (now : ℕ)
    → Tells (observe_in room id report now) room
unfolding observe_in
observe_in-Tells room id report now =
    observe_found-Tells room id (find id room.qualities) report now
