-- ===== src/Relay/Rooms.antt =====
-- crates/wzp-relay/src/room.rs: one room of the relay, its participants and their quality. A sender,
-- which is a connection, is a number. The addresses, which are only logged, are left out. The number
-- of the next participant, a static counter of the source, is passed in.
pub mod Manager
pub mod Membership
pub mod Media
pub mod Tidy
pub mod Steps
pub mod Members
pub mod Valid
pub mod Entering
pub mod Leaving
pub mod Reports
pub mod Trace
pub mod Losses
pub mod Layers
pub mod Keyframes
pub mod Forwarding
pub mod Queries
mod Tests
use Prim.Native.String.{String}
use wzp.Common.{
  ℕ, ◌+◌, ◌%◌, Bool, true, false, not, ◌||◌, List, [], ◌∷◌, ◌++◌, map, Option, none, some, ltb,
  ◌==◌, if◌then◌else◌, length,
}
use wzp.Common.Words.{u32_mod}
use wzp.Common.Maps.{str_eq}
use wzp.Common.Keyed.{find, put, delete, retain, nat_eq}
use wzp.Wire.Header.{QualityReport}
use wzp.Quality.Tiers.{Tier, good, rank}
use wzp.Quality.Controller.{Controller, new_controller, observe}

pub data ParticipantSender : Type 0 where
  quic web_socket : ℕ → ParticipantSender

pub record Participant : Type 0 where
  pub id : ℕ
  pub sender : ParticipantSender
  pub fingerprint : Option String
  pub alias : Option String

pub record ParticipantQuality : Type 0 where
  pub controller : Controller
  pub current_tier : Tier

unfoldable pub new_quality : ParticipantQuality
new_quality = record { controller = new_controller; current_tier = good }

-- `observe`: the new tier if it changed. The relay attaches no bandwidth estimator, so the bit rates
-- of the tiers play no part.
unfoldable pub observe_participant :
    ParticipantQuality → QualityReport → ℕ → Option Tier × ParticipantQuality
observe_participant pq report now =
    let c = (observe (λ t. 0) none pq.controller report now).1 in
    if rank c.current_tier == rank pq.current_tier
    then (none, record pq { controller = c })
    else (some c.current_tier, record { controller = c; current_tier = c.current_tier })

abbrev pub lower_tier : Tier → Tier → Tier
lower_tier a b = if ltb (rank b) (rank a) then b else a

unfoldable pub weakest_from : Tier → List (ℕ × ParticipantQuality) → Tier
weakest_from t [] = t
weakest_from t ((id, pq) ∷ qs) = weakest_from (lower_tier t pq.current_tier) qs

unfoldable pub weakest_tier : List (ℕ × ParticipantQuality) → Tier
weakest_tier [] = good
weakest_tier ((id, pq) ∷ qs) = weakest_from pq.current_tier qs

pub record Room : Type 0 where
  pub participants : List Participant
  pub qualities : List (ℕ × ParticipantQuality)
  pub current_tier : Tier

unfoldable pub new_room : Room
new_room = record { participants = []; qualities = []; current_tier = good }

abbrev pub new_participant : ℕ → ParticipantSender → Option String → Option String → Participant
new_participant id sender fingerprint alias = record {
  id = id;
  sender = sender;
  fingerprint = fingerprint;
  alias = alias;
}

unfoldable pub add : Room → ℕ → ParticipantSender → Option String → Option String → Room
add room id sender fingerprint alias = record room {
  participants = room.participants ++ (new_participant id sender fingerprint alias ∷ []);
}

abbrev pub other_than : ℕ → Participant → Bool
other_than id p = not (p.id == id)

-- `Room::remove`
unfoldable pub remove_participant : Room → ℕ → Room
remove_participant room id = record room { participants = retain (other_than id) room.participants }

abbrev pub has_fingerprint : String → Option String → Bool
has_fingerprint fp none = false
has_fingerprint fp (some f) = str_eq f fp

abbrev pub matches : String → Participant → Bool
matches fp p = has_fingerprint fp p.fingerprint

unfoldable pub ids : List Participant → List ℕ
ids [] = []
ids (p ∷ ps) = p.id ∷ ids ps

unfoldable pub delete_all : List ℕ → List (ℕ × ParticipantQuality) → List (ℕ × ParticipantQuality)
delete_all [] qs = qs
delete_all (id ∷ rest) qs = delete_all rest (delete id qs)

unfoldable pub remove_by_fingerprint : Room → String → List ℕ × Room
remove_by_fingerprint room fp =
    let removed = ids (retain (matches fp) room.participants) in
    (
      removed,
      record room {
        participants = retain (λ p. not (matches fp p)) room.participants;
        qualities = delete_all removed room.qualities;
      },
    )

unfoldable pub any_id : ℕ → List Participant → Bool
any_id id [] = false
any_id id (p ∷ ps) = (p.id == id) || any_id id ps

-- `Room::contains`
unfoldable pub contains : Room → ℕ → Bool
contains room id = any_id id room.participants

abbrev pub senders_of : List Participant → List ParticipantSender
senders_of ps = map (λ p. p.sender) ps

unfoldable pub others : Room → ℕ → List ParticipantSender
others room exclude = senders_of (retain (other_than exclude) room.participants)

unfoldable pub others_with_id : Room → ℕ → List (ℕ × ParticipantSender)
others_with_id room exclude =
    map (λ p. (p.id, p.sender)) (retain (other_than exclude) room.participants)

abbrev pub or_empty : Option String → String
or_empty none = ""
or_empty (some s) = s

pub record RoomParticipant : Type 0 where
  pub fingerprint : String
  pub alias : Option String

unfoldable pub participant_list : Room → List RoomParticipant
participant_list room =
    map (λ p. record { fingerprint = or_empty p.fingerprint; alias = p.alias }) room.participants

unfoldable pub all_senders : Room → List ParticipantSender
all_senders room = senders_of room.participants

unfoldable pub none_left : List Participant → Bool
none_left [] = true
none_left (p ∷ ps) = false

-- `Room::is_empty`
unfoldable pub is_empty : Room → Bool
is_empty room = none_left room.participants

-- `SignalMessage::RoomUpdate`
pub record RoomUpdate : Type 0 where
  pub count : ℕ
  pub participants : List RoomParticipant

unfoldable pub room_update : Room → RoomUpdate
room_update room = record {
  count = length room.participants % u32_mod;
  participants = participant_list room;
}
