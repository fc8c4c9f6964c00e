-- ===== src/Relay/Rooms/Tidy.antt =====
-- What the relay keeps per stream and per receiver belongs to participants who are in the room.
use Prim.Native.String.{String}
use wzp.Common.{ℕ, ◌≡◌, Bool, true, false, not, ◌&&◌, List, [], ◌∷◌, arith, All, ◌==◌}
use wzp.Common.Maps.{str_eq}
use wzp.Common.SortedMaps.{mem}
use wzp.Common.Keyed.{nat_eq, string_eq, pair_eq, retain-All, All-imp}
use wzp.Relay.Rooms.Manager.{
  StreamKey, RoomKey, RoomManager, clear_room_state, clear_participant_state, clear_all,
}

abbrev pub OfSender {ℓ} : {V : Type ℓ} → (String → ℕ → Type 0) → StreamKey × V → Type 0
OfSender P ((r, (s, t)), v) = P r s

abbrev pub OfOwner : (String → ℕ → Type 0) → RoomKey × ℕ → Type 0
OfOwner P ((r, t), owner) = P r owner

abbrev pub OfReceiver {ℓ} : {V : Type ℓ} → (String → ℕ → Type 0) → RoomKey × V → Type 0
OfReceiver P ((r, s), v) = P r s

-- Every entry is of a participant in a room of whom `P` holds.
pub record IsTidy (P : String → ℕ → Type 0) (m : RoomManager) : Type 0 where
  pub cache_tidy : All (OfSender P) m.keyframe_cache
  pub buffer_tidy : All (OfSender P) m.keyframe_buffer
  pub pli_tidy : All (OfSender P) m.pli_state
  pub owner_tidy : All (OfOwner P) m.stream_owner
  pub receiver_tidy : All (OfReceiver P) m.receiver_states

pub IsTidy-imp :
    (P Q : String → ℕ → Type 0) (m : RoomManager)
    → ((r : String) (i : ℕ) → P r i → Q r i)
    → IsTidy P m
    → IsTidy Q m
IsTidy-imp P Q m f h = record {
  cache_tidy = All-imp _ _ m.keyframe_cache (λ e p. f e.0.0 e.0.1.0 p) h.cache_tidy;
  buffer_tidy = All-imp _ _ m.keyframe_buffer (λ e p. f e.0.0 e.0.1.0 p) h.buffer_tidy;
  pli_tidy = All-imp _ _ m.pli_state (λ e p. f e.0.0 e.0.1.0 p) h.pli_tidy;
  owner_tidy = All-imp _ _ m.stream_owner (λ e p. f e.0.0 e.1 p) h.owner_tidy;
  receiver_tidy = All-imp _ _ m.receiver_states (λ e p. f e.0.0 e.0.1 p) h.receiver_tidy;
}

-- Not the given participant of the given room.
abbrev pub Spared : (String → ℕ → Type 0) → String → ℕ → String → ℕ → Type 0
Spared P room id r i = P r i × ((str_eq r room && (i == id)) ≡ false)

abbrev pub Elsewhere : (String → ℕ → Type 0) → String → String → ℕ → Type 0
Elsewhere P room r i = P r i × (str_eq r room ≡ false)

not-true : (b : Bool) → not b ≡ true → b ≡ false
not-true b h = ground (arith, h)

pub clear_participant_state-IsTidy :
    (P : String → ℕ → Type 0) (m : RoomManager) (room : String) (id : ℕ)
    → IsTidy P m
    → IsTidy (Spared P room id) (clear_participant_state m room id)
unfolding clear_participant_state
clear_participant_state-IsTidy P m room id h = record {
  cache_tidy = retain-All _ _ _ m.keyframe_cache (λ e p k. (p, not-true _ k)) h.cache_tidy;
  buffer_tidy = retain-All _ _ _ m.keyframe_buffer (λ e p k. (p, not-true _ k)) h.buffer_tidy;
  pli_tidy = retain-All _ _ _ m.pli_state (λ e p k. (p, not-true _ k)) h.pli_tidy;
  owner_tidy = retain-All _ _ _ m.stream_owner (λ e p k. (p, not-true _ k)) h.owner_tidy;
  receiver_tidy = retain-All _ _ _ m.receiver_states (λ e p k. (p, not-true _ k)) h.receiver_tidy;
}

pub clear_room_state-IsTidy :
    (P : String → ℕ → Type 0) (m : RoomManager) (room : String)
    → IsTidy P m
    → IsTidy (Elsewhere P room) (clear_room_state m room)
unfolding clear_room_state
clear_room_state-IsTidy P m room h = record {
  cache_tidy = retain-All _ _ _ m.keyframe_cache (λ e p k. (p, not-true _ k)) h.cache_tidy;
  buffer_tidy = retain-All _ _ _ m.keyframe_buffer (λ e p k. (p, not-true _ k)) h.buffer_tidy;
  pli_tidy = retain-All _ _ _ m.pli_state (λ e p k. (p, not-true _ k)) h.pli_tidy;
  owner_tidy = retain-All _ _ _ m.stream_owner (λ e p k. (p, not-true _ k)) h.owner_tidy;
  receiver_tidy = retain-All _ _ _ m.receiver_states (λ e p k. (p, not-true _ k)) h.receiver_tidy;
}

-- None of the given participants of the given room.
abbrev pub SparedAll : (String → ℕ → Type 0) → String → List ℕ → String → ℕ → Type 0
SparedAll P room ids r i = P r i × ((str_eq r room && mem i ids) ≡ false)

pub clear_all-IsTidy :
    (P : String → ℕ → Type 0) (m : RoomManager) (room : String) (ids : List ℕ)
    → IsTidy P m
    → IsTidy (SparedAll P room ids) (clear_all m room ids)
unfolding clear_all mem
clear_all-IsTidy P m room [] h = IsTidy-imp P _ m (λ r i p. (p, ground arith)) h
clear_all-IsTidy P m room (id ∷ ids) h =
    IsTidy-imp _ _ _ (λ r i p. (p.0.0, ground (arith, p.0.1, p.1)))
      (clear_all-IsTidy (Spared P room id) _ room ids
        (clear_participant_state-IsTidy P m room id h))
