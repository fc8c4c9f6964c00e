-- ===== src/Relay/Rooms/Entering.antt =====
-- The state of a relay stays in order when participants join its rooms.
use Prim.Native.String.{String}
use text.Mathlib.TextEquality.{eq_iff}
use wzp.Common.{
  ℕ, ◌+◌, ◌%◌, ◌<◌, ◌≡◌, refl, true, false, List, Option, none, some, arith, inl, inr, Bool-cases,
  sym, subst,
}
use wzp.Common.Words.{u64_mod}
use wzp.Common.Maps.{str_eq, lookup, insert, lookup-insert}
use wzp.Common.Keyed.{nat_eq, string_eq}
use wzp.Relay.Rooms.{ParticipantSender, Room, contains, is_empty}
use wzp.Relay.Rooms.Manager.{RoomManager, is_authorized, clear_all}
use wzp.Relay.Rooms.Membership.{join, admit, enter, replace_fingerprint, or_new_room}
use wzp.Relay.Rooms.Media.{contains_in}
use wzp.Relay.Rooms.Tidy.{IsTidy, IsTidy-imp, SparedAll, clear_all-IsTidy}
use wzp.Relay.Rooms.Valid.{
  IsRoom, enter-IsRoom, later-IsRoom, new_room-IsRoom, enter_occupied, contains-enter,
}

abbrev pub Present : List (String × Room) → String → ℕ → Type 0
Present rooms name id = contains_in (lookup name rooms) id ≡ true

abbrev pub Occupied : ℕ → Option Room → Type 0
Occupied next none = Unit
Occupied next (some room) = IsRoom next room × (is_empty room ≡ false)

-- No empty room is kept, the participants of each are in order, and all that is kept per stream and
-- per receiver is of participants who are there.
pub record IsRelay (m : RoomManager) : Type 0 where
  pub tidy : IsTidy (Present m.rooms) m
  pub occupied : (name : String) → Occupied m.next_participant_id (lookup name m.rooms)

pub insert-Present :
    (rooms : List (String × Room)) (name : String) (room : Room) (r : String) (i : ℕ)
    → (contains_in (lookup name rooms) i ≡ true → contains room i ≡ true)
    → Present rooms r i
    → Present (insert name room rooms) r i
insert-Present rooms name room r i f p = elim (Bool-cases (str_eq name r)) [
  | inl e ↦
      rw (lookup-insert name r room rooms, e)
        (f (subst (λ x. contains_in (lookup x rooms) i ≡ true) (sym ((eq_iff name r).0 e)) p))
  | inr e ↦ rw (lookup-insert name r room rooms, e) p
]

pub insert-Occupied :
    (next next_after : ℕ) (rooms : List (String × Room)) (name : String) (room : Room)
    → Occupied next_after (some room)
    → ((o : Option Room) → Occupied next o → Occupied next_after o)
    → ((r : String) → Occupied next (lookup r rooms))
    → (r : String) → Occupied next_after (lookup r (insert name room rooms))
insert-Occupied next next_after rooms name room new later h r = elim (Bool-cases (str_eq name r)) [
  | inl e ↦ rw (lookup-insert name r room rooms, e) new
  | inr e ↦ rw (lookup-insert name r room rooms, e) (later (lookup r rooms) (h r))
]

later-Occupied : (next : ℕ) (o : Option Room) → Occupied next o → Occupied (next + 1) o
later-Occupied next none h = tt
later-Occupied next (some room) h = (later-IsRoom next room h.0, h.1)

or_new_room-IsRoom : (next : ℕ) (o : Option Room) → Occupied next o → IsRoom next (or_new_room o)
or_new_room-IsRoom next none h = new_room-IsRoom next
or_new_room-IsRoom next (some room) h = h.0

contains-or_new_room :
    (o : Option Room) (i : ℕ) → contains_in o i ≡ true → contains (or_new_room o) i ≡ true
contains-or_new_room none i h = absurd (ground (arith, h))
contains-or_new_room (some room) i h = h

-- A record with other rooms keeps the state of streams and receivers.
pub rooms-IsTidy :
    (P : String → ℕ → Type 0) (m n : RoomManager)
    → n.keyframe_cache ≡ m.keyframe_cache
    → n.keyframe_buffer ≡ m.keyframe_buffer
    → n.pli_state ≡ m.pli_state
    → n.stream_owner ≡ m.stream_owner
    → n.receiver_states ≡ m.receiver_states
    → IsTidy P m
    → IsTidy P n
rooms-IsTidy P m n a b c d e h = record {
  cache_tidy = rw a h.cache_tidy;
  buffer_tidy = rw b h.buffer_tidy;
  pli_tidy = rw c h.pli_tidy;
  owner_tidy = rw d h.owner_tidy;
  receiver_tidy = rw e h.receiver_tidy;
}

-- Who was there and was not replaced is there when someone has joined.
Present-join :
    (rooms : List (String × Room)) (name : String) (id : ℕ) (sender : ParticipantSender)
    → (fp alias : Option String) (r : String) (i : ℕ)
    → SparedAll
        (Present rooms)
        name
        (replace_fingerprint (or_new_room (lookup name rooms)) fp).0
        r
        i
    → Present
        (insert name
          (enter (replace_fingerprint (or_new_room (lookup name rooms)) fp).1 id sender fp alias)
          rooms)
        r
        i
Present-join rooms name id sender fp alias r i p = elim (Bool-cases (str_eq r name)) [
  | inl e ↦
      insert-Present rooms name _ r i
        (λ c.
          contains-enter (or_new_room (lookup name rooms)) id i sender fp alias
            (contains-or_new_room (lookup name rooms) i c) (rw e at p.1))
        p.0
  | inr e ↦
      rw
        (
          lookup-insert name r
              (enter (replace_fingerprint (or_new_room (lookup name rooms)) fp).1 id sender fp
                alias)
              rooms,
          other e,
        )
        p.0
]
  where
    other : str_eq r name ≡ false → str_eq name r ≡ false
    other e = ground (arith, e, eq_iff r name, eq_iff name r)

admit-IsRelay :
    (m : RoomManager) (name : String) (sender : ParticipantSender) (fp alias : Option String)
    → m.next_participant_id + 1 < u64_mod
    → IsRelay m
    → IsRelay (admit m name sender fp alias).1
unfolding admit
admit-IsRelay m name sender fp alias b h =
    let found = lookup name m.rooms in
    let replaced = replace_fingerprint (or_new_room found) fp in
    let id = m.next_participant_id in
    let next : (id + 1) % u64_mod ≡ id + 1 = omega arith in
    let room = enter replaced.1 id sender fp alias in
    record {
      tidy = rooms-IsTidy _ (clear_all m name replaced.0) _ refl refl refl refl refl (
          IsTidy-imp _ _ (clear_all m name replaced.0)
            (Present-join m.rooms name id sender fp alias)
            (clear_all-IsTidy (Present m.rooms) m name replaced.0 h.tidy));
      occupied = λ r. rw next (
          insert-Occupied id (id + 1) m.rooms name room
            (
              enter-IsRoom id (or_new_room found) sender fp alias
                  (or_new_room-IsRoom id found (h.occupied name)),
              enter_occupied replaced.1 id sender fp alias,
            )
            (later-Occupied id) h.occupied r);
    }

pub join-IsRelay :
    (m : RoomManager) (name : String) (sender : ParticipantSender) (fp alias : Option String)
    → m.next_participant_id + 1 < u64_mod
    → IsRelay m
    → IsRelay (join m name sender fp alias).1
unfolding join
join-IsRelay m name sender fp alias b h = elim (Bool-cases (is_authorized m name fp)) [
  | inl e ↦ rw e (admit-IsRelay m name sender fp alias b h)
  | inr e ↦ rw e h
]
