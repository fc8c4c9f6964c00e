-- ===== src/Relay/Rooms/Leaving.antt =====
-- The state of a relay stays in order when participants leave its rooms.
use Prim.Native.String.{String}
use text.Mathlib.TextEquality.{eq_iff}
use wzp.Common.{
  ℕ, ◌≡◌, refl, true, false, List, Option, none, some, arith, inl, inr, Bool-cases, ◌==◌, subst,
}
use wzp.Common.Maps.{str_eq, lookup, insert, remove, lookup-insert, lookup-remove}
use wzp.Common.Keyed.{nat_eq, string_eq}
use wzp.Relay.Rooms.{Room, contains, is_empty}
use wzp.Relay.Rooms.Manager.{RoomManager, clear_room_state, clear_participant_state}
use wzp.Relay.Rooms.Membership.{leave, leave_room, without}
use wzp.Relay.Rooms.Tidy.{
  IsTidy-imp, Spared, Elsewhere, clear_participant_state-IsTidy, clear_room_state-IsTidy,
}
use wzp.Relay.Rooms.Valid.{without-IsRoom, contains-without}
use wzp.Relay.Rooms.Entering.{
  Present, Occupied, IsRelay, insert-Present, insert-Occupied, rooms-IsTidy,
}

remove-Occupied :
    (next : ℕ) (rooms : List (String × Room)) (name : String)
    → ((r : String) → Occupied next (lookup r rooms))
    → (r : String) → Occupied next (lookup r (remove name rooms))
remove-Occupied next rooms name h r = elim (Bool-cases (str_eq name r)) [
  | inl e ↦ rw (lookup-remove name r rooms, e) tt
  | inr e ↦ rw (lookup-remove name r rooms, e) (h r)
]

-- Who was there and did not leave is there still.
Present-left :
    (rooms : List (String × Room)) (name : String) (room : Room) (id : ℕ) (r : String) (i : ℕ)
    → lookup name rooms ≡ some room
    → Spared (Present rooms) name id r i
    → Present (insert name (without room id) rooms) r i
Present-left rooms name room id r i l p = elim (Bool-cases (str_eq r name)) [
  | inl e ↦
      insert-Present rooms name (without room id) r i
        (λ c.
          let here : contains room i ≡ true = rw l at c in
          let kept : (i == id) ≡ false = rw e at p.1 in
          rw (contains-without room id i, here, kept) refl)
        p.0
  | inr e ↦ insert_elsewhere (ground (arith, e, eq_iff r name, eq_iff name r))
]
  where
    insert_elsewhere : str_eq name r ≡ false → Present (insert name (without room id) rooms) r i
    insert_elsewhere e = rw (lookup-insert name r (without room id) rooms, e) p.0

Present-closed :
    (rooms : List (String × Room)) (name : String) (id : ℕ) (r : String) (i : ℕ)
    → Elsewhere (Spared (Present rooms) name id) name r i
    → Present (remove name rooms) r i
Present-closed rooms name id r i p = elsewhere (ground (arith, p.1, eq_iff r name, eq_iff name r))
  where
    elsewhere : str_eq name r ≡ false → Present (remove name rooms) r i
    elsewhere e = rw (lookup-remove name r rooms, e) p.0.0

leave_room-IsRelay :
    (m : RoomManager) (name : String) (o : Option Room) (id : ℕ)
    → lookup name m.rooms ≡ o
    → IsRelay m
    → IsRelay (leave_room m name o id).1
unfolding leave_room clear_room_state clear_participant_state
leave_room-IsRelay m name none id l h = h
leave_room-IsRelay m name (some room) id l h =
    let cleared = clear_participant_state m name id in
    let spared = clear_participant_state-IsTidy (Present m.rooms) m name id h.tidy in
    let old : Occupied m.next_participant_id (some room) =
      subst (λ o. Occupied m.next_participant_id o) l (h.occupied name) in
    elim (Bool-cases (is_empty (without room id))) [
      | inl e ↦ rw e (record {
        tidy =
            rooms-IsTidy _ (clear_room_state (record cleared { rooms = remove name m.rooms }) name)
              _ refl refl refl refl refl
              (IsTidy-imp _ _ _ (Present-closed m.rooms name id) (
                clear_room_state-IsTidy _ (record cleared { rooms = remove name m.rooms }) name
                  (rooms-IsTidy _ cleared _ refl refl refl refl refl spared)));
        occupied = remove-Occupied m.next_participant_id m.rooms name h.occupied;
      })
      | inr e ↦ rw e (record {
        tidy =
            rooms-IsTidy _ cleared _ refl refl refl refl refl
              (IsTidy-imp _ _ cleared (λ r i. Present-left m.rooms name room id r i l) spared);
        occupied =
            insert-Occupied m.next_participant_id m.next_participant_id m.rooms name
              (without room id) (without-IsRoom m.next_participant_id room id old.0, e) (λ o k. k)
              h.occupied;
      })
    ]

pub leave-IsRelay :
    (m : RoomManager) (name : String) (id : ℕ) → IsRelay m → IsRelay (leave m name id).1
unfolding leave
leave-IsRelay m name id h = leave_room-IsRelay m name (lookup name m.rooms) id refl h
