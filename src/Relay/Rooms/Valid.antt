-- ===== src/Relay/Rooms/Valid.antt =====
-- A room stays in order when participants enter and leave.
use Prim.Native.String.{String}
use text.Mathlib.TextEquality.{eq_iff}
use wzp.Common.{
  ℕ, ◌+◌, ◌≡◌, refl, Bool, true, false, not, ◌&&◌, List, [], ◌∷◌, ◌++◌, Option, none, some, arith,
  ◌==◌, All-append,
}
use wzp.Common.SortedMaps.{mem}
use wzp.Common.Keyed.{nat_eq, find, retain, retain-All, All-imp}
use wzp.Relay.Rooms.{
  Participant, ParticipantSender, new_participant, has_fingerprint, matches, any_id, Room, new_room,
  add, remove_participant, remove_by_fingerprint, none_left, is_empty, contains,
}
use wzp.Relay.Rooms.Membership.{replace_fingerprint, enter, without}
use wzp.Relay.Rooms.Members.{
  IsNew, Distinct, Below, HasQualities, retain-Distinct, any_id-remove, any_id-spared,
  remove_by_fingerprint-HasQualities, remove-HasQualities, any_id-append, add-HasQualities,
}

-- Where `next` is the number that the next participant gets.
pub record IsRoom (next : ℕ) (room : Room) : Type 0 where
  pub distinct : Distinct room.participants
  pub below : Below next room.participants
  pub has_qualities : HasQualities room.participants room.qualities

retain_all-Below :
    (next : ℕ) (p : Participant → Bool) (ps : List Participant)
    → Below next ps
    → Below next (retain p ps)
retain_all-Below next p ps h = retain-All _ _ p ps (λ q b e. b) h

append-IsNew :
    (f : Option String) (ps : List Participant) (p : Participant)
    → IsNew f ps
    → IsNew f (p ∷ [])
    → IsNew f (ps ++ (p ∷ []))
append-IsNew none ps p h g = tt
append-IsNew (some fp) ps p h g = All-append _ ps (p ∷ []) h g

-- Not sharing a fingerprint goes both ways.
IsNew-after :
    (f g : Option String) (p q : Participant)
    → p.fingerprint ≡ f
    → q.fingerprint ≡ g
    → IsNew f (q ∷ [])
    → IsNew g (p ∷ [])
IsNew-after f none p q e d h = tt
IsNew-after none (some b) p q e d h = ground (arith, e)
IsNew-after (some a) (some b) p q e d h = ground (arith, eq_iff a b, eq_iff b a, h.0, ap_fp)
  where
    ap_fp : has_fingerprint a q.fingerprint ≡ has_fingerprint a (some b)
    ap_fp = rw d refl

head-IsNew :
    (f : Option String) (q : Participant) (ps : List Participant)
    → IsNew f (q ∷ ps)
    → IsNew f (q ∷ [])
head-IsNew none q ps h = tt
head-IsNew (some fp) q ps h = (h.0, tt)

tail-IsNew :
    (f : Option String) (q : Participant) (ps : List Participant) → IsNew f (q ∷ ps) → IsNew f ps
tail-IsNew none q ps h = tt
tail-IsNew (some fp) q ps h = h.1

append-Distinct :
    (p : Participant) (ps : List Participant)
    → Distinct ps
    → Below p.id ps
    → IsNew p.fingerprint ps
    → Distinct (ps ++ (p ∷ []))
unfolding any_id
append-Distinct p [] d b n = (refl, (nothing p.fingerprint, tt))
  where
    nothing : (f : Option String) → IsNew f []
    nothing none = tt
    nothing (some fp) = tt
append-Distinct p (q ∷ ps) d b n = (
  ground (arith, any_id-append q.id ps (p ∷ []), d.0, b.0),
  (
    append-IsNew q.fingerprint ps p d.1.0
        (IsNew-after p.fingerprint q.fingerprint p q refl refl (head-IsNew p.fingerprint q ps n)),
    append-Distinct p ps d.1.1 b.1 (tail-IsNew p.fingerprint q ps n),
  ),
)

replace_fingerprint-IsRoom :
    (next : ℕ) (room : Room) (fp : Option String)
    → IsRoom next room
    → IsRoom next (replace_fingerprint room fp).1
      × IsNew fp (replace_fingerprint room fp).1.participants
unfolding remove_by_fingerprint
replace_fingerprint-IsRoom next room none h = (h, tt)
replace_fingerprint-IsRoom next room (some fp) h = (
  record {
    distinct = retain-Distinct _ room.participants h.distinct;
    below = retain_all-Below next _ room.participants h.below;
    has_qualities =
        remove_by_fingerprint-HasQualities fp room.participants room.qualities h.distinct
          h.has_qualities;
  },
  retain-All _ _ _ room.participants (λ q b e. ground (arith, e)) h.below,
)

pub enter-IsRoom :
    (next : ℕ) (room : Room) (sender : ParticipantSender) (fp alias : Option String)
    → IsRoom next room
    → IsRoom (next + 1) (enter (replace_fingerprint room fp).1 next sender fp alias)
unfolding enter add
enter-IsRoom next room sender fp alias h =
    let r = replace_fingerprint-IsRoom next room fp h in
    let p = new_participant next sender fp alias in
    let ps = (replace_fingerprint room fp).1.participants in
    record {
      distinct = append-Distinct p ps r.0.distinct r.0.below r.1;
      below =
          All-append _ ps (p ∷ []) (All-imp _ _ ps (λ q b. omega (arith, b)) r.0.below)
            (omega arith, tt);
      has_qualities = add-HasQualities p ps _ r.0.has_qualities;
    }

pub without-IsRoom :
    (next : ℕ) (room : Room) (id : ℕ) → IsRoom next room → IsRoom next (without room id)
unfolding remove_participant
without-IsRoom next room id h = record {
  distinct = retain-Distinct _ room.participants h.distinct;
  below = retain_all-Below next _ room.participants h.below;
  has_qualities = remove-HasQualities id room.participants room.qualities h.has_qualities;
}

pub later-IsRoom : (next : ℕ) (room : Room) → IsRoom next room → IsRoom (next + 1) room
later-IsRoom next room h = record {
  distinct = h.distinct;
  below = All-imp _ _ room.participants (λ q b. omega (arith, b)) h.below;
  has_qualities = h.has_qualities;
}

pub new_room-IsRoom : (next : ℕ) → IsRoom next new_room
unfolding new_room any_id find
new_room-IsRoom next = record { distinct = tt; below = tt; has_qualities = λ i. refl }

none_left-append : (ps : List Participant) (p : Participant) → none_left (ps ++ (p ∷ [])) ≡ false
unfolding none_left
none_left-append [] p = refl
none_left-append (q ∷ ps) p = refl

pub enter_occupied :
    (room : Room) (id : ℕ) (sender : ParticipantSender) (fp alias : Option String)
    → is_empty (enter room id sender fp alias) ≡ false
unfolding enter add is_empty
enter_occupied room id sender fp alias =
    none_left-append room.participants (new_participant id sender fp alias)

-- Who was in the room and was not replaced is in it behind the newcomer.
pub contains-enter :
    (room : Room) (id i : ℕ) (sender : ParticipantSender) (fp alias : Option String)
    → contains room i ≡ true
    → mem i (replace_fingerprint room fp).0 ≡ false
    → contains (enter (replace_fingerprint room fp).1 id sender fp alias) i ≡ true
unfolding contains enter add remove_by_fingerprint
contains-enter room id i sender none alias c m =
    rw (any_id-append i room.participants (new_participant id sender none alias ∷ []), c) refl
contains-enter room id i sender (some fp) alias c m =
    rw
      (
        any_id-append i (retain (λ p. not (matches fp p)) room.participants)
            (new_participant id sender (some fp) alias ∷ []),
        any_id-spared fp i room.participants c m,
      )
      refl

pub contains-without :
    (room : Room) (id i : ℕ) → contains (without room id) i ≡ (contains room i && not (i == id))
unfolding contains remove_participant
contains-without room id i = any_id-remove i id room.participants
