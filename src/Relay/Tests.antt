-- ===== src/Relay/Tests.antt =====
-- The batcher and the registry of calls at concrete values.
use wzp.Common.{
  ℕ, none, leb, if◌then◌else◌, ◌≡◌, refl, true, false, List, [], ◌∷◌, some, arith, All,
}
use wzp.Common.Maps.{lookup, insert}
use wzp.Wire.Trunk.{TrunkEntry}
use wzp.Relay.Batcher.{TrunkBatcher, new_batcher}
use wzp.Relay.Batcher.Bounds.{IsBatcher, new_batcher-IsBatcher}
use wzp.Relay.Calls.{
  CallRegistry, accept_generic, accept_trusted, set_callee_reflexive_addr, get, set_active,
  new_registry, create_call, offered, advance_if, state_eq,
}
use wzp.Relay.Calls.Lifecycle.{
  Op, create_op, note_op, ring_op, activate_op, end_op, expire_op, apply_all,
}
use wzp.Relay.Calls.Forward.{OnlyForward, creates, apply_all_forward}
use wzp.Relay.Calls.Answers.{set_active_once}
use wzp.Relay.Policy.{
  new_policy, evaluate, block, close, policy_violation, enforcement, rate_cap, bitrate, abusive,
}
use wzp.Relay.Policy.Escalation.{verdict, prunes, run, run_block}
use wzp.Relay.Sessions.{new_manager, create_session, total_count}
use wzp.Relay.Sessions.Capacity.{Holds, Admits, create_pipeline, removes, apply_all-capacity}
use wzp.Relay.Sessions.Capacity

abbrev small : ℕ → TrunkEntry
small k = record { id_high = 0; id_low = k; payload = k ∷ k ∷ [] }

-- A batcher of at most two packets.
abbrev batcher : TrunkBatcher
batcher = record new_batcher { max_entries = 2 }

batcher-IsBatcher : IsBatcher batcher
unfolding new_batcher
batcher-IsBatcher = record {
  counted = new_batcher-IsBatcher.counted;
  some_entries = omega arith;
  within = record { entries = omega arith; size = new_batcher-IsBatcher.within.size };
}

abbrev three : List TrunkEntry
three = small 1 ∷ small 2 ∷ small 3 ∷ []

-- A call that rings and is accepted, and another.
abbrev placed : List Op
placed =
    create_op "c1" "alice" "bob" 10
    ∷ ring_op "c1"
    ∷ create_op "c2" "carol" "dave" 20
    ∷ activate_op "c1" accept_generic "room" 30
    ∷ end_op "c2" 40
    ∷ []

abbrev one_call : CallRegistry
one_call = create_call new_registry "c1" "alice" "bob" 10

-- Operations on the same call and on another, none of which creates the call again.
abbrev later : List Op
later =
    note_op "c1" (set_callee_reflexive_addr (some "192.0.2.1:4433"))
    ∷ create_op "c2" "carol" "dave" 20
    ∷ ring_op "c1"
    ∷ expire_op 30 90
    ∷ []

later-keeps : All (λ o. creates "c1" o ≡ false) later
later-keeps = (refl, (refl, (refl, (refl, tt))))

apply_all_forward_example : OnlyForward (get one_call "c1") (get (apply_all one_call later) "c1")
apply_all_forward_example = apply_all_forward one_call later "c1" later-keeps

accepted : (set_active one_call "c1" accept_generic "room" 30).0 ≡ true
unfolding set_active create_call advance_if get lookup insert new_registry state_eq offered
accepted = refl

set_active_once_example :
    (set_active
      (apply_all (set_active one_call "c1" accept_generic "room" 30).1 later)
      "c1"
      accept_trusted
      "other"
      99).0
    ≡ false
set_active_once_example =
    set_active_once one_call "c1" accept_generic "room" 30 later accept_trusted "other" 99 accepted
      later-keeps

-- A user who was hung up on at five seconds.
a_day : new_policy.block_duration ≡ 86400000000000
unfolding new_policy
a_day = refl

first_close :
    (evaluate new_policy "mallory" rate_cap abusive 5000000000).0
    ≡ close (policy_violation rate_cap (enforcement rate_cap))
unfolding evaluate new_policy
first_close = refl

run_block_example :
    (evaluate
      (run
        (evaluate new_policy "mallory" rate_cap abusive 5000000000).1
        (verdict "mallory" bitrate abusive 6000000000 ∷ prunes 7000000000 ∷ []))
      "mallory"
      rate_cap
      abusive
      8000000000).0
    ≡ block
run_block_example =
    run_block new_policy "mallory" rate_cap 5000000000 8000000000
      (verdict "mallory" bitrate abusive 6000000000 ∷ prunes 7000000000 ∷ []) first_close
      (omega (arith, a_day), (omega (arith, a_day), tt)) (omega (arith, a_day))

-- A session is refused between two others, and the first is removed.
abbrev admissions : List Capacity.Operation
admissions =
    Capacity.creates "room" none 1 5
    ∷ create_pipeline 2
    ∷ Capacity.creates "room" none 3 6
    ∷ removes 1
    ∷ []

apply_all-capacity_example :
    Holds 2 (Capacity.apply_all (new_manager 2) admissions)
    × ((create_session (Capacity.apply_all (new_manager 2) admissions) "room" none 4 7).0 ≡ (
        if leb 2 (total_count (Capacity.apply_all (new_manager 2) admissions))
        then none
        else some 4))
    × Admits 2 (Capacity.apply_all (new_manager 2) admissions) 4
apply_all-capacity_example = apply_all-capacity 2 admissions "room" none 4 7
