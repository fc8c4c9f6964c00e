-- ===== src/Relay/Calls.antt =====
-- crates/wzp-relay/src/call_registry.rs: the registry of direct calls. The clock is an argument, in
-- milliseconds; `&mut self` is passed in and returned.
pub mod Lifecycle
pub mod Forward
pub mod Answers
use Prim.Native.String.{String}
use wzp.Common.{
  ℕ, ◌-◌, List, [], Option, none, some, Bool, true, false, ◌&&◌, ◌||◌, not, if◌then◌else◌, ltb,
}
use wzp.Common.Maps.{str_eq, lookup, insert, remove, modify, keys, remove_all, count, values}

pub data DirectCallState : Type 0 where
  pending ringing active ended : DirectCallState

unfoldable pub state_eq : DirectCallState → DirectCallState → Bool
state_eq pending pending = true
state_eq ringing ringing = true
state_eq active active = true
state_eq ended ended = true
state_eq _ _ = false

-- `CallAcceptMode` of crates/wzp-proto/src/packet.rs.
pub data CallAcceptMode : Type 0 where
  reject accept_trusted accept_generic : CallAcceptMode

pub record DirectCall : Type 0 where
  pub call_id : String
  pub caller_fingerprint : String
  pub callee_fingerprint : String
  pub state : DirectCallState
  pub accept_mode : Option CallAcceptMode
  pub room_name : Option String
  pub created_at : ℕ
  pub answered_at : Option ℕ
  pub ended_at : Option ℕ
  pub caller_reflexive_addr : Option String
  pub callee_reflexive_addr : Option String
  pub peer_relay_fp : Option String
  pub caller_local_addrs : List String
  pub callee_local_addrs : List String
  pub caller_mapped_addr : Option String
  pub callee_mapped_addr : Option String

pub record CallRegistry : Type 0 where
  pub calls : List (String × DirectCall)

unfoldable pub new_registry : CallRegistry
new_registry = record { calls = [] }

unfoldable pub offered : String → String → String → ℕ → DirectCall
offered id caller callee now = record {
  call_id = id;
  caller_fingerprint = caller;
  callee_fingerprint = callee;
  state = pending;
  accept_mode = none;
  room_name = none;
  created_at = now;
  answered_at = none;
  ended_at = none;
  caller_reflexive_addr = none;
  callee_reflexive_addr = none;
  peer_relay_fp = none;
  caller_local_addrs = [];
  callee_local_addrs = [];
  caller_mapped_addr = none;
  callee_mapped_addr = none;
}

unfoldable pub create_call : CallRegistry → String → String → String → ℕ → CallRegistry
create_call r id caller callee now = record {
  calls = insert id (offered id caller callee now) r.calls;
}

-- `if let Some(call) = self.calls.get_mut(call_id) { .. }`
unfoldable pub update : CallRegistry → String → (DirectCall → DirectCall) → CallRegistry
update r id f = record { calls = modify id f r.calls }

-- The seven setters, each the name of the field that it writes with the value.
pub data Note : Type 0 where
  set_caller_local_addrs set_callee_local_addrs : List String → Note
  set_peer_relay_fp set_caller_reflexive_addr set_callee_reflexive_addr : Option String → Note
  set_caller_mapped_addr set_callee_mapped_addr : Option String → Note

unfoldable pub note : Note → DirectCall → DirectCall
note (set_caller_local_addrs a) c = record c { caller_local_addrs = a }
note (set_callee_local_addrs a) c = record c { callee_local_addrs = a }
note (set_peer_relay_fp a) c = record c { peer_relay_fp = a }
note (set_caller_reflexive_addr a) c = record c { caller_reflexive_addr = a }
note (set_callee_reflexive_addr a) c = record c { callee_reflexive_addr = a }
note (set_caller_mapped_addr a) c = record c { caller_mapped_addr = a }
note (set_callee_mapped_addr a) c = record c { callee_mapped_addr = a }

unfoldable pub set_note : CallRegistry → String → Note → CallRegistry
set_note r id n = update r id (note n)

unfoldable pub get : CallRegistry → String → Option DirectCall
get r id = lookup id r.calls

unfoldable pub ring : DirectCall → DirectCall
ring c = record c { state = ringing }

-- A transition that the guard allows on the call that is found; the Boolean is what it returns.
unfoldable pub advance_if :
    (DirectCall → Bool)
    → (DirectCall → DirectCall)
    → CallRegistry
    → String
    → Option DirectCall
    → Bool × CallRegistry
advance_if ok f r id none = (false, r)
advance_if ok f r id (some c) = if ok c then (true, update r id f) else (false, r)

unfoldable pub set_ringing : CallRegistry → String → Bool × CallRegistry
set_ringing r id = advance_if (λ c. state_eq c.state pending) ring r id (get r id)

unfoldable pub answer : CallAcceptMode → String → ℕ → DirectCall → DirectCall
answer mode room now c = record c {
  state = active;
  accept_mode = some mode;
  room_name = some room;
  answered_at = some now;
}

unfoldable pub set_active :
    CallRegistry → String → CallAcceptMode → String → ℕ → Bool × CallRegistry
set_active r id mode room now =
    advance_if (λ c. state_eq c.state pending || state_eq c.state ringing) (answer mode room now) r
      id (get r id)

unfoldable pub hang_up : ℕ → DirectCall → DirectCall
hang_up now c = record c { state = ended; ended_at = some now }

unfoldable pub end_call : CallRegistry → String → ℕ → Option DirectCall × CallRegistry
end_call r id now =
    let m = modify id (hang_up now) r.calls in (lookup id m, record { calls = remove id m })

unfoldable pub calls_for_fingerprint : CallRegistry → String → List DirectCall
calls_for_fingerprint r fp =
    values
      (λ c.
        not (state_eq c.state ended)
        && (str_eq c.caller_fingerprint fp || str_eq c.callee_fingerprint fp))
      r.calls

unfoldable pub peer_of : String → Option DirectCall → Option String
peer_of my_fp none = none
peer_of my_fp (some c) =
    if str_eq c.caller_fingerprint my_fp
    then some c.callee_fingerprint
    else some c.caller_fingerprint

unfoldable pub peer_fingerprint : CallRegistry → String → String → Option String
peer_fingerprint r id my_fp = peer_of my_fp (get r id)

-- `duration_since` stops at zero.
unfoldable pub is_stale : ℕ → ℕ → DirectCall → Bool
is_stale timeout now c = state_eq c.state pending && ltb timeout (now - c.created_at)

unfoldable pub expire_stale : CallRegistry → ℕ → ℕ → List DirectCall × CallRegistry
expire_stale r timeout now =
    let out = remove_all (keys (is_stale timeout now) r.calls) r.calls in
    (out.0, record { calls = out.1 })

unfoldable pub active_count : CallRegistry → ℕ
active_count r = count (λ c. not (state_eq c.state ended)) r.calls
