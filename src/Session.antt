-- ===== src/Session.antt =====
-- crates/wzp-proto/src/session.rs: the state machine of a call. A transition gives the new session
-- or the error that the code returns; `&mut self` is passed in and returned.
pub mod Trace
mod Tests
use wzp.Common.{ℕ, ◌+◌, ◌-◌, ◌%◌, Bool, true, false, List}
use wzp.Common.Words.{u32_mod}

pub data SessionState : Type 0 where
  idle connecting handshaking active rekeying closed : SessionState

pub data TerminateReason : Type 0 where
  local_hangup remote_hangup timeout error : TerminateReason

pub data SessionEvent : Type 0 where
  initiate connected handshake_complete rekey_start rekey_complete : SessionEvent
  terminate : TerminateReason → SessionEvent
  connection_lost : SessionEvent

-- `Session`; the identifier is its sixteen bytes.
pub record Session : Type 0 where
  pub state : SessionState
  pub session_id : List ℕ
  pub last_transition_ms : ℕ
  pub rekey_count : ℕ

-- `TransitionError`, with the event for its text.
pub record TransitionError : Type 0 where
  pub from : SessionState
  pub event : SessionEvent

pub data Transition : Type 0 where
  moved : Session → Transition
  refused : TransitionError → Transition

unfoldable pub new_session : List ℕ → Session
new_session session_id = record {
  state = idle;
  session_id = session_id;
  last_transition_ms = 0;
  rekey_count = 0;
}

-- The state that the `match` of `transition` finds, and whether it counts a rekey.
pub data Target : Type 0 where
  goes : SessionState → Target
  counts : SessionState → Target
  stuck : Target

unfoldable pub target : SessionState → SessionEvent → Target
target idle initiate = goes connecting
target connecting connected = goes handshaking
target connecting (terminate r) = goes closed
target connecting connection_lost = goes closed
target handshaking handshake_complete = goes active
target handshaking (terminate r) = goes closed
target handshaking connection_lost = goes closed
target active rekey_start = goes rekeying
target active (terminate r) = goes closed
target active connection_lost = goes closed
target rekeying rekey_complete = counts active
target rekeying (terminate r) = goes closed
target rekeying connection_lost = goes closed
target _ _ = stuck

-- `rekey_count += 1` wraps in a release build.
unfoldable pub transition : Session → SessionEvent → ℕ → Transition
transition s e now_ms = elim (target s.state e) [
  | goes t ↦ moved (record s { state = t; last_transition_ms = now_ms })
  | counts t ↦ moved (record s {
    state = t;
    last_transition_ms = now_ms;
    rekey_count = (s.rekey_count + 1) % u32_mod;
  })
  | stuck ↦ refused (record { from = s.state; event = e })
]

abbrev pub is_media_active : Session → Bool
is_media_active s = elim s.state [ active ↦ true | rekeying ↦ true | _ ↦ false ]

-- `saturating_sub`
unfoldable pub time_in_state_ms : Session → ℕ → ℕ
time_in_state_ms s now_ms = now_ms - s.last_transition_ms
