-- ===== src/Relay/Sessions.antt =====
-- crates/wzp-relay/src/session_mgr.rs: the sessions that the relay admits. An identifier is the number
-- that its sixteen bytes make; a generated one, which comes from a counter and the clock, is an
-- argument. The pipelines and the profile of a session are left out.
pub mod Capacity
use Prim.Native.String.{String}
use wzp.Common.{
  ℕ, zero, suc, ◌+◌, ◌-◌, ◌*◌, ◌/◌, ◌%◌, Bool, true, false, ◌&&◌, List, [], ◌∷◌, Option, none, some,
  arith, leb, ltb, if◌then◌else◌, length,
}
use wzp.Common.Maps.{str_eq}
use wzp.Common.SortedMaps.{lookup, insert, remove, or_insert}
use wzp.Session.{Session, new_session, is_media_active}

pub data SessionState : Type 0 where
  active closing : SessionState

pub record SessionInfo : Type 0 where
  pub room_name : String
  pub fingerprint : Option String
  pub connected_at : ℕ
  pub state : SessionState

pub record RelaySession : Type 0 where
  pub state : Session
  pub last_activity_ms : ℕ

abbrev pub id_bytes : ℕ → ℕ → List ℕ
id_bytes zero id = []
id_bytes (suc n) id = id % 256 ∷ id_bytes n (id / 256)

unfoldable pub new_relay_session : ℕ → RelaySession
new_relay_session id = record { state = new_session (id_bytes 16 id); last_activity_ms = 0 }

pub record SessionManager : Type 0 where
  pub sessions : List (ℕ × RelaySession)
  pub tracked : List (ℕ × SessionInfo)
  pub max_sessions : ℕ

unfoldable pub new_manager : ℕ → SessionManager
new_manager max_sessions = record { sessions = []; tracked = []; max_sessions = max_sessions }

abbrev pub total_count : SessionManager → ℕ
total_count m = length m.sessions + length m.tracked

unfoldable pub create_pipeline_session : SessionManager → ℕ → Option RelaySession × SessionManager
create_pipeline_session m id =
    let sessions = or_insert id (new_relay_session id) m.sessions in
    if leb m.max_sessions (total_count m)
    then (none, m)
    else (lookup id sessions, record m { sessions = sessions })

unfoldable pub remove_pipeline_session : SessionManager → ℕ → Option RelaySession × SessionManager
remove_pipeline_session m id = (lookup id m.sessions, record m { sessions = remove id m.sessions })

unfoldable pub active_sessions : List (ℕ × RelaySession) → ℕ
active_sessions [] = 0
active_sessions ((id, s) ∷ ss) = (if is_media_active s.state then 1 else 0) + active_sessions ss

unfoldable pub retain_busy : ℕ → ℕ → List (ℕ × RelaySession) → List (ℕ × RelaySession)
retain_busy now_ms timeout_ms [] = []
retain_busy now_ms timeout_ms ((id, s) ∷ ss) =
    let rest = retain_busy now_ms timeout_ms ss in
    if ltb (now_ms - s.last_activity_ms) timeout_ms then (id, s) ∷ rest else rest

unfoldable pub expire_idle : SessionManager → ℕ → ℕ → ℕ × SessionManager
expire_idle m now_ms timeout_ms =
    let left = retain_busy now_ms timeout_ms m.sessions in
    (length m.sessions - length left, record m { sessions = left })

-- `none` stands for the error that the limit is exceeded.
unfoldable pub create_session :
    SessionManager → String → Option String → ℕ → ℕ → Option ℕ × SessionManager
create_session m room fingerprint id now =
    if leb m.max_sessions (total_count m) then (none, m) else (
      some id,
      record m {
        tracked =
            insert id
              (record {
                room_name = room;
                fingerprint = fingerprint;
                connected_at = now;
                state = active;
              })
              m.tracked;
      },
    )

unfoldable pub remove_session : SessionManager → ℕ → SessionManager
remove_session m id = record m { tracked = remove id m.tracked }
