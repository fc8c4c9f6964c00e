-- ===== src/Session/Tests.antt =====
-- A call at concrete events.
use wzp.Common.{ℕ, ◌≡◌, refl, true, List, [], ◌∷◌}
use wzp.Session.{
  SessionEvent, initiate, connected, handshake_complete, rekey_start, rekey_complete, terminate,
  local_hangup, is_media_active, transition, new_session, target,
}
use wzp.Session.Trace.{Traced, run, start, media_after_handshake}

abbrev call_id : List ℕ
call_id = 1 ∷ 2 ∷ 3 ∷ []

-- An event that is refused, the handshake, and a rekey.
abbrev events : List (SessionEvent × ℕ)
events =
    (rekey_start, 5)
    ∷ (initiate, 10)
    ∷ (connected, 20)
    ∷ (handshake_complete, 30)
    ∷ (rekey_start, 40)
    ∷ (rekey_complete, 50)
    ∷ []

events-active : is_media_active (run (start call_id) events).session ≡ true
unfolding run transition target new_session
events-active = refl

media_after_handshake_example :
    (rest : List SessionEvent) × ((run (start call_id) events).accepted
      ≡ initiate ∷ connected ∷ handshake_complete ∷ rest)
media_after_handshake_example = media_after_handshake call_id events events-active

abbrev hung_up : Traced
hung_up = run (start call_id) ((initiate, 10) ∷ (terminate local_hangup, 20) ∷ [])
