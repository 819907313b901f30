-- ===== src/GameServer/Tests.antt =====
-- Runs of the accept loop of GameServer/GameServer.cpp.
use j1_server.Prelude.{◌≡◌, refl, true, List, [], ◌∷◌, arith, ℕ, ◌⊎◌, some, ◌++◌}
use j1_server.Session.{Session, new_session, done, success, failure, Fault, fault, empty_deque}
use j1_server.SessionManager.{unregister_session}
use j1_server.GameServer.{
  GameServer, accepted, at_session, closed_by_server, written, Event, serve, SessionEvent, handle,
}
use j1_server.GameServer.Registry.{IsValid}
use j1_server.GameServer.Lifetime.{serve-IsValid}
use j1_server.Prelude.Dict.{lookup}

-- Two clients come, one accept fails between them, the first client is closed, and a third comes.
abbrev events : List Event
events =
    accepted success
    ∷ accepted failure
    ∷ accepted success
    ∷ at_session 0 closed_by_server
    ∷ at_session 0 (written failure)
    ∷ accepted success
    ∷ []

abbrev opened : Session
opened = record new_session { session_id = 2 }

abbrev closed_first : Session
closed_first = record new_session { session_id = 1; closed = true }

abbrev after_events : GameServer
after_events = record {
  manager = record { sessions = (2, 2) ∷ (3, 3) ∷ []; next_id = 4 };
  sessions = (0, closed_first) ∷ (2, opened) ∷ (3, record opened { session_id = 3 }) ∷ [];
  accepting = 4 ∷ [];
  next_handle = 5;
}

served : serve events ≡ done after_events
unfolding serve unregister_session
served = refl

serve-IsValid_example :
    ((g : GameServer) × (serve events ≡ done g) × IsValid g)
    ⊎ ((before after : List Event) × (h : ℕ) × (e : SessionEvent) × (g : GameServer) × (s : Session)
        × (f : Fault) × (events ≡ before ++ at_session h e ∷ after)
        × (serve before ≡ done g)
        × (lookup h g.sessions ≡ some s)
        × (handle e s ≡ fault f)
        × (serve events ≡ fault f))
serve-IsValid_example = serve-IsValid events (omega arith)

-- A completed write with nothing in the queue ends the server.
ended : serve (accepted success ∷ at_session 0 (written success) ∷ []) ≡ fault empty_deque
unfolding serve
ended = refl
