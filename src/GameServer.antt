-- ===== src/GameServer.antt =====
-- GameServer/GameServer.cpp: the loop that accepts connections, with the sessions of ServerCore/Session.cpp
-- that it starts and their registry, GameServer/Utils/GameSessionManager.cpp. A session object is named by
-- a handle, which counts the objects that `StartAccept` makes; a handler that runs on the strand of a session
-- is one step, and an exception ends `run()` and so the server.
pub mod Effects
pub mod Agreement
pub mod Registry
pub mod Lifetime
mod Tests
use j1_server.Prelude.{
  ℕ, zero, suc, ◌+◌, Bool, true, false, Option, none, some, List, [], ◌∷◌, ◌++◌, ◌==◌,
  if◌then◌else◌,
}
use j1_server.Prelude.Dict.{Dict, lookup, insert}
use j1_server.Session.{
  Buffer, Session, Effect, unregister, new_session, Run, done, fault, ErrorCode, success, failure,
  Handled, game_close, start, send, on_write, on_header_read, on_body_read,
}
use j1_server.SessionManager.{SessionManager, new_manager, register, unregister_session}

-- The accepts that are outstanding are named by the session object that waits in each.
pub record GameServer : Type 0 where
  pub manager : SessionManager
  pub sessions : Dict Session
  pub accepting : List ℕ
  pub next_handle : ℕ

abbrev pub new_server : GameServer
new_server = record { manager = new_manager; sessions = []; accepting = []; next_handle = 0 }

-- `StartAccept`
unfoldable pub start_accept : GameServer → GameServer
start_accept g = record g {
  accepting = g.accepting ++ g.next_handle ∷ [];
  next_handle = g.next_handle + 1;
}

-- `OnAccept` without an error up to `StartAccept`: the session is registered and started.
unfoldable pub accept : ℕ → GameServer → GameServer
unfolding start register new_session
accept h g =
    let (m, s, id) = register h new_session g.manager in
    record g { manager = m; sessions = insert h (start s).0 g.sessions }

-- `OnAccept`, for the oldest accept that is outstanding.
unfoldable pub on_accept : ErrorCode → GameServer → GameServer
unfolding accept start_accept
on_accept ec g = elim g.accepting [
  | [] ↦ g
  | h ∷ rest ↦
      let waiting : GameServer = record g { accepting = rest } in
      elim ec [ success ↦ start_accept (accept h waiting) | failure ↦ start_accept waiting ]
]

-- What the handlers of a session do to the registry.
unfoldable pub apply_effects : List Effect → SessionManager → SessionManager
apply_effects [] m = m
apply_effects (unregister id ∷ es) m = apply_effects es (unregister_session id m)
apply_effects (e ∷ es) m = apply_effects es m

-- The server after a handler of the session `h`.
unfoldable pub after_handler : ℕ → Run Handled → GameServer → Run GameServer
unfolding apply_effects
after_handler h (fault f) g = fault f
after_handler h (done (s, effects)) g =
    done (record g { sessions = insert h s g.sessions; manager = apply_effects effects g.manager })

-- What happens to a session that has been started.
pub data SessionEvent : Type 0 where
  header_read body_read : ErrorCode → Buffer → SessionEvent
  written : ErrorCode → SessionEvent
  sent : Buffer → SessionEvent
  closed_by_server : SessionEvent

unfoldable pub handle : SessionEvent → Session → Run Handled
unfolding on_header_read on_body_read on_write send game_close
handle (header_read ec bytes) s = on_header_read game_close ec bytes s
handle (body_read ec bytes) s = done (on_body_read game_close ec bytes s)
handle (written ec) s = on_write game_close ec s
handle (sent buffer) s = send game_close buffer s
handle closed_by_server s = done (game_close s).0

pub data Event : Type 0 where
  accepted : ErrorCode → Event
  at_session : ℕ → SessionEvent → Event

unfoldable pub step : Event → GameServer → Run GameServer
unfolding on_accept after_handler handle
step (accepted ec) g = done (on_accept ec g)
step (at_session h e) g = elim (lookup h g.sessions) [
  | none ↦ done g
  | some s ↦ after_handler h (handle e s) g
]

unfoldable pub run : List Event → GameServer → Run GameServer
unfolding step
run [] g = done g
run (e ∷ es) g = let rest = run es in elim (step e g) [ fault f ↦ fault f | done g' ↦ rest g' ]

-- The server of `main`, which starts to accept and lets `io_context::run` take the events.
unfoldable pub serve : List Event → Run GameServer
unfolding run start_accept
serve es = run es (start_accept new_server)
