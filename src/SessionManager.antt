-- ===== src/SessionManager.antt =====
-- GameServer/Utils/GameSessionManager.h and .cpp: the sessions of the game server by their ids. A
-- session is named by a handle; `alive` says which handles a `weak_ptr` still locks. Each method
-- holds the mutex, so it is one step; `Register` takes its id before that, in an atomic step.
pub mod Ids
mod Tests
use j1_server.Prelude.{ℕ, ◌+◌, ◌%◌, ◌^◌, Bool, Option, none, some, [], length, if◌then◌else◌}
use j1_server.Prelude.Dict.{Dict, lookup, insert, erase}
use j1_server.Session.{Session}

pub record SessionManager : Type 0 where
  pub sessions : Dict ℕ
  pub next_id : ℕ

abbrev pub new_manager : SessionManager
new_manager = record { sessions = []; next_id = 1 }

-- `nextId_.fetch_add(1)`
unfoldable pub take_id : SessionManager → SessionManager × ℕ
take_id m = (record m { next_id = (m.next_id + 1) % 2 ^ 64 }, m.next_id)

-- The rest of `Register`, under the lock: the entry is set.
unfoldable pub store_session : ℕ → ℕ → SessionManager → SessionManager
store_session id handle m = record m { sessions = insert id handle m.sessions }

-- `Session::SetSessionId` (ServerCore/Session.h)
unfoldable pub set_session_id : ℕ → Session → Session
set_session_id id s = record s { session_id = id }

-- `Register`, with the session that the handle names.
unfoldable pub register : ℕ → Session → SessionManager → SessionManager × Session × ℕ
unfolding take_id store_session set_session_id
register handle s m =
    let (m', id) = take_id m in (store_session id handle m', set_session_id id s, id)

-- `Find`
unfoldable pub find : (ℕ → Bool) → ℕ → SessionManager → Option ℕ
find alive id m = elim (lookup id m.sessions) [
  | none ↦ none
  | some handle ↦ if alive handle then some handle else none
]

-- `Unregister`
unfoldable pub unregister_session : ℕ → SessionManager → SessionManager
unregister_session id m = record m { sessions = erase id m.sessions }

-- `Count`
unfoldable pub count : SessionManager → ℕ
count m = length m.sessions
