-- ===== src/Lobby/Room.antt =====
-- GameServer/GameRoom.cpp, and the handlers of GameServer/Network/Handlers/LobbyPacketHandler.cpp that enter
-- and leave the game: the one room of the game server. Sessions are handles; `closed` holds those
-- whose connection has ended, which a `weak_ptr` no longer locks. Closing a session
-- (GameServer/GameSession.cpp) does not touch the room, and `Broadcast` sends nothing.
use j1_server.Prelude.{
  ℕ, ◌==◌, ◌||◌, Bool, true, false, Option, none, some, List, [], ◌∷◌, if◌then◌else◌,
}
use j1_server.Prelude.Dict.{Dict, lookup, insert, erase}
use j1_server.Prelude.Int.{ℤ, wrap}

-- `playerInfo` with its name, the session, and whether `room` refers to the room.
pub record GameMember : Type 0 where
  pub name : List ℕ
  pub player_id : ℕ
  pub session : Option ℕ
  pub in_room : Bool

-- `_members`, and the sessions whose `player` is set.
pub record GameRoom : Type 0 where
  pub members : Dict GameMember
  pub players : Dict Bool
  pub closed : List ℕ

pub data GamePacket : Type 0 where
  res_enter_game res_leave_game : (result : Bool) → GamePacket

abbrev pub Sent : Type 0
Sent = List (ℕ × GamePacket)

-- The `uint64` that an `int32` player id becomes as a key of `_members`.
abbrev pub member_key : ℤ → ℕ
member_key id = wrap 64 id

abbrev pub contains_handle : ℕ → List ℕ → Bool
contains_handle h [] = false
contains_handle h (x ∷ xs) = x == h || contains_handle h xs

-- `ObjectUtils::CreatePlayer`
unfoldable pub create_player : ℤ → List ℕ → GameMember
create_player id name = record {
  name = name;
  player_id = member_key id;
  session = none;
  in_room = false;
}

-- `if (auto session = player->session.lock()) session->SendPacket(…)`
unfoldable pub notify : List ℕ → GameMember → GamePacket → Sent
notify closed member packet = elim member.session [
  | none ↦ []
  | some handle ↦ if contains_handle handle closed then [] else (handle, packet) ∷ []
]

-- `GameRoom::EnterPlayer`
unfoldable pub enter_room : GameMember → GameRoom → Bool × GameMember × GameRoom
enter_room player r = elim (lookup player.player_id r.members) [
  | some _ ↦ (false, player, r)
  | none ↦
      let player' : GameMember = record player { in_room = true } in
      (true, player', record r { members = insert player.player_id player' r.members })
]

-- `GameRoom::HandleEnterPlayerLocked`
unfoldable pub handle_enter_room : GameMember → GameRoom → GameRoom × Sent
unfolding enter_room notify
handle_enter_room player r =
    let (success, player', r') = enter_room player r in
    (r', notify r.closed player' (res_enter_game success))

-- `GameRoom::LeavePlayer`: `expired` is true of the empty reference that was just stored.
unfoldable pub leave_room : ℤ → GameRoom → GameRoom × Sent
unfolding notify
leave_room id r = elim (lookup (member_key id) r.members) [
  | none ↦ (r, [])
  | some player ↦ (
    record r { members = erase (member_key id) r.members },
    notify r.closed (record player { in_room = false }) (res_leave_game true),
  )
]

unfoldable pub handle_req_enter_game : ℕ → ℤ → List ℕ → GameRoom → GameRoom × Sent
unfolding create_player handle_enter_room
handle_req_enter_game session id name r =
    handle_enter_room (record (create_player id name) { session = some session })
      (record r { players = insert session true r.players })

unfoldable pub handle_req_leave_game : ℕ → ℤ → GameRoom → GameRoom × Sent
unfolding leave_room
handle_req_leave_game session id r = leave_room id (record r { players = erase session r.players })

-- What happens to the room: the requests of the sessions, and the end of a session.
pub data Event : Type 0 where
  enters : (session : ℕ) (id : ℤ) (name : List ℕ) → Event
  leaves : (session : ℕ) (id : ℤ) → Event
  ends : (session : ℕ) → Event

unfoldable pub step : Event → GameRoom → GameRoom × Sent
unfolding handle_req_enter_game handle_req_leave_game
step (enters session id name) r = handle_req_enter_game session id name r
step (leaves session id) r = handle_req_leave_game session id r
step (ends session) r = (record r { closed = session ∷ r.closed }, [])

unfoldable pub run : List Event → GameRoom → GameRoom
unfolding step
run [] r = r
run (e ∷ es) r = run es (step e r).0
