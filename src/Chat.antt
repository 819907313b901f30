-- ===== src/Chat.antt =====
-- ChatServer/ChatRoom.cpp and ChatServer/Network/Handlers/ChatPacketHandler.cpp: the one room of the chat
-- server. Sessions are handles; `alive` says which of them a `weak_ptr` still locks. A member is
-- shared between the room and the session that entered it; nothing reads it there, so a session only
-- keeps whether it holds one.
pub mod Members
mod Tests
use j1_server.Prelude.{ℕ, Bool, true, false, Option, none, some, List, [], ◌∷◌, ◌++◌, if◌then◌else◌}
use j1_server.Prelude.Dict.{Dict, lookup, insert, erase}
use j1_server.Prelude.Int.{ℤ, wrap}

-- `session` is `none` after `reset`, and `in_room` says whether `room` refers to the room.
pub record ChatMember : Type 0 where
  pub name : List ℕ
  pub session : Option ℕ
  pub in_room : Bool

-- `_members` of the room, and the sessions whose `player` is set.
pub record ChatRoom : Type 0 where
  pub members : Dict ChatMember
  pub players : Dict Bool

pub data ChatPacket : Type 0 where
  res_enter_chatroom res_leave_chatroom : (result : Bool) → ChatPacket
  res_chat : (message : List ℕ) → ChatPacket

abbrev pub Sent : Type 0
Sent = List (ℕ × ChatPacket)

-- The `uint64` that an `int32` player id becomes.
abbrev pub player_key : ℤ → ℕ
player_key id = wrap 64 id

module _ (alive : ℕ → Bool) where
  -- `if (auto session = player->session.lock()) session->SendPacket(…)`
  unfoldable pub send_member : ChatMember → ChatPacket → Sent
  send_member member packet = elim member.session [
    | none ↦ []
    | some handle ↦ if alive handle then (handle, packet) ∷ [] else []
  ]

  -- `EnterPlayer`
  unfoldable pub enter_player : ℕ → ChatMember → ChatRoom → Bool × ChatMember × ChatRoom
  enter_player id player r = elim (lookup id r.members) [
    | some _ ↦ (false, player, r)
    | none ↦
        let player' : ChatMember = record player { in_room = true } in
        (true, player', record r { members = insert id player' r.members })
  ]

  -- `HandleEnterPlayerLocked`
  unfoldable pub handle_enter_player : ℕ → ChatMember → ChatRoom → ChatRoom × Sent
  unfolding enter_player send_member
  handle_enter_player id player r =
      let (success, player', r') = enter_player id player r in
      (r', send_member player' (res_enter_chatroom success))

  -- `LeavePlayer`, with the packet sent before the session is reset; `expired` is true of the empty
  -- reference that was just stored.
  unfoldable pub leave_player : ℕ → ChatRoom → Bool × ChatRoom × Sent
  unfolding send_member
  leave_player id r = elim (lookup id r.members) [
    | none ↦ (false, r, [])
    | some player ↦ (
      true,
      record r { members = erase id r.members },
      send_member (record player { in_room = false }) (res_leave_chatroom true),
    )
  ]

  -- `Broadcast`
  unfoldable pub broadcast : List ℕ → Dict ChatMember → Sent
  unfolding send_member
  broadcast message [] = []
  broadcast message ((_, player) ∷ members) =
      send_member player (res_chat message) ++ broadcast message members

  -- `Handle_REQ_ENTER_CHATROOM`, from a session
  unfoldable pub handle_req_enter_chatroom : ℕ → ℤ → List ℕ → ChatRoom → ChatRoom × Sent
  unfolding handle_enter_player
  handle_req_enter_chatroom session player_id name r =
      let player : ChatMember = record { name = name; session = some session; in_room = false } in
      handle_enter_player (player_key player_id) player
        (record r { players = insert session true r.players })

  -- `Handle_REQ_LEAVE_CHATROOM`
  unfoldable pub handle_req_leave_chatroom : ℕ → ℤ → ChatRoom → ChatRoom × Sent
  unfolding leave_player
  handle_req_leave_chatroom session player_id r =
      let (_, r', sent) =
        leave_player (player_key player_id) (record r { players = erase session r.players }) in
      (r', sent)

  -- `Handle_REQ_CHAT`
  unfoldable pub handle_req_chat : List ℕ → ChatRoom → ChatRoom × Sent
  unfolding broadcast
  handle_req_chat message r = (r, broadcast message r.members)
