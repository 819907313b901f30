-- ===== src/Chat/Tests.antt =====
-- ChatServer/ChatRoom.cpp with one member, of session 1, under the player id 7.
use j1_server.Prelude.{ℕ, ◌≡◌, refl, Bool, true, not, some, [], ◌∷◌, ◌++◌, ◌==◌, if◌then◌else◌}
use j1_server.Prelude.Dict.{contains}
use j1_server.Prelude.Int.{pos, negsuc}
use j1_server.Chat.{
  ChatRoom, res_enter_chatroom, res_leave_chatroom, res_chat, player_key, handle_req_enter_chatroom,
  handle_req_leave_chatroom, handle_req_chat,
}
use j1_server.Chat.Members.{
  to_session, handle_req_enter_chatroom-chat, leave-handle_req_enter_chatroom,
}

-- The session 3 is gone.
abbrev alive : ℕ → Bool
alive handle = not (handle == 3)

abbrev room : ChatRoom
room = record {
  members = (7, record { name = 65 ∷ []; session = some 1; in_room = true }) ∷ [];
  players = (1, true) ∷ [];
}

handle_req_enter_chatroom-chat_example :
    let taken = contains (player_key (negsuc 0)) room.members in
    let (r', sent) = handle_req_enter_chatroom alive 2 (negsuc 0) (66 ∷ []) room in
    (sent ≡ to_session alive 2 (res_enter_chatroom (not taken)))
    × ((handle_req_chat alive (72 ∷ 105 ∷ []) r').1
        ≡ (handle_req_chat alive (72 ∷ 105 ∷ []) room).1
          ++ (if taken then [] else to_session alive 2 (res_chat (72 ∷ 105 ∷ []))))
handle_req_enter_chatroom-chat_example =
    handle_req_enter_chatroom-chat alive 2 (negsuc 0) (66 ∷ []) (72 ∷ 105 ∷ []) room

leave-handle_req_enter_chatroom_example :
    let (entered, welcome) = handle_req_enter_chatroom alive 2 (pos 8) (66 ∷ []) room in
    let (said, _) = handle_req_chat alive (72 ∷ []) entered in
    let (left, farewell) = handle_req_leave_chatroom alive 2 (pos 8) said in
    (welcome ≡ to_session alive 2 (res_enter_chatroom true))
    × (farewell ≡ to_session alive 2 (res_leave_chatroom true))
    × (left.members ≡ room.members)
leave-handle_req_enter_chatroom_example =
    leave-handle_req_enter_chatroom alive 2 (pos 8) (66 ∷ []) (72 ∷ []) room refl
