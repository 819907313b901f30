-- ===== src/Chat/Members.antt =====
-- Who hears what in the room of ChatServer/ChatRoom.cpp.
use j1_server.Prelude.{
  ℕ, ◌≡◌, refl, ap, sym, ◌∙◌, inl, inr, Option-cases, append-nil, Bool, true, false, not, none,
  some, List, [], ◌∷◌, ◌++◌, append_assoc, arith, if◌then◌else◌,
}
use j1_server.Prelude.Dict.{Dict, lookup, insert, erase, contains}
use j1_server.Prelude.Int.{ℤ}
use j1_server.Chat.{
  ChatMember, ChatRoom, ChatPacket, res_enter_chatroom, res_leave_chatroom, res_chat, Sent,
  player_key, send_member, enter_player, handle_enter_player, broadcast, handle_req_enter_chatroom,
  handle_req_leave_chatroom, handle_req_chat,
}

-- A key that is not there goes to the end, and an erase takes it away again.
insert_new :
    (k : ℕ) (v : ChatMember) (d : Dict ChatMember)
    → lookup k d ≡ none
    → insert k v d ≡ d ++ (k, v) ∷ []
insert_new k v [] h = refl
insert_new k v ((j, w) ∷ d) h = ground (arith, insert_new k v d)

erase-insert_new :
    (k : ℕ) (v : ChatMember) (d : Dict ChatMember) → lookup k d ≡ none → erase k (insert k v d) ≡ d
erase-insert_new k v [] h = ground arith
erase-insert_new k v ((j, w) ∷ d) h = ground (arith, erase-insert_new k v d)

lookup-insert_same :
    (k : ℕ) (v : ChatMember) (d : Dict ChatMember) → lookup k (insert k v d) ≡ some v
lookup-insert_same k v [] = ground arith
lookup-insert_same k v ((j, w) ∷ d) = ground (arith, lookup-insert_same k v d)

module _ (alive : ℕ → Bool) where
  broadcast-append :
      (message : List ℕ) (xs ys : Dict ChatMember)
      → broadcast alive message (xs ++ ys)
        ≡ broadcast alive message xs ++ broadcast alive message ys
  unfolding broadcast
  broadcast-append message [] ys = refl
  broadcast-append message ((k, v) ∷ xs) ys =
      ap (◌++◌ (send_member alive v (res_chat message))) (broadcast-append message xs ys)
      ∙ sym (
          append_assoc (send_member alive v (res_chat message)) (broadcast alive message xs)
            (broadcast alive message ys))

  -- A packet to a session that may be gone.
  abbrev pub to_session : ℕ → ChatPacket → Sent
  to_session handle packet = if alive handle then (handle, packet) ∷ [] else []

  enter_free :
      (session : ℕ) (player_id : ℤ) (name : List ℕ) (r : ChatRoom)
      → lookup (player_key player_id) r.members ≡ none
      → handle_req_enter_chatroom alive session player_id name r ≡ (
        record {
          members =
              insert
                (player_key player_id)
                (record { name = name; session = some session; in_room = true })
                r.members;
          players = insert session true r.players;
        },
        to_session session (res_enter_chatroom true),
      )
  unfolding handle_req_enter_chatroom handle_enter_player enter_player send_member
  enter_free session player_id name r free =
      rw (handle_req_enter_chatroom, handle_enter_player, enter_player, free) refl

  enter_taken :
      (session : ℕ) (player_id : ℤ) (name : List ℕ) (r : ChatRoom) (other : ChatMember)
      → lookup (player_key player_id) r.members ≡ some other
      → handle_req_enter_chatroom alive session player_id name r ≡ (
        record { members = r.members; players = insert session true r.players },
        to_session session (res_enter_chatroom false),
      )
  unfolding handle_req_enter_chatroom handle_enter_player enter_player send_member
  enter_taken session player_id name r other taken =
      rw (handle_req_enter_chatroom, handle_enter_player, enter_player, taken) refl

  -- A session that asks to enter under a player id is told whether the id was free. If it was, every
  -- chat message goes from then on to those that it went to before and to that session besides;
  -- if it was taken, to the same ones as before.
  pub handle_req_enter_chatroom-chat :
      (session : ℕ) (player_id : ℤ) (name message : List ℕ) (r : ChatRoom)
      → let taken = contains (player_key player_id) r.members in
        let (r', sent) = handle_req_enter_chatroom alive session player_id name r in
        (sent ≡ to_session session (res_enter_chatroom (not taken)))
        × ((handle_req_chat alive message r').1
            ≡ (handle_req_chat alive message r).1
              ++ (if taken then [] else to_session session (res_chat message)))
  unfolding handle_req_chat broadcast send_member
  handle_req_enter_chatroom-chat session player_id name message r =
      let player : ChatMember = record { name = name; session = some session; in_room = true } in
      elim (Option-cases (lookup (player_key player_id) r.members)) [
        | inl free ↦ ground (
          arith,
          free,
          enter_free session player_id name r free,
          insert_new (player_key player_id) player r.members free,
          broadcast-append message r.members ((player_key player_id, player) ∷ []),
        )
        | inr (other, taken) ↦ ground (
          arith,
          taken,
          enter_taken session player_id name r other taken,
          append-nil (broadcast alive message r.members),
        )
      ]

  -- A session that asks to enter under a free id is told that it has, and when it then asks to leave
  -- under it is told that too; the room has the members that it had before, whatever was said in
  -- between.
  pub leave-handle_req_enter_chatroom :
      (session : ℕ) (player_id : ℤ) (name message : List ℕ) (r : ChatRoom)
      → contains (player_key player_id) r.members ≡ false
      → let (entered, welcome) = handle_req_enter_chatroom alive session player_id name r in
        let (said, _) = handle_req_chat alive message entered in
        let (left, farewell) = handle_req_leave_chatroom alive session player_id said in
        (welcome ≡ to_session session (res_enter_chatroom true))
        × (farewell ≡ to_session session (res_leave_chatroom true))
        × (left.members ≡ r.members)
  unfolding handle_req_chat handle_req_enter_chatroom handle_req_leave_chatroom
  leave-handle_req_enter_chatroom session player_id name message r free =
      let player : ChatMember = record { name = name; session = some session; in_room = true } in
      ground (
        arith,
        Option-cases (lookup (player_key player_id) r.members),
        enter_free session player_id name r,
        lookup-insert_same (player_key player_id) player r.members,
        erase-insert_new (player_key player_id) player r.members,
      )
