-- ===== src/Lobby/Tests.antt =====
-- GameServer/Network/Handlers/LobbyPacketHandler.cpp on the database of AuctionService/Tests, which
-- logs inserts and finds nothing to delete, and on an empty game room.
use j1_server.Prelude.{◌≡◌, refl, true, false, some, [], ◌∷◌}
use j1_server.Prelude.Int.{pos}
use j1_server.Sql.{ok}
use j1_server.AuctionService.Tests.{Shop, shop, shop_views, shop-IsTransactional}
use j1_server.Lobby.{
  LobbyCharacterInfo, insert_character, delete_character, handle_req_create_character,
  handle_req_delete_character,
}
use j1_server.Prelude.Dict.{lookup}
use j1_server.Lobby.Room.{
  GameRoom, res_enter_game, member_key, handle_req_enter_game, enters, ends, run,
}
use j1_server.Lobby.Presence.{to_open, run-handle_req_enter_game}
use j1_server.Lobby.Atomic.{AllOrNothing}
use j1_server.Lobby.Characters.{creates, deletes, handled-AllOrNothing}

abbrev before : Shop
before = record {
  published = record { gold = 45; stock = 5; logged = 0 };
  current = record { gold = 45; stock = 5; logged = 0 };
  auto = true;
}

abbrev after : Shop
after = record {
  published = record { gold = 45; stock = 5; logged = 3 };
  current = record { gold = 45; stock = 5; logged = 3 };
  auto = true;
}

abbrev hero : LobbyCharacterInfo
hero = record {
  slot_id = pos 0;
  name = 65 ∷ [];
  classtype = pos 1;
  upperskinid = pos 2;
  lowerskinid = pos 3;
  weaponskinid = pos 4;
}

created : handle_req_create_character shop (pos 9) (hero ∷ []) before ≡ (ok (some true), after)
unfolding handle_req_create_character
created = refl

not_deleted : handle_req_delete_character shop (pos 9) (pos 7) before ≡ (ok (some false), before)
unfolding handle_req_delete_character
not_deleted = refl

handled-AllOrNothing_example :
    AllOrNothing shop shop_views shop-IsTransactional
      (insert_character shop (pos 9) hero)
      before
      true
      after
handled-AllOrNothing_example =
    handled-AllOrNothing shop shop_views shop-IsTransactional (creates (pos 9) hero) before after
      true created

nothing_deleted :
    AllOrNothing shop shop_views shop-IsTransactional
      (delete_character shop (pos 9) (pos 7))
      before
      false
      before
nothing_deleted =
    handled-AllOrNothing shop shop_views shop-IsTransactional (deletes (pos 9) (pos 7)) before
      before false not_deleted

abbrev empty_room : GameRoom
empty_room = record { members = []; players = []; closed = [] }

-- Player 7 enters from session 1, which ends; player 8 enters; player 7 comes back on session 3.
run-handle_req_enter_game_example :
    let (r1, sent) = handle_req_enter_game 1 (pos 7) (65 ∷ []) empty_room in
    let r2 = run (ends 1 ∷ enters 2 (pos 8) (66 ∷ []) ∷ []) r1 in
    let (r3, sent') = handle_req_enter_game 3 (pos 7) (65 ∷ []) r2 in
    (sent ≡ to_open [] 1 (res_enter_game true))
    × (lookup (member_key (pos 7)) r2.members
        ≡ some (record { name = 65 ∷ []; player_id = 7; session = some 1; in_room = true }))
    × (sent' ≡ to_open r2.closed 3 (res_enter_game false))
    × (r3.members ≡ r2.members)
run-handle_req_enter_game_example =
    run-handle_req_enter_game 1 3 (pos 7) (65 ∷ []) (65 ∷ [])
      (ends 1 ∷ enters 2 (pos 8) (66 ∷ []) ∷ []) empty_room refl tt
