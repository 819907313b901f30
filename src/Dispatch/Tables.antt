-- ===== src/Dispatch/Tables.antt =====
-- The tables of Dispatch/Clients, entry by entry.
use j1_server.Prelude.{◌^◌, ◌<◌, ◌≡◌, refl, arith}
use j1_server.Dispatch.{set_handler, empty_table}
use j1_server.Dispatch.Clients.{
  auction_list, receipt_list, regist_item, purchase_item, receipt_item, move, attack,
  check_tokenvalid, character_list, check_nickname, create_character, delete_character, enter_game,
  leave_game, game_code, enter_chatroom, leave_chatroom, chat, chat_code, login, check_id, join,
  login_code, set_all, game_table, chat_table, login_table, Routes,
}

module _ {S : Type 0} where
  pub game_table-Routes : Routes {S = S} game_code game_table
  unfolding game_code game_table set_all set_handler empty_table
  game_table-Routes = record {
    short = λ k. elim k as (λ x. game_code x < 2 ^ 15) [
      | auction_list ↦ omega arith
      | receipt_list ↦ omega arith
      | regist_item ↦ omega arith
      | purchase_item ↦ omega arith
      | receipt_item ↦ omega arith
      | move ↦ omega arith
      | attack ↦ omega arith
      | check_tokenvalid ↦ omega arith
      | character_list ↦ omega arith
      | check_nickname ↦ omega arith
      | create_character ↦ omega arith
      | delete_character ↦ omega arith
      | enter_game ↦ omega arith
      | leave_game ↦ omega arith
    ];
    hit = λ h k. elim k as (λ x. game_table h (game_code x) ≡ h x) [
      | auction_list ↦ refl
      | receipt_list ↦ refl
      | regist_item ↦ refl
      | purchase_item ↦ refl
      | receipt_item ↦ refl
      | move ↦ refl
      | attack ↦ refl
      | check_tokenvalid ↦ refl
      | character_list ↦ refl
      | check_nickname ↦ refl
      | create_character ↦ refl
      | delete_character ↦ refl
      | enter_game ↦ refl
      | leave_game ↦ refl
    ];
    miss = λ h n other.
        rw
          (
            other leave_game,
            other enter_game,
            other delete_character,
            other create_character,
            other check_nickname,
            other character_list,
            other check_tokenvalid,
            other attack,
            other move,
            other receipt_item,
            other purchase_item,
            other regist_item,
            other receipt_list,
            other auction_list,
          )
          refl;
  }

  pub chat_table-Routes : Routes {S = S} chat_code chat_table
  unfolding chat_code chat_table set_all set_handler empty_table
  chat_table-Routes = record {
    short = λ k. elim k as (λ x. chat_code x < 2 ^ 15) [
      | enter_chatroom ↦ omega arith
      | leave_chatroom ↦ omega arith
      | chat ↦ omega arith
    ];
    hit = λ h k. elim k as (λ x. chat_table h (chat_code x) ≡ h x) [
      | enter_chatroom ↦ refl
      | leave_chatroom ↦ refl
      | chat ↦ refl
    ];
    miss = λ h n other. rw (other chat, other leave_chatroom, other enter_chatroom) refl;
  }

  pub login_table-Routes : Routes {S = S} login_code login_table
  unfolding login_code login_table set_all set_handler empty_table
  login_table-Routes = record {
    short = λ k. elim k as (λ x. login_code x < 2 ^ 15) [
      | login ↦ omega arith
      | check_id ↦ omega arith
      | join ↦ omega arith
    ];
    hit = λ h k. elim k as (λ x. login_table h (login_code x) ≡ h x) [
      | login ↦ refl
      | check_id ↦ refl
      | join ↦ refl
    ];
    miss = λ h n other. rw (other join, other check_id, other login) refl;
  }
