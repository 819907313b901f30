-- ===== src/Dispatch/Clients.antt =====
-- The handler tables for clients: GameServer/Network/Handlers/GamePacketHandler.h,
-- ChatServer/Network/Handlers/ChatPacketHandler.h and LoginServer/Network/Handlers/LoginPacketHandler.h.
-- What a handler does with its message is a parameter here.
use j1_server.Prelude.{ℕ, ◌^◌, ◌<◌, ◌≡◌, Bool, false, List, [], ◌∷◌, ◌==◌}
use j1_server.Packet.{Protobuf}
use j1_server.Dispatch.{Handler, Table, dispatch_packet, set_handler, empty_table}

-- The requests that a server takes, each with its message type and its function.
pub record Service (S K : Type 0) : Type 1 where
  pub protobuf_of : K → Protobuf
  pub func : (k : K) → (protobuf_of k).Message → S → Bool × S

-- `DispatchPacket` for every request.
unfoldable pub entries : {S K : Type 0} → Service S K → K → Handler S
unfolding dispatch_packet
entries service k = dispatch_packet (service.protobuf_of k) (service.func k)

-- `Handle_Game_INVALID`, `Handle_Chat_INVALID` and `Handle_Login_INVALID`
unfoldable pub refuse : {S : Type 0} → Handler S
refuse buffer s = (false, s)

pub data GameRequest : Type 0 where
  auction_list receipt_list regist_item purchase_item receipt_item move attack : GameRequest
  check_tokenvalid character_list check_nickname create_character delete_character : GameRequest
  enter_game leave_game : GameRequest

-- The codes of GameEnum.
unfoldable pub game_code : GameRequest → ℕ
game_code auction_list = 4000
game_code receipt_list = 4002
game_code regist_item = 4004
game_code purchase_item = 4006
game_code receipt_item = 4008
game_code move = 2004
game_code attack = 3000
game_code check_tokenvalid = 1000
game_code character_list = 1002
game_code check_nickname = 1004
game_code create_character = 1006
game_code delete_character = 1008
game_code enter_game = 1010
game_code leave_game = 1012

pub data ChatRequest : Type 0 where
  enter_chatroom leave_chatroom chat : ChatRequest

unfoldable pub chat_code : ChatRequest → ℕ
chat_code enter_chatroom = 0
chat_code leave_chatroom = 2
chat_code chat = 4

pub data LoginRequest : Type 0 where
  login check_id join : LoginRequest

unfoldable pub login_code : LoginRequest → ℕ
login_code login = 0
login_code check_id = 2
login_code join = 4

module _ {S : Type 0} where
  -- `table[code] = …` for the requests, in the order of the list.
  unfoldable pub set_all : {K : Type 0} → (K → ℕ) → (K → Handler S) → List K → Table S → Table S
  unfolding set_handler
  set_all code h [] table = table
  set_all code h (k ∷ ks) table = set_all code h ks (set_handler (code k) (h k) table)

  -- `GamePacketHandler::Init`
  unfoldable pub game_table : (GameRequest → Handler S) → Table S
  unfolding set_all game_code empty_table refuse
  game_table h =
      set_all game_code h
        (auction_list ∷ receipt_list ∷ regist_item ∷ purchase_item ∷ receipt_item ∷ move ∷ attack
          ∷ check_tokenvalid ∷ character_list ∷ check_nickname ∷ create_character ∷ delete_character
          ∷ enter_game ∷ leave_game ∷ [])
        (empty_table refuse)

  -- `ChatPacketHandler::Init`
  unfoldable pub chat_table : (ChatRequest → Handler S) → Table S
  unfolding set_all chat_code empty_table refuse
  chat_table h =
      set_all chat_code h (enter_chatroom ∷ leave_chatroom ∷ chat ∷ []) (empty_table refuse)

  -- `LoginPacketHandler::Init`
  unfoldable pub login_table : (LoginRequest → Handler S) → Table S
  unfolding set_all login_code empty_table refuse
  login_table h = set_all login_code h (login ∷ check_id ∷ join ∷ []) (empty_table refuse)

-- A table that leads every request to its handler, and every other code to `refuse`.
pub record Routes {S K : Type 0} (code : K → ℕ) (table : (K → Handler S) → Table S) : Type 0 where
  pub short : (k : K) → code k < 2 ^ 15
  pub hit : (h : K → Handler S) (k : K) → table h (code k) ≡ h k
  pub miss : (h : K → Handler S) (n : ℕ) → ((k : K) → (code k == n) ≡ false) → table h n ≡ refuse
