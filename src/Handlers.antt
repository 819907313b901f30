-- ===== src/Handlers.antt =====
-- The messages between the game server and the auction server, and from the game server to its
-- clients, with the fields that the handlers set and read: GameServer/Network/Handlers and
-- AuctionServer/Network/Handlers, and the first half of AuctionServer/AuctionService.cpp.
pub mod Game
pub mod Auction
pub mod Routing
pub mod Purchases
mod Tests
use j1_server.Prelude.{ℕ, ◌^◌, ◌%◌, Bool, List}
use j1_server.Prelude.Int.{ℤ, wrap, signed}
use j1_server.Cache.Contents.{AuctionItemInfo}

-- `SS_Auction::REQ_*`. A session id is an `int64`, a request id the bit pattern of an `int32`.
pub data Request : Type 0 where
  req_auction_list :
      (session_id : ℤ) (request_id : ℕ) (player_id : ℤ) (search_item : List ℕ) (mylist : Bool)
      → Request
  req_receipt_list : (session_id : ℤ) (player_id : ℤ) → Request
  req_regist_item : (session_id : ℤ) (registinfo : List AuctionItemInfo) → Request
  req_purchase_item : (session_id : ℤ) (purchaseinfo : List AuctionItemInfo) → Request
  req_receipt_item : (session_id : ℤ) (player_id : ℤ) (receipt_id : ℤ) → Request

-- `SS_Auction::RES_*`
pub data Response : Type 0 where
  res_auction_list :
      (session_id : ℤ) (request_id : ℕ) (mylist : Bool) (listinfo : List AuctionItemInfo) → Response
  res_receipt_list : (session_id : ℤ) (receiptlist : List AuctionItemInfo) → Response
  res_regist_item : (session_id : ℤ) (result : Bool) → Response
  res_purchase_item : (session_id : ℤ) (result : Bool) (gold : ℤ) → Response
  res_receipt_item : Response

-- `Game::RES_*`
pub data ClientPacket : Type 0 where
  client_auction_list : (mylist : Bool) (itemlist : List AuctionItemInfo) → ClientPacket
  client_receipt_list : (receiptlist : List AuctionItemInfo) → ClientPacket
  client_regist_item : (result : Bool) → ClientPacket
  client_purchase_item : (result : Bool) (gold : ℤ) → ClientPacket

-- The conversions between `uint64`, `int64` and `int` that the handlers leave to the compiler.
abbrev pub to_int64 : ℕ → ℤ
to_int64 n = signed 64 (n % 2 ^ 64)

abbrev pub to_int : ℤ → ℤ
to_int z = signed 32 (wrap 32 z)

abbrev pub to_uint64 : ℤ → ℕ
to_uint64 z = wrap 64 z
