-- ===== src/Handlers/Auction.antt =====
-- AuctionServer/Network/Handlers/AuctionPacketHandler.cpp, which queues the requests, and the
-- `Process` functions of AuctionServer/AuctionService.cpp, which a worker runs. A task is the session
-- that the answer goes to and the request; `TakeOwnership` moves the request into it.
use j1_server.Prelude.{ℕ, Bool, true, false, List, [], ◌∷◌}
use j1_server.Prelude.Int.{ℤ}
use j1_server.Cache.Contents.{AuctionItemInfo}
use j1_server.Sql.{Result, ok, throws, Connection}
use j1_server.AuctionService.{get_listings, get_receipts, regist, purchase}
use j1_server.WorkerPool.{WorkerPool, post_read, post_write}
use j1_server.Handlers.{
  Request, req_auction_list, req_receipt_list, req_regist_item, req_purchase_item, req_receipt_item,
  Response, res_auction_list, res_receipt_list, res_regist_item, res_purchase_item, to_uint64,
}

abbrev pub Task : Type 0
Task = ℕ × Request

-- The `Handle_REQ_*` of the auction server, for a message from `session`.
unfoldable pub handle_request : ℕ → Request → WorkerPool Task → Bool × WorkerPool Task
handle_request session (req_auction_list session_id request_id player_id search_item mylist) p = (
  true,
  post_read (session, req_auction_list session_id request_id player_id search_item mylist) p,
)
handle_request session (req_receipt_list session_id player_id) p =
    (true, post_read (session, req_receipt_list session_id player_id) p)
handle_request session (req_regist_item session_id []) p = (false, p)
handle_request session (req_regist_item session_id (info ∷ infos)) p = (
  true,
  post_write (to_uint64 info.player_id) (session, req_regist_item session_id (info ∷ infos)) p,
)
handle_request session (req_purchase_item session_id []) p = (false, p)
handle_request session (req_purchase_item session_id (info ∷ infos)) p = (
  true,
  post_write (to_uint64 info.list_id) (session, req_purchase_item session_id (info ∷ infos)) p,
)
handle_request session (req_receipt_item session_id player_id receipt_id) p = (true, p)

module _ (c : Connection) where
  open c use {State}

  -- An answer, once its parts are there.
  unfoldable pub reply : {A : Type 0} → (A → Response) → Result A × State → Result Response × State
  reply make (ok a, s) = (ok (make a), s)
  reply make (throws code, s) = (throws code, s)

  -- `ProcessAuctionList`
  unfoldable pub process_auction_list : ℤ → ℕ → ℤ → Bool → State → Result Response × State
  unfolding reply
  process_auction_list session_id request_id player_id mylist s =
      reply (res_auction_list session_id request_id mylist) (get_listings c mylist player_id s)

  -- `ProcessReceiptList`
  unfoldable pub process_receipt_list : ℤ → ℤ → State → Result Response × State
  unfolding reply
  process_receipt_list session_id player_id s =
      reply (res_receipt_list session_id) (get_receipts c player_id s)

  -- `ProcessRegistItem`
  unfoldable pub process_regist_item : ℤ → AuctionItemInfo → State → Result Response × State
  unfolding reply
  process_regist_item session_id info s = reply (res_regist_item session_id) (regist c info s)

  -- `ProcessPurchaseItem`
  unfoldable pub process_purchase_item : ℤ → AuctionItemInfo → State → Result Response × State
  process_purchase_item session_id info s =
      let (result, s') = purchase c info s in
      (ok (res_purchase_item session_id result.success result.total_price), s')

  -- What `Post` makes of an exception: it is logged, and nothing is sent.
  unfoldable pub answered : Result Response × State → List Response × State
  answered (ok response, s) = (response ∷ [], s)
  answered (throws code, s) = ([], s)

  -- A task as a worker runs it: what `ReplyPacket` sends. The handlers queue no other requests.
  unfoldable pub run_task : Request → State → List Response × State
  unfolding answered process_auction_list process_receipt_list process_regist_item
      process_purchase_item
  run_task (req_auction_list session_id request_id player_id search_item mylist) s =
      answered (process_auction_list session_id request_id player_id mylist s)
  run_task (req_receipt_list session_id player_id) s =
      answered (process_receipt_list session_id player_id s)
  run_task (req_regist_item session_id (info ∷ infos)) s =
      answered (process_regist_item session_id info s)
  run_task (req_purchase_item session_id (info ∷ infos)) s =
      answered (process_purchase_item session_id info s)
  run_task _ s = ([], s)
