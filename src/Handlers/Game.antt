-- ===== src/Handlers/Game.antt =====
-- GameServer/Network/Handlers/AuctionPacketHandler.cpp, which forwards the requests of the clients,
-- and AuctionServerPacketHandler.cpp, which hands the answers of the auction server on. A client's
-- session is its handle and its id; `connected` is whether `GAuctionSession` is set. A handler returns
-- its result, the new cache and what it sends; `none` is an index outside of a repeated field.
use j1_server.Prelude.{ℕ, Bool, true, false, Option, none, some, List, [], ◌∷◌, if◌then◌else◌}
use j1_server.Prelude.Int.{ℤ, pos, eq_ℤ}
use j1_server.SessionManager.{SessionManager, find}
use j1_server.Cache.{
  Cache, Effect, send_request, Verdict, pass, unknown, reject_not_found, reject_shortage,
  reject_own, try_send_list, validate_purchase, on_refresh_response,
}
use j1_server.Cache.Contents.{AuctionItemInfo, Client}
use j1_server.Handlers.{
  Request, req_auction_list, req_receipt_list, req_regist_item, req_purchase_item, req_receipt_item,
  Response, res_auction_list, res_receipt_list, res_regist_item, res_purchase_item,
  res_receipt_item, ClientPacket, client_auction_list, client_receipt_list, client_regist_item,
  client_purchase_item, to_int64, to_int, to_uint64,
}

pub data Sent : Type 0 where
  to_auction : Request → Sent
  to_client : (handle : ℕ) → ClientPacket → Sent
  -- `SendShared` of the cached packet
  shared_to_client : (handle : ℕ) → List ℕ → Sent

pub record ClientSession : Type 0 where
  pub handle : ℕ
  pub session_id : ℕ

-- `if (GAuctionSession) GAuctionSession->SendPacket(…)`
unfoldable pub forward : Bool → Request → List Sent
forward connected request = if connected then to_auction request ∷ [] else []

-- The client's `player_id` is a `uint64`, and the field that it is copied to an `int32`.
unfoldable pub handle_req_auction_list :
    Bool → ℕ → ClientSession → ℤ → List ℕ → Bool → Cache → Bool × Cache × List Sent
unfolding forward
handle_req_auction_list connected now session player_id search_item mylist c =
    let (c', cached) = if mylist then (c, none) else try_send_list now c in
    elim cached [
      | some buffer ↦ (true, c', shared_to_client session.handle buffer ∷ [])
      | none ↦ (
        true,
        c',
        forward connected (
            req_auction_list (to_int64 session.session_id) 0 (to_int player_id) search_item mylist),
      )
    ]

unfoldable pub handle_req_receipt_list : Bool → ClientSession → ℤ → Bool × List Sent
unfolding forward
handle_req_receipt_list connected session player_id =
    (true, forward connected (req_receipt_list (to_int64 session.session_id) player_id))

-- The fields of the first item that `Handle_REQ_REGIST_ITEM` copies.
unfoldable pub regist_info : AuctionItemInfo → AuctionItemInfo
regist_info info = record info { list_id = pos 0; receipt_type = pos 0 }

unfoldable pub handle_req_regist_item :
    Bool → ClientSession → List AuctionItemInfo → Option (Bool × List Sent)
unfolding forward regist_info
handle_req_regist_item connected session registinfo = elim registinfo [
  | [] ↦ none
  | info ∷ _ ↦ some (
    true,
    forward connected (req_regist_item (to_int64 session.session_id) (regist_info info ∷ [])),
  )
]

-- `verdict != Verdict::Pass && verdict != Verdict::Unknown`
unfoldable pub is_rejected : Verdict → Bool
is_rejected pass = false
is_rejected unknown = false
is_rejected reject_not_found = true
is_rejected reject_shortage = true
is_rejected reject_own = true

unfoldable pub answer_purchase :
    Bool → ClientSession → AuctionItemInfo → Cache × Verdict → Bool × Cache × List Sent
unfolding forward is_rejected
answer_purchase connected session info (c, verdict) =
    if is_rejected verdict
    then (true, c, to_client session.handle (client_purchase_item false (pos 0)) ∷ [])
    else (true, c, forward connected (req_purchase_item (to_int64 session.session_id) (info ∷ [])))

unfoldable pub handle_req_purchase_item :
    Bool → ℕ → ClientSession → List AuctionItemInfo → Cache → Option (Bool × Cache × List Sent)
unfolding answer_purchase
handle_req_purchase_item connected now session purchaseinfo c = elim purchaseinfo [
  | [] ↦ some (false, c, [])
  | info ∷ _ ↦ elim (validate_purchase now info.list_id info.count info.player_id c) [
    | none ↦ none
    | some answer ↦ some (answer_purchase connected session info answer)
  ]
]

unfoldable pub handle_req_receipt_item : Bool → ClientSession → ℤ → ℤ → Bool × List Sent
unfolding forward
handle_req_receipt_item connected session player_id receipt_id =
    (true, forward connected (req_receipt_item (to_int64 session.session_id) player_id receipt_id))

-- The `REQ_AUCTION_LIST` of `RequestRefresh` (GameServer/Utils/AuctionCache.cpp), with the reserved
-- session id; a field that is not set is 0.
unfoldable pub cache_request : ℕ → Request
cache_request seq = req_auction_list (pos 0) seq (pos 0) [] false

-- What of the effects of the cache goes to the auction server.
unfoldable pub requests_of : List Effect → List Sent
unfolding cache_request
requests_of [] = []
requests_of (send_request seq ∷ effects) = to_auction (cache_request seq) ∷ requests_of effects
requests_of (_ ∷ effects) = requests_of effects

module _ (alive : ℕ → Bool) (m : SessionManager) where
  -- `if (GameSessionPtr _Session = GameSessionManager::Instance().Find(id)) _Session->SendPacket(…)`
  unfoldable pub deliver : ℕ → ClientPacket → List Sent
  deliver id packet = elim (find alive id m) [
    | none ↦ []
    | some handle ↦ to_client handle packet ∷ []
  ]

  -- The `Handle_RES_*`, with the readings of the clock for the cache: the new cache, what the cache
  -- starts, and what is sent.
  unfoldable pub handle_response :
      Client → ℕ → ℕ → ℕ → Response → Cache → Cache × List Effect × List Sent
  unfolding deliver
  handle_response client fetched_at now arm_now
        (res_auction_list session_id request_id mylist listinfo) c =
      if eq_ℤ session_id (pos 0)
      then (let (c', effects) =
            on_refresh_response client fetched_at now arm_now request_id listinfo c in
          (c', effects, []))
      else (c, [], deliver (to_uint64 session_id) (client_auction_list mylist listinfo))
  handle_response client fetched_at now arm_now (res_receipt_list session_id receiptlist) c =
      (c, [], deliver (to_uint64 session_id) (client_receipt_list receiptlist))
  handle_response client fetched_at now arm_now (res_regist_item session_id result) c =
      (c, [], deliver (to_uint64 (to_int session_id)) (client_regist_item result))
  handle_response client fetched_at now arm_now (res_purchase_item session_id result gold) c =
      (c, [], deliver (to_uint64 (to_int session_id)) (client_purchase_item result gold))
  handle_response client fetched_at now arm_now res_receipt_item c = (c, [], [])
