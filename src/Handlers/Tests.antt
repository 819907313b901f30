-- ===== src/Handlers/Tests.antt =====
-- GameServer/Network/Handlers and AuctionServer/Network/Handlers with one client, against the shop of
-- AuctionService/Tests and a database with two rows.
use j1_server.Prelude.{
  ℕ, ◌+◌, ◌-◌, ◌^◌, ◌≡◌, refl, true, false, Bool, some, List, [], ◌∷◌, arith, ltb, if◌then◌else◌,
}
use j1_server.Prelude.Int.{ℤ, pos}
use j1_server.SessionManager.{SessionManager, find}
use j1_server.Cache.{
  Cache, new_cache, stale_limit, unknown, pass, request_refresh, finish_refresh, seconds,
}
use j1_server.Cache.Contents.{AuctionItemInfo}
use j1_server.Cache.Verdicts.{expected, counted}
use j1_server.Cache.Tests.{client, item}
use j1_server.Sql.{Row, Connection, ok}
use j1_server.AuctionService.{listing_item, receipt_item, get_listings, get_receipts, purchase}
use j1_server.AuctionService.Tests.{Shop, shop}
use j1_server.Handlers.{client_auction_list, client_receipt_list, client_purchase_item}
use j1_server.Handlers.Game.{
  Sent, to_client, ClientSession, handle_req_auction_list, handle_req_receipt_list,
  handle_req_purchase_item, is_rejected, answer_purchase, requests_of, deliver,
}
use j1_server.Handlers.Routing.{Clock, send_all, handle_req_list-send_all, request_refresh-send_all}
use j1_server.Handlers.Purchases.{
  purchased, handle_req_purchase_item-send_all, handle_req_purchase_item_high,
}

abbrev clock : Clock
clock = record { fetched_at = 0; now = 1; arm_now = 2 }

abbrev alive : ℕ → Bool
alive h = true

-- Session 1 is handle 10, and session 5 handle 11.
abbrev manager : SessionManager
manager = record { sessions = (1, 10) ∷ (5, 11) ∷ []; next_id = 6 }

abbrev first_client : ClientSession
first_client = record { handle = 10; session_id = 1 }

found : find alive 1 manager ≡ some 10
unfolding find
found = refl

abbrev row : ℕ → Row
row n = record { int_of = λ c. pos n; string_of = λ c. [] }

-- Every query finds two rows.
abbrev two_rows : Connection
two_rows = record {
  State = ℕ;
  set_auto_commit = λ on s. (ok tt, s);
  commit = λ s. (ok tt, s);
  rollback = λ s. (ok tt, s);
  execute_query = λ q s. (ok (row 1 ∷ row 2 ∷ []), s + 1);
  execute_update = λ u s. (ok 1, s + 1);
  execute_update_gen_keys = λ u s. (ok (pos 1), s + 1);
}

abbrev listed : List AuctionItemInfo
listed = listing_item (row 1) ∷ listing_item (row 2) ∷ []

abbrev received : List AuctionItemInfo
received = receipt_item (row 1) ∷ receipt_item (row 2) ∷ []

listings_found :
    (mine : Bool) (player_id : ℤ) → get_listings two_rows mine player_id 0 ≡ (ok listed, 1)
unfolding get_listings
listings_found mine player_id = refl

receipts_found : get_receipts two_rows (pos (2 ^ 32 + 9)) 0 ≡ (ok received, 1)
unfolding get_receipts
receipts_found = refl

handle_req_list-send_all_example :
    (send_all client alive manager two_rows clock
        (handle_req_auction_list true 3 first_client (pos (2 ^ 32 + 9)) [] true new_cache).2
        0
        new_cache
      ≡ ((new_cache, [], to_client 10 (client_auction_list true listed) ∷ []), 1))
    × (send_all client alive manager two_rows clock
          (handle_req_receipt_list true first_client (pos (2 ^ 32 + 9))).1
          0
          new_cache
        ≡ ((new_cache, [], to_client 10 (client_receipt_list received) ∷ []), 1))
handle_req_list-send_all_example =
    handle_req_list-send_all client alive manager two_rows clock first_client (pos (2 ^ 32 + 9)) []
      3 new_cache 0 1 1 listed received found (omega arith) (omega arith)
      (listings_found true (pos 9)) receipts_found

abbrev idle : Cache
idle = record new_cache { in_flight = false; has_timer = true }

request_refresh-send_all_example :
    let (asked, asks) = request_refresh true 3 4 idle in
    let (refreshed, effects) = finish_refresh client 0 1 2 listed asked in
    send_all client alive manager two_rows clock (requests_of asks) 0 asked
    ≡ ((refreshed, effects, []), 1)
request_refresh-send_all_example =
    request_refresh-send_all client alive manager two_rows clock 3 4 idle 0 1 listed refl refl
      (listings_found false (pos 0))

abbrev open_shop : Shop
open_shop = record {
  published = record { gold = 45; stock = 5; logged = 0 };
  current = record { gold = 45; stock = 5; logged = 0 };
  auto = true;
}

-- Player 9 buys two of listing 3.
abbrev bid : AuctionItemInfo
bid = item (pos 3) (pos 9) (pos 2)

abbrev for_sale : List AuctionItemInfo
for_sale = item (pos 3) (pos 1) (pos 5) ∷ []

handle_req_purchase_item-send_all_example :
    let c' = (finish_refresh client 0 1 2 for_sale new_cache).0 in
    let v =
      if ltb (seconds 60 - 0) stale_limit
      then expected (pos 3) (pos 2) (pos 9) for_sale
      else unknown in
    let (packet, s') = purchased client alive manager shop clock v bid open_shop in
    (sent : List Sent) × (handle_req_purchase_item true (seconds 60) first_client (bid ∷ []) c'
      ≡ some (true, counted v c', sent))
    × (send_all client alive manager shop clock sent open_shop (counted v c')
        ≡ ((counted v c', [], to_client 10 packet ∷ []), s'))
handle_req_purchase_item-send_all_example =
    handle_req_purchase_item-send_all client alive manager shop clock first_client bid []
      (seconds 60) for_sale new_cache open_shop found (omega arith)

abbrev high_client : ClientSession
high_client = record { handle = 12; session_id = 4294967301 }

passes : is_rejected pass ≡ false
unfolding is_rejected
passes = refl

handle_req_purchase_item_high_example :
    let (bought, s') = purchase shop bid open_shop in
    send_all client alive manager shop clock
      (answer_purchase true high_client bid (new_cache, pass)).2
      open_shop
      new_cache
    ≡ (
      (
        new_cache,
        [],
        deliver alive manager 5 (client_purchase_item bought.success bought.total_price),
      ),
      s',
    )
handle_req_purchase_item_high_example =
    handle_req_purchase_item_high client alive manager shop clock high_client 5 bid pass new_cache
      open_shop refl (omega arith) passes
