-- ===== src/Market/Tests.antt =====
-- AuctionServer/AuctionService.cpp on the market of Market/Hall.
use j1_server.Prelude.{
  ℕ, ◌+◌, ◌-◌, ◌≡◌, refl, true, false, Option, none, some, List, map, arith, ◌⊎◌, ◌*◌, ◌^◌, ◌≤◌,
}
use j1_server.Prelude.Int.{ℤ, pos, negsuc, ◌-ℤ◌, ◌*ℤ◌, ◌≤ℤ◌}
use j1_server.Cache.Tests.{item, client}
use j1_server.Cache.Verdicts.{find_item, expected, counted, validate_purchase-finish_refresh}
use j1_server.Sql.{listings, ok}
use j1_server.AuctionService.{
  mul_int64, listing_item, get_listings, purchase, purchase_loop, try_purchase, ◌>>◌, on_connection,
  prepare_purchase, throw_if, first_row, set_total_price, pay_and_record, take_quantity,
}
use j1_server.Market.{Listing, Tables, apply_update, sell, sell_listing}
use j1_server.Market.Healthy.{IsHealthy}
use j1_server.Market.Decided.{purchase-sell_healthy}
use j1_server.Market.Sale.{purchase-sell}
use j1_server.Market.History.{amount, pieces, nothing, bought, History-pieces}
use j1_server.Cache.Contents.{AuctionItemInfo}
use j1_server.Market.Stock.{IsStocked, stock_of, sell-stock_of}
use j1_server.Market.Gold.{IsSolvent, gold_total, payers, proceeds}
use j1_server.Market.Purses.{charged, given, HasRoom, purchase-charged, purchase-given}
use j1_server.Market.Precheck.{purchase-validate_purchase}
use j1_server.Cache.{Cache, new_cache, reject_shortage, finish_refresh, validate_purchase}
use j1_server.Handlers.Game.{is_rejected}
use j1_server.Market.Hall.{
  Hall, rows_for, run, hall, hall_views, hall-IsTransactional, hall-IsStore, listing, market,
  open_hall, outcome,
}

-- Player 9 buys two of the first listing.
abbrev bought_two : ℤ × Tables
bought_two = outcome (sell (item (pos 3) (pos 9) (pos 2)) market)

purchase-sell_example :
    let info = item (pos 3) (pos 9) (pos 2) in
    let (result, s') = purchase hall info open_hall in
    ((result.success ≡ false) × (s'.published ≡ market))
    ⊎ ((result.success ≡ true) × (sell info market ≡ some (result.total_price, s'.published)))
unfolding hall-IsStore
purchase-sell_example =
    purchase-sell hall hall_views hall-IsTransactional hall-IsStore (λ t. refl)
      (item (pos 3) (pos 9) (pos 2)) open_hall refl

run-ok : (o : Option (ℕ × Tables)) (s : Hall) → (n : ℕ) × ((run o s).0 ≡ ok n)
run-ok none s = (0, refl)
run-ok (some (n, t)) s = (n, refl)

hall-IsHealthy : IsHealthy hall hall_views hall-IsTransactional
hall-IsHealthy = record {
  begins = λ s. refl;
  queries = λ q s o. (rows_for q s.current, refl);
  updates = λ u s o. run-ok (apply_update u s.current) s;
  commits = λ s o. refl;
}

purchase-sell_healthy_example :
    let info = item (pos 3) (pos 9) (pos 2) in
    let (result, s') = purchase hall info open_hall in
    ((sell info market ≡ none) × (result.success ≡ false) × (s'.published ≡ market))
    ⊎ ((result.success ≡ true) × (sell info market ≡ some (result.total_price, s'.published)))
unfolding hall-IsStore
purchase-sell_healthy_example =
    purchase-sell_healthy hall hall_views hall-IsTransactional hall-IsStore hall-IsHealthy
      (λ t. refl) (item (pos 3) (pos 9) (pos 2)) open_hall refl

-- The game server has the list that `GetListings` reads.
abbrev shown : List AuctionItemInfo
unfolding listing_item
shown = map listing_item (rows_for listings market)

abbrev refreshed : Cache
refreshed = (finish_refresh client 0 1 2 shown new_cache).0

six_refused :
    validate_purchase 5 (pos 3) (pos 6) (pos 9) refreshed
    ≡ some (counted reject_shortage refreshed, reject_shortage)
unfolding expected find_item shown listing_item
six_refused =
    validate_purchase-finish_refresh client 0 1 2 5 shown new_cache (pos 3) (pos 6) (pos 9)

-- Player 9 asks for six of the first listing.
purchase-validate_purchase_example :
    ((purchase hall (item (pos 3) (pos 9) (pos 6)) open_hall).0.success ≡ false)
    × ((purchase hall (item (pos 3) (pos 9) (pos 6)) open_hall).1.published ≡ market)
unfolding get_listings hall-IsStore is_rejected shown
purchase-validate_purchase_example =
    purchase-validate_purchase hall hall_views hall-IsTransactional hall-IsStore (λ t. refl) client
      0 1 2 5 new_cache (counted reject_shortage refreshed) reject_shortage
      (item (pos 3) (pos 9) (pos 6)) open_hall open_hall (pos 0) shown refl refl refl (ground arith)
      refl six_refused refl

two_left_three :
    IsStocked bought_two.1.listings
    × (stock_of (pos 3) bought_two.1.listings ≡ pos 5 -ℤ pos 2)
    × (pos 2 ≤ℤ pos 5)
unfolding sell sell_listing mul_int64 ◌*ℤ◌
two_left_three =
    sell-stock_of (item (pos 3) (pos 9) (pos 2)) market bought_two.1 bought_two.0 (pos 3)
      (ground arith) refl

-- Player 9 buys two of the first listing twice.
abbrev two : AuctionItemInfo
two = item (pos 3) (pos 9) (pos 2)

abbrev after_one : Hall
after_one = (purchase hall two open_hall).1

abbrev sold_pieces : ℕ
sold_pieces =
    0
    + amount (pos 3) two (purchase hall two open_hall).0.success
    + amount (pos 3) two (purchase hall two after_one).0.success

History-pieces_example :
    IsStocked (purchase hall two after_one).1.published.listings
    × (pieces (pos 3) (purchase hall two after_one).1.published + sold_pieces ≡ 5)
    × (sold_pieces ≤ 5)
unfolding hall-IsStore
History-pieces_example =
    History-pieces hall hall_views hall-IsTransactional hall-IsStore (pos 3) open_hall
      (purchase hall two after_one).1 sold_pieces (λ t. refl) refl (ground arith)
      (bought after_one (0 + amount (pos 3) two (purchase hall two open_hall).0.success) two
        (bought open_hall 0 two nothing))

two_bought : (purchase hall two open_hall).0.success ≡ true
unfolding purchase purchase_loop try_purchase ◌>>◌ on_connection prepare_purchase throw_if first_row
    set_total_price pay_and_record apply_update mul_int64 ◌*ℤ◌ take_quantity
two_bought = refl

-- Player 9 buys three of the second listing.
abbrev three : AuctionItemInfo
three = item (pos 7) (pos 9) (pos 3)

three_bought : (purchase hall three open_hall).0.success ≡ true
unfolding purchase purchase_loop try_purchase ◌>>◌ on_connection prepare_purchase throw_if first_row
    set_total_price pay_and_record apply_update mul_int64 ◌*ℤ◌ take_quantity
three_bought = refl

abbrev first : Listing
first = listing (pos 3) (pos 1) (pos 5) (pos 10)

purchase-charged_example :
    let (result, s') = purchase hall two open_hall in
    (result.total_price ≡ pos 20)
    × (s'.published.characters ≡ map (charged (pos 9) 20) market.characters)
    × (1 ≤ payers (pos 9) (pos 20) market.characters)
    × (gold_total s'.published.characters + payers (pos 9) (pos 20) market.characters * 20 ≡ 48)
    × (proceeds s'.published.receipts ≡ 20)
    × IsSolvent s'.published.characters
unfolding hall-IsStore
purchase-charged_example =
    purchase-charged hall hall_views hall-IsTransactional hall-IsStore (λ t. refl) two open_hall
      first 10 2 refl (ground arith) refl refl refl (omega arith) two_bought

purchase-given_example :
    let (result, s') = purchase hall three open_hall in
    (result.total_price ≡ negsuc (2 ^ 64 - 1 - 2 ^ 62 * 3))
    × (s'.published.characters ≡ map (given (pos 9) (2 ^ 64 - 2 ^ 62 * 3)) market.characters)
    × HasRoom 0 s'.published.characters
unfolding hall-IsStore
purchase-given_example =
    purchase-given hall hall_views hall-IsTransactional hall-IsStore (λ t. refl) three open_hall
      (listing (pos 7) (pos 2) (pos 9) (pos 4611686018427387904)) 4611686018427387904 3 refl
      (ground arith) refl refl refl (omega arith) (omega arith) (ground arith) three_bought
