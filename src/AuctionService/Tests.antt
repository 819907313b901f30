-- ===== src/AuctionService/Tests.antt =====
-- AuctionServer/AuctionService.cpp against a shop: a database with one listing, of seller 1 and
-- price 10, one buyer's gold, and the number of rows written to the two logs.
use j1_server.Prelude.{
  ℕ, ◌+◌, ◌-◌, ◌≡◌, refl, Bool, true, false, [], ◌∷◌, arith, ltb, leb, if◌then◌else◌,
}
use j1_server.Prelude.Int.{ℤ, pos}
use j1_server.Cache.Tests.{item}
use j1_server.Sql.{
  Column, seller_id, remaining_quantity, price, Update, debit_gold, delete_listing,
  insert_character_base, insert_character_combat, insert_character_skin, reduce_listing,
  insert_transaction, insert_receipts, Result, ok, Connection,
}
use j1_server.Sql.Transactions.{Views, IsTransactional}
use j1_server.AuctionService.{purchase_loop, purchase}
use j1_server.AuctionService.Atomic.{AllOrNothing, purchase-AllOrNothing}
use j1_server.AuctionService.Attempts.{purchase_loop-purchase}

pub record Tables : Type 0 where
  pub gold : ℕ
  pub stock : ℕ
  pub logged : ℕ

pub record Shop : Type 0 where
  pub published : Tables
  pub current : Tables
  pub auto : Bool

abbrev column : Tables → Column → ℤ
column t seller_id = pos 1
column t price = pos 10
column t remaining_quantity = pos t.stock
column t c = pos 50

abbrev change : Update → Tables → ℕ × Tables
change (debit_gold (pos total) account limit) t =
    if leb total t.gold then (1, record t { gold = t.gold - total }) else (0, t)
change (delete_listing id) t = (1, record t { stock = 0 })
change (reduce_listing (pos n) id limit) t =
    if ltb n t.stock then (1, record t { stock = t.stock - n }) else (0, t)
change (insert_transaction i n total) t = (1, record t { logged = t.logged + 1 })
change (insert_receipts b i n l s total l') t = (2, record t { logged = t.logged + 2 })
change (insert_character_base account slot name class) t = (1, record t { logged = t.logged + 1 })
change (insert_character_combat id) t = (1, record t { logged = t.logged + 1 })
change (insert_character_skin id upper lower weapon) t = (1, record t { logged = t.logged + 1 })
change u t = (0, t)

abbrev written : ℕ × Tables → Shop → Result ℕ × Shop
written (n, t) s = (ok n, record s { current = t; published = if s.auto then t else s.published })

abbrev pub shop : Connection
shop = record {
  State = Shop;
  set_auto_commit =
      λ on s. (ok tt, record s { auto = on; published = if on then s.current else s.published });
  commit = λ s. (ok tt, record s { published = s.current });
  rollback = λ s. (ok tt, record s { current = s.published });
  execute_query = λ q s. (
    ok (
        if ltb 0 s.current.stock
        then record { int_of = column s.current; string_of = λ c. [] } ∷ []
        else []),
    s,
  );
  execute_update = λ u s. written (change u s.current) s;
  execute_update_gen_keys = λ u s. (ok (pos 7), (written (change u s.current) s).1);
}

abbrev pub shop_views : Views shop
shop_views = record { Tables = Tables; committed = λ s. s.published; working = λ s. s.current }

pub shop-IsTransactional : IsTransactional shop shop_views
shop-IsTransactional = record {
  begin_law = λ s. (refl, refl);
  IsOpen = λ s. s.auto ≡ false;
  begin_open = λ s h. refl;
  query_law = λ q s h. (h, refl);
  update_law = λ u s h. (
    h,
    (let e : (if s.auto then (change u s.current).1 else s.published) ≡ s.published = rw h in e),
  );
  gen_keys_law = λ u s h. (
    h,
    (let e : (if s.auto then (change u s.current).1 else s.published) ≡ s.published = rw h in e),
  );
  commit_law = λ s. (λ h. (refl, refl), λ h. cc h);
  rollback_law = λ s. (refl, λ h. refl);
  auto_law = λ s h. (h, h);
}

-- The buyer has 45 gold, five items are for sale, and the tables are as others see them.
abbrev open_shop : Shop
open_shop =
    let t : Tables = record { gold = 45; stock = 5; logged = 0 } in
    record { published = t; current = t; auto = true }

-- Player 9 buys two of them.
purchase-AllOrNothing_example :
    AllOrNothing shop shop_views shop-IsTransactional
      (item (pos 3) (pos 9) (pos 2))
      open_shop
      (purchase shop (item (pos 3) (pos 9) (pos 2)) open_shop)
purchase-AllOrNothing_example =
    purchase-AllOrNothing shop shop_views shop-IsTransactional (λ t. refl)
      (item (pos 3) (pos 9) (pos 2)) open_shop

purchase_loop-purchase_example :
    purchase_loop shop 8 1
      (item (pos 3) (pos 9) (pos 5))
      (record { success = false; total_price = pos 0 })
      open_shop
    ≡ purchase shop (item (pos 3) (pos 9) (pos 5)) open_shop
purchase_loop-purchase_example =
    purchase_loop-purchase shop 8 (item (pos 3) (pos 9) (pos 5)) open_shop (omega arith)
