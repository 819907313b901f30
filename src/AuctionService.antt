-- ===== src/AuctionService.antt =====
-- AuctionServer/AuctionService.h and .cpp: what a database worker does with a request. The
-- connection is the parameter `Connection`; an `int64` keeps its wrap-around.
pub mod Transaction
pub mod Atomic
pub mod Settled
pub mod Attempts
pub mod Returns
pub mod Tests
use j1_server.Prelude.{
  ℕ, zero, suc, ◌+◌, Bool, true, false, not, ◌&&◌, ◌||◌, List, [], ◌∷◌, map, ltb, ◌==◌,
  if◌then◌else◌,
}
use j1_server.Prelude.Int.{ℤ, pos, ◌*ℤ◌, eq_ℤ, leb_ℤ, wrap, signed}
use j1_server.Cache.Contents.{AuctionItemInfo}
use j1_server.Sql.{
  Column, listing_id, seller_id, item_id, remaining_quantity, price, expired_at, receipt_id,
  receipt_type, quantity, gold_amount, Row, Query, listings, listings_of, receipts_of,
  check_listing, Update, insert_listing, debit_gold, delete_listing, reduce_listing,
  insert_transaction, insert_receipts, Result, ok, throws, Connection,
}

-- `kMaxTxAttempts`
abbrev pub max_tx_attempts : ℕ
max_tx_attempts = 3

-- `kErrLockWaitTimeout` and `kErrDeadlock`
abbrev pub err_lock_wait_timeout : ℕ
err_lock_wait_timeout = 1205

abbrev pub err_deadlock : ℕ
err_deadlock = 1213

-- The code of `sql::SQLException(message)`, which the service throws itself.
abbrev pub own_error : ℕ
own_error = 0

-- A product of two `int64`.
unfoldable pub mul_int64 : ℤ → ℤ → ℤ
mul_int64 a b = signed 64 (wrap 64 (a *ℤ b))

-- The item that a row of `auction_listings` becomes in `GetListings`.
unfoldable pub listing_item : Row → AuctionItemInfo
listing_item row = record {
  list_id = row.int_of listing_id;
  player_id = row.int_of seller_id;
  receipt_type = pos 0;
  item_id = row.int_of item_id;
  count = row.int_of remaining_quantity;
  price = row.int_of price;
  expired_at = row.string_of expired_at;
}

-- The item that a row of `auction_receipts` becomes in `GetReceipts`.
unfoldable pub receipt_item : Row → AuctionItemInfo
receipt_item row = record {
  list_id = row.int_of receipt_id;
  player_id = pos 0;
  receipt_type = row.int_of receipt_type;
  item_id = row.int_of item_id;
  count = row.int_of quantity;
  price = row.int_of gold_amount;
  expired_at = [];
}

-- `info.expired_at() == "24"`, on the bytes of the text.
unfoldable pub is_24 : List ℕ → Bool
is_24 (a ∷ b ∷ []) = a == b'2' && b == b'4'
is_24 _ = false

pub record PurchaseResult : Type 0 where
  pub success : Bool
  pub total_price : ℤ

module _ (c : Connection) where
  open c use {State, set_auto_commit, commit, rollback, execute_query, execute_update}

  -- An attempt: the connection and the out parameter `totalPrice`, kept when it throws.
  abbrev pub Action : Type 0 → Type 0
  Action A = State × ℤ → Result A × (State × ℤ)

  -- What follows a call: nothing where it threw.
  abbrev pub resume :
      {A B : Type 0} → (A → Action B) → Result A → State × ℤ → Result B × (State × ℤ)
  resume f (ok a) s = f a s
  resume f (throws e) s = (throws e, s)

  infixl 5 ◌>>=◌ ◌>>◌
  unfoldable pub ◌>>=◌ : {A B : Type 0} → Action A → (A → Action B) → Action B
  ◌>>=◌ m f s = resume f (m s).0 (m s).1

  unfoldable pub ◌>>◌ : {B : Type 0} → Action (Unit {0}) → Action B → Action B
  unfolding ◌>>=◌
  m >> k = m >>= λ _. k

  unfoldable pub on_connection : {A : Type 0} → (State → Result A × State) → Action A
  on_connection f (s, total) = let (r, s') = f s in (r, (s', total))

  unfoldable pub set_total_price : ℤ → Action (Unit {0})
  set_total_price total (s, _) = (ok tt, (s, total))

  -- `if (failed) throw sql::SQLException(…)`
  unfoldable pub throw_if : Bool → Action (Unit {0})
  throw_if true s = (throws own_error, s)
  throw_if false s = (ok tt, s)

  -- The first row of a result set, if `next()` finds one.
  unfoldable pub first_row : List Row → Action Row
  first_row [] s = (throws own_error, s)
  first_row (row ∷ rows) s = (ok row, s)

  -- The quantity is taken: the whole listing, or a part of it.
  unfoldable pub take_quantity : ℤ → AuctionItemInfo → Action ℕ
  take_quantity remaining info = on_connection (
      execute_update (
        if eq_ℤ remaining info.count
        then delete_listing info.list_id
        else reduce_listing info.count info.list_id info.count))

  -- `TryPurchase` from the gold on.
  unfoldable pub pay_and_record : AuctionItemInfo → ℤ → Row → Action (Unit {0})
  pay_and_record info total row = do
    paid ← on_connection (execute_update (debit_gold total info.player_id total))
    throw_if (paid == 0)
    taken ← take_quantity (row.int_of remaining_quantity) info
    throw_if (taken == 0)
    logged ←
        on_connection (execute_update (insert_transaction (row.int_of item_id) info.count total))
    throw_if (logged == 0)
    receipts ← on_connection (
        execute_update (
          insert_receipts info.player_id (row.int_of item_id) info.count info.list_id
            (row.int_of seller_id) total info.list_id))
    throw_if (not (receipts == 2))

  -- `TryPurchase` from the start of the transaction up to `Commit`.
  unfoldable pub prepare_purchase : AuctionItemInfo → Action (Unit {0})
  prepare_purchase info = do
    throw_if (leb_ℤ info.count (pos 0))
    rows ← on_connection (execute_query (check_listing info.list_id))
    row ← first_row rows
    set_total_price (mul_int64 (row.int_of price) info.count)
    throw_if (eq_ℤ (row.int_of seller_id) info.player_id)
    pay_and_record info (mul_int64 (row.int_of price) info.count) row

  -- `TryPurchase`
  unfoldable pub try_purchase : AuctionItemInfo → Action (Unit {0})
  try_purchase info = do
    on_connection (set_auto_commit false)
    prepare_purchase info
    on_connection commit

  -- `SafeRollback` and `SafeRestoreAutoCommit`: an exception is logged and dropped.
  unfoldable pub safe_rollback : State → State
  safe_rollback s = (rollback s).1

  unfoldable pub safe_restore_auto_commit : State → State
  safe_restore_auto_commit s = (set_auto_commit true s).1

  -- Whether an error is worth another attempt.
  unfoldable pub is_retry : ℕ → ℕ → Bool
  is_retry code attempt =
      (code == err_deadlock || code == err_lock_wait_timeout) && ltb attempt max_tx_attempts

  -- The body of the loop of `Purchase` behind `TryPurchase`; `again` is the next round.
  unfoldable pub settle :
      (PurchaseResult → State → PurchaseResult × State)
      → ℕ
      → Result (Unit {0})
      → State × ℤ
      → PurchaseResult × State
  unfolding safe_rollback safe_restore_auto_commit is_retry
  settle again attempt (ok _) (s, total) =
      (record { success = true; total_price = total }, safe_restore_auto_commit s)
  settle again attempt (throws code) (s, total) =
      let failed : PurchaseResult = record { success = false; total_price = total } in
      let s' = safe_restore_auto_commit (safe_rollback s) in
      elim (is_retry code attempt) [ true ↦ again failed s' | false ↦ (failed, s') ]

  -- The loop of `Purchase`; the fuel is the number of attempts that may still be made.
  unfoldable pub purchase_loop :
      ℕ → ℕ → AuctionItemInfo → PurchaseResult → State → PurchaseResult × State
  unfolding settle
  purchase_loop zero attempt info result s = (result, s)
  purchase_loop (suc fuel) attempt info result s =
      let again = purchase_loop fuel (attempt + 1) info in
      let (outcome, s') = try_purchase info (s, pos 0) in settle again attempt outcome s'

  -- `Purchase`
  unfoldable pub purchase : AuctionItemInfo → State → PurchaseResult × State
  purchase info s =
      purchase_loop max_tx_attempts 1 info (record { success = false; total_price = pos 0 }) s

  -- `GetListings`
  unfoldable pub get_listings : Bool → ℤ → State → Result (List AuctionItemInfo) × State
  unfolding listing_item
  get_listings mine player_id s =
      let (r, s') = execute_query (if mine then listings_of player_id else listings) s in
      (elim r [ ok rows ↦ ok (map listing_item rows) | throws e ↦ throws e ], s')

  -- `GetReceipts`
  unfoldable pub get_receipts : ℤ → State → Result (List AuctionItemInfo) × State
  unfolding receipt_item
  get_receipts player_id s =
      let (r, s') = execute_query (receipts_of player_id) s in
      (elim r [ ok rows ↦ ok (map receipt_item rows) | throws e ↦ throws e ], s')

  -- `Regist`
  unfoldable pub regist : AuctionItemInfo → State → Result Bool × State
  unfolding is_24
  regist info s =
      let (r, s') =
        execute_update
          (insert_listing info.player_id info.item_id info.count info.price
            (if is_24 info.expired_at then 24 else 48))
          s in
      (elim r [ ok affected ↦ ok (ltb 0 affected) | throws e ↦ throws e ], s')
