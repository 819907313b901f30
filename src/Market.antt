-- ===== src/Market.antt =====
-- The auction as its tables: what the statements of `TryPurchase` in AuctionServer/AuctionService.cpp do
-- to the rows, by the documented meaning of their SQL, and a sale as one step on the tables.
pub mod Store
pub mod Payment
pub mod Sale
pub mod Sold
pub mod Stock
pub mod History
pub mod Gold
pub mod Purses
pub mod Listed
pub mod Precheck
pub mod Healthy
pub mod Decided
mod Hall
mod Tests
use j1_server.Prelude.{
  ℕ, ◌+◌, Bool, true, false, not, ◌&&◌, ◌||◌, Option, none, some, List, [], ◌∷◌, ◌++◌, ◌==◌,
  if◌then◌else◌,
}
use j1_server.Prelude.Int.{ℤ, pos, ◌-ℤ◌, eq_ℤ, ltb_ℤ, leb_ℤ}
use j1_server.Cache.Contents.{AuctionItemInfo}
use j1_server.Sql.{
  Update, insert_listing, debit_gold, delete_listing, reduce_listing, insert_transaction,
  insert_receipts,
}
use j1_server.AuctionService.{mul_int64}

-- A row of `auction_listings`; `live` is `expired_at > NOW()`.
pub record Listing : Type 0 where
  pub listing_id : ℤ
  pub seller_id : ℤ
  pub item_id : ℤ
  pub remaining : ℤ
  pub price : ℤ
  pub live : Bool

-- The columns of `character_base` that a purchase touches.
pub record Character : Type 0 where
  pub account_id : ℤ
  pub gold : ℤ

-- A row of `auction_receipts`: an item for a buyer (3), or gold for a seller (1).
pub data Receipt : Type 0 where
  bought : (owner item_id quantity source_listing : ℤ) → Receipt
  sold : (owner gold source_listing : ℤ) → Receipt

-- A row of `auction_transactions`.
pub record Trade : Type 0 where
  pub item_id : ℤ
  pub quantity : ℤ
  pub total_price : ℤ

pub record Tables : Type 0 where
  pub listings : List Listing
  pub characters : List Character
  pub trades : List Trade
  pub receipts : List Receipt

-- SELECT … WHERE listing_id = ? AND expired_at > NOW()
abbrev pub find_live : ℤ → List Listing → Option Listing
find_live id [] = none
find_live id (l ∷ ls) = if eq_ℤ l.listing_id id && l.live then some l else find_live id ls

-- WHERE account_id = ? AND gold >= ?
abbrev pub can_pay : ℤ → ℤ → Character → Bool
can_pay account total ch = eq_ℤ ch.account_id account && leb_ℤ total ch.gold

-- SET gold = gold - ?, with the number of rows that changed.
abbrev pub debit : ℤ → ℤ → List Character → ℕ × List Character
debit account total [] = (0, [])
debit account total (ch ∷ chs) =
    let (n, chs') = debit account total chs in
    if can_pay account total ch && not (eq_ℤ total (pos 0))
    then (n + 1, record ch { gold = ch.gold -ℤ total } ∷ chs')
    else (n, ch ∷ chs')

-- DELETE FROM auction_listings WHERE listing_id = ?
abbrev pub remove : ℤ → List Listing → ℕ × List Listing
remove id [] = (0, [])
remove id (l ∷ ls) =
    let (n, ls') = remove id ls in if eq_ℤ l.listing_id id then (n + 1, ls') else (n, l ∷ ls')

-- SET remaining_quantity = remaining_quantity - ? WHERE listing_id = ? AND remaining_quantity > ?
abbrev pub reduce : ℤ → ℤ → List Listing → ℕ × List Listing
reduce id n [] = (0, [])
reduce id n (l ∷ ls) =
    let (k, ls') = reduce id n ls in
    if (eq_ℤ l.listing_id id && ltb_ℤ n l.remaining) && not (eq_ℤ n (pos 0))
    then (k + 1, record l { remaining = l.remaining -ℤ n } ∷ ls')
    else (k, l ∷ ls')

-- A statement of `TryPurchase` on the tables, with the number of rows that it reports.
unfoldable pub apply_update : Update → Tables → Option (ℕ × Tables)
apply_update (debit_gold total account limit) t =
    let (n, chs) = debit account total t.characters in
    if eq_ℤ limit total then some (n, record t { characters = chs }) else none
apply_update (delete_listing id) t =
    let (n, ls) = remove id t.listings in some (n, record t { listings = ls })
apply_update (reduce_listing n id limit) t =
    let (k, ls) = reduce id n t.listings in
    if eq_ℤ limit n then some (k, record t { listings = ls }) else none
apply_update (insert_transaction item quantity total) t = some (
  1,
  record t {
    trades = t.trades ++ record { item_id = item; quantity = quantity; total_price = total } ∷ [];
  },
)
apply_update (insert_receipts buyer item quantity source seller total source') t = some (
  2,
  record t {
    receipts = t.receipts ++ bought buyer item quantity source ∷ sold seller total source' ∷ [];
  },
)
apply_update _ t = none

-- The quantity is taken from the listings; `none` where no row has enough.
abbrev pub take_stock : Listing → ℤ → List Listing → Option (List Listing)
take_stock l count ls =
    let (n, ls') =
      if eq_ℤ l.remaining count then remove l.listing_id ls else reduce l.listing_id count ls in
    if n == 0 then none else some ls'

-- A sale of `count` of a live listing to another player who can pay for it.
unfoldable pub sell_listing : AuctionItemInfo → Listing → Tables → Option (ℤ × Tables)
sell_listing info l t =
    let total = mul_int64 l.price info.count in
    let (paid, chs) = debit info.player_id total t.characters in
    if eq_ℤ l.seller_id info.player_id || paid == 0
    then none
    else elim (take_stock l info.count t.listings) [
      | none ↦ none
      | some ls ↦ some (
        total,
        record {
          listings = ls;
          characters = chs;
          trades =
              t.trades
              ++ record { item_id = l.item_id; quantity = info.count; total_price = total } ∷ [];
          receipts =
              t.receipts
              ++ bought info.player_id l.item_id info.count l.listing_id
                ∷ sold l.seller_id total l.listing_id
                ∷ [];
        },
      )
    ]

-- A purchase as one step: the price and the tables after it, or nothing.
unfoldable pub sell : AuctionItemInfo → Tables → Option (ℤ × Tables)
unfolding sell_listing
sell info t =
    if leb_ℤ info.count (pos 0)
    then none
    else elim (find_live info.list_id t.listings) [ none ↦ none | some l ↦ sell_listing info l t ]
