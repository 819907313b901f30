-- ===== src/Market/Store.antt =====
-- A connection to the tables of the auction: its statements, where they return, do what `apply_update` says,
-- and the queries of AuctionServer/AuctionService.cpp show the live listings.
use j1_server.Prelude.{take, if◌then◌else◌, ℕ, ◌≡◌, Option, none, some, List, [], ◌∷◌}
use j1_server.Prelude.Int.{ℤ}
use j1_server.Sql.{
  listing_id, listings, Row, seller_id, item_id, remaining_quantity, price, Update, check_listing,
  ok, Connection,
}
use j1_server.Sql.Transactions.{Views, IsTransactional}
use j1_server.Market.{Listing, Tables, find_live, apply_update}

abbrev pub Shows : Option Listing → List Row → Type 0
Shows none rows = rows ≡ []
Shows (some l) rows =
    (row : Row) × (rest : List Row) × (rows ≡ row ∷ rest)
    × (row.int_of seller_id ≡ l.seller_id)
    × (row.int_of item_id ≡ l.item_id)
    × (row.int_of remaining_quantity ≡ l.remaining)
    × (row.int_of price ≡ l.price)

-- ORDER BY listing_id ASC LIMIT 100, on rows that are kept in the order of their key.
abbrev pub lives : List Listing → List Listing
lives [] = []
lives (l ∷ ls) = if l.live then l ∷ lives ls else lives ls

abbrev pub ShowsAll : List Listing → List Row → Type 0
ShowsAll [] [] = Unit
ShowsAll (l ∷ ls) (row ∷ rows) =
    (row.int_of listing_id ≡ l.listing_id)
    × (row.int_of seller_id ≡ l.seller_id)
    × (row.int_of remaining_quantity ≡ l.remaining)
    × ShowsAll ls rows
ShowsAll _ _ = ⊥

-- `read` is the part of the database that the auction works on.
pub record IsStore (c : Connection) (v : Views c) (laws : IsTransactional c v) : Type 0 where
  pub read : v.Tables → Tables
  pub check_law :
      (id : ℤ) (s : c.State) (rows : List Row)
      → laws.IsOpen s
      → (c.execute_query (check_listing id) s).0 ≡ ok rows
      → Shows (find_live id (read (v.working s)).listings) rows
        × (v.working (c.execute_query (check_listing id) s).1 ≡ v.working s)
  pub update_law :
      (u : Update) (s : c.State) (n m : ℕ) (t : Tables)
      → laws.IsOpen s
      → (c.execute_update u s).0 ≡ ok n
      → apply_update u (read (v.working s)) ≡ some (m, t)
      → (n ≡ m) × (read (v.working (c.execute_update u s).1) ≡ t)
  pub list_law :
      (s : c.State) (rows : List Row)
      → v.working s ≡ v.committed s
      → (c.execute_query listings s).0 ≡ ok rows
      → ShowsAll (take 100 (lives (read (v.working s)).listings)) rows
