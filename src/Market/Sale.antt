-- ===== src/Market/Sale.antt =====
-- `Purchase` of AuctionServer/AuctionService.cpp against `sell`, one step on the tables.
use j1_server.Prelude.{
  ◌≡◌, refl, sym, ap, ◌∙◌, ◌⊎◌, inl, inr, Bool, true, false, Option, none, some, List, [], ◌∷◌,
  arith, ◌==◌,
}
use j1_server.Prelude.Int.{ℤ, pos, eq_ℤ, eq_ℤ_iff, leb_ℤ}
use j1_server.Cache.Contents.{AuctionItemInfo}
use j1_server.Sql.{
  Column, Row, item_id, price, seller_id, remaining_quantity, check_listing, ok, is_ok, Connection,
}
use j1_server.Sql.Transactions.{Views, IsTransactional}
use j1_server.AuctionService.{on_connection, set_total_price, mul_int64, prepare_purchase, purchase}
use j1_server.Market.{Listing, Tables, find_live, debit, sell}
use j1_server.Market.Store.{Shows, IsStore}
use j1_server.AuctionService.Atomic.{IsSettled, purchase_from}
use j1_server.AuctionService.Returns.{>>=-ok, >>-ok, guard-ok, row-ok}
use j1_server.Market.Payment.{
  view, row_listing, taken_rows, paid_tables, pay_and_record-ok, sell_listing-paid_tables,
}

find_live-listing_id :
    (id : ℤ) (ls : List Listing) (l : Listing) → find_live id ls ≡ some l → l.listing_id ≡ id
find_live-listing_id id [] l e = cc e
find_live-listing_id id (x ∷ ls) l e =
    ground (arith, (eq_ℤ_iff x.listing_id id).0, find_live-listing_id id ls l)

module _ (c : Connection) (v : Views c) (laws : IsTransactional c v)
    (store : IsStore c v laws) where
  open c use {State, execute_query, set_auto_commit, rollback}
  open v use {committed, working}
  open laws use {IsOpen}

  -- A listing that is found and shown is the one of the first row.
  shown_listing :
      (id : ℤ) (ls : List Listing) (row : Row) (rest rows : List Row)
      → Shows (find_live id ls) rows
      → rows ≡ row ∷ rest
      → (live : Bool) × (find_live id ls ≡ some (row_listing c v laws store id row live))
  shown_listing id ls row rest rows shows first =
      go (find_live id ls) (find_live-listing_id id ls) shows
    where
      go :
          (o : Option Listing)
          → ((l : Listing) → o ≡ some l → l.listing_id ≡ id)
          → Shows o rows
          → (live : Bool) × (o ≡ some (row_listing c v laws store id row live))
      go none named none_shown = absurd (cc (first, none_shown))
      go (some l) named (row', rest', listed, seller, item, remaining, priced) =
          let same : row' ≡ row = cc (first, listed) in
          let field = λ (q : Column). ap (λ (r : Row). r.int_of q) (sym same) in
          (
            l.live,
            λ i. some (record {
              listing_id = named l refl i;
              seller_id = (sym (field seller_id ∙ seller)) i;
              item_id = (sym (field item_id ∙ item)) i;
              remaining = (sym (field remaining_quantity ∙ remaining)) i;
              price = (sym (field price ∙ priced)) i;
              live = l.live;
            }),
          )

  sell-found :
      (info : AuctionItemInfo) (row : Row) (live : Bool) (t : Tables)
      → let total = mul_int64 (row.int_of price) info.count in
        leb_ℤ info.count (pos 0) ≡ false
        → find_live info.list_id t.listings
          ≡ some (row_listing c v laws store info.list_id row live)
        → eq_ℤ (row.int_of seller_id) info.player_id ≡ false
        → ((debit info.player_id total t.characters).0 == 0) ≡ false
        → ((taken_rows c v laws store (row.int_of remaining_quantity) info t.listings).0 == 0)
          ≡ false
        → sell info t ≡ some (total, paid_tables c v laws store info total row t)
  unfolding sell
  sell-found info row live t positive found other pays takes =
      rw (positive, found)
        (sell_listing-paid_tables c v laws store info row live t other pays takes)

  -- Where the transaction returns, it has taken the tables from one side of `sell` to the other, and
  -- its price is the one of the sale.
  prepare_purchase-ok :
      (info : AuctionItemInfo) (st : State × ℤ)
      → IsOpen st.0
      → (prepare_purchase c info st).0 ≡ ok tt
      → let st' = (prepare_purchase c info st).1 in
        sell info (view c v laws store st.0) ≡ some (st'.1, view c v laws store st'.0)
  unfolding prepare_purchase on_connection set_total_price sell
  prepare_purchase-ok info st o e =
      let (positive, k1, s1) = guard-ok c _ _ st tt e in
      let (rows, r2, k2, s2) = >>=-ok c _ _ st tt k1 in
      let (shows, untouched) = store.check_law info.list_id st.0 rows o r2 in
      let (row, rest, first, k3, s3) = row-ok c rows _ _ tt k2 in
      let (_, k4, s4) = >>-ok c _ _ _ tt k3 in
      let (other, k5, s5) = guard-ok c _ _ _ tt k4 in
      let total = mul_int64 (row.int_of price) info.count in
      let asked : State = (execute_query (check_listing info.list_id) st.0).1 in
      let (pays, takes, sold, charged) =
        pay_and_record-ok c v laws store info total row (asked, total)
          (laws.query_law (check_listing info.list_id) st.0 o).0 k5 in
      let (live, found) =
        shown_listing info.list_id (view c v laws store st.0).listings row rest rows shows first in
      let same : view c v laws store asked ≡ view c v laws store st.0 = ap store.read untouched in
      let all = s1 ∙ s2 ∙ s3 ∙ s4 ∙ s5 in
      let ready =
        sell-found info row live (view c v laws store asked) positive
          (ap (λ (t : Tables). find_live info.list_id t.listings) same ∙ found) other pays takes in
      ap (sell info) (sym same) ∙ ready ∙ (λ i. some (
        (sym (ap (λ (x : State × ℤ). x.1) all ∙ charged)) i,
        (sym (ap (λ (x : State × ℤ). view c v laws store x.0) all ∙ sold)) i,
      ))

  -- On a connection to these tables whose rollbacks return, and on which nothing is pending: a
  -- `Purchase` that reports success has replaced the tables that others see by those of the one step
  -- `sell`, and reports its price; one that reports failure has changed nothing.
  pub purchase-sell :
      ((t : State) → is_ok (rollback t).0 ≡ true)
      → (info : AuctionItemInfo) (s : State) → working s ≡ committed s
      → let (result, s') = purchase c info s in
        ((result.success ≡ false) × (committed s' ≡ committed s))
        ⊎ ((result.success ≡ true)
            × (sell info (store.read (committed s))
                ≡ some (result.total_price, store.read (committed s'))))
  purchase-sell rolls_back info s settled =
      elim (purchase_from c v laws rolls_back (IsSettled c v laws) (λ t h. h) info s settled) [
        | inl failed ↦ inl failed
        | inr (won, (s0, settled0, began, same, done, shown, charged)) ↦
            let sold = prepare_purchase-ok info ((set_auto_commit false s0).1, pos 0) began done in
            let start : view c v laws store (set_auto_commit false s0).1
                ≡ store.read (committed s) =
              ap store.read ((laws.begin_law s0).1 ∙ settled0 ∙ same) in
            inr (
              won,
              ap (sell info) (sym start)
                  ∙ sold
                  ∙ (λ i. some ((sym charged) i, store.read ((sym shown) i))),
            )
      ]
