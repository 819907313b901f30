-- ===== src/Market/Payment.antt =====
-- `TryPurchase` of AuctionServer/AuctionService.cpp from the payment on, statement by statement over a
-- connection, against the tables after a sale.
use j1_server.Prelude.{
  ℕ, ◌≡◌, refl, sym, ap, ◌∙◌, Bool, true, false, not, some, List, [], ◌∷◌, ◌++◌, ◌==◌,
  if◌then◌else◌,
}
use j1_server.Prelude.Int.{ℤ, eq_ℤ, eq_ℤ_iff}
use j1_server.Cache.Contents.{AuctionItemInfo}
use j1_server.Sql.{
  Row, item_id, price, seller_id, remaining_quantity, Update, debit_gold, delete_listing,
  reduce_listing, insert_transaction, insert_receipts, ok, Connection,
}
use j1_server.Sql.Transactions.{Views, IsTransactional}
use j1_server.AuctionService.{
  Action, ◌>>=◌, ◌>>◌, on_connection, throw_if, mul_int64, take_quantity, pay_and_record,
}
use j1_server.Market.{
  Receipt, Listing, Tables, debit, remove, reduce, apply_update, take_stock, sell_listing,
}
use j1_server.Market.Store.{IsStore}
use j1_server.AuctionService.Returns.{>>=-ok, guard-ok, throw_if-ok}

eq_ℤ_refl : (z : ℤ) → eq_ℤ z z ≡ true
eq_ℤ_refl z = (eq_ℤ_iff z z).1 refl

module _ (c : Connection) (v : Views c) (laws : IsTransactional c v)
    (store : IsStore c v laws) where
  open c use {State, execute_query, execute_update, set_auto_commit}
  open v use {committed, working}
  open laws use {IsOpen}

  -- The tables as this connection sees them.
  abbrev pub view : State → Tables
  view s = store.read (working s)

  update-ok :
      (u : Update) (st : State × ℤ) (n m : ℕ) (t : Tables)
      → IsOpen st.0
      → (on_connection c (execute_update u) st).0 ≡ ok n
      → apply_update u (view st.0) ≡ some (m, t)
      → let st' = (on_connection c (execute_update u) st).1 in
        (n ≡ m) × (view st'.0 ≡ t) × IsOpen st'.0 × (st'.1 ≡ st.1)
  unfolding on_connection
  update-ok u st n m t o e does =
      let (same, now) = store.update_law u st.0 n m t o e does in
      (same, now, (laws.update_law u st.0 o).0, refl)

  -- The row of the listing that is sold.
  abbrev IsRow : Row → Listing → Type 0
  IsRow row l =
      (row.int_of seller_id ≡ l.seller_id)
      × (row.int_of item_id ≡ l.item_id)
      × (row.int_of remaining_quantity ≡ l.remaining)
      × (row.int_of price ≡ l.price)

  -- A statement whose count of rows is tested, in front of the rest `k`.
  checked-ok :
      (u : Update) (test : ℕ → Bool) (k : Action c (Unit {0})) (st : State × ℤ) (m : ℕ) (t : Tables)
      → IsOpen st.0
      → apply_update u (view st.0) ≡ some (m, t)
      → let run =
          ◌>>=◌ c (on_connection c (execute_update u)) (λ n. ◌>>◌ c (throw_if c (test n)) k) st in
        run.0 ≡ ok tt
        → (st' : State × ℤ) × (test m ≡ false)
          × (view st'.0 ≡ t)
          × IsOpen st'.0
          × (st'.1 ≡ st.1)
          × ((k st').0 ≡ ok tt)
          × (run.1 ≡ (k st').1)
  checked-ok u test k st m t o does e =
      let (n, e1, r1, s1) = >>=-ok c _ _ st tt e in
      let (same, now, o1, p1) = update-ok u st n m t o e1 does in
      let (passed, r2, s2) = guard-ok c _ _ _ tt r1 in
      (
        (on_connection c (execute_update u) st).1,
        ap test (sym same) ∙ passed,
        now,
        o1,
        p1,
        r2,
        s1 ∙ s2,
      )

  -- The same at the end.
  checked_last-ok :
      (u : Update) (test : ℕ → Bool) (st : State × ℤ) (m : ℕ) (t : Tables)
      → IsOpen st.0
      → apply_update u (view st.0) ≡ some (m, t)
      → let run = ◌>>=◌ c (on_connection c (execute_update u)) (λ n. throw_if c (test n)) st in
        run.0 ≡ ok tt → (view run.1.0 ≡ t) × (run.1.1 ≡ st.1)
  checked_last-ok u test st m t o does e =
      let (n, e1, r1, s1) = >>=-ok c _ _ st tt e in
      let (same, now, o1, p1) = update-ok u st n m t o e1 does in
      let (passed, kept) = throw_if-ok c _ _ r1 in
      let all = s1 ∙ kept in
      (ap (λ (x : State × ℤ). view x.0) all ∙ now, ap (λ (x : State × ℤ). x.1) all ∙ p1)

  pub apply_update-debit :
      (total account : ℤ) (t : Tables)
      → let (n, chs) = debit account total t.characters in
        apply_update (debit_gold total account total) t ≡ some (n, record t { characters = chs })
  unfolding apply_update
  apply_update-debit total account t = rw (eq_ℤ_refl total) refl

  -- The statement that takes the quantity.
  abbrev pub takes : ℤ → AuctionItemInfo → Update
  takes remaining info =
      if eq_ℤ remaining info.count
      then delete_listing info.list_id
      else reduce_listing info.count info.list_id info.count

  abbrev pub taken_rows : ℤ → AuctionItemInfo → List Listing → ℕ × List Listing
  taken_rows remaining info ls =
      if eq_ℤ remaining info.count
      then remove info.list_id ls
      else reduce info.list_id info.count ls

  pub apply_update-takes :
      (remaining : ℤ) (info : AuctionItemInfo) (t : Tables)
      → let (n, ls) = taken_rows remaining info t.listings in
        apply_update (takes remaining info) t ≡ some (n, record t { listings = ls })
  unfolding apply_update
  apply_update-takes remaining info t = go (eq_ℤ remaining info.count)
    where
      go :
          (b : Bool)
          → let (n, ls) =
              if b
              then remove info.list_id t.listings
              else reduce info.list_id info.count t.listings in
            apply_update
              (if b
                then delete_listing info.list_id
                else reduce_listing info.count info.list_id info.count)
              t
            ≡ some (n, record t { listings = ls })
      go true = refl
      go false = rw (eq_ℤ_refl info.count) refl

  -- The tables after `pay_and_record`.
  abbrev pub paid_tables : AuctionItemInfo → ℤ → Row → Tables → Tables
  paid_tables info total row t = record {
    listings = (taken_rows (row.int_of remaining_quantity) info t.listings).1;
    characters = (debit info.player_id total t.characters).1;
    trades =
        t.trades
        ++ record { item_id = row.int_of item_id; quantity = info.count; total_price = total } ∷ [];
    receipts =
        t.receipts
        ++ Receipt.bought info.player_id (row.int_of item_id) info.count info.list_id
          ∷ Receipt.sold (row.int_of seller_id) total info.list_id
          ∷ [];
  }

  pub pay_and_record-ok :
      (info : AuctionItemInfo) (total : ℤ) (row : Row) (st : State × ℤ)
      → IsOpen st.0
      → (pay_and_record c info total row st).0 ≡ ok tt
      → let st' = (pay_and_record c info total row st).1 in
        let t = view st.0 in
        (((debit info.player_id total t.characters).0 == 0) ≡ false)
        × (((taken_rows (row.int_of remaining_quantity) info t.listings).0 == 0) ≡ false)
        × (view st'.0 ≡ paid_tables info total row t)
        × (st'.1 ≡ st.1)
  unfolding pay_and_record take_quantity apply_update
  pay_and_record-ok info total row st o e =
      let t = view st.0 in
      let t1 : Tables = record t { characters = (debit info.player_id total t.characters).1 } in
      let t2 : Tables = record t1 {
        listings = (taken_rows (row.int_of remaining_quantity) info t.listings).1;
      } in
      let (st1, some1, v1, o1, p1, r1, s1) =
        checked-ok _ (λ n. n == 0) _ st _ _ o (apply_update-debit total info.player_id t) e in
      let (st2, some2, v2, o2, p2, r2, s2) =
        checked-ok _ (λ n. n == 0) _ st1 _ _ o1
          (ap (apply_update (takes (row.int_of remaining_quantity) info)) v1
            ∙ apply_update-takes (row.int_of remaining_quantity) info t1)
          r1 in
      let (st3, some3, v3, o3, p3, r3, s3) =
        checked-ok _ (λ n. n == 0) _ st2 1 _ o2
          (ap (apply_update (insert_transaction (row.int_of item_id) info.count total)) v2) r2 in
      let (v4, p4) =
        checked_last-ok _ (λ n. not (n == 2)) st3 2 _ o3
          (ap
            (apply_update (
              insert_receipts info.player_id (row.int_of item_id) info.count info.list_id
                (row.int_of seller_id) total info.list_id))
            v3)
          r3 in
      let all = s1 ∙ s2 ∙ s3 in
      (
        some1,
        some2,
        ap (λ (x : State × ℤ). view x.0) all ∙ v4,
        ap (λ (x : State × ℤ). x.1) all ∙ p4 ∙ p3 ∙ p2 ∙ p1,
      )

  -- The listing that a row shows.
  abbrev pub row_listing : ℤ → Row → Bool → Listing
  row_listing id row live = record {
    listing_id = id;
    seller_id = row.int_of seller_id;
    item_id = row.int_of item_id;
    remaining = row.int_of remaining_quantity;
    price = row.int_of price;
    live = live;
  }

  take_stock-taken_rows :
      (info : AuctionItemInfo) (row : Row) (live : Bool) (ls : List Listing)
      → ((taken_rows (row.int_of remaining_quantity) info ls).0 == 0) ≡ false
      → take_stock (row_listing info.list_id row live) info.count ls
        ≡ some (taken_rows (row.int_of remaining_quantity) info ls).1
  take_stock-taken_rows info row live ls h = rw h refl

  pub sell_listing-paid_tables :
      (info : AuctionItemInfo) (row : Row) (live : Bool) (t : Tables)
      → let total = mul_int64 (row.int_of price) info.count in
        eq_ℤ (row.int_of seller_id) info.player_id ≡ false
        → ((debit info.player_id total t.characters).0 == 0) ≡ false
        → ((taken_rows (row.int_of remaining_quantity) info t.listings).0 == 0) ≡ false
        → sell_listing info (row_listing info.list_id row live) t
          ≡ some (total, paid_tables info total row t)
  unfolding sell_listing
  sell_listing-paid_tables info row live t other pays takes_some =
      rw (other, pays, take_stock-taken_rows info row live t.listings takes_some) refl
