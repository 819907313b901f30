-- ===== src/Market/Healthy.antt =====
-- `TryPurchase` of AuctionServer/AuctionService.cpp on a connection on which no statement throws: a sale that
-- is possible is made.
use mathlib.Core.Path.{subst}
use j1_server.Prelude.{
  ℕ, ◌≡◌, refl, sym, ap, ◌∙◌, inl, inr, Bool, true, false, Bool-cases, ◌&&◌, not, none, some, List,
  [], ◌∷◌, ◌==◌, if◌then◌else◌, arith,
}
use j1_server.Prelude.Int.{ℤ, pos, eq_ℤ, eq_ℤ_iff, leb_ℤ}
use j1_server.Cache.Contents.{AuctionItemInfo}
use j1_server.Sql.{
  Row, Query, item_id, price, seller_id, remaining_quantity, Update, debit_gold, insert_transaction,
  insert_receipts, check_listing, ok, Connection,
}
use j1_server.Sql.Transactions.{Views, IsTransactional}
use j1_server.AuctionService.{
  Action, ◌>>=◌, ◌>>◌, resume, on_connection, throw_if, first_row, set_total_price, mul_int64,
  take_quantity, pay_and_record, prepare_purchase, try_purchase,
}
use j1_server.Market.{Listing, Tables, find_live, debit, remove, reduce, apply_update, sell}
use j1_server.Market.Store.{IsStore, Shows}
use j1_server.Market.Payment.{view, taken_rows, takes, apply_update-debit, apply_update-takes}
use j1_server.Market.Sold.{sell-Sold}

-- Where a transaction has begun, statements return, and so do its begin and its commit.
pub record IsHealthy (c : Connection) (v : Views c) (laws : IsTransactional c v) : Type 0 where
  pub begins : (s : c.State) → (c.set_auto_commit false s).0 ≡ ok tt
  pub queries :
      (q : Query) (s : c.State)
      → laws.IsOpen s
      → (rows : List Row) × ((c.execute_query q s).0 ≡ ok rows)
  pub updates :
      (u : Update) (s : c.State) → laws.IsOpen s → (n : ℕ) × ((c.execute_update u s).0 ≡ ok n)
  pub commits : (s : c.State) → laws.IsOpen s → (c.commit s).0 ≡ ok tt

find_live_id :
    (id : ℤ) (ls : List Listing) (l : Listing) → find_live id ls ≡ some l → l.listing_id ≡ id
find_live_id id [] l e = cc e
find_live_id id (x ∷ ls) l e = elim (Bool-cases (eq_ℤ x.listing_id id && x.live)) [
  | inl here ↦
      let same : some x ≡ some l = rw here at e in
      let same' : x ≡ l = cc same in
      ap (λ (y : Listing). y.listing_id) (sym same')
      ∙ (eq_ℤ_iff x.listing_id id).0 (ground (arith, here))
  | inr other ↦ find_live_id id ls l (rw other at e)
]

some_rows : {A : Type 0} (b : Bool) (x y : A) → (if b then none else some x) ≡ some y → b ≡ false
some_rows true x y e = cc e
some_rows false x y e = refl

module _ (c : Connection) (v : Views c) (laws : IsTransactional c v) (store : IsStore c v laws)
    (healthy : IsHealthy c v laws) where
  open c use {State, execute_query, execute_update, set_auto_commit, commit}
  open v use {working}
  open laws use {IsOpen}

  runs :
      {A B : Type 0} (m : Action c A) (f : A → Action c B) (st : State × ℤ) (a : A)
      → (m st).0 ≡ ok a
      → ◌>>=◌ c m f st ≡ f a (m st).1
  unfolding ◌>>=◌
  runs m f st a e = ap (λ r. resume c f r (m st).1) e

  passes :
      {B : Type 0} (b : Bool) (k : Action c B) (st : State × ℤ)
      → b ≡ false
      → ◌>>◌ c (throw_if c b) k st ≡ k st
  unfolding ◌>>=◌ ◌>>◌ throw_if
  passes b k st e = ap (λ x. ◌>>◌ c (throw_if c x) k st) e

  -- A statement on an open transaction.
  update-runs :
      (u : Update) (st : State × ℤ) (m : ℕ) (t : Tables)
      → IsOpen st.0
      → apply_update u (view c v laws store st.0) ≡ some (m, t)
      → let r = on_connection c (execute_update u) st in
        (n : ℕ) × (r.0 ≡ ok n) × (n ≡ m) × (view c v laws store r.1.0 ≡ t) × IsOpen r.1.0
  unfolding on_connection
  update-runs u st m t o does =
      let (n, e) = healthy.updates u st.0 o in
      let (same, now) = store.update_law u st.0 n m t o e does in
      (n, e, same, now, (laws.update_law u st.0 o).0)

  -- With the test of its count of rows, in front of the rest `k`.
  checked-runs :
      (u : Update) (test : ℕ → Bool) (k : Action c (Unit {0})) (st : State × ℤ) (m : ℕ) (t : Tables)
      → IsOpen st.0
      → apply_update u (view c v laws store st.0) ≡ some (m, t)
      → test m ≡ false
      → (st' : State × ℤ) × (view c v laws store st'.0 ≡ t)
        × IsOpen st'.0
        × (◌>>=◌ c (on_connection c (execute_update u)) (λ n. ◌>>◌ c (throw_if c (test n)) k) st
            ≡ k st')
  checked-runs u test k st m t o does passed =
      let (n, e, same, now, o1) = update-runs u st m t o does in
      let st' = (on_connection c (execute_update u) st).1 in
      (
        st',
        now,
        o1,
        runs (on_connection c (execute_update u)) (λ x. ◌>>◌ c (throw_if c (test x)) k) st n e
            ∙ passes (test n) k st' (ap test same ∙ passed),
      )

  checked_last-runs :
      (u : Update) (test : ℕ → Bool) (st : State × ℤ) (m : ℕ) (t : Tables)
      → IsOpen st.0
      → apply_update u (view c v laws store st.0) ≡ some (m, t)
      → test m ≡ false
      → (st' : State × ℤ) × IsOpen st'.0
        × (◌>>=◌ c (on_connection c (execute_update u)) (λ n. throw_if c (test n)) st
            ≡ (ok tt, st'))
  unfolding throw_if
  checked_last-runs u test st m t o does passed =
      let (n, e, same, now, o1) = update-runs u st m t o does in
      let st' = (on_connection c (execute_update u) st).1 in
      (
        st',
        o1,
        runs (on_connection c (execute_update u)) (λ x. throw_if c (test x)) st n e
            ∙ ap (λ b. throw_if c b st') (ap test same ∙ passed),
      )

  pay_and_record-runs :
      (info : AuctionItemInfo) (total : ℤ) (row : Row) (st : State × ℤ)
      → IsOpen st.0
      → let t = view c v laws store st.0 in
        ((debit info.player_id total t.characters).0 == 0) ≡ false
        → ((taken_rows c v laws store (row.int_of remaining_quantity) info t.listings).0 == 0)
          ≡ false
        → (st' : State × ℤ) × IsOpen st'.0 × (pay_and_record c info total row st ≡ (ok tt, st'))
  unfolding pay_and_record take_quantity apply_update
  pay_and_record-runs info total row st o pays taken =
      let t = view c v laws store st.0 in
      let left = row.int_of remaining_quantity in
      let t1 : Tables = record t { characters = (debit info.player_id total t.characters).1 } in
      let trade = insert_transaction (row.int_of item_id) info.count total in
      let receipts =
        insert_receipts info.player_id (row.int_of item_id) info.count info.list_id
          (row.int_of seller_id) total info.list_id in
      let k3 : Action c (Unit {0}) =
        ◌>>=◌ c (on_connection c (execute_update receipts)) (λ n. throw_if c (not (n == 2))) in
      let k2 : Action c (Unit {0}) =
        ◌>>=◌ c (on_connection c (execute_update trade)) (λ n. ◌>>◌ c (throw_if c (n == 0)) k3) in
      let k1 : Action c (Unit {0}) =
        ◌>>=◌ c (on_connection c (execute_update (takes c v laws store left info)))
          (λ n. ◌>>◌ c (throw_if c (n == 0)) k2) in
      let (st1, v1, o1, r1) =
        checked-runs (debit_gold total info.player_id total) (λ n. n == 0) k1 st _ _ o
          (apply_update-debit c v laws store total info.player_id t) pays in
      let (st2, v2, o2, r2) =
        checked-runs (takes c v laws store left info) (λ n. n == 0) k2 st1 _ _ o1
          (ap (apply_update (takes c v laws store left info)) v1
            ∙ apply_update-takes c v laws store left info t1)
          taken in
      let (st3, v3, o3, r3) =
        checked-runs trade (λ n. n == 0) k3 st2 1 _ o2 (ap (apply_update trade) v2) refl in
      let (st4, o4, r4) =
        checked_last-runs receipts (λ n. not (n == 2)) st3 2 _ o3 (ap (apply_update receipts) v3)
          refl in
      (st4, o4, r1 ∙ r2 ∙ r3 ∙ r4)

  -- The listing that is sold, in the row that the query shows.
  prepare_purchase-runs :
      (info : AuctionItemInfo) (st : State × ℤ) (total : ℤ) (t' : Tables)
      → IsOpen st.0
      → sell info (view c v laws store st.0) ≡ some (total, t')
      → (st' : State × ℤ) × IsOpen st'.0 × (prepare_purchase c info st ≡ (ok tt, st'))
  unfolding prepare_purchase on_connection set_total_price first_row ◌>>◌ ◌>>=◌
  prepare_purchase-runs info st total t' o e =
      let t = view c v laws store st.0 in
      let sale = sell-Sold info t total t' e in
      let (rows, answered) = healthy.queries (check_listing info.list_id) st.0 o in
      let (shows, kept) = store.check_law info.list_id st.0 rows o answered in
      let (row, rest, first, seller, item, left, cost) =
        subst (λ l. Shows l rows) sale.found shows in
      let ask = on_connection c (execute_query (check_listing info.list_id)) in
      let st1 = (ask st).1 in
      let cost_of : Row → ℤ = λ r. mul_int64 (r.int_of price) info.count in
      let after : Row → Action c (Unit {0}) = λ r. ◌>>◌ c (set_total_price c (cost_of r)) (
        ◌>>◌ c (throw_if c (eq_ℤ (r.int_of seller_id) info.player_id))
          (pay_and_record c info (cost_of r) r)) in
      let go : List Row → Action c (Unit {0}) = λ rs. ◌>>=◌ c (first_row c rs) after in
      let now : view c v laws store st1.0 ≡ t = ap store.read kept in
      let charged : cost_of row ≡ total = ap (λ z. mul_int64 z info.count) cost ∙ sym sale.price in
      let named = sym (find_live_id info.list_id t.listings sale.listing sale.found) in
      let pays : ((debit info.player_id (cost_of row) (view c v laws store st1.0).characters).0
            == 0)
          ≡ false =
        (λ i. (debit info.player_id (charged i) (now i).characters).0 == 0) ∙ sale.pays in
      let taken =
        (λ i.
          (if eq_ℤ (left i) info.count
            then remove (named i) (now i).listings
            else reduce (named i) info.count (now i).listings).0
          == 0)
        ∙ some_rows _ _ t'.listings sale.stock in
      let (st', o', paid) =
        pay_and_record-runs info (cost_of row) row (st1.0, cost_of row)
          (laws.query_law (check_listing info.list_id) st.0 o).0 pays taken in
      (
        st',
        o',
        passes (leb_ℤ info.count (pos 0)) (◌>>=◌ c ask go) st sale.positive
            ∙ runs ask go st rows answered
            ∙ ap (λ rs. go rs st1) first
            ∙ runs (first_row c (row ∷ rest)) after st1 row refl
            ∙ passes (eq_ℤ (row.int_of seller_id) info.player_id)
                (pay_and_record c info (cost_of row) row) (st1.0, cost_of row)
                (ap (λ z. eq_ℤ z info.player_id) seller ∙ sale.other)
            ∙ paid,
      )

  pub try_purchase-runs :
      (info : AuctionItemInfo) (s : State) (total : ℤ) (t' : Tables)
      → sell info (view c v laws store (set_auto_commit false s).1) ≡ some (total, t')
      → (try_purchase c info (s, pos 0)).0 ≡ ok tt
  unfolding try_purchase on_connection ◌>>◌ ◌>>=◌
  try_purchase-runs info s total t' e =
      let begin = on_connection c (set_auto_commit false) in
      let st0 = (begin (s, pos 0)).1 in
      let opened = laws.begin_open s (healthy.begins s) in
      let (st, o, prepared) = prepare_purchase-runs info st0 total t' opened e in
      let rest : Action c (Unit {0}) = on_connection c commit in
      ap (λ x. x.0)
        (runs begin (λ _. ◌>>◌ c (prepare_purchase c info) rest) (s, pos 0) tt (healthy.begins s)
          ∙ runs (prepare_purchase c info) (λ _. rest) st0 tt (ap (λ x. x.0) prepared))
      ∙ ap (λ (x : State × ℤ). (rest x).0) (ap (λ x. x.1) prepared)
      ∙ healthy.commits st.0 o
