-- ===== src/Market/Precheck.antt =====
-- The purchase precheck of GameServer/Utils/AuctionCache.cpp against the tables that
-- AuctionServer/AuctionService.cpp sells from: a request that is rejected would have failed there.
use mathlib.Core.Path.{subst}
use j1_server.Prelude.{
  ℕ, ◌-◌, ltb, Bool, if◌then◌else◌, ◌≡◌, refl, sym, ◌∙◌, inl, inr, true, false, some, List, map,
  arith, Bool-cases, Option-cases, take,
}
use j1_server.Prelude.Int.{ℤ, pos, ◌≤ℤ◌, eq_ℤ, ltb_ℤ}
use j1_server.Cache.Contents.{AuctionItemInfo, Client}
use j1_server.Cache.{
  Cache, Verdict, pass, unknown, reject_not_found, reject_shortage, reject_own, stale_limit,
  finish_refresh, validate_purchase,
}
use j1_server.Handlers.Game.{is_rejected}
use j1_server.Cache.Verdicts.{
  find_item, is_above, expected, rejects, validate_purchase-finish_refresh,
}
use j1_server.Sql.{Row, listings, Result, ok, throws, is_ok, Connection}
use j1_server.Sql.Transactions.{Views, IsTransactional}
use j1_server.AuctionService.{listing_item, get_listings, purchase}
use j1_server.Market.{Listing, Tables, sell}
use j1_server.Market.Store.{IsStore, lives}
use j1_server.Market.Sold.{sell-Sold}
use j1_server.Market.Stock.{IsStocked, stock_of-find_live, sell-stock_of}
use j1_server.Market.Sale.{purchase-sell}
use j1_server.Market.Listed.{
  IsBelow, IsOrdered, Lists, ShowsAll-Lists, find_item-some, find_item-none, not_positive,
}

-- The rows are in the order of their key, which counts from 1, and have something left.
abbrev pub IsKeyed : List Listing → Type 0
IsKeyed ls = IsStocked ls × IsOrdered ls × IsBelow (pos 0) ls

-- The verdict of a snapshot that is fresh or not: a rejection is one of the items.
is_rejected-rejects :
    (fresh : Bool) (v w : Verdict)
    → (if fresh then v else unknown) ≡ w
    → is_rejected w ≡ true
    → rejects v ≡ true
unfolding is_rejected
is_rejected-rejects false v w e rejected = cc (rw (← e) at rejected)
is_rejected-rejects true v w e rejected = rejected_alike v (rw (← e) at rejected)
  where
    rejected_alike : (x : Verdict) → is_rejected x ≡ true → rejects x ≡ true
    rejected_alike pass h = h
    rejected_alike unknown h = h
    rejected_alike reject_not_found h = h
    rejected_alike reject_shortage h = h
    rejected_alike reject_own h = h

-- A request that the listed items reject cannot be sold.
rejects-sell :
    (info : AuctionItemInfo) (t t' : Tables) (total : ℤ) (items : List AuctionItemInfo)
    → IsKeyed t.listings
    → Lists (take 100 (lives t.listings)) items
    → rejects (expected info.list_id info.count info.player_id items) ≡ true
    → sell info t ≡ some (total, t')
    → ⊥
unfolding expected
rejects-sell info t t' total items (stocked, ordered, positive) shown rejected e =
    let sale = sell-Sold info t total t' e in
    let id = info.list_id in
    elim (Option-cases (find_item id items)) [
      | inl missing ↦ elim (Bool-cases (ltb_ℤ (pos 0) id)) [
        | inl above ↦
            let low : is_above id items ≡ false = ground (arith, missing, above) in
            let gone = find_item-none 100 id t.listings items ordered shown missing low in
            cc (gone, sale.found)
        | inr below ↦ let gone = not_positive id t.listings below positive in cc (gone, sale.found)
      ]
      | inr (item, listed) ↦
          let (l, found, seller, left) = find_item-some 100 id t.listings items item shown listed in
          let same : sale.listing ≡ l = cc (sale.found, found) in
          let other : eq_ℤ item.player_id info.player_id ≡ false =
            rw (seller, ← same) (sale.other) in
          let (_, all) = stock_of-find_live id t.listings l stocked found in
          let (_, _, enough) = sell-stock_of info t t' total id stocked e in
          let enough' : info.count ≤ℤ item.count = rw (left, ← all) enough in
          ground (arith, listed, other, enough', sale.positive)
    ]

module _ (c : Connection) (v : Views c) (laws : IsTransactional c v)
    (store : IsStore c v laws) where
  -- A request that the search of the items of a list rejects cannot be bought from the same tables.
  purchase-expected :
      ((t : c.State) → is_ok (c.rollback t).0 ≡ true)
      → (info : AuctionItemInfo) (s s' : c.State) (player_id : ℤ) (items : List AuctionItemInfo)
      → v.working s ≡ v.committed s
      → v.working s' ≡ v.committed s'
      → v.committed s' ≡ v.committed s
      → IsKeyed (store.read (v.committed s)).listings
      → (get_listings c false player_id s).0 ≡ ok items
      → rejects (expected info.list_id info.count info.player_id items) ≡ true
      → ((purchase c info s').0.success ≡ false)
        × (v.committed (purchase c info s').1 ≡ v.committed s')
  unfolding get_listings
  purchase-expected rolls_back info s s' player_id items settled settled' same keyed listed
        rejected =
      elim (purchase-sell c v laws store rolls_back info s' settled') [
        | inl failed ↦ failed
        | inr (won, sold) ↦
            let t = store.read (v.committed s') in
            let keyed' : IsKeyed t.listings =
              subst (λ x. IsKeyed (store.read x).listings) (sym same) keyed in
            absurd (
              rejects-sell info t _ _ items keyed'
                (subst (λ x. Lists (take 100 (lives (store.read x).listings)) items)
                  (settled ∙ sym same) (lists (c.execute_query listings s).0 refl listed))
                rejected sold)
      ]
    where
      lists :
          (r : Result (List Row))
          → (c.execute_query listings s).0 ≡ r
          → (elim r as (λ _. Result (List AuctionItemInfo)) [
            | ok rows ↦ ok (map listing_item rows)
            | throws e ↦ throws e
          ])
            ≡ ok items
          → Lists (take 100 (lives (store.read (v.working s)).listings)) items
      lists (throws e) answered h = cc h
      lists (ok rows) answered h =
          let got : map listing_item rows ≡ items = cc h in
          let all = (lives (store.read (v.working s)).listings) in
          subst (Lists (take 100 all)) got
            (ShowsAll-Lists (take 100 all) rows (store.list_law s rows settled answered))

  -- The precheck costs no sale where the tables are still those that the list was read from. On a
  -- connection to the tables of the auction whose rollbacks return, where the listings are in the order of
  -- their ids, which count from 1, and none is empty: let `GetListings` return `items` on a state with
  -- nothing pending, and the cache finish a refresh with them. A request whose verdict by
  -- `ValidatePurchase` on that cache is a rejection, whenever it is asked for, then fails in
  -- `Purchase` too, on any state with nothing pending in which others still see the same tables,
  -- and changes nothing.
  pub purchase-validate_purchase :
      ((t : c.State) → is_ok (c.rollback t).0 ≡ true)
      → (client : Client) (fetched_at now arm_now later : ℕ) (cache cache' : Cache)
        (verdict : Verdict) (info : AuctionItemInfo) (s s' : c.State) (player_id : ℤ)
        (items : List AuctionItemInfo)
      → v.working s ≡ v.committed s
      → v.working s' ≡ v.committed s'
      → v.committed s' ≡ v.committed s
      → IsKeyed (store.read (v.committed s)).listings
      → (get_listings c false player_id s).0 ≡ ok items
      → validate_purchase later info.list_id info.count info.player_id
          (finish_refresh client fetched_at now arm_now items cache).0
        ≡ some (cache', verdict)
      → is_rejected verdict ≡ true
      → ((purchase c info s').0.success ≡ false)
        × (v.committed (purchase c info s').1 ≡ v.committed s')
  purchase-validate_purchase rolls_back client fetched_at now arm_now later cache cache' verdict
        info s s' player_id items settled settled' same keyed listed judged rejected =
      let answered =
        sym (
          validate_purchase-finish_refresh client fetched_at now arm_now later items cache
            info.list_id info.count info.player_id)
        ∙ judged in
      purchase-expected rolls_back info s s' player_id items settled settled' same keyed listed (
        is_rejected-rejects (ltb (later - fetched_at) stale_limit)
          (expected info.list_id info.count info.player_id items) verdict (cc answered) rejected)
