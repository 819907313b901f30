-- ===== src/Market/Decided.antt =====
-- `Purchase` of AuctionServer/AuctionService.cpp where no statement throws: it does what the one step `sell`
-- says, and succeeds exactly where that is possible.
use j1_server.Prelude.{◌≡◌, ap, ◌∙◌, ◌⊎◌, inl, inr, true, false, none, some, Option-cases}
use j1_server.Prelude.Int.{pos}
use j1_server.Cache.Contents.{AuctionItemInfo}
use j1_server.Sql.{ok, is_ok, Connection}
use j1_server.Sql.Transactions.{Views, IsTransactional}
use j1_server.AuctionService.{try_purchase, settle, purchase_loop, purchase}
use j1_server.Market.{sell}
use j1_server.Market.Store.{IsStore}
use j1_server.Market.Sale.{purchase-sell}
use j1_server.Market.Healthy.{IsHealthy, try_purchase-runs}

module _ (c : Connection) (v : Views c) (laws : IsTransactional c v)
    (store : IsStore c v laws) where
  open c use {State, rollback, set_auto_commit}
  open v use {working, committed}

  -- A first attempt that returns is a success.
  first_attempt :
      (info : AuctionItemInfo) (s : State)
      → (try_purchase c info (s, pos 0)).0 ≡ ok tt
      → (purchase c info s).0.success ≡ true
  unfolding purchase purchase_loop settle
  first_attempt info s e =
      ap
        (λ r.
          (settle c (purchase_loop c 2 2 info) 1 r (try_purchase c info (s, pos 0)).1).0.success)
        e

  -- On a connection to the tables of the auction on which no statement throws and nothing is pending: where
  -- `sell` is possible, the purchase succeeds with its price, and leaves the tables that it says; where
  -- it is not, the purchase fails and changes nothing.
  pub purchase-sell_healthy :
      IsHealthy c v laws
      → ((t : State) → is_ok (rollback t).0 ≡ true)
      → (info : AuctionItemInfo) (s : State) → working s ≡ committed s
      → let (result, s') = purchase c info s in
        ((sell info (store.read (committed s)) ≡ none)
          × (result.success ≡ false)
          × (committed s' ≡ committed s))
        ⊎ ((result.success ≡ true)
            × (sell info (store.read (committed s))
                ≡ some (result.total_price, store.read (committed s'))))
  purchase-sell_healthy healthy rolls_back info s settled =
      elim (purchase-sell c v laws store rolls_back info s settled) [
        | inr done ↦ inr done
        | inl (failed, same) ↦ elim (Option-cases (sell info (store.read (committed s)))) [
          | inl never ↦ inl (never, failed, same)
          | inr ((total, t'), can) ↦
              let start = ap store.read ((laws.begin_law s).1 ∙ settled) in
              let won = first_attempt info s (
                try_purchase-runs c v laws store healthy info s total t'
                  (ap (sell info) start ∙ can)) in
              cc (failed, won)
        ]
      ]
