-- ===== src/AuctionService/Settled.antt =====
-- The connection after `Purchase` of AuctionServer/AuctionService.cpp: nothing is left pending on it.
use j1_server.Prelude.{ℕ, zero, suc, ◌+◌, ◌≡◌, sym, ◌∙◌, Bool, true, false}
use j1_server.Prelude.Int.{ℤ, pos}
use j1_server.Cache.Contents.{AuctionItemInfo}
use j1_server.Sql.{Result, ok, throws, is_ok, Connection}
use j1_server.Sql.Transactions.{Views, IsTransactional}
use j1_server.AuctionService.{
  PurchaseResult, try_purchase, safe_rollback, safe_restore_auto_commit, is_retry, settle,
  purchase_loop, purchase, max_tx_attempts,
}
use j1_server.AuctionService.Transaction.{Published, try_purchase_publishes}
use j1_server.AuctionService.Atomic.{IsSettled, restored}

module _ (c : Connection) (v : Views c) (laws : IsTransactional c v)
    (rolls_back : (t : c.State) → is_ok (c.rollback t).0 ≡ true) where
  open c use {State, set_auto_commit}

  settle-IsSettled :
      (again : PurchaseResult → State → PurchaseResult × State) (attempt : ℕ)
      (info : AuctionItemInfo) (s : State) (outcome : Result (Unit {0})) (s1 : State) (total : ℤ)
      → Published c v laws info s outcome (s1, total)
      → ((r : PurchaseResult) (t : State) → IsSettled c v laws t → IsSettled c v laws (again r t).1)
      → IsSettled c v laws (settle c again attempt outcome (s1, total)).1
  unfolding settle safe_restore_auto_commit
  settle-IsSettled again attempt info s (ok _) s1 total (began, done, shown, kept, charged) next =
      let (same, left) = laws.auto_law s1 (kept ∙ sym shown) in left ∙ sym same
  settle-IsSettled again attempt info s (throws code) s1 total same next =
      go (is_retry c code attempt)
    where
      s2 : State
      s2 = (set_auto_commit true (safe_rollback c s1)).1

      failed : PurchaseResult
      failed = record { success = false; total_price = total }

      go :
          (b : Bool)
          → IsSettled c v laws
              (elim b as (λ _. PurchaseResult × State) [
                | true ↦ again failed s2
                | false ↦ (failed, s2)
              ]).1
      go true = next failed s2 (restored c v laws rolls_back s1).1
      go false = (restored c v laws rolls_back s1).1

  purchase_loop-IsSettled :
      (fuel attempt : ℕ) (info : AuctionItemInfo) (result : PurchaseResult) (s : State)
      → IsSettled c v laws s
      → IsSettled c v laws (purchase_loop c fuel attempt info result s).1
  unfolding purchase_loop
  purchase_loop-IsSettled zero attempt info result s settled = settled
  purchase_loop-IsSettled (suc fuel) attempt info result s settled =
      settle-IsSettled (purchase_loop c fuel (attempt + 1) info) attempt info s
        (try_purchase c info (s, pos 0)).0 (try_purchase c info (s, pos 0)).1.0
        (try_purchase c info (s, pos 0)).1.1 (try_purchase_publishes c v laws info s)
        (λ r t. purchase_loop-IsSettled fuel (attempt + 1) info r t)

  -- Nothing is pending after a purchase, whether it succeeds or fails.
  pub purchase-IsSettled :
      (info : AuctionItemInfo) (s : State)
      → IsSettled c v laws s
      → IsSettled c v laws (purchase c info s).1
  unfolding purchase
  purchase-IsSettled info s settled =
      purchase_loop-IsSettled max_tx_attempts 1 info
        (record { success = false; total_price = pos 0 }) s settled
