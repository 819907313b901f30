-- ===== src/AuctionService/Attempts.antt =====
-- The retries of `Purchase` in AuctionServer/AuctionService.cpp: at most `kMaxTxAttempts` attempts.
use j1_server.Prelude.{ℕ, zero, suc, ◌+◌, ◌-◌, ◌≤◌, ◌<◌, ◌≡◌, refl, Bool, true, false, arith}
use j1_server.Prelude.Int.{ℤ, pos}
use j1_server.Cache.Contents.{AuctionItemInfo}
use j1_server.Sql.{Result, ok, throws, Connection}
use j1_server.AuctionService.{
  PurchaseResult, safe_rollback, safe_restore_auto_commit, is_retry, settle, try_purchase,
  purchase_loop, purchase, max_tx_attempts,
}

module _ (c : Connection) where
  open c use {State}

  is_retry-lt : (code attempt : ℕ) → is_retry c code attempt ≡ true → attempt < 3
  unfolding is_retry
  is_retry-lt code attempt h = ground arith

  settle_cong :
      (again again' : PurchaseResult → State → PurchaseResult × State) (attempt : ℕ)
      (outcome : Result (Unit {0})) (s : State × ℤ)
      → ((r : PurchaseResult) (t : State) → attempt < 3 → again r t ≡ again' r t)
      → settle c again attempt outcome s ≡ settle c again' attempt outcome s
  unfolding settle
  settle_cong again again' attempt (ok _) s h = refl
  settle_cong again again' attempt (throws code) (s, total) h =
      go (is_retry c code attempt) (is_retry-lt code attempt)
    where
      t : State
      t = safe_restore_auto_commit c (safe_rollback c s)

      failed : PurchaseResult
      failed = record { success = false; total_price = total }

      go :
          (b : Bool)
          → (b ≡ true → attempt < 3)
          → (let r : PurchaseResult × State = elim b [
            | true ↦ again failed t
            | false ↦ (failed, t)
          ] in
              r)
            ≡ elim b [ true ↦ again' failed t | false ↦ (failed, t) ]
      go true lt = h failed t (lt refl)
      go false lt = refl

  purchase_loop_enough :
      (fuel fuel' attempt : ℕ) (info : AuctionItemInfo) (result : PurchaseResult) (s : State)
      → 3 - attempt < fuel
      → 3 - attempt < fuel'
      → purchase_loop c fuel attempt info result s ≡ purchase_loop c fuel' attempt info result s
  unfolding purchase_loop
  purchase_loop_enough zero fuel' attempt info result s h h' = absurd (omega arith)
  purchase_loop_enough (suc fuel) zero attempt info result s h h' = absurd (omega arith)
  purchase_loop_enough (suc fuel) (suc fuel') attempt info result s h h' =
      settle_cong (purchase_loop c fuel (attempt + 1) info)
        (purchase_loop c fuel' (attempt + 1) info) attempt (try_purchase c info (s, pos 0)).0
        (try_purchase c info (s, pos 0)).1
        (λ r t lt.
          purchase_loop_enough fuel fuel' (attempt + 1) info r t (omega arith) (omega arith))

  -- `Purchase` stops by itself within three attempts, whatever errors the connection throws: a loop
  -- that were allowed any larger number of attempts would return the same and leave the connection
  -- the same.
  pub purchase_loop-purchase :
      (fuel : ℕ) (info : AuctionItemInfo) (s : State)
      → max_tx_attempts ≤ fuel
      → purchase_loop c fuel 1 info (record { success = false; total_price = pos 0 }) s
        ≡ purchase c info s
  unfolding purchase
  purchase_loop-purchase fuel info s h =
      purchase_loop_enough fuel 3 1 info (record { success = false; total_price = pos 0 }) s
        (omega arith) (omega arith)
