-- ===== src/AuctionService/Atomic.antt =====
-- `Purchase` of AuctionServer/AuctionService.cpp as a transaction: what other connections see
-- changes by the whole purchase or not at all.
use j1_server.Prelude.{ℕ, zero, suc, ◌+◌, ◌≡◌, refl, sym, ◌∙◌, ◌⊎◌, inl, inr, Bool, true, false}
use j1_server.Prelude.Int.{ℤ, pos}
use j1_server.Cache.Contents.{AuctionItemInfo}
use j1_server.Sql.{Result, ok, throws, is_ok, Connection}
use j1_server.Sql.Transactions.{Views, IsTransactional}
use j1_server.AuctionService.{
  PurchaseResult, try_purchase, safe_rollback, safe_restore_auto_commit, is_retry, settle,
  purchase_loop, purchase, max_tx_attempts,
}
use j1_server.AuctionService.Transaction.{transaction, Published, try_purchase_publishes}

module _ (c : Connection) (v : Views c) (laws : IsTransactional c v) where
  open c use {State, set_auto_commit, commit, rollback, execute_query, execute_update}
  open v use {committed, working}
  open laws use {IsOpen}

  -- All of one transaction that begins in a state as `Start` says, where the tables are as in `s`, or
  -- nothing.
  abbrev pub AllOrNothingFrom :
      (State → Type 0) → AuctionItemInfo → State → PurchaseResult × State → Type 0
  AllOrNothingFrom Start info s r =
      ((r.0.success ≡ false) × (committed r.1 ≡ committed s))
      ⊎ ((r.0.success ≡ true)
          × ((s0 : State) × Start s0
              × IsOpen (set_auto_commit false s0).1
              × (committed s0 ≡ committed s)
              × ((transaction c v laws info s0).0 ≡ ok tt)
              × (committed r.1 ≡ working (transaction c v laws info s0).1.0)
              × (r.0.total_price ≡ (transaction c v laws info s0).1.1)))

  -- Nothing is pending: this connection sees what the others see.
  abbrev pub IsSettled : State → Type 0
  IsSettled s = working s ≡ committed s

  -- The same of a transaction that begins in any state.
  abbrev pub AllOrNothing : AuctionItemInfo → State → PurchaseResult × State → Type 0
  AllOrNothing info s r =
      ((r.0.success ≡ false) × (committed r.1 ≡ committed s))
      ⊎ ((r.0.success ≡ true)
          × ((s0 : State) × (committed s0 ≡ committed s)
              × ((transaction c v laws info s0).0 ≡ ok tt)
              × (committed r.1 ≡ working (transaction c v laws info s0).1.0)
              × (r.0.total_price ≡ (transaction c v laws info s0).1.1)))

  AllOrNothing-any :
      (info : AuctionItemInfo) (s : State) (r : PurchaseResult × State)
      → AllOrNothingFrom (λ _. Unit) info s r
      → AllOrNothing info s r
  AllOrNothing-any info s r (inl failed) = inl failed
  AllOrNothing-any info s r (inr (won, (s0, _, _, same, done, shown, charged))) =
      inr (won, (s0, same, done, shown, charged))

  module _ (rolls_back : (t : State) → is_ok (rollback t).0 ≡ true) where
    pub restored :
        (s : State)
        → let t = safe_restore_auto_commit c (safe_rollback c s) in
          (committed t ≡ committed s) × IsSettled t
    unfolding safe_rollback safe_restore_auto_commit
    restored s =
        let (same, dropped) = laws.rollback_law s in
        let (shown, kept) = laws.auto_law (rollback s).1 (dropped (rolls_back s) ∙ sym same) in
        (shown ∙ same, kept ∙ sym shown)

    AllOrNothing-from :
        (Start : State → Type 0) (info : AuctionItemInfo) (s t : State) (r : PurchaseResult × State)
        → committed t ≡ committed s
        → AllOrNothingFrom Start info t r
        → AllOrNothingFrom Start info s r
    AllOrNothing-from Start info s t r e (inl (failed, same)) = inl (failed, same ∙ e)
    AllOrNothing-from Start info s t r e (inr (won, (s0, start, began, same, r1, r2, r3))) =
        inr (won, (s0, start, began, same ∙ e, r1, r2, r3))

    module _ (Start : State → Type 0) (starts : (t : State) → IsSettled t → Start t) where
      settle-AllOrNothing :
          (again : PurchaseResult → State → PurchaseResult × State) (attempt : ℕ)
          (info : AuctionItemInfo) (s : State) (outcome : Result (Unit {0})) (s1 : State)
          (total : ℤ)
          → Start s
          → Published c v laws info s outcome (s1, total)
          → ((r : PurchaseResult) (t : State)
              → r.success ≡ false
              → Start t
              → AllOrNothingFrom Start info t (again r t))
          → AllOrNothingFrom Start info s (settle c again attempt outcome (s1, total))
      unfolding settle safe_restore_auto_commit
      settle-AllOrNothing again attempt info s (ok _) s1 total start
            (began, done, shown, kept, charged) next =
          inr (
            refl,
            (s, start, began, refl, done, (laws.auto_law s1 (kept ∙ sym shown)).0 ∙ shown, charged),
          )
      settle-AllOrNothing again attempt info s (throws code) s1 total start same next =
          go (is_retry c code attempt)
        where
          s2 : State
          s2 = (set_auto_commit true (safe_rollback c s1)).1

          failed : PurchaseResult
          failed = record { success = false; total_price = total }

          go :
              (b : Bool)
              → AllOrNothingFrom Start info s
                  (elim b [ true ↦ again failed s2 | false ↦ (failed, s2) ])
          go true =
              AllOrNothing-from Start info s s2 (again failed s2) ((restored s1).0 ∙ same)
                (next failed s2 refl (starts s2 (restored s1).1))
          go false = inl (refl, (restored s1).0 ∙ same)

      purchase_loop-AllOrNothing :
          (fuel attempt : ℕ) (info : AuctionItemInfo) (result : PurchaseResult) (s : State)
          → result.success ≡ false
          → Start s
          → AllOrNothingFrom Start info s (purchase_loop c fuel attempt info result s)
      unfolding purchase_loop
      purchase_loop-AllOrNothing zero attempt info result s h start = inl (h, refl)
      purchase_loop-AllOrNothing (suc fuel) attempt info result s h start =
          settle-AllOrNothing (purchase_loop c fuel (attempt + 1) info) attempt info s
            (try_purchase c info (s, pos 0)).0 (try_purchase c info (s, pos 0)).1.0
            (try_purchase c info (s, pos 0)).1.1 start (try_purchase_publishes c v laws info s)
            (λ r t. purchase_loop-AllOrNothing fuel (attempt + 1) info r t)

      pub purchase_from :
          (info : AuctionItemInfo) (s : State)
          → Start s
          → AllOrNothingFrom Start info s (purchase c info s)
      unfolding purchase
      purchase_from info s start =
          purchase_loop-AllOrNothing max_tx_attempts 1 info
            (record { success = false; total_price = pos 0 }) s refl start

    -- On a connection that keeps the documented laws of transactions, and whose rollbacks return: a
    -- purchase that fails, after however many attempts and at whatever statement, leaves the tables
    -- that others see as they were; one that succeeds leaves them as one whole transaction does
    -- that began on those tables and threw nowhere, and reports that transaction's price.
    pub purchase-AllOrNothing :
        (info : AuctionItemInfo) (s : State) → AllOrNothing info s (purchase c info s)
    purchase-AllOrNothing info s =
        AllOrNothing-any info s (purchase c info s)
          (purchase_from (λ _. Unit) (λ _ _. tt) info s tt)
