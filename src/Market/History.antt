-- ===== src/Market/History.antt =====
-- Any number of purchases of AuctionServer/AuctionService.cpp, one after another on the connection of the
-- writer to which a listing leads, while other connections work on other listings.
use j1_server.Prelude.{
  ℕ, ◌+◌, ◌≤◌, ◌≡◌, ap, ◌∙◌, inl, inr, Bool, true, false, Bool-cases, ◌&&◌, some, arith,
  if◌then◌else◌,
}
use j1_server.Prelude.Int.{ℤ, pos, negsuc, pos_part, ◌-ℤ◌, ◌≤ℤ◌, eq_ℤ, eq_ℤ_iff, leb_ℤ}
use j1_server.Cache.Contents.{AuctionItemInfo}
use j1_server.Sql.{is_ok, Connection}
use j1_server.Sql.Transactions.{Views, IsTransactional}
use j1_server.AuctionService.{purchase}
use j1_server.AuctionService.Atomic.{IsSettled}
use j1_server.AuctionService.Settled.{purchase-IsSettled}
use j1_server.Market.{Tables, sell}
use j1_server.Market.Store.{IsStore}
use j1_server.Market.Sale.{purchase-sell}
use j1_server.Market.Sold.{sell-Sold}
use j1_server.Market.Stock.{IsStocked, stock_of, sell-stock_of}

-- What is sold of the listing `k` by one purchase.
abbrev pub amount : ℤ → AuctionItemInfo → Bool → ℕ
amount k info success = if success && eq_ℤ info.list_id k then pos_part info.count else 0

-- The stock in pieces.
abbrev pub pieces : ℤ → Tables → ℕ
pieces k t = pos_part (stock_of k t.listings)

sub_pieces :
    (a b : ℤ) → leb_ℤ b (pos 0) ≡ false → b ≤ℤ a → pos_part (a -ℤ b) + pos_part b ≡ pos_part a
unfolding ◌-ℤ◌
sub_pieces (pos m) (pos n) positive enough = ground arith
sub_pieces (pos m) (negsuc n) positive enough = ground arith
sub_pieces (negsuc m) (pos n) positive enough = ground arith
sub_pieces (negsuc m) (negsuc n) positive enough = ground arith

sell-amount :
    (info : AuctionItemInfo) (t t' : Tables) (total k : ℤ)
    → IsStocked t.listings
    → sell info t ≡ some (total, t')
    → IsStocked t'.listings × (pieces k t' + amount k info true ≡ pieces k t)
sell-amount info t t' total k stocked e =
    let (still, left, enough) = sell-stock_of info t t' total k stocked e in
    let taken =
      sub_pieces (stock_of info.list_id t.listings) info.count
        (sell-Sold info t total t' e).positive enough in
    (
      still,
      elim (Bool-cases (eq_ℤ info.list_id k)) [
        | inl same ↦
            let here = ap (λ id. stock_of id t.listings) ((eq_ℤ_iff info.list_id k).0 same) in
            rw same (
              ap (λ z. pos_part z + pos_part info.count) (rw same at left)
              ∙ taken
              ∙ ap pos_part here)
        | inr other ↦
            rw other
              (let same : pieces k t' ≡ pieces k t = ap pos_part (rw other at left) in omega arith)
      ],
    )

module _ (c : Connection) (v : Views c) (laws : IsTransactional c v)
    (store : IsStore c v laws) where
  open c use {State, rollback}
  open v use {committed}

  -- The tables as the other connections see them.
  abbrev pub tables : State → Tables
  tables s = store.read (committed s)

  -- From the state `s` on `n` pieces of the listing `k` are sold: nothing happens, or a purchase of any
  -- listing is made, or the other connections do anything that leaves the stock of `k` as it is.
  pub data History (k : ℤ) (s : State) : State → ℕ → Type 0 where
    nothing : History k s s 0
    bought :
        (t : State) (n : ℕ) (info : AuctionItemInfo)
        → History k s t n
        → History k s (purchase c info t).1 (n + amount k info (purchase c info t).0.success)
    others :
        (t t' : State) (n : ℕ)
        → IsSettled c v laws t'
        → IsStocked (tables t').listings
        → stock_of k (tables t').listings ≡ stock_of k (tables t).listings
        → History k s t n
        → History k s t' n

  purchase-amount :
      ((t : State) → is_ok (rollback t).0 ≡ true)
      → (info : AuctionItemInfo) (t : State) (k : ℤ) → IsSettled c v laws t
      → IsStocked (tables t).listings
      → let (result, t') = purchase c info t in
        IsStocked (tables t').listings
        × (pieces k (tables t') + amount k info result.success ≡ pieces k (tables t))
  purchase-amount rolls_back info t k settled stocked =
      elim (purchase-sell c v laws store rolls_back info t settled) [
        | inl (failed, same) ↦ rw failed (rw (ap store.read same) (stocked, omega arith))
        | inr (won, sold) ↦ rw won (
            sell-amount info (tables t) (tables (purchase c info t).1)
              (purchase c info t).0.total_price k stocked sold)
      ]

  History-IsSettled :
      (k : ℤ) (s t : State) (n : ℕ)
      → ((u : State) → is_ok (rollback u).0 ≡ true)
      → IsSettled c v laws s
      → IsStocked (tables s).listings
      → History k s t n
      → IsSettled c v laws t
        × IsStocked (tables t).listings
        × (pieces k (tables t) + n ≡ pieces k (tables s))
  History-IsSettled k s t n rolls_back settled stocked nothing = (settled, stocked, omega arith)
  History-IsSettled k s t n rolls_back settled stocked (bought u m info h) =
      let (settled', stocked', counted) = History-IsSettled k s u m rolls_back settled stocked h in
      let (stocked'', one) = purchase-amount rolls_back info u k settled' stocked' in
      (purchase-IsSettled c v laws rolls_back info u settled', stocked'', omega arith)
  History-IsSettled k s t n rolls_back settled stocked (others u u' m left kept same h) =
      let (settled', stocked', counted) = History-IsSettled k s u m rolls_back settled stocked h in
      (
        left,
        kept,
        let e : pieces k (tables t) ≡ pieces k (tables u) = ap pos_part same in omega arith,
      )

  -- On a connection to these tables whose rollbacks return, from a state with nothing pending whose listings have
  -- distinct ids and are not empty: after any purchases, of which some fail, and whatever the other connections
  -- do to other listings in between, what is left of a listing and what was sold of it are together what there
  -- was at first, so that never more is sold than there was, and the listings again have distinct ids and are
  -- not empty.
  pub History-pieces :
      (k : ℤ) (s t : State) (n : ℕ)
      → ((u : State) → is_ok (rollback u).0 ≡ true)
      → IsSettled c v laws s
      → IsStocked (tables s).listings
      → History k s t n
      → IsStocked (tables t).listings
        × (pieces k (tables t) + n ≡ pieces k (tables s))
        × (n ≤ pieces k (tables s))
  History-pieces k s t n rolls_back settled stocked h =
      let (_, stocked', counted) = History-IsSettled k s t n rolls_back settled stocked h in
      (stocked', counted, omega arith)
