-- ===== src/AuctionService/Transaction.antt =====
-- One attempt of `Purchase` in AuctionServer/AuctionService.cpp: what `TryPurchase` leaves for other
-- connections to see, however it ends.
use j1_server.Prelude.{◌≡◌, refl, ap, ◌∙◌, Bool, true, false, List, [], ◌∷◌}
use j1_server.Prelude.Int.{ℤ, pos}
use j1_server.Cache.Contents.{AuctionItemInfo}
use j1_server.Sql.{Row, Query, Update, Result, ok, throws, is_ok, Connection}
use j1_server.Sql.Transactions.{Views, IsTransactional}
use j1_server.AuctionService.{
  Action, ◌>>=◌, ◌>>◌, on_connection, throw_if, first_row, set_total_price, take_quantity,
  pay_and_record, prepare_purchase, try_purchase, resume,
}

module _ (c : Connection) (v : Views c) (laws : IsTransactional c v) where
  open c use {State, set_auto_commit, commit, rollback, execute_query, execute_update}
  open v use {committed, working}
  open laws use {IsOpen}

  -- An action that stays inside the transaction, however it ends.
  abbrev Stays : State → State → Type 0
  Stays s s' = IsOpen s' × (committed s' ≡ committed s)

  record Keeps {A : Type 0} (m : Action c A) : Type 0 where
    stays : (s : State) (total : ℤ) → IsOpen s → Stays s (m (s, total)).1.0

  resume-Stays :
      {A B : Type 0} (f : A → Action c B) (r : Result A) (s s' : State) (total : ℤ)
      → Stays s s'
      → ((a : A) → Keeps (f a))
      → Stays s (resume c f r (s', total)).1.0
  resume-Stays f (ok a) s s' total h k = let (o, e) = (k a).stays s' total h.0 in (o, e ∙ h.1)
  resume-Stays f (throws e) s s' total h k = h

  >>=-Keeps :
      {A B : Type 0} (m : Action c A) (f : A → Action c B)
      → Keeps m
      → ((a : A) → Keeps (f a))
      → Keeps (◌>>=◌ c m f)
  unfolding ◌>>=◌
  >>=-Keeps m f h k = record {
    stays = λ s total o.
        resume-Stays f (m (s, total)).0 s (m (s, total)).1.0 (m (s, total)).1.1 (h.stays s total o)
          k;
  }

  >>-Keeps :
      {B : Type 0} (m : Action c (Unit {0})) (k : Action c B)
      → Keeps m
      → Keeps k
      → Keeps (◌>>◌ c m k)
  unfolding ◌>>◌
  >>-Keeps m k h h' = >>=-Keeps m (λ _. k) h (λ _. h')

  query-Keeps : (q : Query) → Keeps (on_connection c (execute_query q))
  unfolding on_connection
  query-Keeps q = record { stays = λ s total o. laws.query_law q s o }

  update-Keeps : (u : Update) → Keeps (on_connection c (execute_update u))
  unfolding on_connection
  update-Keeps u = record { stays = λ s total o. laws.update_law u s o }

  throw_if-Keeps : (b : Bool) → Keeps (throw_if c b)
  unfolding throw_if
  throw_if-Keeps true = record { stays = λ s total o. (o, refl) }
  throw_if-Keeps false = record { stays = λ s total o. (o, refl) }

  first_row-Keeps : (rows : List Row) → Keeps (first_row c rows)
  unfolding first_row
  first_row-Keeps [] = record { stays = λ s total o. (o, refl) }
  first_row-Keeps (row ∷ rows) = record { stays = λ s total o. (o, refl) }

  set_total_price-Keeps : (total : ℤ) → Keeps (set_total_price c total)
  unfolding set_total_price
  set_total_price-Keeps total = record { stays = λ s t o. (o, refl) }

  ruleset keeps = (
    >>=-Keeps, >>-Keeps, query-Keeps, update-Keeps, throw_if-Keeps, first_row-Keeps,
    set_total_price-Keeps,
  )

  pay_and_record-Keeps :
      (info : AuctionItemInfo) (total : ℤ) (row : Row) → Keeps (pay_and_record c info total row)
  unfolding pay_and_record take_quantity
  pay_and_record-Keeps info total row = search keeps depth 12

  -- Whatever `prepare_purchase` does, nothing of it is published before `Commit`.
  prepare_purchase-Keeps : (info : AuctionItemInfo) → Keeps (prepare_purchase c info)
  unfolding prepare_purchase
  prepare_purchase-Keeps info = search (keeps, pay_and_record-Keeps) depth 12

  -- The transaction of an attempt that begins in `s`, up to `Commit`.
  abbrev pub transaction : AuctionItemInfo → State → Result (Unit {0}) × (State × ℤ)
  transaction info s = prepare_purchase c info ((set_auto_commit false s).1, pos 0)

  -- What an attempt that began in `s` has published: nothing where it throws, and all that its
  -- transaction did where it returns.
  abbrev pub Published : AuctionItemInfo → State → Result (Unit {0}) → State × ℤ → Type 0
  Published info s (throws code) (s', total) = committed s' ≡ committed s
  Published info s (ok _) (s', total) =
      IsOpen (set_auto_commit false s).1
      × ((transaction info s).0 ≡ ok tt)
      × (committed s' ≡ working (transaction info s).1.0)
      × (working s' ≡ working (transaction info s).1.0)
      × (total ≡ (transaction info s).1.1)

  commit_publishes :
      (info : AuctionItemInfo) (s s2 : State) (total : ℤ)
      → IsOpen (set_auto_commit false s).1
      → (transaction info s) ≡ (ok tt, (s2, total))
      → committed s2 ≡ committed s
      → Published info s
          (on_connection c commit (s2, total)).0
          (on_connection c commit (s2, total)).1
  unfolding on_connection
  commit_publishes info s s2 total began e same = go (commit s2).0 refl
    where
      go : (r : Result (Unit {0})) → (commit s2).0 ≡ r → Published info s r ((commit s2).1, total)
      go (ok _) returned =
          let (shown, kept) = (laws.commit_law s2).0 (ap is_ok returned) in
          rw e (began, refl, shown, kept, refl)
      go (throws code) failed = (laws.commit_law s2).1 (ap is_ok failed) ∙ same

  pub try_purchase_publishes :
      (info : AuctionItemInfo) (s : State)
      → Published info s (try_purchase c info (s, pos 0)).0 (try_purchase c info (s, pos 0)).1
  unfolding try_purchase ◌>>◌ on_connection
  try_purchase_publishes info s = go (set_auto_commit false s).0 refl
    where
      after_prepare :
          (r : Result (Unit {0})) (s2 : State) (total : ℤ)
          → IsOpen (set_auto_commit false s).1
          → transaction info s ≡ (r, (s2, total))
          → committed s2 ≡ committed s
          → let out = resume c (λ _. on_connection c commit) r (s2, total) in
            Published info s out.0 out.1
      after_prepare (ok _) s2 total began e same = commit_publishes info s s2 total began e same
      after_prepare (throws code) s2 total began e same = same

      go :
          (r : Result (Unit {0}))
          → (set_auto_commit false s).0 ≡ r
          → let out =
              resume c
                (λ _. ◌>>=◌ c (prepare_purchase c info) (λ _. on_connection c commit))
                r
                ((set_auto_commit false s).1, pos 0) in
            Published info s out.0 out.1
      go (ok _) began =
          let (open_now, same) =
            (prepare_purchase-Keeps info).stays (set_auto_commit false s).1 (pos 0)
              (laws.begin_open s began) in
          after_prepare (transaction info s).0 (transaction info s).1.0 (transaction info s).1.1
            (laws.begin_open s began) refl (same ∙ (laws.begin_law s).0)
      go (throws code) failed = (laws.begin_law s).0
