-- ===== src/Sql/Transactions.antt =====
-- What MySQL documents of transactions, as far as the auction server relies on it.
use j1_server.Prelude.{◌≡◌, true, false}
use j1_server.Sql.{ok, is_ok, Query, Update, Connection}

-- The tables as other connections see them, and as this one does.
pub record Views (c : Connection) : Type 1 where
  pub Tables : Type 0
  pub committed : c.State → Tables
  pub working : c.State → Tables

-- Without autocommit statements change only what this connection sees, whether they return or
-- throw; `COMMIT` that returns publishes that, and one that throws publishes nothing; `ROLLBACK`
-- that returns drops it, and never publishes. Turning autocommit on publishes it too.
pub record IsTransactional (c : Connection) (v : Views c) : Type 1 where
  pub begin_law :
      (s : c.State)
      → (v.committed (c.set_auto_commit false s).1 ≡ v.committed s)
        × (v.working (c.set_auto_commit false s).1 ≡ v.working s)
  -- The states in which autocommit is off.
  pub IsOpen : c.State → Type 0
  pub begin_open :
      (s : c.State) → (c.set_auto_commit false s).0 ≡ ok tt → IsOpen (c.set_auto_commit false s).1
  pub query_law :
      (q : Query) (s : c.State)
      → IsOpen s
      → IsOpen (c.execute_query q s).1 × (v.committed (c.execute_query q s).1 ≡ v.committed s)
  pub update_law :
      (u : Update) (s : c.State)
      → IsOpen s
      → IsOpen (c.execute_update u s).1 × (v.committed (c.execute_update u s).1 ≡ v.committed s)
  pub gen_keys_law :
      (u : Update) (s : c.State)
      → IsOpen s
      → IsOpen (c.execute_update_gen_keys u s).1
        × (v.committed (c.execute_update_gen_keys u s).1 ≡ v.committed s)
  pub commit_law :
      (s : c.State)
      → (is_ok (c.commit s).0 ≡ true
          → (v.committed (c.commit s).1 ≡ v.working s) × (v.working (c.commit s).1 ≡ v.working s))
        × (is_ok (c.commit s).0 ≡ false → v.committed (c.commit s).1 ≡ v.committed s)
  pub rollback_law :
      (s : c.State)
      → (v.committed (c.rollback s).1 ≡ v.committed s)
        × (is_ok (c.rollback s).0 ≡ true → v.working (c.rollback s).1 ≡ v.committed s)
  pub auto_law :
      (s : c.State)
      → v.working s ≡ v.committed s
      → (v.committed (c.set_auto_commit true s).1 ≡ v.committed s)
        × (v.working (c.set_auto_commit true s).1 ≡ v.committed s)
