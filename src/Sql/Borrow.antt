-- ===== src/Sql/Borrow.antt =====
-- A connection that is borrowed from the pool for one request, as in LoginServer/SignManager.cpp and
-- GameServer/Network/Handlers/LobbyPacketHandler.cpp. `borrow` throws or gives a connection, so the loop
-- `while (conn == nullptr)` around it makes no round. Where a statement throws, the connection is
-- not given back; the pool replaces connections that were dropped.
use j1_server.Prelude.{ℕ, Option, none, some}
use j1_server.Sql.{Result, ok, throws, Connection}
use j1_server.WorkerPool.{Pool}

-- A call returns, throws, or is still in a loop when its fuel is used up.
pub data Outcome (A : Type 0) : Type 0 where
  returned : A → Outcome A
  threw : ℕ → Outcome A
  running : Outcome A

-- The code that stands for `ConnectionUnavailable`.
abbrev pub unavailable : ℕ
unavailable = 0

-- A chain of calls on the state `S`: nothing follows one that did not return.
abbrev pub Action : Type 0 → Type 0 → Type 0
Action S A = S → Outcome A × S

module _ {S : Type 0} where
  abbrev pub resume : {A B : Type 0} → (A → Action S B) → Outcome A × S → Outcome B × S
  resume f (returned a, s) = f a s
  resume f (threw e, s) = (threw e, s)
  resume f (running, s) = (running, s)

  infixl 5 ◌>>=◌
  unfoldable pub ◌>>=◌ : {A B : Type 0} → Action S A → (A → Action S B) → Action S B
  ◌>>=◌ m f s = resume f (m s)

  unfoldable pub return : {A : Type 0} → A → Action S A
  return a s = (returned a, s)

  abbrev pub outcome : {A : Type 0} → Result A × S → Outcome A × S
  outcome (ok a, s) = (returned a, s)
  outcome (throws e, s) = (threw e, s)

  unfoldable pub statement : {A : Type 0} → (S → Result A × S) → Action S A
  statement f s = outcome (f s)

module _ (pool : Pool) (c : Connection) where
  -- The state of a server: the pool and what the connections reach.
  abbrev pub Db : Type 0
  Db = pool.State × c.State

  abbrev pub give_back : {A : Type 0} → Outcome A → ℕ → pool.State → pool.State
  give_back (returned _) conn p = pool.unborrow conn p
  give_back _ conn p = p

  abbrev pub borrowed :
      {A : Type 0} → Action c.State A → Option (ℕ × pool.State) → Db → Outcome A × Db
  borrowed body none db = (threw unavailable, db)
  borrowed body (some (conn, p)) (_, s) = let (r, s') = body s in (r, (give_back r conn p, s'))

  unfoldable pub with_connection : {A : Type 0} → Action c.State A → Db → Outcome A × Db
  with_connection body (p, s) = borrowed body (pool.borrow p) (p, s)
