-- ===== src/WorkerPool.antt =====
-- AuctionServer/AuctionWorkerPool.h and .cpp: the database workers of the auction server, each an
-- `io_context` with its queue, a thread and a connection. A task is a value of the parameter `T`;
-- the handler that `Post` queues catches whatever the task throws, so a worker goes on with the
-- next. Borrowing from the connection pool is the parameter `Pool`.
pub mod Order
pub mod Lifetime
mod Tests
use j1_server.Prelude.{
  ℕ, zero, suc, ◌+◌, ◌%◌, ◌^◌, Bool, true, false, ◌&&◌, Option, none, some, List, [], ◌∷◌, ◌++◌,
  length, get_elem?, ◌==◌, if◌then◌else◌,
}

-- `GConnectionPool`: `borrow` gives a connection, or throws `ConnectionUnavailable`.
pub record Pool : Type 1 where
  pub State : Type 0
  pub borrow : State → Option (ℕ × State)
  pub unborrow : ℕ → State → State

-- `auction-read-i` and `auction-write-i`
pub data Name : Type 0 where
  auction_read auction_write : ℕ → Name

pub record Worker (T : Type 0) : Type 0 where
  pub name : Name
  pub conn : ℕ
  pub queue : List T

pub record WorkerPool (T : Type 0) : Type 0 where
  pub readers : List (Worker T)
  pub writers : List (Worker T)
  pub read_round_robin : ℕ

abbrev pub is_empty : {A : Type 0} → List A → Bool
is_empty [] = true
is_empty (x ∷ xs) = false

-- `_writers[i]` with a change of the worker.
abbrev pub update_at : {A : Type 0} → ℕ → (A → A) → List A → List A
update_at i f [] = []
update_at zero f (x ∷ xs) = f x ∷ xs
update_at (suc i) f (x ∷ xs) = x ∷ update_at i f xs

unfoldable pub new_pool : {T : Type 0} → WorkerPool T
new_pool = record { readers = []; writers = []; read_round_robin = 0 }

module _ {T : Type 0} where
  -- `Post`: the queue of an `io_context` is first in, first out.
  unfoldable pub post : T → Worker T → Worker T
  post task worker = record worker { queue = worker.queue ++ task ∷ [] }

  -- `PostRead`: round robin; without workers the task is dropped.
  unfoldable pub post_read : T → WorkerPool T → WorkerPool T
  unfolding post
  post_read task p = if is_empty p.readers then p else record p {
    readers = update_at (p.read_round_robin % length p.readers) (post task) p.readers;
    read_round_robin = (p.read_round_robin + 1) % 2 ^ 64;
  }

  -- `PostWrite`
  unfoldable pub post_write : ℕ → T → WorkerPool T → WorkerPool T
  unfolding post
  post_write key task p =
      if is_empty p.writers
      then p
      else record p { writers = update_at (key % length p.writers) (post task) p.writers }

-- What the workers have left to do.
abbrev pub queues : {T : Type 0} → List (Worker T) → List (List T)
queues [] = []
queues (worker ∷ workers) = worker.queue ∷ queues workers

-- `if (readWorkers == 0) readWorkers = 1;`
abbrev pub at_least_one : ℕ → ℕ
at_least_one n = if n == 0 then 1 else n

-- The workers made, the pool of connections, and whether all were made.
abbrev pub Spawned : Type 0 → Type 0 → Type 0
Spawned S T = List (Worker T) × S × Bool

module _ (pool : Pool) {T : Type 0} where
  open pool use {State, borrow, unborrow}

  -- `Spawn`; `none` where `borrow` throws.
  unfoldable pub spawn : Name → State → Option (Worker T × State)
  spawn name s = elim (borrow s) [
    | none ↦ none
    | some (conn, s') ↦ some (record { name = name; conn = conn; queue = [] }, s')
  ]

  -- A round of a loop of `Start`; `more` is the rest of the loop.
  unfoldable pub add_worker :
      Option (Worker T × State) → State → (State → Spawned State T) → Spawned State T
  add_worker none s more = ([], s, false)
  add_worker (some (worker, s')) s more =
      let (workers, s'', all) = more s' in (worker ∷ workers, s'', all)

  -- A loop of `Start`, for the workers from `i` on.
  unfoldable pub spawn_all : (ℕ → Name) → ℕ → ℕ → State → Spawned State T
  unfolding spawn add_worker
  spawn_all name i zero s = ([], s, true)
  spawn_all name i (suc n) s =
      let more = spawn_all name (i + 1) n in add_worker (spawn (name i) s) s more

  -- The second loop of `Start`, where the first has ended.
  unfoldable pub start_writers : ℕ → WorkerPool T → State → Bool → WorkerPool T × State × Bool
  unfolding spawn_all
  start_writers write_workers p s false = (p, s, false)
  start_writers write_workers p s true =
      let (writers, s', done) = spawn_all auction_write 0 (at_least_one write_workers) s in
      (record p { writers = writers }, s', done)

  -- `Start`, and whether it returns: an exception leaves the workers that were made.
  unfoldable pub start : ℕ → ℕ → WorkerPool T → State → WorkerPool T × State × Bool
  unfolding spawn_all start_writers
  start read_workers write_workers p s =
      let (readers, s', made) = spawn_all auction_read 0 (at_least_one read_workers) s in
      if is_empty p.readers && is_empty p.writers
      then start_writers write_workers (record p { readers = readers }) s' made
      else (p, s, true)

  -- The loops of `Stop` that give the connections back.
  unfoldable pub unborrow_all : List (Worker T) → State → State
  unborrow_all [] s = s
  unborrow_all (worker ∷ workers) s = unborrow_all workers (unborrow worker.conn s)

  -- `Stop`: with the guards gone every `run()` ends when its queue is empty, so the tasks that are
  -- left are run, those of one worker in order. They are returned, worker by worker.
  unfoldable pub stop : WorkerPool T → State → WorkerPool T × State × List (List T)
  unfolding unborrow_all
  stop p s = (
    record p { readers = []; writers = [] },
    unborrow_all p.writers (unborrow_all p.readers s),
    queues p.readers ++ queues p.writers,
  )
