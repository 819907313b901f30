-- ===== src/WorkerPool/Tests.antt =====
-- AuctionServer/AuctionWorkerPool.cpp with two writers, tasks that are numbers, and a connection pool
-- that counts the connections that it has left.
use j1_server.Prelude.{
  ℕ, zero, suc, ◌+◌, ◌≡◌, refl, true, none, some, List, [], ◌∷◌, ◌++◌, arith, length, get_elem?,
}
use j1_server.WorkerPool.{Pool, auction_read, auction_write, new_pool, at_least_one, start, stop}
use j1_server.WorkerPool.Order.{Event, posts, runs, Run, run, ran, posted, queue_of, run-posted}
use j1_server.WorkerPool.Lifetime.{stop-posted, start_workers}

abbrev counting : Pool
counting = record {
  State = ℕ;
  borrow = λ n. elim n [ zero ↦ none | suc k ↦ some (k, k) ];
  unborrow = λ _ n. n + 1;
}

abbrev two_writers : Run ℕ
two_writers = record {
  pool = record {
    readers = record { name = auction_read 0; conn = 0; queue = [] } ∷ [];
    writers =
        record { name = auction_write 0; conn = 1; queue = [] }
        ∷ record { name = auction_write 1; conn = 2; queue = 5 ∷ [] }
        ∷ [];
    read_round_robin = 0;
  };
  log = [];
}

-- Keys 3 and 7 lead to writer 1, key 4 to writer 0.
abbrev events : List (Event ℕ)
events = posts 3 100 ∷ runs 1 ∷ posts 4 101 ∷ posts 7 102 ∷ runs 1 ∷ runs 0 ∷ []

run-posted_example :
    ran 1 (run two_writers events).log ++ queue_of 1 (run two_writers events).pool
    ≡ (ran 1 two_writers.log ++ queue_of 1 two_writers.pool) ++ posted 2 1 events
run-posted_example = run-posted 2 1 two_writers events refl (omega arith)

stopped_in_order :
    let (p, _, finished) = stop counting (run two_writers events).pool 0 in
    (queue : List ℕ) × (get_elem? finished (length (run two_writers events).pool.readers + 1)
      ≡ some queue)
    × (ran 1 (run two_writers events).log ++ queue
        ≡ (ran 1 two_writers.log ++ queue_of 1 two_writers.pool) ++ posted 2 1 events)
    × ((p.readers ≡ []) × (p.writers ≡ []))
stopped_in_order = stop-posted counting 2 1 two_writers events 0 refl (omega arith)

start_returns : (start counting {T = ℕ} 0 2 new_pool 5).2 ≡ true
unfolding start new_pool
start_returns = refl

start_makes_workers :
    (length (start counting {T = ℕ} 0 2 new_pool 5).0.readers ≡ at_least_one 0)
    × (length (start counting {T = ℕ} 0 2 new_pool 5).0.writers ≡ at_least_one 2)
start_makes_workers = start_workers counting ℕ 0 2 5 start_returns
