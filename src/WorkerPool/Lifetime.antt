-- ===== src/WorkerPool/Lifetime.antt =====
-- `Start` and `Stop` of AuctionServer/AuctionWorkerPool.cpp.
use j1_server.Prelude.{
  ℕ, zero, suc, ◌+◌, ◌<◌, ◌≡◌, refl, ap, ◌∙◌, Bool, true, false, Option, none, some, List, [], ◌∷◌,
  ◌++◌, arith, length, get_elem?,
}
use j1_server.WorkerPool.{
  Pool, Name, auction_read, auction_write, Worker, WorkerPool, new_pool, at_least_one, spawn,
  Spawned, add_worker, spawn_all, start, start_writers, queues, stop,
}
use j1_server.WorkerPool.Order.{
  Event, Run, run, ran, posted, queue_of, run-posted, run_size, get_elem?_inside,
}

get_elem?-queues :
    {T : Type 0} (before after : List (Worker T)) (k : ℕ) (w : Worker T)
    → get_elem? after k ≡ some w
    → get_elem? (queues before ++ queues after) (length before + k) ≡ some w.queue
get_elem?-queues [] [] k w at = cc
get_elem?-queues [] (x ∷ after) k w at =
    rw (let e : 0 + k ≡ k = omega arith in e) (get_elem?-queue (x ∷ after) k at)
  where
    get_elem?-queue :
        (xs : List (Worker _)) (k : ℕ)
        → get_elem? xs k ≡ some w
        → get_elem? (queues xs) k ≡ some w.queue
    get_elem?-queue [] k at = cc
    get_elem?-queue (x ∷ xs) zero at = cc
    get_elem?-queue (x ∷ xs) (suc k) at = get_elem?-queue xs k at
get_elem?-queues (x ∷ before) after k w at =
    rw (let e : suc (length before) + k ≡ suc (length before + k) = omega arith in e)
      (get_elem?-queues before after k w at)

queue_of-some :
    {T : Type 0} (k : ℕ) (p : WorkerPool T) (w : Worker T)
    → get_elem? p.writers k ≡ some w
    → queue_of k p ≡ w.queue
queue_of-some k p w at = ground (arith, at)

module _ (pool : Pool) {T : Type 0} where
  -- `Stop` loses no task: after any events, what writer `k` has run and what `Stop` makes it run are
  -- together what it had run and queued before and the tasks posted since under keys that lead to
  -- it, in the order of posting; afterwards the pool has no workers.
  pub stop-posted :
      (n k : ℕ) (r : Run T) (es : List (Event T)) (s : pool.State)
      → length r.pool.writers ≡ n
      → k < n
      → let (p, _, finished) = stop pool (run r es).pool s in
        (queue : List T) × (get_elem? finished (length (run r es).pool.readers + k) ≡ some queue)
        × (ran k (run r es).log ++ queue ≡ (ran k r.log ++ queue_of k r.pool) ++ posted n k es)
        × ((p.readers ≡ []) × (p.writers ≡ []))
  unfolding stop
  stop-posted n k r es s size inside =
      let (w, at) =
        get_elem?_inside (run r es).pool.writers k (rw (run_size n k r es size inside) inside) in
      let left : queue_of k (run r es).pool ≡ w.queue = queue_of-some k (run r es).pool w at in
      (
        w.queue,
        get_elem?-queues (run r es).pool.readers (run r es).pool.writers k w at,
        rw left at (run-posted n k r es size inside),
        (refl, refl),
      )

module _ (pool : Pool) (T : Type 0) where
  add_worker_made :
      (made : Option (Worker T × pool.State)) (s : pool.State)
      (more : pool.State → Spawned pool.State T) (n : ℕ)
      → ((t : pool.State) → (more t).2 ≡ true → length (more t).0 ≡ n)
      → (add_worker pool made s more).2 ≡ true
      → length (add_worker pool made s more).0 ≡ suc n
  unfolding add_worker
  add_worker_made none s more n rest h = cc h
  add_worker_made (some (worker, s')) s more n rest h = ap suc (rest s' h)

  length-spawn_all :
      (name : ℕ → Name) (i n : ℕ) (s : pool.State)
      → (spawn_all pool {T = T} name i n s).2 ≡ true
      → length (spawn_all pool {T = T} name i n s).0 ≡ n
  unfolding spawn_all
  length-spawn_all name i zero s h = refl
  length-spawn_all name i (suc n) s h =
      add_worker_made (spawn pool (name i) s) s (spawn_all pool {T = T} name (i + 1) n) n
        (length-spawn_all name (i + 1) n) h

  start_writers_made :
      (w : ℕ) (p : WorkerPool T) (s : pool.State) (made : Bool)
      → (start_writers pool w p s made).2 ≡ true
      → (made ≡ true)
        × ((start_writers pool w p s made).0.readers ≡ p.readers)
        × (length (start_writers pool w p s made).0.writers ≡ at_least_one w)
  unfolding start_writers
  start_writers_made w p s false h = cc h
  start_writers_made w p s true h =
      (refl, refl, length-spawn_all auction_write 0 (at_least_one w) s h)

  -- Where `Start` returns on a fresh pool, so that no `borrow` has thrown, it has made as many
  -- workers of each kind as it was asked for, and at least one.
  pub start_workers :
      (r w : ℕ) (s : pool.State)
      → (start pool {T = T} r w new_pool s).2 ≡ true
      → (length (start pool {T = T} r w new_pool s).0.readers ≡ at_least_one r)
        × (length (start pool {T = T} r w new_pool s).0.writers ≡ at_least_one w)
  unfolding start new_pool
  start_workers r w s h =
      let (readers, s', made) = spawn_all pool {T = T} auction_read 0 (at_least_one r) s in
      let p : WorkerPool T = record new_pool { readers = readers } in
      let (all, same, writers) = start_writers_made w p s' made h in
      (ap length same ∙ length-spawn_all auction_read 0 (at_least_one r) s all, writers)
