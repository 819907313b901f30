-- ===== src/AuctionServer/Shutdown.antt =====
-- `main` of AuctionServer/AuctionServer.cpp, from the connections that its workers take to their return.
use mathlib.Core.Path.{subst}
use j1_server.Prelude.{
  ℕ, zero, suc, ◌+◌, ◌≤◌, ◌<◌, ◌≡◌, refl, sym, ap, ◌∙◌, Bool, true, false, some, List, [], ◌∷◌,
  ◌++◌, length, get_elem?, arith, All,
}
use j1_server.WorkerPool.{
  Pool, Worker, WorkerPool, new_pool, start, stop, unborrow_all, at_least_one,
}
use j1_server.WorkerPool.Order.{Event, Run, run, ran, posted, queue_of}
use j1_server.WorkerPool.Lifetime.{stop-posted, start_workers}
use j1_server.AuctionServer.{
  main, serve_and_stop, read_workers, write_workers, pool_size, spare_connections,
}
use j1_server.AuctionServer.Connections.{Lends, conns, All-move, unborrow_all-free}
use j1_server.AuctionServer.Holding.{Same, run-Same, Held, Same-Held, IsStarted, start-IsStarted}

module _ (pool : Pool) (lends : Lends pool) {T : Type 0} where
  open pool use {State}
  open lends use {free, Lent}

  stop-free :
      (p : WorkerPool T) (s : State)
      → Held pool lends s p
      → free (stop pool p s).1 ≡ (free s + length p.readers) + length p.writers
  unfolding stop
  stop-free p s v =
      let (readers, others) =
        unborrow_all-free pool lends p.readers s v.readers v.distinct_readers in
      let (writers, left) =
        unborrow_all-free pool lends p.writers (unborrow_all pool p.readers s)
          (All-move (conns p.writers) others v.apart v.writers) v.distinct_writers in
      omega arith

  length-conns : (ws : List (Worker T)) → length (conns ws) ≡ length ws
  length-conns [] = refl
  length-conns (w ∷ ws) = ap suc (length-conns ws)

  Same-free :
      (p q : WorkerPool T) (s : State)
      → Same q p
      → Held pool lends s p
      → free (stop pool q s).1 ≡ (free s + length p.readers) + length p.writers
  Same-free p q s same v =
      let after = stop-free q s (Same-Held pool lends s p q same v) in
      let readers = sym (length-conns q.readers) ∙ ap length same.0 ∙ length-conns p.readers in
      let writers = sym (length-conns q.writers) ∙ ap length same.1 ∙ length-conns p.writers in
      omega arith

  serve_and_stop-free :
      (events : List (Event T)) (n : ℕ) (s : State) (r : WorkerPool T × State × Bool)
      → IsStarted pool lends n s r
      → free (serve_and_stop pool events r).1 ≡ free s
  unfolding serve_and_stop
  serve_and_stop-free events n s (p, s', false) v =
      Same-free p p s' (refl, refl) v.held ∙ sym v.taken
  serve_and_stop-free events n s (p, s', true) v =
      let started : Run T = record { pool = p; log = [] } in
      Same-free p (run started events).pool s' (run-Same events started) v.held ∙ sym v.taken

  -- `main` gives back every connection that its workers take, whatever the workers do while it serves, whether
  -- `io_context::run` returns or throws, and also where `Start` throws because no connection is left.
  pub main-free : (events : List (Event T)) (s : State) → free (main pool events s).1 ≡ free s
  unfolding main
  main-free events s =
      serve_and_stop-free events (at_least_one read_workers + at_least_one write_workers) s
        (start pool read_workers write_workers new_pool s)
        (start-IsStarted pool lends read_workers write_workers s)

  serve_and_stop-posted :
      (events : List (Event T)) (k : ℕ) (r : WorkerPool T × State × Bool)
      → r.2 ≡ true
      → length r.0.readers ≡ at_least_one read_workers
      → length r.0.writers ≡ at_least_one write_workers
      → k < write_workers
      → queue_of k r.0 ≡ []
      → let (served, s', finished) = serve_and_stop pool events r in
        (queue : List T) × (get_elem? finished (read_workers + k) ≡ some queue)
        × (ran k served.log ++ queue ≡ posted write_workers k events)
  unfolding serve_and_stop ran
  serve_and_stop-posted events k (p, s, false) made readers writers inside idle = cc
  serve_and_stop-posted events k (p, s, true) made readers writers inside idle =
      let started : Run T = record { pool = p; log = [] } in
      let (queue, at, all, gone) =
        stop-posted pool write_workers k started events s writers inside in
      let same =
        sym (length-conns (run started events).pool.readers)
        ∙ ap length (run-Same events started).0
        ∙ length-conns p.readers
        ∙ readers in
      (
        queue,
        subst (λ n. get_elem? (stop pool (run started events).pool s).2 (n + k) ≡ some queue) same
            at,
        all ∙ ap (λ q. q ++ posted write_workers k events) idle,
      )

  queue_of-idle : (p : WorkerPool T) (k : ℕ) → All (λ w. w.queue ≡ []) p.writers → queue_of k p ≡ []
  queue_of-idle p k idle = in_list p.writers k idle
    where
      in_list :
          (ws : List (Worker T)) (k : ℕ)
          → All (λ w. w.queue ≡ []) ws
          → queue_of k (record p { writers = ws }) ≡ []
      in_list [] k all = refl
      in_list (w ∷ ws) zero all = all.0
      in_list (w ∷ ws) (suc k) all = in_list ws k all.1

  -- With as many free connections as `main` asks the pool for, `Start` returns and leaves the spare ones, and
  -- `main` loses no write: what writer `k` runs before `Stop` and what `Stop` lets it finish are together the
  -- tasks that are posted under keys that lead to it, in the order of posting.
  pub main-posted :
      (events : List (Event T)) (s : State) (k : ℕ)
      → pool_size ≤ free s
      → k < write_workers
      → let (p, s', made) = start pool {T = T} read_workers write_workers new_pool s in
        let (served, s'', finished) = main pool events s in
        (made ≡ true)
        × (free s ≡ free s' + read_workers + write_workers)
        × (spare_connections ≤ free s')
        × (queue : List T) × (get_elem? finished (read_workers + k) ≡ some queue)
        × (ran k served.log ++ queue ≡ posted write_workers k events)
  unfolding main
  main-posted events s k room inside =
      let v = start-IsStarted pool lends {T = T} read_workers write_workers s in
      let made = v.enough (omega arith) in
      let (readers, writers) = start_workers pool T read_workers write_workers s made in
      let (queue, at, all) =
        serve_and_stop-posted events k (start pool read_workers write_workers new_pool s) made
          readers writers inside
          (queue_of-idle (start pool read_workers write_workers new_pool s).0 k v.idle) in
      (
        made,
        omega (arith, v.taken, readers, writers),
        omega (arith, v.taken, readers, writers),
        queue,
        at,
        all,
      )
