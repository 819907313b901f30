-- ===== src/AuctionServer/Holding.antt =====
-- The connections that the workers of AuctionServer/AuctionWorkerPool.cpp hold while AuctionServer/AuctionServer.cpp
-- serves: `Start` gives each its own, and no task changes that.
use mathlib.Core.Path.{subst}
use j1_server.Prelude.{
  ℕ, zero, suc, ◌+◌, ◌≤◌, ◌≡◌, ◌≢◌, refl, sym, ap, ◌∙◌, Bool, true, false, Option, none, some, List,
  [], ◌∷◌, length, get_elem?, ◌%◌, arith, All,
}
use j1_server.WorkerPool.{
  Pool, auction_read, auction_write, Worker, WorkerPool, new_pool, Spawned, spawn_all, start,
  start_writers, update_at, post, post_read, post_write, at_least_one,
}
use j1_server.WorkerPool.Order.{
  Event, posts, runs, posts_read, runs_read, Run, run, step, run_next, without_next,
}
use j1_server.AuctionServer.Connections.{
  Lends, conns, Distinct, All-map, IsSpawned, spawn_all-IsSpawned,
}

-- No event changes the connection of a worker.
conns-update_at :
    {T : Type 0} (i : ℕ) (f : Worker T → Worker T) (ws : List (Worker T))
    → ((w : Worker T) → (f w).conn ≡ w.conn)
    → conns (update_at i f ws) ≡ conns ws
conns-update_at i f [] h = refl
conns-update_at zero f (w ∷ ws) h = rw (h w) refl
conns-update_at (suc i) f (w ∷ ws) h = ap (◌∷◌ w.conn) (conns-update_at i f ws h)

-- The workers have kept their connections.
abbrev pub Same : {T : Type 0} → WorkerPool T → WorkerPool T → Type 0
Same p q = (conns p.readers ≡ conns q.readers) × (conns p.writers ≡ conns q.writers)

module _ {T : Type 0} where
  run_next-Same : (i : ℕ) (r : Run T) (w : Option (Worker T)) → Same (run_next i r w).pool r.pool
  unfolding run_next
  run_next-Same i r none = (refl, refl)
  run_next-Same i r (some w) = with_queue w.queue
    where
      with_queue :
          (queue : List T) → Same (run_next i r (some (record w { queue = queue }))).pool r.pool
      with_queue [] = (refl, refl)
      with_queue (task ∷ queue) = (
        refl,
        conns-update_at i (λ (v : Worker T). record v { queue = queue }) r.pool.writers (λ v. refl),
      )

  step-Same : (r : Run T) (e : Event T) → Same (step r e).pool r.pool
  unfolding step post_write post_read post
  step-Same r (posts key task) =
      ground (
        arith,
        conns-update_at (key % length r.pool.writers) (post task) r.pool.writers (λ v. refl),
      )
  step-Same r (runs i) = run_next-Same i r (get_elem? r.pool.writers i)
  step-Same r (posts_read task) = ground (
    arith,
    conns-update_at (r.pool.read_round_robin % length r.pool.readers) (post task) r.pool.readers
        (λ v. refl),
  )
  step-Same r (runs_read i) = (conns-update_at i without_next r.pool.readers (λ v. refl), refl)

  pub run-Same : (es : List (Event T)) (r : Run T) → Same (run r es).pool r.pool
  unfolding run
  run-Same [] r = (refl, refl)
  run-Same (e ∷ es) r =
      let (readers, writers) = run-Same es (step r e) in
      let (readers', writers') = step-Same r e in (readers ∙ readers', writers ∙ writers')

module _ (pool : Pool) (lends : Lends pool) where
  open pool use {State}
  open lends use {free, Lent}

  -- The readers hold the connections `cs` and the writers `ds`: they are lent, and each has its own.
  pub record Hold (s : State) (cs ds : List ℕ) : Type 0 where
    pub readers : All (λ c. Lent c s) cs
    pub writers : All (λ d. Lent d s) ds
    pub distinct_readers : Distinct cs
    pub distinct_writers : Distinct ds
    pub apart : All (λ d. All (λ c. d ≢ c) cs) ds

module _ (pool : Pool) (lends : Lends pool) {T : Type 0} where
  open pool use {State}
  open lends use {free, Lent}

  abbrev pub Held : State → WorkerPool T → Type 0
  Held s p = Hold pool lends s (conns p.readers) (conns p.writers)

  pub Same-Held : (s : State) (p q : WorkerPool T) → Same q p → Held s p → Held s q
  Same-Held s p q (readers, writers) v =
      subst (λ cs. Hold pool lends s cs (conns q.writers)) (sym readers)
        (subst (Hold pool lends s (conns p.readers)) (sym writers) v)

  -- What `Start` leads to, whether it returns or not; it returns where `n` connections are free.
  pub record IsStarted (n : ℕ) (s : State) (r : WorkerPool T × State × Bool) : Type 0 where
    pub held : Held r.1 r.0
    pub taken : free s ≡ (free r.1 + length r.0.readers) + length r.0.writers
    pub idle : All (λ w. w.queue ≡ []) r.0.writers
    pub enough : n ≤ free s → r.2 ≡ true

  start_writers-IsStarted :
      (n w : ℕ) (s : State) (readers : Spawned State T)
      → IsSpawned pool lends n s readers
      → IsStarted
          (n + at_least_one w)
          s
          (start_writers pool w (record new_pool { readers = readers.0 }) readers.1 readers.2)
  unfolding start_writers new_pool
  start_writers-IsStarted n w s (readers, s', false) v = record {
    held = record {
      readers = v.held;
      writers = tt;
      distinct_readers = v.distinct;
      distinct_writers = tt;
      apart = tt;
    };
    taken = omega arith;
    idle = tt;
    enough = λ h. v.enough (let h' : n + at_least_one w ≤ free s = h in omega arith);
  }
  start_writers-IsStarted n w s (readers, s', true) v =
      let u = spawn_all-IsSpawned pool lends {T = T} auction_write 0 (at_least_one w) s' in
      record {
        held = record {
          readers = All-map (conns readers) u.still v.held;
          writers = u.held;
          distinct_readers = v.distinct;
          distinct_writers = u.distinct;
          apart =
              All-map (conns (spawn_all pool auction_write 0 (at_least_one w) s').0)
                (λ d new.
                  All-map (conns readers)
                    (λ c lent same. new (subst (λ e. Lent e s') (sym same) lent)) v.held)
                u.new;
        };
        taken = omega arith;
        idle = u.idle;
        enough = λ h. u.enough (let few : length readers ≤ n = v.most in omega arith);
      }

  pub start-IsStarted :
      (r w : ℕ) (s : State)
      → IsStarted (at_least_one r + at_least_one w) s (start pool r w new_pool s)
  unfolding start new_pool
  start-IsStarted r w s =
      start_writers-IsStarted (at_least_one r) w s
        (spawn_all pool auction_read 0 (at_least_one r) s)
        (spawn_all-IsSpawned pool lends auction_read 0 (at_least_one r) s)
