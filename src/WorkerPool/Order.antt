-- ===== src/WorkerPool/Order.antt =====
-- The order of writes in AuctionServer/AuctionWorkerPool.cpp: the tasks of one key go to one worker
-- and are run in the order in which they were posted, however the workers interleave.
use mathlib.Core.Option
use j1_server.Prelude.{
  ℕ, zero, suc, ◌%◌, ◌<◌, ◌≡◌, refl, sym, ap, ◌∙◌, inl, inr, false, Option, none, some, List, [],
  ◌∷◌, ◌++◌, append_assoc, append-nil, arith, length, get_elem?, ◌==◌, if◌then◌else◌, Bool-cases,
  ==_iff,
}
use j1_server.WorkerPool.{Worker, WorkerPool, is_empty, update_at, post, post_read, post_write}

-- What happens to the workers: a task is posted for the writers under a key or for the readers, or a
-- writer or a reader runs its next task.
pub data Event (T : Type 0) : Type 0 where
  posts : ℕ → T → Event T
  runs : ℕ → Event T
  posts_read : T → Event T
  runs_read : ℕ → Event T

-- The pool and what its writers have run, the latest last, each with the worker that ran it.
pub record Run (T : Type 0) : Type 0 where
  pub pool : WorkerPool T
  pub log : List (ℕ × T)

abbrev pub rest : {A : Type 0} → List A → List A
rest [] = []
rest (x ∷ xs) = xs

length-update_at :
    {A : Type 0} (i : ℕ) (f : A → A) (xs : List A) → length (update_at i f xs) ≡ length xs
length-update_at i f [] = refl
length-update_at zero f (x ∷ xs) = refl
length-update_at (suc i) f (x ∷ xs) = ap suc (length-update_at i f xs)

get_elem?-update_at :
    {A : Type 0} (i j : ℕ) (f : A → A) (xs : List A)
    → get_elem? (update_at i f xs) j
      ≡ (if i == j then Option.map f (get_elem? xs j) else get_elem? xs j)
get_elem?-update_at i j f [] = ground arith
get_elem?-update_at zero zero f (x ∷ xs) = ground arith
get_elem?-update_at zero (suc j) f (x ∷ xs) = ground arith
get_elem?-update_at (suc i) zero f (x ∷ xs) = ground arith
get_elem?-update_at (suc i) (suc j) f (x ∷ xs) = ground (arith, get_elem?-update_at i j f xs)

pub get_elem?_inside :
    {A : Type 0} (xs : List A) (k : ℕ) → k < length xs → (x : A) × (get_elem? xs k ≡ some x)
get_elem?_inside [] k h = absurd (omega arith)
get_elem?_inside (x ∷ xs) zero h = (x, refl)
get_elem?_inside (x ∷ xs) (suc k) h = get_elem?_inside xs k (omega arith)

is_empty_inside : {A : Type 0} (xs : List A) (k : ℕ) → k < length xs → is_empty xs ≡ false
is_empty_inside [] k h = absurd (omega arith)
is_empty_inside (x ∷ xs) k h = refl

module _ {T : Type 0} where
  -- The next task of a queue goes to the log.
  unfoldable pub run_next : ℕ → Run T → Option (Worker T) → Run T
  run_next i r none = r
  run_next i r (some worker) = elim worker.queue [
    | [] ↦ r
    | task ∷ queue ↦ record r {
      pool = record r.pool {
        writers = update_at i (λ w. record w { queue = queue }) r.pool.writers;
      };
      log = r.log ++ (i, task) ∷ [];
    }
  ]

  -- A reader takes its next task.
  abbrev pub without_next : Worker T → Worker T
  without_next worker = record worker { queue = rest worker.queue }

  unfoldable pub step : Run T → Event T → Run T
  unfolding run_next
  step r (posts key task) = record r { pool = post_write key task r.pool }
  step r (runs i) = run_next i r (get_elem? r.pool.writers i)
  step r (posts_read task) = record r { pool = post_read task r.pool }
  step r (runs_read i) = record r {
    pool = record r.pool { readers = update_at i without_next r.pool.readers };
  }

  unfoldable pub run : Run T → List (Event T) → Run T
  run r [] = r
  run r (e ∷ es) = run (step r e) es

  -- The tasks that worker `k` has run.
  unfoldable pub ran : ℕ → List (ℕ × T) → List T
  ran k [] = []
  ran k ((i, task) ∷ log) = if i == k then task ∷ ran k log else ran k log

  -- The tasks posted under keys that lead to worker `k` of `n`.
  unfoldable pub posted : ℕ → ℕ → List (Event T) → List T
  posted n k [] = []
  posted n k (posts key task ∷ es) = if key % n == k then task ∷ posted n k es else posted n k es
  posted n k (runs i ∷ es) = posted n k es
  posted n k (posts_read task ∷ es) = posted n k es
  posted n k (runs_read i ∷ es) = posted n k es

  -- The queue of worker `k`.
  abbrev pub queue_of : ℕ → WorkerPool T → List T
  queue_of k p = elim (get_elem? p.writers k) [ none ↦ [] | some worker ↦ worker.queue ]

  ran-append : (k : ℕ) (xs ys : List (ℕ × T)) → ran k (xs ++ ys) ≡ ran k xs ++ ran k ys
  unfolding ran
  ran-append k [] ys = refl
  ran-append k (x ∷ xs) ys = ground (arith, ran-append k xs ys)

  post_order :
      (k key : ℕ) (task : T) (p : WorkerPool T)
      → k < length p.writers
      → (length (post_write key task p).writers ≡ length p.writers)
        × (queue_of k (post_write key task p)
            ≡ queue_of k p ++ (if key % length p.writers == k then task ∷ [] else []))
  unfolding post_write
  post_order k key task p inside =
      let (w, at) = get_elem?_inside p.writers k inside in
      ground (
        arith,
        at,
        is_empty_inside p.writers k inside,
        length-update_at (key % length p.writers) (post task) p.writers,
        get_elem?-update_at (key % length p.writers) k (post task) p.writers,
        append-nil w.queue,
      )

  run_order :
      (k i : ℕ) (r : Run T) (w : Option (Worker T))
      → get_elem? r.pool.writers i ≡ w
      → (length (run_next i r w).pool.writers ≡ length r.pool.writers)
        × (ran k (run_next i r w).log ++ queue_of k (run_next i r w).pool
            ≡ ran k r.log ++ queue_of k r.pool)
  unfolding run_next ran
  run_order k i r none at = (refl, refl)
  run_order k i r (some w) at = run_worker w.queue refl
    where
      run_worker :
          (queue : List T)
          → w.queue ≡ queue
          → let r' = run_next i r (some (record w { queue = queue })) in
            (length r'.pool.writers ≡ length r.pool.writers)
            × (ran k r'.log ++ queue_of k r'.pool ≡ ran k r.log ++ queue_of k r.pool)
      run_worker [] e = (refl, refl)
      run_worker (task ∷ queue) e =
          let update =
            get_elem?-update_at i k (λ (v : Worker T). record v { queue = queue }) r.pool.writers in
          let logged = ran-append k r.log ((i, task) ∷ []) in
          (
            length-update_at i (λ (v : Worker T). record v { queue = queue }) r.pool.writers,
            elim (Bool-cases (i == k)) [
              | inl same ↦
                  let here : get_elem? r.pool.writers k ≡ some w =
                    sym (ap (get_elem? r.pool.writers) ((==_iff i k).0 same)) ∙ at in
                  ground
                    (arith, update, logged, here, e, append_assoc (ran k r.log) (task ∷ []) queue)
              | inr other ↦ ground (arith, update, logged, append-nil (ran k r.log))
            ],
          )

  post_read-writers : (task : T) (p : WorkerPool T) → (post_read task p).writers ≡ p.writers
  unfolding post_read
  post_read-writers task p = ground arith

  step_order :
      (n k : ℕ) (r : Run T) (e : Event T)
      → length r.pool.writers ≡ n
      → k < n
      → (length (step r e).pool.writers ≡ n)
        × (ran k (step r e).log ++ queue_of k (step r e).pool
            ≡ (ran k r.log ++ queue_of k r.pool) ++ posted n k (e ∷ []))
  unfolding step posted
  step_order n k r (posts key task) size inside =
      let (kept, queued) = post_order k key task r.pool (omega arith) in
      (
        kept ∙ size,
        ap (◌++◌ (ran k r.log)) (rw size at queued)
            ∙ sym
                (append_assoc (ran k r.log) (queue_of k r.pool) (posted n k (posts key task ∷ []))),
      )
  step_order n k r (runs i) size inside =
      let (kept, same) = run_order k i r (get_elem? r.pool.writers i) refl in
      (kept ∙ size, same ∙ sym (append-nil (ran k r.log ++ queue_of k r.pool)))
  step_order n k r (posts_read task) size inside =
      let same = post_read-writers task r.pool in
      (
        ap length same ∙ size,
        ap
              (λ (ws : List (Worker T)).
                ran k r.log ++ (elim (get_elem? ws k) [ none ↦ [] | some worker ↦ worker.queue ]))
              same
            ∙ sym (append-nil (ran k r.log ++ queue_of k r.pool)),
      )
  step_order n k r (runs_read i) size inside =
      (size, sym (append-nil (ran k r.log ++ queue_of k r.pool)))

  posted-cons :
      (n k : ℕ) (e : Event T) (es : List (Event T))
      → posted n k (e ∷ es) ≡ posted n k (e ∷ []) ++ posted n k es
  unfolding posted
  posted-cons n k (posts key task) es = ground arith
  posted-cons n k (runs i) es = refl
  posted-cons n k (posts_read task) es = refl
  posted-cons n k (runs_read i) es = refl

  -- For any events, whatever the order in which the writers run: what writer `k` has run, followed
  -- by what waits in its queue, is what it had run and queued before, followed by exactly the tasks
  -- that were posted since under keys that lead to it, in the order of posting.
  pub run-posted :
      (n k : ℕ) (r : Run T) (es : List (Event T))
      → length r.pool.writers ≡ n
      → k < n
      → ran k (run r es).log ++ queue_of k (run r es).pool
        ≡ (ran k r.log ++ queue_of k r.pool) ++ posted n k es
  unfolding run posted
  run-posted n k r [] size inside = sym (append-nil (ran k r.log ++ queue_of k r.pool))
  run-posted n k r (e ∷ es) size inside =
      let (size', one) = step_order n k r e size inside in
      run-posted n k (step r e) es size' inside
      ∙ ap (λ xs. xs ++ posted n k es) one
      ∙ append_assoc (ran k r.log ++ queue_of k r.pool) (posted n k (e ∷ [])) (posted n k es)
      ∙ ap (◌++◌ (ran k r.log ++ queue_of k r.pool)) (sym (posted-cons n k e es))

  pub run_size :
      (n k : ℕ) (r : Run T) (es : List (Event T))
      → length r.pool.writers ≡ n
      → k < n
      → length (run r es).pool.writers ≡ n
  unfolding run
  run_size n k r [] size inside = size
  run_size n k r (e ∷ es) size inside =
      run_size n k (step r e) es (step_order n k r e size inside).0 inside
