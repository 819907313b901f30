-- ===== src/AuctionServer/Connections.antt =====
-- The connections that the workers of AuctionServer/AuctionWorkerPool.cpp hold, from `Start` to `Stop`.
use mathlib.Core.Path.{subst}
use j1_server.Prelude.{
  ℕ, zero, suc, ◌+◌, ◌≤◌, ◌≡◌, ◌≢◌, refl, sym, Bool, true, false, none, some, List, [], ◌∷◌, length,
  arith, All,
}
use j1_server.WorkerPool.{Pool, Name, Worker, Spawned, spawn, add_worker, spawn_all, unborrow_all}

-- What a connection pool does: a free connection is lent, and one that is given back is free. `Lent` are the
-- connections in use; none of them is dropped without being given back, so that none is replaced.
pub record Lends (pool : Pool) : Type 1 where
  pub free : pool.State → ℕ
  pub Lent : ℕ → pool.State → Type 0
  pub borrow_none : (s : pool.State) → free s ≡ 0 → pool.borrow s ≡ none
  pub borrow_some :
      (s : pool.State) (n : ℕ)
      → free s ≡ suc n
      → (c : ℕ) × (s' : pool.State) × (pool.borrow s ≡ some (c, s'))
        × (free s' ≡ n)
        × Lent c s'
        × (¬ Lent c s)
        × ((d : ℕ) → Lent d s → Lent d s')
  pub unborrow_lent :
      (s : pool.State) (c : ℕ)
      → Lent c s
      → (free (pool.unborrow c s) ≡ free s + 1)
        × ((d : ℕ) → d ≢ c → Lent d s → Lent d (pool.unborrow c s))

-- The connections of the workers.
abbrev pub conns : {T : Type 0} → List (Worker T) → List ℕ
conns [] = []
conns (worker ∷ workers) = worker.conn ∷ conns workers

abbrev pub Distinct : List ℕ → Type 0
Distinct [] = Unit
Distinct (c ∷ cs) = All (λ d. d ≢ c) cs × Distinct cs

pub All-map : {P Q : ℕ → Type 0} (cs : List ℕ) → ((c : ℕ) → P c → Q c) → All P cs → All Q cs
All-map [] h all = tt
All-map (c ∷ cs) h all = (h c all.0, All-map cs h all.1)

pub All-move :
    {P Q R : ℕ → Type 0} (cs : List ℕ)
    → ((c : ℕ) → P c → Q c → R c)
    → All P cs
    → All Q cs
    → All R cs
All-move [] h ps qs = tt
All-move (c ∷ cs) h ps qs = (h c ps.0 qs.0, All-move cs h ps.1 qs.1)

module _ (pool : Pool) (lends : Lends pool) {T : Type 0} where
  open pool use {State, borrow, unborrow}
  open lends use {free, Lent, borrow_none, borrow_some, unborrow_lent}

  -- What a loop of `Start` leads to, from the state `s` on.
  pub record IsSpawned (n : ℕ) (s : State) (made : Spawned State T) : Type 0 where
    pub taken : free s ≡ free made.1 + length made.0
    pub most : length made.0 ≤ n
    pub held : All (λ c. Lent c made.1) (conns made.0)
    pub new : All (λ c. ¬ Lent c s) (conns made.0)
    pub distinct : Distinct (conns made.0)
    pub still : (d : ℕ) → Lent d s → Lent d made.1
    pub idle : All (λ w. w.queue ≡ []) made.0
    pub enough : n ≤ free s → made.2 ≡ true

  -- One worker more, where `borrow` gives a connection.
  add_worker-IsSpawned :
      (n c : ℕ) (name : Name) (s s' : State) (more : State → Spawned State T)
      → free s ≡ suc (free s')
      → Lent c s'
      → (¬ Lent c s)
      → ((d : ℕ) → Lent d s → Lent d s')
      → IsSpawned n s' (more s')
      → IsSpawned
          (suc n)
          s
          (add_worker pool (some (record { name = name; conn = c; queue = [] }, s')) s more)
  unfolding add_worker
  add_worker-IsSpawned n c name s s' more one lent fresh kept v = record {
    taken = omega arith;
    most = omega arith;
    held = (v.still c lent, v.held);
    new = (fresh, All-map (conns (more s').0) (λ d not_lent h. not_lent (kept d h)) v.new);
    distinct = (
      All-map (conns (more s').0) (λ d not_lent h. not_lent (subst (λ e. Lent e s') (sym h) lent))
          v.new,
      v.distinct,
    );
    still = λ d h. v.still d (kept d h);
    idle = (refl, v.idle);
    enough = λ h. v.enough (omega arith);
  }

  spawn-none : (name : Name) (s : State) → borrow s ≡ none → spawn pool {T = T} name s ≡ none
  unfolding spawn
  spawn-none name s e = ground (arith, e)

  spawn-some :
      (name : Name) (s s' : State) (c : ℕ)
      → borrow s ≡ some (c, s')
      → spawn pool {T = T} name s ≡ some (record { name = name; conn = c; queue = [] }, s')
  unfolding spawn
  spawn-some name s s' c e = ground (arith, e)

  none-IsSpawned :
      (n : ℕ) (s : State) (done : Bool) → (n ≤ free s → done ≡ true) → IsSpawned n s ([], s, done)
  none-IsSpawned n s done h = record {
    taken = omega arith;
    most = omega arith;
    held = tt;
    new = tt;
    distinct = tt;
    still = λ d h. h;
    idle = tt;
    enough = h;
  }

  pub spawn_all-IsSpawned :
      (name : ℕ → Name) (i n : ℕ) (s : State) → IsSpawned n s (spawn_all pool name i n s)
  unfolding spawn_all spawn add_worker
  spawn_all-IsSpawned name i zero s = none-IsSpawned zero s true (λ h. refl)
  spawn_all-IsSpawned name i (suc n) s =
      by_free (spawn_all pool name (i + 1) n) (spawn_all-IsSpawned name (i + 1) n) (free s) refl
    where
      by_free :
          (more : State → Spawned State T)
          → ((t : State) → IsSpawned n t (more t))
          → (m : ℕ) → free s ≡ m
          → IsSpawned (suc n) s (add_worker pool (spawn pool (name i) s) s more)
      by_free more v zero e =
          rw (spawn-none (name i) s (borrow_none s e))
            (none-IsSpawned (suc n) s false (λ h. absurd (omega arith)))
      by_free more v (suc m) e =
          let (c, s', given, left, lent, fresh, kept) = borrow_some s m e in
          rw (spawn-some (name i) s s' c given)
            (add_worker-IsSpawned n c (name i) s s' more (omega arith) lent fresh kept (v s'))

  -- The loops of `Stop` free the connections of the workers, and leave the other ones that are lent.
  pub unborrow_all-free :
      (ws : List (Worker T)) (s : State)
      → All (λ c. Lent c s) (conns ws)
      → Distinct (conns ws)
      → (free (unborrow_all pool ws s) ≡ free s + length ws)
        × ((d : ℕ) → All (λ c. d ≢ c) (conns ws) → Lent d s → Lent d (unborrow_all pool ws s))
  unfolding unborrow_all
  unborrow_all-free [] s held distinct = (omega arith, λ d apart lent. lent)
  unborrow_all-free (w ∷ ws) s held distinct =
      let (one, rest_lent) = unborrow_lent s w.conn held.0 in
      let (all, others) =
        unborrow_all-free ws (unborrow w.conn s) (All-move (conns ws) rest_lent distinct.0 held.1)
          distinct.1 in
      (omega arith, λ d apart lent. others d apart.1 (rest_lent d apart.0 lent))
