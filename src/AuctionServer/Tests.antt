-- ===== src/AuctionServer/Tests.antt =====
-- `main` of AuctionServer/AuctionServer.cpp with a pool that counts its free connections and numbers those
-- that it lends.
use j1_server.Prelude.{
  ℕ, zero, suc, ◌+◌, ◌<◌, ◌≤◌, ◌≡◌, refl, true, Option, none, some, List, [], ◌∷◌, ◌++◌, get_elem?,
  arith,
}
use j1_server.WorkerPool.{Pool, new_pool, start}
use j1_server.WorkerPool.Order.{Event, posts, runs, posts_read, runs_read, ran, posted}
use j1_server.Session.{success, failure}
use j1_server.AuctionServer.{main, read_workers, write_workers, spare_connections}
use j1_server.AuctionServer.Connections.{Lends}
use j1_server.AuctionServer.Shutdown.{main-free, main-posted}
use j1_server.AuctionServer.Accepts.{
  start_accept, accept_all, connected, at_accept, accept_all-connected,
}

borrow_next : ℕ × ℕ → Option (ℕ × (ℕ × ℕ))
borrow_next (zero, next) = none
borrow_next (suc n, next) = some (next, (n, next + 1))

abbrev counted : ℕ → ℕ → ℕ × ℕ
counted n next = (n, next)

abbrev numbering : Pool
numbering = record { State = ℕ × ℕ; borrow = borrow_next; unborrow = λ _ s. counted (s.0 + 1) s.1 }

numbering-Lends : Lends numbering
unfolding borrow_next
numbering-Lends = record {
  free = λ s. s.0;
  Lent = λ c s. c < s.1;
  borrow_none = λ s e. no_more s e;
  borrow_some = λ s n e. one_less s n e;
  unborrow_lent = λ s c lent. (refl, λ d apart kept. kept);
}
  where
    no_more : (s : ℕ × ℕ) → s.0 ≡ 0 → borrow_next s ≡ none
    no_more (zero, next) e = refl
    no_more (suc n, next) e = absurd (omega arith)

    one_less :
        (s : ℕ × ℕ) (n : ℕ)
        → s.0 ≡ suc n
        → (c : ℕ) × (s' : ℕ × ℕ) × (borrow_next s ≡ some (c, s'))
          × (s'.0 ≡ n)
          × (c < s'.1)
          × (¬ (c < s.1))
          × ((d : ℕ) → d < s.1 → d < s'.1)
    one_less (zero, next) n e = absurd (omega arith)
    one_less (suc m, next) n e =
        (next, (m, next + 1), refl, omega arith, omega arith, λ h. omega arith, λ d h. omega arith)

-- Keys 3 and 23 lead to writer 3.
abbrev events : List (Event ℕ)
events = posts 3 100 ∷ posts_read 7 ∷ posts 4 101 ∷ posts 23 102 ∷ runs 3 ∷ runs_read 0 ∷ []

-- With too few connections `Start` throws.
main-free_example : (main numbering events (counted 5 0)).1.0 ≡ 5
unfolding numbering-Lends
main-free_example = main-free numbering numbering-Lends events (counted 5 0)

main-posted_example :
    let (p, s', made) =
      start numbering {T = ℕ} read_workers write_workers new_pool (counted 23 0) in
    let (served, s'', finished) = main numbering events (counted 23 0) in
    (made ≡ true)
    × (◌≡◌ {A = ℕ} 23 (s'.0 + read_workers + write_workers))
    × (spare_connections ≤ s'.0)
    × (queue : List ℕ) × (get_elem? finished (read_workers + 3) ≡ some queue)
    × (ran 3 served.log ++ queue ≡ posted write_workers 3 events)
unfolding numbering-Lends
main-posted_example =
    main-posted numbering numbering-Lends events (counted 23 0) 3 (omega arith) (omega arith)

two_connect :
    accept_all
      (success ∷ failure ∷ success ∷ [])
      (start_accept (record { sessions = []; accepting = []; next_handle = 0 }))
    ≡ at_accept (connected 0 (success ∷ failure ∷ success ∷ [])) 3
two_connect = accept_all-connected (success ∷ failure ∷ success ∷ [])
