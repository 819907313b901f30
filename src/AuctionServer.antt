-- ===== src/AuctionServer.antt =====
-- AuctionServer/AuctionServer.cpp: `main`, which starts the workers of AuctionServer/AuctionWorkerPool.cpp,
-- lets `io_context::run` take the requests, and stops the workers, also after an exception; and the loop that
-- accepts connections. The pool of connections is a parameter, already filled by `Init`.
pub mod Connections
pub mod Holding
pub mod Shutdown
pub mod Accepts
mod Tests
use j1_server.Prelude.{ℕ, ◌+◌, Bool, true, false, List, [], if◌then◌else◌}
use j1_server.WorkerPool.{Pool, WorkerPool, new_pool, start, stop}
use j1_server.WorkerPool.Order.{Event, Run, run}

-- `kReadWorkers`, `kWriteWorkers` and `kSpareConnections`
abbrev pub read_workers : ℕ
read_workers = 1

abbrev pub write_workers : ℕ
write_workers = 20

abbrev pub spare_connections : ℕ
spare_connections = 2

-- The size of the pool that `main` makes.
abbrev pub pool_size : ℕ
pool_size = read_workers + write_workers + spare_connections

-- `main` after `Start` with what that has made, and whether it returned: `events` is what happens to the
-- workers until `io_context::run` returns or throws, and nothing does where `Start` has thrown. The result is
-- the pool after `Stop` with what its writers ran before, the connections, and the tasks that `Stop` lets each
-- worker finish.
unfoldable pub serve_and_stop :
    (pool : Pool) {T : Type 0}
    → List (Event T)
    → WorkerPool T × pool.State × Bool
    → Run T × pool.State × List (List T)
unfolding run stop
serve_and_stop pool {T} events (p, s, made) =
    let started : Run T = record { pool = p; log = [] } in
    let served : Run T = if made then run started events else started in
    let (p', s', finished) = stop pool served.pool s in (record served { pool = p' }, s', finished)

-- `main`, once the pool of connections is there.
unfoldable pub main :
    (pool : Pool) {T : Type 0} → List (Event T) → pool.State → Run T × pool.State × List (List T)
unfolding serve_and_stop start new_pool
main pool events s = serve_and_stop pool events (start pool read_workers write_workers new_pool s)
