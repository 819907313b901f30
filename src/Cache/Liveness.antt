-- ===== src/Cache/Liveness.antt =====
-- The refresh cycle of GameServer/Utils/AuctionCache.cpp against its two timers: once started, it
-- never stops, whatever the auction server answers and whenever the handlers run.
use j1_server.Prelude.{
  ℕ, ◌≡◌, Bool, true, false, ◌||◌, Option, none, some, List, [], ◌∷◌, ◌++◌, arith, if◌then◌else◌,
}
use j1_server.Cache.Contents.{AuctionItemInfo, Client}
use j1_server.Cache.{
  Cache, Effect, send_request, await_timeout, cancel_timeout, await_timer, Handled, new_cache, init,
  next32, request_refresh, mark_dirty, on_refresh_response, on_timeout, on_timer,
}

-- The cache with the pending waits on its timers, the appointment of the refresh timer and the
-- sequence number of the timeout timer, and the numbers of the requests that it has sent.
pub record World : Type 0 where
  pub cache : Cache
  pub timer : Option ℕ
  pub timeout : Option ℕ
  pub sent : List ℕ

-- Setting a timer again cancels the wait that was pending.
abbrev start : Effect → World → World
start (send_request seq) w = record w { sent = w.sent ++ seq ∷ [] }
start (await_timeout at seq) w = record w { timeout = some seq }
start cancel_timeout w = record w { timeout = none }
start (await_timer target) w = record w { timer = some target }

abbrev starts : List Effect → World → World
starts [] w = w
starts (e ∷ es) w = starts es (start e w)

abbrev after : World → Handled → World
after w (c, effects) = starts effects (record w { cache = c })

-- What runs on the auction thread, with the readings of the clock that the handler makes. A `late`
-- handler was queued as run out before its timer was set again.
pub data Event : Type 0 where
  connected_now : ℕ → ℕ → Event
  response : ℕ → ℕ → ℕ → ℕ → List AuctionItemInfo → Event
  marks_dirty : ℕ → ℕ → Event
  timer_fires late_timer : Bool → ℕ → ℕ → ℕ → Event
  timeout_fires : ℕ → Event
  late_timeout : ℕ → ℕ → Event

module _ (client : Client) where
  pub step : World → Event → World
  step w (connected_now now timeout_now) = after w (request_refresh true now timeout_now w.cache)
  step w (response fetched_at now arm_now request_id items) =
      after w (on_refresh_response client fetched_at now arm_now request_id items w.cache)
  step w (marks_dirty now arm_now) = after w (mark_dirty now arm_now w.cache)
  step w (timer_fires connected now timeout_now arm_now) = elim w.timer [
    | none ↦ w
    | some target ↦
        after (record w { timer = none }) (on_timer connected false now timeout_now arm_now w.cache)
  ]
  step w (late_timer connected now timeout_now arm_now) =
      after w (on_timer connected false now timeout_now arm_now w.cache)
  step w (timeout_fires arm_now) = elim w.timeout [
    | none ↦ w
    | some seq ↦ after (record w { timeout = none }) (on_timeout false arm_now seq w.cache)
  ]
  step w (late_timeout arm_now seq) = after w (on_timeout false arm_now seq w.cache)

  pub run : World → List Event → World
  run w [] = w
  run w (e ∷ es) = run (step w e) es

abbrev Waits : Bool → Option ℕ → ℕ → Type 0
Waits false pending n = Unit
Waits true pending n = pending ≡ some n

-- A request in flight has its timeout pending, an armed timer its wait, and one of the two holds.
pub record IsLive (w : World) : Type 0 where
  pub ready : w.cache.has_timer ≡ true
  pub request_waits : Waits w.cache.in_flight w.timeout w.cache.refresh_seq
  pub timer_waits : Waits w.cache.timer_armed w.timer w.cache.timer_target
  pub goes_on : (w.cache.in_flight || w.cache.timer_armed) ≡ true

module _ (client : Client) where
  step-IsLive : (w : World) (e : Event) → IsLive w → IsLive (step client w e)
  unfolding step request_refresh mark_dirty on_refresh_response on_timer on_timeout
  step-IsLive w (connected_now now timeout_now) v = ground arith
  step-IsLive w (response fetched_at now arm_now request_id items) v = ground arith
  step-IsLive w (marks_dirty now arm_now) v = ground arith
  step-IsLive w (timer_fires connected now timeout_now arm_now) v = ground arith
  step-IsLive w (late_timer connected now timeout_now arm_now) v = ground arith
  step-IsLive w (timeout_fires arm_now) v = ground arith
  step-IsLive w (late_timeout arm_now seq) v = ground arith

  run-IsLive : (w : World) (es : List Event) → IsLive w → IsLive (run client w es)
  unfolding run
  run-IsLive w [] v = v
  run-IsLive w (e ∷ es) v = run-IsLive (step client w e) es (step-IsLive w e v)

-- `main`: the timers are made before the connection is tried.
pub initial : World
unfolding init new_cache
initial = record { cache = init new_cache; timer = none; timeout = none; sent = [] }

connected-IsLive :
    (client : Client) (now timeout_now : ℕ)
    → IsLive (step client initial (connected_now now timeout_now))
unfolding step initial request_refresh
connected-IsLive client now timeout_now = ground arith

module _ (client : Client) where
  -- Once the game server has connected to the auction server, the refresh cycle is live after every
  -- sequence of answers, changes, timers and timeouts, also of handlers that run late: a request in
  -- flight has a timeout pending that carries its number, an armed timer has its wait pending, and
  -- at least one of the two is there.
  pub run-connected :
      (now timeout_now : ℕ) (es : List Event)
      → IsLive (run client (step client initial (connected_now now timeout_now)) es)
  run-connected now timeout_now es =
      run-IsLive client (step client initial (connected_now now timeout_now)) es
        (connected-IsLive client now timeout_now)

  -- From every live state, while the game server is connected, two firings of what is pending suffice
  -- for a new request: the timeout of a request that gets no answer, then the refresh timer. They send
  -- exactly one request, with the next number; it is then in flight with its timeout pending.
  pub step_next_request :
      (w : World) (t now timeout_now arm_now : ℕ)
      → IsLive w
      → let w' = if w.cache.in_flight then step client w (timeout_fires t) else w in
        let w'' = step client w' (timer_fires true now timeout_now arm_now) in
        (w''.cache.in_flight ≡ true)
        × (w''.cache.refresh_seq ≡ next32 w.cache.refresh_seq)
        × (w''.timeout ≡ some (next32 w.cache.refresh_seq))
        × (w''.sent ≡ w.sent ++ next32 w.cache.refresh_seq ∷ [])
  unfolding step on_timer on_timeout
  step_next_request w t now timeout_now arm_now v = ground arith
