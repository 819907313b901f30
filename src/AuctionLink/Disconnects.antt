-- ===== src/AuctionLink/Disconnects.antt =====
-- The flag `_connected` of GameServer/AuctionSession.cpp over every sequence of calls.
use j1_server.Prelude.{ℕ, ◌≡◌, refl, Bool, true, false, ◌||◌, List, [], ◌∷◌, ◌++◌, arith}
use j1_server.Session.{ErrorCode, success, failure, async_header_read}
use j1_server.Session as Core
use j1_server.Cache.{Cache, request_refresh}
use j1_server.Cache as Cached
use j1_server.AuctionLink.{
  AuctionLink, Effect, async_connect, shutdown_socket, close_socket, of_session, of_cache, Handled,
  session_effects, cache_effects, new_link, connect, disconnect, on_connect,
}

pub data Call : Type 0 where
  connects disconnects : Call
  completes : ErrorCode → ℕ → ℕ → Call

abbrev pub step : AuctionLink → Call → Handled
step l connects = connect l
step l disconnects = disconnect l
step l (completes err now timeout_now) = on_connect err now timeout_now l

pub run : AuctionLink → List Call → Handled
run l [] = (l, [])
run l (call ∷ calls) =
    let (l', effects) = step l call in let (l'', later) = run l' calls in (l'', effects ++ later)

-- Whether `Disconnect` has shut the socket down.
pub shuts_down : List Effect → Bool
shuts_down [] = false
shuts_down (shutdown_socket ∷ es) = true
shuts_down (close_socket ∷ es) = true
shuts_down (async_connect ∷ es) = shuts_down es
shuts_down (of_session e ∷ es) = shuts_down es
shuts_down (of_cache e ∷ es) = shuts_down es

shuts_down-session_effects :
    (es : List Core.Effect) (rest : List Effect)
    → shuts_down (session_effects es ++ rest) ≡ shuts_down rest
unfolding shuts_down
shuts_down-session_effects [] rest = refl
shuts_down-session_effects (e ∷ es) rest = shuts_down-session_effects es rest

shuts_down-cache_effects :
    (es : List Cached.Effect) (rest : List Effect)
    → shuts_down (cache_effects es ++ rest) ≡ shuts_down rest
unfolding shuts_down
shuts_down-cache_effects [] rest = refl
shuts_down-cache_effects (e ∷ es) rest = shuts_down-cache_effects es rest

shuts_down-append : (xs ys : List Effect) → shuts_down (xs ++ ys) ≡ (shuts_down xs || shuts_down ys)
unfolding shuts_down
shuts_down-append [] ys = refl
shuts_down-append (async_connect ∷ xs) ys = shuts_down-append xs ys
shuts_down-append (shutdown_socket ∷ xs) ys = refl
shuts_down-append (close_socket ∷ xs) ys = refl
shuts_down-append (of_session e ∷ xs) ys = shuts_down-append xs ys
shuts_down-append (of_cache e ∷ xs) ys = shuts_down-append xs ys

step_flag :
    (l : AuctionLink) (call : Call)
    → l.connected ≡ false
    → ((step l call).0.connected ≡ false) × (shuts_down (step l call).1 ≡ false)
unfolding connect disconnect on_connect shuts_down async_header_read
step_flag l connects h = (h, refl)
step_flag l disconnects h = ground (arith, h)
step_flag l (completes failure now timeout_now) h = (h, refl)
step_flag l (completes success now timeout_now) h = (
  h,
  shuts_down-cache_effects (request_refresh true now timeout_now l.cache).1
      (session_effects (async_header_read l.session).1),
)

run_flag :
    (l : AuctionLink) (calls : List Call) → l.connected ≡ false → shuts_down (run l calls).1 ≡ false
unfolding run shuts_down
run_flag l [] h = refl
run_flag l (call ∷ calls) h =
    let (flag, quiet) = step_flag l call h in
    ground (
      arith,
      quiet,
      run_flag (step l call).0 calls flag,
      shuts_down-append (step l call).1 (run (step l call).0 calls).1,
    )

-- Whatever calls of `Connect` and `Disconnect` are made on a new connection, and however its
-- connection attempts end, `Disconnect` never shuts the socket down or closes it.
pub run-shuts_down :
    (cache : Cache) (calls : List Call) → shuts_down (run (new_link cache) calls).1 ≡ false
unfolding new_link
run-shuts_down cache calls = run_flag (new_link cache) calls refl
