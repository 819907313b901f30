-- ===== src/Cache/Tests.antt =====
-- GameServer/Utils/AuctionCache.cpp with a list of two items.
use j1_server.Prelude.{
  ◌+◌, ◌-◌, ◌≡◌, refl, true, false, some, none, List, [], ◌∷◌, length, ltb, if◌then◌else◌,
}
use j1_server.Prelude.Int.{ℤ, pos}
use j1_server.Packet.Tests.{zeros}
use j1_server.Cache.{
  unknown, new_cache, stale_limit, next32, finish_refresh, validate_purchase, seconds,
}
use j1_server.Cache.Contents.{AuctionItemInfo, Client}
use j1_server.Cache.Verdicts.{expected, counted, validate_purchase-finish_refresh}
use j1_server.Cache.Liveness.{
  World, Event, connected_now, response, timer_fires, timeout_fires, marks_dirty, late_timeout,
  step, run, initial, IsLive, run-connected, step_next_request,
}

-- Two bytes for each item.
abbrev pub client : Client
client = record { protobuf = zeros; res_auction_list = λ mylist items. length items + length items }

abbrev pub item : ℤ → ℤ → ℤ → AuctionItemInfo
item id owner count = record {
  list_id = id;
  player_id = owner;
  receipt_type = pos 0;
  item_id = pos 50;
  count = count;
  price = pos 10;
  expired_at = [];
}

abbrev items : List AuctionItemInfo
items = item (pos 3) (pos 1) (pos 5) ∷ item (pos 8) (pos 2) (pos 1) ∷ []

-- A request for item 3 by player 2, two minutes after the refresh.
validate_purchase-finish_refresh_example :
    let c' = (finish_refresh client 0 1 2 items new_cache).0 in
    let v =
      if ltb (seconds 120 - 0) stale_limit
      then expected (pos 3) (pos 4) (pos 2) items
      else unknown in
    validate_purchase (seconds 120) (pos 3) (pos 4) (pos 2) c' ≡ some (counted v c', v)
validate_purchase-finish_refresh_example =
    validate_purchase-finish_refresh client 0 1 2 (seconds 120) items new_cache (pos 3) (pos 4)
      (pos 2)

-- An answer, a refresh, no answer to it, and a timeout that comes twice.
abbrev events : List Event
events =
    response 5 6 7 1 items
    ∷ timer_fires true (seconds 60) (seconds 60) (seconds 60)
    ∷ marks_dirty (seconds 61) (seconds 61)
    ∷ timeout_fires (seconds 65)
    ∷ late_timeout (seconds 66) 2
    ∷ []

run-connected_example : IsLive (run client (step client initial (connected_now 1 2)) events)
run-connected_example = run-connected client 1 2 events

-- The request is in flight, with its timeout pending.
abbrev waiting : World
waiting = record {
  cache = record {
    snapshot = none;
    in_flight = true;
    refresh_seq = 4;
    dirty = false;
    last_request_at = 1;
    has_timer = true;
    timer_armed = false;
    timer_target = 0;
    hit = 0;
    miss = 0;
    rejected = 0;
  };
  timer = none;
  timeout = some 4;
  sent = 4 ∷ [];
}

waiting-IsLive : IsLive waiting
waiting-IsLive = record { ready = refl; request_waits = refl; timer_waits = tt; goes_on = refl }

step_next_request_example :
    let w'' = step client (step client waiting (timeout_fires 10)) (timer_fires true 20 21 22) in
    (w''.cache.in_flight ≡ true)
    × (w''.cache.refresh_seq ≡ next32 4)
    × (w''.timeout ≡ some (next32 4))
    × (w''.sent ≡ 4 ∷ next32 4 ∷ [])
step_next_request_example = step_next_request client waiting 10 20 21 22 waiting-IsLive
