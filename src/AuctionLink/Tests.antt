-- ===== src/AuctionLink/Tests.antt =====
-- GameServer/AuctionSession.cpp: connecting and disconnecting once.
use j1_server.Prelude.{◌≡◌, true, false, [], ◌∷◌}
use j1_server.Session.{success}
use j1_server.Cache.{Cache, new_cache}
use j1_server.AuctionLink.{new_link}
use j1_server.AuctionLink.Disconnects.{
  connects, disconnects, completes, run, shuts_down, run-shuts_down,
}

abbrev ready : Cache
ready = record new_cache { has_timer = true }

run-shuts_down_example :
    shuts_down (run (new_link ready) (connects ∷ completes success 3 4 ∷ disconnects ∷ [])).1
    ≡ false
run-shuts_down_example = run-shuts_down ready (connects ∷ completes success 3 4 ∷ disconnects ∷ [])
