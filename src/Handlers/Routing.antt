-- ===== src/Handlers/Routing.antt =====
-- The way of a request from GameServer/Network/Handlers/AuctionPacketHandler.cpp through the auction
-- server's workers and back through AuctionServerPacketHandler.cpp: who gets the answer.
use j1_server.Prelude.{
  ℕ, ◌+◌, ◌^◌, ◌≤◌, ◌<◌, ◌≡◌, refl, ap, ◌∙◌, Bool, true, false, some, List, [], ◌∷◌, ◌++◌,
  append-nil, arith, ◌==◌,
}
use j1_server.Prelude.Int.{ℤ, pos, eq_ℤ}
use j1_server.SessionManager.{SessionManager, find}
use j1_server.Cache.{
  Cache, Effect, send_request, await_timeout, request_timeout, next32, request_refresh,
  on_refresh_response, finish_refresh,
}
use j1_server.Cache.Contents.{AuctionItemInfo, Client}
use j1_server.Sql.{ok, Connection}
use j1_server.AuctionService.{get_listings, get_receipts}
use j1_server.Handlers.{
  Request, Response, ClientPacket, client_auction_list, client_receipt_list, to_int64, to_int,
  to_uint64,
}
use j1_server.Handlers.Game.{
  Sent, to_auction, to_client, shared_to_client, ClientSession, handle_req_auction_list,
  handle_req_receipt_list, cache_request, requests_of, deliver, handle_response,
}
use j1_server.Handlers.Auction.{run_task}

pub to_uint64-to_int64 : (id : ℕ) → id < 2 ^ 64 → to_uint64 (to_int64 id) ≡ id
to_uint64-to_int64 id h = ground arith

to_int64_nonzero : (id : ℕ) → 1 ≤ id → id < 2 ^ 64 → eq_ℤ (to_int64 id) (pos 0) ≡ false
to_int64_nonzero id h k = ground arith

-- The readings of the clock that the cache makes.
pub record Clock : Type 0 where
  pub fetched_at : ℕ
  pub now : ℕ
  pub arm_now : ℕ

-- What the game server is left with and has sent, and the database of the auction server.
abbrev pub Outcome : Type 0 → Type 0
Outcome S = (Cache × List Effect × List Sent) × S

module _ (client : Client) (alive : ℕ → Bool) (m : SessionManager) (c : Connection)
    (clock : Clock) where
  open c use {State}

  pub deliver_found :
      (id handle : ℕ) (packet : ClientPacket)
      → find alive id m ≡ some handle
      → deliver alive m id packet ≡ to_client handle packet ∷ []
  unfolding deliver
  deliver_found id handle packet found = ground (arith, found)

  -- The answers of the auction server, handled by the game server one after another.
  unfoldable pub handle_responses : List Response → Cache → Cache × List Effect × List Sent
  handle_responses [] cache = (cache, [], [])
  handle_responses (response ∷ responses) cache =
      let (cache', effects, sent) =
        handle_response alive m client clock.fetched_at clock.now clock.arm_now response cache in
      let (cache'', effects', sent') = handle_responses responses cache' in
      (cache'', effects ++ effects', sent ++ sent')

  -- A request to the auction server, the run of its task, and the handling of the answers.
  unfoldable pub round_trip : Request → State → Cache → Outcome State
  unfolding handle_responses
  round_trip request s cache =
      let (responses, s') = run_task c request s in (handle_responses responses cache, s')

  -- What becomes of the packets that a handler sends: the requests make their round trip.
  unfoldable pub send_all : List Sent → State → Cache → Outcome State
  unfolding round_trip
  send_all [] s cache = ((cache, [], []), s)
  send_all (to_auction request ∷ sent) s cache =
      let ((cache', effects, back), s') = round_trip request s cache in
      let ((cache'', effects', back'), s'') = send_all sent s' cache' in
      ((cache'', effects ++ effects', back ++ back'), s'')
  send_all (to_client handle packet ∷ sent) s cache =
      let ((cache', effects, back), s') = send_all sent s cache in
      ((cache', effects, to_client handle packet ∷ back), s')
  send_all (shared_to_client handle buffer ∷ sent) s cache =
      let ((cache', effects, back), s') = send_all sent s cache in
      ((cache', effects, shared_to_client handle buffer ∷ back), s')

  -- A client asks for its own listings, or for its receipts, from a session that the manager knows
  -- under its id, while the game server is connected: where the database answers the query, exactly
  -- that session gets exactly one packet, with the rows of the answer; the cache stays as it is. The
  -- listings are those of the player whose number is the `int` that the client's `uint64` becomes, the
  -- receipts those of the number as it is.
  pub handle_req_list-send_all :
      (session : ClientSession) (player_id : ℤ) (search_item : List ℕ) (now : ℕ) (cache : Cache)
      (s s1 s2 : State) (listed received : List AuctionItemInfo)
      → find alive session.session_id m ≡ some session.handle
      → 1 ≤ session.session_id
      → session.session_id < 2 ^ 64
      → get_listings c true (to_int player_id) s ≡ (ok listed, s1)
      → get_receipts c player_id s ≡ (ok received, s2)
      → (send_all
            (handle_req_auction_list true now session player_id search_item true cache).2
            s
            cache
          ≡ ((cache, [], to_client session.handle (client_auction_list true listed) ∷ []), s1))
        × (send_all (handle_req_receipt_list true session player_id).1 s cache
            ≡ ((cache, [], to_client session.handle (client_receipt_list received) ∷ []), s2))
  unfolding send_all handle_req_auction_list handle_req_receipt_list run_task handle_response
  handle_req_list-send_all session player_id search_item now cache s s1 s2 listed received found low
        high query query' =
      let back = to_uint64-to_int64 session.session_id high in
      let other = to_int64_nonzero session.session_id low high in
      (
        rw
            (
              query,
              other,
              back,
              deliver_found session.session_id session.handle (client_auction_list true listed)
                  found,
            )
            refl,
        rw
            (
              query',
              back,
              deliver_found session.session_id session.handle (client_receipt_list received) found,
            )
            refl,
      )

  -- One answer, and nothing else sent: no effects and no packets besides.
  nothing_more :
      (refreshed : Cache) (effects : List Effect) (s : State)
      → (let out : Outcome State = ((refreshed, (effects ++ []) ++ [], []), s) in out)
        ≡ ((refreshed, effects, []), s)
  nothing_more refreshed effects s =
      ap (λ es. ((refreshed, es, []), s)) (append-nil (effects ++ []) ∙ append-nil effects)

  -- The way of a request that is in flight.
  cache_request-send_all :
      (asked : Cache) (s s' : State) (items : List AuctionItemInfo)
      → asked.in_flight ≡ true
      → get_listings c false (pos 0) s ≡ (ok items, s')
      → let (refreshed, effects) =
          finish_refresh client clock.fetched_at clock.now clock.arm_now items asked in
        send_all (to_auction (cache_request asked.refresh_seq) ∷ []) s asked
        ≡ ((refreshed, effects, []), s')
  unfolding send_all cache_request run_task handle_response on_refresh_response
  cache_request-send_all asked s s' items flying query =
      let same : (asked.refresh_seq == asked.refresh_seq) ≡ true = ground arith in
      let (refreshed, effects) =
        finish_refresh client clock.fetched_at clock.now clock.arm_now items asked in
      simp (query, flying, same) (nothing_more refreshed effects s')

  request_refresh_idle :
      (now timeout_now : ℕ) (cache : Cache)
      → cache.in_flight ≡ false
      → cache.has_timer ≡ true
      → let seq = next32 cache.refresh_seq in
        request_refresh true now timeout_now cache ≡ (
          record cache { in_flight = true; refresh_seq = seq; last_request_at = now },
          send_request seq ∷ await_timeout (timeout_now + request_timeout) seq ∷ [],
        )
  unfolding request_refresh
  request_refresh_idle now timeout_now cache idle ready = ground (arith, idle, ready)

  -- A refresh that is asked for while no request is in flight, of a game server that is connected: what
  -- it sends makes its way through the auction server and back, and where the database answers the
  -- query, the cache finishes its refresh with the rows of the answer, and no client is sent anything.
  pub request_refresh-send_all :
      (now timeout_now : ℕ) (cache : Cache) (s s' : State) (items : List AuctionItemInfo)
      → cache.in_flight ≡ false
      → cache.has_timer ≡ true
      → get_listings c false (pos 0) s ≡ (ok items, s')
      → let (asked, asks) = request_refresh true now timeout_now cache in
        let (refreshed, effects) =
          finish_refresh client clock.fetched_at clock.now clock.arm_now items asked in
        send_all (requests_of asks) s asked ≡ ((refreshed, effects, []), s')
  unfolding requests_of
  request_refresh-send_all now timeout_now cache s s' items idle ready query =
      let asked : Cache = record cache {
        in_flight = true;
        refresh_seq = next32 cache.refresh_seq;
        last_request_at = now;
      } in
      rw (request_refresh_idle now timeout_now cache idle ready)
        (cache_request-send_all asked s s' items refl query)
