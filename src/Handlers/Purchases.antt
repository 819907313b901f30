-- ===== src/Handlers/Purchases.antt =====
-- Purchases on their way from GameServer/Network/Handlers/AuctionPacketHandler.cpp through the auction
-- server and back: the precheck, the purchase and the one answer.
use j1_server.Prelude.{
  ℕ, ◌+◌, ◌-◌, ◌^◌, ◌<◌, ◌≡◌, refl, ap, ◌∙◌, Bool, true, false, some, List, [], ◌∷◌, ◌++◌, arith,
  append-nil, ltb, if◌then◌else◌,
}
use j1_server.Prelude.Int.{pos}
use j1_server.SessionManager.{SessionManager, find}
use j1_server.Cache.{
  Cache, Effect, Verdict, pass, unknown, reject_not_found, reject_shortage, reject_own, stale_limit,
  finish_refresh, validate_purchase,
}
use j1_server.Cache.Contents.{AuctionItemInfo, Client}
use j1_server.Cache.Verdicts.{rejects, expected, counted, validate_purchase-finish_refresh}
use j1_server.Sql.{Connection}
use j1_server.AuctionService.{purchase}
use j1_server.Handlers.{
  req_purchase_item, ClientPacket, client_purchase_item, to_int64, to_int, to_uint64,
}
use j1_server.Handlers.Game.{
  forward, Sent, to_client, ClientSession, is_rejected, answer_purchase, handle_req_purchase_item,
  deliver, handle_response,
}
use j1_server.Handlers.Auction.{run_task}
use j1_server.Handlers.Routing.{Clock, send_all, deliver_found}

to_uint64-to_int : (id : ℕ) → id < 2 ^ 31 → to_uint64 (to_int (to_int64 id)) ≡ id
to_uint64-to_int id h = ground arith

to_int_high : (j : ℕ) → j < 2 ^ 31 → to_uint64 (to_int (to_int64 (2 ^ 32 + j))) ≡ j
to_int_high j h = ground arith

module _ (client : Client) (alive : ℕ → Bool) (m : SessionManager) (c : Connection)
    (clock : Clock) where
  open c use {State}

  -- What a client gets for a purchase, and the database after it: nothing is asked of the auction
  -- server where the verdict is a rejection.
  abbrev pub purchased : Verdict → AuctionItemInfo → State → ClientPacket × State
  purchased v info s =
      if rejects v
      then (client_purchase_item false (pos 0), s)
      else let (bought, s') = purchase c info s in
        (client_purchase_item bought.success bought.total_price, s')

  forward-send_all :
      (session : ClientSession) (info : AuctionItemInfo) (cache : Cache) (s : State)
      → find alive session.session_id m ≡ some session.handle
      → session.session_id < 2 ^ 31
      → let (bought, s') = purchase c info s in
        send_all client alive m c clock
          (forward true (req_purchase_item (to_int64 session.session_id) (info ∷ [])))
          s
          cache
        ≡ (
          (
            cache,
            [],
            to_client session.handle (client_purchase_item bought.success bought.total_price) ∷ [],
          ),
          s',
        )
  unfolding send_all forward run_task handle_response
  forward-send_all session info cache s found low =
      let (bought, s') = purchase c info s in
      rw
        (
          to_uint64-to_int session.session_id low,
          deliver_found client alive m c clock session.session_id session.handle
              (client_purchase_item bought.success bought.total_price) found,
        )
        refl

  answer_purchase-send_all :
      (session : ClientSession) (info : AuctionItemInfo) (v : Verdict) (cache : Cache) (s : State)
      → find alive session.session_id m ≡ some session.handle
      → session.session_id < 2 ^ 31
      → let (packet, s') = purchased v info s in
        send_all client alive m c clock (answer_purchase true session info (cache, v)).2 s cache
        ≡ ((cache, [], to_client session.handle packet ∷ []), s')
  unfolding send_all answer_purchase is_rejected
  answer_purchase-send_all session info pass cache s found low =
      forward-send_all session info cache s found low
  answer_purchase-send_all session info unknown cache s found low =
      forward-send_all session info cache s found low
  answer_purchase-send_all session info reject_not_found cache s found low = refl
  answer_purchase-send_all session info reject_shortage cache s found low = refl
  answer_purchase-send_all session info reject_own cache s found low = refl

  answer_purchase_lem :
      (session : ClientSession) (info : AuctionItemInfo) (v : Verdict) (cache : Cache)
      → answer_purchase true session info (cache, v)
        ≡ (true, cache, (answer_purchase true session info (cache, v)).2)
  unfolding answer_purchase
  answer_purchase_lem session info v cache = ground arith

  handle_judged :
      (session : ClientSession) (info : AuctionItemInfo) (infos : List AuctionItemInfo) (later : ℕ)
      (cache : Cache) (answer : Cache × Verdict)
      → validate_purchase later info.list_id info.count info.player_id cache ≡ some answer
      → handle_req_purchase_item true later session (info ∷ infos) cache
        ≡ some (answer_purchase true session info answer)
  unfolding handle_req_purchase_item
  handle_judged session info infos later cache answer judged =
      rw (handle_req_purchase_item, judged) refl

  -- A client asks for a purchase from a session that the manager knows under an id below 2^31, while
  -- the game server is connected and its cache holds the list of a refresh. Exactly that session
  -- gets exactly one packet, whatever the database does. Where the plain search of the list
  -- rejects the purchase while the list is fresh, the packet says that it failed and the database
  -- is left alone; otherwise the packet and the database are those of one call of `Purchase`.
  pub handle_req_purchase_item-send_all :
      (session : ClientSession) (info : AuctionItemInfo) (infos : List AuctionItemInfo) (later : ℕ)
      (items : List AuctionItemInfo) (cache : Cache) (s : State)
      → find alive session.session_id m ≡ some session.handle
      → session.session_id < 2 ^ 31
      → let c' = (finish_refresh client clock.fetched_at clock.now clock.arm_now items cache).0 in
        let v =
          if ltb (later - clock.fetched_at) stale_limit
          then expected info.list_id info.count info.player_id items
          else unknown in
        let (packet, s') = purchased v info s in
        (sent : List Sent) × (handle_req_purchase_item true later session (info ∷ infos) c'
          ≡ some (true, counted v c', sent))
        × (send_all client alive m c clock sent s (counted v c')
            ≡ ((counted v c', [], to_client session.handle packet ∷ []), s'))
  handle_req_purchase_item-send_all session info infos later items cache s found low =
      let c' = (finish_refresh client clock.fetched_at clock.now clock.arm_now items cache).0 in
      let v =
        if ltb (later - clock.fetched_at) stale_limit
        then expected info.list_id info.count info.player_id items
        else unknown in
      let judged =
        validate_purchase-finish_refresh client clock.fetched_at clock.now clock.arm_now later items
          cache info.list_id info.count info.player_id in
      (
        (answer_purchase true session info (counted v c', v)).2,
        handle_judged session info infos later c' (counted v c', v) judged
            ∙ ap some (answer_purchase_lem session info v (counted v c')),
        answer_purchase-send_all session info v (counted v c') s found low,
      )

  -- The class of ids that the code gets wrong: the answer to a purchase that is asked for from the
  -- session 2^32 + j, with j below 2^31, goes to the session with the id j, if there is one.
  pub handle_req_purchase_item_high :
      (session : ClientSession) (j : ℕ) (info : AuctionItemInfo) (v : Verdict) (cache : Cache)
      (s : State)
      → session.session_id ≡ 2 ^ 32 + j
      → j < 2 ^ 31
      → is_rejected v ≡ false
      → let (bought, s') = purchase c info s in
        send_all client alive m c clock (answer_purchase true session info (cache, v)).2 s cache ≡ (
          (cache, [], deliver alive m j (client_purchase_item bought.success bought.total_price)),
          s',
        )
  unfolding send_all answer_purchase run_task handle_response
  handle_req_purchase_item_high session j info v cache s id low passes =
      let (bought, s') = purchase c info s in
      let back = deliver alive m j (client_purchase_item bought.success bought.total_price) in
      let none_started : List Effect = [] in
      rw (passes, id, to_int_high j low)
        (ap (λ (xs : List Sent). ((cache, none_started, xs), s'))
          (append-nil (back ++ []) ∙ append-nil back))
