-- ===== src/Dispatch/Responses.antt =====
-- GameServer/Network/Handlers/AuctionServerPacketHandler.h: the table for the answers of the auction
-- server, with the codes of SS_AuctionEnum. The state is the cache with what has been started and sent.
use j1_server.Prelude.{
  ℕ, ◌+◌, ◌^◌, ◌<◌, ◌≡◌, refl, ap, ◌∙◌, Bool, true, some, List, [], ◌++◌, arith, take, drop,
}
use j1_server.Prelude.Int.{pos}
use j1_server.Packet.{PacketHeader, Protobuf, IsProtobuf, packet, parse, parse_header}
use j1_server.Packet.RoundTrip.{IsShort, parse-packet}
use j1_server.SessionManager.{SessionManager}
use j1_server.Cache.{Cache, Effect}
use j1_server.Cache.Contents.{Client}
use j1_server.Handlers.{Response}
use j1_server.Handlers.Game.{Sent, handle_response}
use j1_server.Handlers.Routing.{Clock}
use j1_server.Dispatch.{Handler, Table, handle_packet, dispatch_packet, empty_table, set_handler}
use j1_server.Dispatch.Requests.{handle_packet_inside}

pub record ResponseDecoder : Type 1 where
  pub protobuf : Protobuf
  pub response : protobuf.Message → Response

pub data Answer : Type 0 where
  auction_list receipt_list regist_item purchase_item receipt_item : Answer

-- The codes of `PKT_RES_*` in SS_AuctionEnum.
abbrev pub code_of : Answer → ℕ
code_of auction_list = 1
code_of receipt_list = 3
code_of regist_item = 5
code_of purchase_item = 7
code_of receipt_item = 9

code_of_small : (k : Answer) → code_of k < 10
code_of_small auction_list = omega arith
code_of_small receipt_list = omega arith
code_of_small regist_item = omega arith
code_of_small purchase_item = omega arith
code_of_small receipt_item = omega arith

abbrev pub GameState : Type 0
GameState = Cache × List Effect × List Sent

-- `Handle_SS_Auction_INVALID` of the game server
unfoldable pub ignore_invalid : Handler GameState
ignore_invalid buffer s = (true, s)

module _ (alive : ℕ → Bool) (m : SessionManager) (client : Client) (clock : Clock)
    (d : Answer → ResponseDecoder) where
  -- A `Handle_RES_*`; each of them returns true.
  unfoldable pub respond : Response → GameState → Bool × GameState
  respond response (c, effects, sent) =
      let (c', started, packets) =
        handle_response alive m client clock.fetched_at clock.now clock.arm_now response c in
      (true, (c', effects ++ started, sent ++ packets))

  unfoldable pub response_handler : Answer → Handler GameState
  unfolding dispatch_packet respond
  response_handler k = dispatch_packet (d k).protobuf (λ msg. respond ((d k).response msg))

  -- `AuctionServerPacketHandler::Init`
  unfoldable pub response_table : Table GameState
  unfolding empty_table set_handler response_handler ignore_invalid
  response_table = set_handler 9 (response_handler receipt_item) (
      set_handler 7 (response_handler purchase_item) (
        set_handler 5 (response_handler regist_item) (
          set_handler 3 (response_handler receipt_list)
            (set_handler 1 (response_handler auction_list) (empty_table ignore_invalid)))))

  response_table-code_of : (k : Answer) → response_table (code_of k) ≡ response_handler k
  unfolding response_table set_handler
  response_table-code_of auction_list = refl
  response_table-code_of receipt_list = refl
  response_table-code_of regist_item = refl
  response_table-code_of purchase_item = refl
  response_table-code_of receipt_item = refl

  response_handler_parsed :
      (k : Answer) (body : List ℕ) (msg : (d k).protobuf.Message) (offset : ℕ) (s : GameState)
      → parse (d k).protobuf body 4 ≡ some (msg, offset)
      → response_handler k body s ≡ respond ((d k).response msg) s
  unfolding response_handler dispatch_packet
  response_handler_parsed k body msg offset s parsed =
      rw (response_handler, dispatch_packet, parsed) refl

  -- An answer that the auction server serialises with the code of its type, in fewer than 2^15
  -- bytes: the header that the game server reads from the wire leads its table to the handler of
  -- that type, which gets the very message and returns true, for each of the five types.
  pub handle_packet-response :
      (k : Answer) (msg : (d k).protobuf.Message) (s : GameState)
      → IsProtobuf (d k).protobuf
      → (d k).protobuf.byte_size_long msg < 2 ^ 15
      → let bytes = (packet (d k).protobuf (pos (code_of k)) msg).1 in
        (h : PacketHeader) × (parse_header (take 4 (bytes ++ [])) 0 ≡ some (h, 4))
        × (handle_packet response_table h
              (take ((d k).protobuf.byte_size_long msg) (drop 4 (bytes ++ [])))
              s
            ≡ some (true, (respond ((d k).response msg) s).1))
  unfolding respond
  handle_packet-response k msg s laws small =
      let proto = (d k).protobuf in
      let short : IsShort (pos (code_of k)) = (omega arith, omega (arith, code_of_small k)) in
      let (_, header, body, _) = parse-packet proto laws (pos (code_of k)) msg [] short small in
      let h : PacketHeader = record {
        len = pos (proto.byte_size_long msg);
        code = pos (code_of k);
      } in
      let bytes =
        take (proto.byte_size_long msg) (drop 4 ((packet proto (pos (code_of k)) msg).1 ++ [])) in
      (
        h,
        header,
        handle_packet_inside response_table h (code_of k) bytes s refl (code_of_small k)
            ∙ ap some (
                ap (λ (f : Handler GameState). f bytes s) (response_table-code_of k)
                ∙ response_handler_parsed k bytes msg (4 + proto.byte_size_long msg) s body),
      )
