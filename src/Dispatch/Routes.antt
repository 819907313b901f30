-- ===== src/Dispatch/Routes.antt =====
-- Every request of a client reaches its handler, through the tables of Dispatch/Clients.
use j1_server.Prelude.{
  ℕ, ◌+◌, ◌^◌, ◌<◌, ◌≡◌, refl, ap, ◌∙◌, true, false, some, List, [], ◌++◌, arith, take, drop, ltb,
  ◌==◌,
}
use j1_server.Prelude.Int.{pos}
use j1_server.Packet.{PacketHeader, IsProtobuf, packet, parse, parse_header}
use j1_server.Packet.RoundTrip.{IsShort, parse-packet}
use j1_server.Dispatch.{Handler, Table, handle_packet, dispatch_packet}
use j1_server.Dispatch.Clients.{
  Service, entries, refuse, GameRequest, game_code, ChatRequest, chat_code, LoginRequest,
  login_code, game_table, chat_table, login_table, Routes,
}
use j1_server.Dispatch.Tables.{game_table-Routes, chat_table-Routes, login_table-Routes}

module _ {S : Type 0} where
  handle_packet_listed :
      (table : Table S) (h : PacketHeader) (n : ℕ) (body : List ℕ) (s : S)
      → h.code ≡ pos n
      → ltb n 65535 ≡ true
      → handle_packet table h body s ≡ some (table n body s)
  unfolding handle_packet
  handle_packet_listed table h n body s coded inside = rw (coded, inside) refl

  entries_parsed :
      {K : Type 0} (service : Service S K) (k : K) (body : List ℕ)
      (msg : (service.protobuf_of k).Message) (offset : ℕ) (s : S)
      → parse (service.protobuf_of k) body 4 ≡ some (msg, offset)
      → entries service k body s ≡ service.func k msg s
  unfolding entries dispatch_packet
  entries_parsed service k body msg offset s parsed = rw (entries, dispatch_packet, parsed) refl

  module _ {K : Type 0} (code : K → ℕ) (table : (K → Handler S) → Table S)
      (routes : Routes code table) where
    -- The message of a request arrives.
    handle_packet_arrives :
        (service : Service S K) (k : K) (h : PacketHeader) (body : List ℕ)
        (msg : (service.protobuf_of k).Message) (offset : ℕ) (s : S)
        → h.code ≡ pos (code k)
        → parse (service.protobuf_of k) body 4 ≡ some (msg, offset)
        → handle_packet (table (entries service)) h body s ≡ some (service.func k msg s)
    handle_packet_arrives service k h body msg offset s coded parsed =
        let inside : ltb (code k) 65535 ≡ true = ground (arith, routes.short k) in
        let found = routes.hit (entries service) k in
        handle_packet_listed (table (entries service)) h (code k) body s coded inside
        ∙ ap some (
            ap (λ (f : Handler S). f body s) found
            ∙ entries_parsed service k body msg offset s parsed)

    -- A client's request, serialised with the code of its type in fewer than 2^15 bytes: the header that
    -- is read from the wire leads the table to the function of the request, which gets the message.
    handle_packet-client :
        (service : Service S K) (k : K) (msg : (service.protobuf_of k).Message) (s : S)
        → IsProtobuf (service.protobuf_of k)
        → (service.protobuf_of k).byte_size_long msg < 2 ^ 15
        → let bytes = (packet (service.protobuf_of k) (pos (code k)) msg).1 in
          (h : PacketHeader) × (parse_header (take 4 (bytes ++ [])) 0 ≡ some (h, 4))
          × (handle_packet
                (table (entries service))
                h
                (take ((service.protobuf_of k).byte_size_long msg) (drop 4 (bytes ++ [])))
                s
              ≡ some (service.func k msg s))
    handle_packet-client service k msg s laws small =
        let proto = service.protobuf_of k in
        let short : IsShort (pos (code k)) = (omega arith, omega (arith, routes.short k)) in
        let (_, header, body, _) = parse-packet proto laws (pos (code k)) msg [] short small in
        let h : PacketHeader = record {
          len = pos (proto.byte_size_long msg);
          code = pos (code k);
        } in
        (
          h,
          header,
          handle_packet_arrives service k h
              (take (proto.byte_size_long msg) (drop 4 ((packet proto (pos (code k)) msg).1 ++ [])))
              msg (4 + proto.byte_size_long msg) s refl body,
        )

    -- A packet with any other code that is not negative is refused.
    handle_packet_other :
        (service : Service S K) (h : PacketHeader) (n : ℕ) (body : List ℕ) (s : S)
        → IsShort h.code
        → h.code ≡ pos n
        → ((k : K) → (code k == n) ≡ false)
        → handle_packet (table (entries service)) h body s ≡ some (false, s)
    unfolding refuse
    handle_packet_other service h n body s short coded other =
        let range : IsShort (pos n) = rw coded at short in
        let inside : ltb n 65535 ≡ true = ground arith in
        handle_packet_listed (table (entries service)) h n body s coded inside
        ∙ ap (λ (f : Handler S). some (f body s)) (routes.miss (entries service) n other)

  -- A client's request to the game server, serialised with the code of its type in fewer than 2^15 bytes:
  -- the header that is read from the wire leads the table of `GamePacketHandler::Init` to the function of
  -- that request, which gets the very message, for each of the fourteen requests.
  pub handle_packet-game_table :
      (service : Service S GameRequest) (k : GameRequest) (msg : (service.protobuf_of k).Message)
      (s : S)
      → IsProtobuf (service.protobuf_of k)
      → (service.protobuf_of k).byte_size_long msg < 2 ^ 15
      → let bytes = (packet (service.protobuf_of k) (pos (game_code k)) msg).1 in
        (h : PacketHeader) × (parse_header (take 4 (bytes ++ [])) 0 ≡ some (h, 4))
        × (handle_packet
              (game_table (entries service))
              h
              (take ((service.protobuf_of k).byte_size_long msg) (drop 4 (bytes ++ [])))
              s
            ≡ some (service.func k msg s))
  handle_packet-game_table = handle_packet-client game_code game_table game_table-Routes

  -- The same for the three requests of the chat server.
  handle_packet-chat_table :
      (service : Service S ChatRequest) (k : ChatRequest) (msg : (service.protobuf_of k).Message)
      (s : S)
      → IsProtobuf (service.protobuf_of k)
      → (service.protobuf_of k).byte_size_long msg < 2 ^ 15
      → let bytes = (packet (service.protobuf_of k) (pos (chat_code k)) msg).1 in
        (h : PacketHeader) × (parse_header (take 4 (bytes ++ [])) 0 ≡ some (h, 4))
        × (handle_packet
              (chat_table (entries service))
              h
              (take ((service.protobuf_of k).byte_size_long msg) (drop 4 (bytes ++ [])))
              s
            ≡ some (service.func k msg s))
  handle_packet-chat_table = handle_packet-client chat_code chat_table chat_table-Routes

  -- And for the three requests of the login server.
  handle_packet-login_table :
      (service : Service S LoginRequest) (k : LoginRequest) (msg : (service.protobuf_of k).Message)
      (s : S)
      → IsProtobuf (service.protobuf_of k)
      → (service.protobuf_of k).byte_size_long msg < 2 ^ 15
      → let bytes = (packet (service.protobuf_of k) (pos (login_code k)) msg).1 in
        (h : PacketHeader) × (parse_header (take 4 (bytes ++ [])) 0 ≡ some (h, 4))
        × (handle_packet
              (login_table (entries service))
              h
              (take ((service.protobuf_of k).byte_size_long msg) (drop 4 (bytes ++ [])))
              s
            ≡ some (service.func k msg s))
  handle_packet-login_table = handle_packet-client login_code login_table login_table-Routes

  -- A packet with a code that is not negative and of none of the requests of the game server is refused.
  handle_packet-game_table_other :
      (service : Service S GameRequest) (h : PacketHeader) (n : ℕ) (body : List ℕ) (s : S)
      → IsShort h.code
      → h.code ≡ pos n
      → ((k : GameRequest) → (game_code k == n) ≡ false)
      → handle_packet (game_table (entries service)) h body s ≡ some (false, s)
  handle_packet-game_table_other = handle_packet_other game_code game_table game_table-Routes
