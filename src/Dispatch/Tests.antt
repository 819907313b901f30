-- ===== src/Dispatch/Tests.antt =====
-- AuctionServer/Network/Handlers/AuctionPacketHandler.h and
-- GameServer/Network/Handlers/AuctionServerPacketHandler.h, and the table of
-- GameServer/Network/Handlers/GamePacketHandler.h, with messages of `n` zero bytes.
use j1_server.Prelude.{
  ℕ, ◌+◌, ◌≡◌, refl, Bool, true, false, none, some, List, [], map, ◌∷◌, ◌++◌, arith, take, drop,
}
use j1_server.Prelude.Int.{pos}
use j1_server.Packet.{PacketHeader, packet, parse, parse_header, IsProtobuf}
use j1_server.Packet.Tests.{zeros, zeros-IsProtobuf}
use j1_server.WorkerPool.{WorkerPool, auction_read, auction_write}
use j1_server.Handlers.{
  res_auction_list, res_receipt_list, res_regist_item, res_purchase_item, res_receipt_item,
  req_auction_list, req_receipt_list, req_regist_item, req_purchase_item, req_receipt_item,
}
use j1_server.Handlers.Auction.{Task, handle_request}
use j1_server.Cache.{new_cache}
use j1_server.Cache.Tests.{client, item}
use j1_server.SessionManager.{SessionManager}
use j1_server.Handlers.Routing.{Clock}
use j1_server.Dispatch.Responses.{
  Answer, ResponseDecoder, respond, response_table, handle_packet-response,
}
use j1_server.Dispatch.Clients.{Service, GameRequest, game_code, game_table, entries}
use j1_server.Dispatch.Routes.{handle_packet-game_table}
use j1_server.Dispatch.{Decoders, handle_packet, auction_table}
use j1_server.Session.{new_session, done, close, enqueue_send}
use j1_server.Session.Sending.{Link, fresh_link, link, link_send, Reach, fresh, sends, drain}
use j1_server.Session.Framing.{Packets, read_packets}
use j1_server.Session.Transport.{stream}
use j1_server.Dispatch.Stream.{
  Sent, sent_bytes, handle_packets, handle_requests, drain-handle_requests,
}
use j1_server.Dispatch.Requests.{
  Kind, code_of, decoder_of, handle_packet-packet, handle_packet_refused,
}

-- The number of bytes stands for the session id.
abbrev decoders : Decoders
decoders = record {
  auction_list = record {
    protobuf = zeros;
    request = λ n. req_auction_list (pos n) 0 (pos 0) [] false;
  };
  receipt_list = record { protobuf = zeros; request = λ n. req_receipt_list (pos n) (pos 0) };
  regist_item = record { protobuf = zeros; request = λ n. req_regist_item (pos n) [] };
  purchase_item = record {
    protobuf = zeros;
    request = λ n. req_purchase_item (pos n) (item (pos 3) (pos 9) (pos 2) ∷ []);
  };
  receipt_item = record {
    protobuf = zeros;
    request = λ n. req_receipt_item (pos n) (pos 0) (pos 0);
  };
}

abbrev pool : WorkerPool Task
pool = record {
  readers = record { name = auction_read 0; conn = 0; queue = [] } ∷ [];
  writers = record { name = auction_write 0; conn = 1; queue = [] } ∷ [];
  read_round_robin = 0;
}

request_reaches_handler :
    let bytes = (packet zeros (pos 6) 5).1 in
    (h : PacketHeader) × (parse_header (take 4 (bytes ++ [])) 0 ≡ some (h, 4))
    × (handle_packet (auction_table decoders 1) h (take 5 (drop 4 (bytes ++ []))) pool
        ≡ some
            (handle_request 1 (req_purchase_item (pos 5) (item (pos 3) (pos 9) (pos 2) ∷ [])) pool))
request_reaches_handler =
    handle_packet-packet decoders 1 Kind.purchase_item 5 pool zeros-IsProtobuf (omega arith)

decoders-IsProtobuf : (k : Kind) → IsProtobuf (decoder_of decoders k).protobuf
decoders-IsProtobuf Kind.auction_list = zeros-IsProtobuf
decoders-IsProtobuf Kind.receipt_list = zeros-IsProtobuf
decoders-IsProtobuf Kind.regist_item = zeros-IsProtobuf
decoders-IsProtobuf Kind.purchase_item = zeros-IsProtobuf
decoders-IsProtobuf Kind.receipt_item = zeros-IsProtobuf

-- A purchase and a list of receipts, the purchase in flight.
abbrev requests : List (Sent decoders)
requests = (Kind.purchase_item, 5) ∷ (Kind.receipt_list, 3) ∷ []

abbrev requests_sent : Link
requests_sent =
    link new_session (map (sent_bytes decoders) requests) true
      (sent_bytes decoders (Kind.purchase_item, 5) ∷ []) []

requests_sent-Reach : Reach close (map (sent_bytes decoders) requests) requests_sent
unfolding link_send enqueue_send fresh_link new_session
requests_sent-Reach =
    sends (sent_bytes decoders (Kind.receipt_list, 3))
      (sends (sent_bytes decoders (Kind.purchase_item, 5)) fresh (omega arith) refl) (omega arith)
      refl

drain-handle_requests_example :
    (l' : Link) × (packets : Packets) × (drain close 2 requests_sent ≡ done l')
    × (read_packets close 2 new_session (stream l'.wire) ≡ done (packets, []))
    × (handle_packets decoders 1 packets pool ≡ some (handle_requests decoders 1 requests pool))
unfolding new_session
drain-handle_requests_example =
    drain-handle_requests decoders 1 decoders-IsProtobuf close close requests requests_sent
      new_session pool (omega arith, (omega arith, tt)) requests_sent-Reach refl

abbrev odd_header : PacketHeader
odd_header = record { len = pos 2; code = pos 7 }

not_a_request :
    (k : Kind) → 7 ≡ code_of k → parse (decoder_of decoders k).protobuf (1 ∷ 2 ∷ []) 4 ≡ none
not_a_request Kind.auction_list e = absurd (omega arith)
not_a_request Kind.receipt_list e = absurd (omega arith)
not_a_request Kind.regist_item e = absurd (omega arith)
not_a_request Kind.purchase_item e = absurd (omega arith)
not_a_request Kind.receipt_item e = absurd (omega arith)

handle_packet_refused_example :
    handle_packet (auction_table decoders 1) odd_header (1 ∷ 2 ∷ []) pool ≡ some (false, pool)
handle_packet_refused_example =
    handle_packet_refused decoders 1 odd_header 7 (1 ∷ 2 ∷ []) pool (omega arith, omega arith) refl
      not_a_request

abbrev answers : Answer → ResponseDecoder
answers Answer.auction_list = record {
  protobuf = zeros;
  response = λ n. res_auction_list (pos n) 0 true [];
}
answers Answer.receipt_list = record {
  protobuf = zeros;
  response = λ n. res_receipt_list (pos n) [];
}
answers Answer.regist_item = record {
  protobuf = zeros;
  response = λ n. res_regist_item (pos n) true;
}
answers Answer.purchase_item = record {
  protobuf = zeros;
  response = λ n. res_purchase_item (pos n) true (pos 20);
}
answers Answer.receipt_item = record { protobuf = zeros; response = λ n. res_receipt_item }

abbrev manager : SessionManager
manager = record { sessions = (5, 10) ∷ []; next_id = 6 }

abbrev clock : Clock
clock = record { fetched_at = 0; now = 1; arm_now = 2 }

abbrev alive : ℕ → Bool
alive h = true

handle_packet-response_example :
    let bytes = (packet zeros (pos 7) 5).1 in
    (h : PacketHeader) × (parse_header (take 4 (bytes ++ [])) 0 ≡ some (h, 4))
    × (handle_packet
          (response_table alive manager client clock answers)
          h
          (take 5 (drop 4 (bytes ++ [])))
          (new_cache, [], [])
        ≡ some (
          true,
          (respond alive manager client clock answers
              (res_purchase_item (pos 5) true (pos 20))
              (new_cache, [], [])).1,
        ))
handle_packet-response_example =
    handle_packet-response alive manager client clock answers Answer.purchase_item 5
      (new_cache, [], []) zeros-IsProtobuf (omega arith)

-- A game server that adds up the sizes of its messages.
abbrev adder : Service ℕ GameRequest
adder = record { protobuf_of = λ k. zeros; func = λ k n s. (true, s + n) }

handle_packet-game_table_example :
    let bytes = (packet zeros (pos 1010) 5).1 in
    (h : PacketHeader) × (parse_header (take 4 (bytes ++ [])) 0 ≡ some (h, 4))
    × (handle_packet (game_table (entries adder)) h (take 5 (drop 4 (bytes ++ []))) 30
        ≡ some (true, 35))
unfolding game_code
handle_packet-game_table_example =
    handle_packet-game_table adder GameRequest.enter_game 5 30 zeros-IsProtobuf (omega arith)
