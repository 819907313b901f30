-- ===== src/Dispatch/Requests.antt =====
-- AuctionServer/Network/Handlers/AuctionPacketHandler.h on the packets that the game server sends.
use j1_server.Prelude.{
  ℕ, ◌+◌, ◌^◌, ◌<◌, ◌≡◌, refl, ap, ◌∙◌, true, false, none, some, List, [], ◌++◌, arith, take, drop,
  ltb,
}
use j1_server.Prelude.Int.{pos}
use j1_server.Packet.{PacketHeader, IsProtobuf, packet, parse, parse_header}
use j1_server.Packet.RoundTrip.{IsShort, parse-packet}
use j1_server.WorkerPool.{WorkerPool}
use j1_server.Handlers.Auction.{Task, handle_request}
use j1_server.Dispatch.{
  Decoder, Decoders, Handler, Table, handle_packet, dispatch_packet, request_handler,
  handle_invalid, auction_table, set_handler, empty_table,
}

pub data Kind : Type 0 where
  auction_list receipt_list regist_item purchase_item receipt_item : Kind

-- The codes of `PKT_REQ_*` in SS_AuctionEnum.
abbrev pub code_of : Kind → ℕ
code_of auction_list = 0
code_of receipt_list = 2
code_of regist_item = 4
code_of purchase_item = 6
code_of receipt_item = 8

abbrev pub decoder_of : Decoders → Kind → Decoder
decoder_of d auction_list = d.auction_list
decoder_of d receipt_list = d.receipt_list
decoder_of d regist_item = d.regist_item
decoder_of d purchase_item = d.purchase_item
decoder_of d receipt_item = d.receipt_item

pub code_of_small : (k : Kind) → code_of k < 10
code_of_small auction_list = omega arith
code_of_small receipt_list = omega arith
code_of_small regist_item = omega arith
code_of_small purchase_item = omega arith
code_of_small receipt_item = omega arith

auction_table-code_of :
    (d : Decoders) (session : ℕ) (k : Kind)
    → auction_table d session (code_of k) ≡ request_handler session (decoder_of d k)
unfolding auction_table set_handler
auction_table-code_of d session auction_list = refl
auction_table-code_of d session receipt_list = refl
auction_table-code_of d session regist_item = refl
auction_table-code_of d session purchase_item = refl
auction_table-code_of d session receipt_item = refl

pub handle_packet_inside :
    {S : Type 0} (table : Table S) (h : PacketHeader) (code : ℕ) (body : List ℕ) (p : S)
    → h.code ≡ pos code
    → code < 10
    → handle_packet table h body p ≡ some (table code body p)
unfolding handle_packet
handle_packet_inside table h code body p coded small =
    rw (coded, (let t : ltb code 65535 ≡ true = ground arith in t)) refl

request_handler_parsed :
    (d : Decoder) (session : ℕ) (body : List ℕ) (msg : d.protobuf.Message) (offset : ℕ)
    (p : WorkerPool Task)
    → parse d.protobuf body 4 ≡ some (msg, offset)
    → request_handler session d body p ≡ handle_request session (d.request msg) p
unfolding request_handler dispatch_packet
request_handler_parsed d session body msg offset p parsed =
    rw (request_handler, dispatch_packet, parsed) refl

pub handle_packet_parsed :
    (d : Decoders) (session : ℕ) (k : Kind) (h : PacketHeader) (body : List ℕ)
    (msg : (decoder_of d k).protobuf.Message) (offset : ℕ) (p : WorkerPool Task)
    → h.code ≡ pos (code_of k)
    → parse (decoder_of d k).protobuf body 4 ≡ some (msg, offset)
    → handle_packet (auction_table d session) h body p
      ≡ some (handle_request session ((decoder_of d k).request msg) p)
handle_packet_parsed d session k h body msg offset p coded parsed =
    handle_packet_inside (auction_table d session) h (code_of k) body p coded (code_of_small k)
    ∙ ap some (
        ap (λ (f : Handler (WorkerPool Task)). f body p) (auction_table-code_of d session k)
        ∙ request_handler_parsed (decoder_of d k) session body msg offset p parsed)

-- A request that the game server serialises with the code of its type, in fewer than 2^15 bytes:
-- the header that the auction server reads from the wire leads its table to the handler of that
-- type, which gets the very message, for each of the five types.
pub handle_packet-packet :
    (d : Decoders) (session : ℕ) (k : Kind) (msg : (decoder_of d k).protobuf.Message)
    (p : WorkerPool Task)
    → IsProtobuf (decoder_of d k).protobuf
    → (decoder_of d k).protobuf.byte_size_long msg < 2 ^ 15
    → let bytes = (packet (decoder_of d k).protobuf (pos (code_of k)) msg).1 in
      (h : PacketHeader) × (parse_header (take 4 (bytes ++ [])) 0 ≡ some (h, 4))
      × (handle_packet
            (auction_table d session)
            h
            (take ((decoder_of d k).protobuf.byte_size_long msg) (drop 4 (bytes ++ [])))
            p
          ≡ some (handle_request session ((decoder_of d k).request msg) p))
handle_packet-packet d session k msg p laws small =
    let proto = (decoder_of d k).protobuf in
    let short : IsShort (pos (code_of k)) = (omega arith, omega (arith, code_of_small k)) in
    let (_, header, body, _) = parse-packet proto laws (pos (code_of k)) msg [] short small in
    let h : PacketHeader = record {
      len = pos (proto.byte_size_long msg);
      code = pos (code_of k);
    } in
    (
      h,
      header,
      handle_packet_parsed d session k h
          (take (proto.byte_size_long msg) (drop 4 ((packet proto (pos (code_of k)) msg).1 ++ [])))
          msg (4 + proto.byte_size_long msg) p refl body,
    )

-- A packet with any other code that is not negative, or with a body that its message type does not
-- parse, is refused, and no task is queued.
pub handle_packet_refused :
    (d : Decoders) (session : ℕ) (h : PacketHeader) (code : ℕ) (body : List ℕ) (p : WorkerPool Task)
    → IsShort h.code
    → h.code ≡ pos code
    → ((k : Kind) → code ≡ code_of k → parse (decoder_of d k).protobuf body 4 ≡ none)
    → handle_packet (auction_table d session) h body p ≡ some (false, p)
unfolding handle_packet request_handler dispatch_packet auction_table set_handler empty_table
    handle_invalid
handle_packet_refused d session h code body p short coded unparsed =
    let range : IsShort (pos code) = rw coded at short in
    let inside : ltb code 65535 ≡ true = ground arith in
    rw (coded, inside)
      (ground (
        arith,
        unparsed auction_list,
        unparsed receipt_list,
        unparsed regist_item,
        unparsed purchase_item,
        unparsed receipt_item,
      ))
