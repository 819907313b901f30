-- ===== src/Dispatch.antt =====
-- The handler tables of the servers: `Init`, `HandlePacket` and `DispatchPacket`, which
-- AuctionServer/Network/Handlers/AuctionPacketHandler.h and the handler headers of the other servers
-- have in the same form. A handler is a function of the body and of the server's state.
pub mod Requests
pub mod Stream
pub mod Responses
pub mod Clients
pub mod Tables
pub mod Routes
mod Tests
use j1_server.Prelude.{
  ℕ, ◌+◌, ◌^◌, Bool, true, false, Option, none, some, List, [], ◌∷◌, ltb, ◌==◌, if◌then◌else◌,
}
use j1_server.Prelude.Int.{ℤ, pos, negsuc}
use j1_server.Packet.{PacketHeader, Protobuf, parse}
use j1_server.WorkerPool.{WorkerPool}
use j1_server.Handlers.{Request}
use j1_server.Handlers.Auction.{Task, handle_request}

-- `UINT16_MAX`
abbrev pub table_size : ℕ
table_size = 65535

abbrev pub Handler : Type 0 → Type 0
Handler S = List ℕ → S → Bool × S

abbrev pub Table : Type 0 → Type 0
Table S = ℕ → Handler S

module _ {S : Type 0} where
  -- The loop of `Init`: every entry is the handler of invalid packets.
  unfoldable pub empty_table : Handler S → Table S
  empty_table invalid code = invalid

  -- `table[code] = handler`
  unfoldable pub set_handler : ℕ → Handler S → Table S → Table S
  set_handler code handler table k = if code == k then handler else table k

  -- `DispatchPacket`
  unfoldable pub dispatch_packet : (p : Protobuf) → (p.Message → S → Bool × S) → Handler S
  dispatch_packet p func buffer s = elim (parse p buffer 4) [
    | none ↦ (false, s)
    | some (pkt, _) ↦ func pkt s
  ]

  -- `HandlePacket`; `none` where the code leads outside of the table.
  unfoldable pub handle_packet : Table S → PacketHeader → List ℕ → S → Option (Bool × S)
  handle_packet table header buffer s = elim header.code [
    | negsuc _ ↦ none
    | pos code ↦ if ltb code table_size then some (table code buffer s) else none
  ]

-- A message type of the protocol between the servers, and the fields of its messages.
pub record Decoder : Type 1 where
  pub protobuf : Protobuf
  pub request : protobuf.Message → Request

pub record Decoders : Type 1 where
  pub auction_list : Decoder
  pub receipt_list : Decoder
  pub regist_item : Decoder
  pub purchase_item : Decoder
  pub receipt_item : Decoder

-- `Handle_SS_Auction_INVALID` of the auction server
unfoldable pub handle_invalid : Handler (WorkerPool Task)
handle_invalid buffer p = (false, p)

-- The entry for a message type, for the packets from `session`.
unfoldable pub request_handler : ℕ → Decoder → Handler (WorkerPool Task)
unfolding dispatch_packet
request_handler session d =
    dispatch_packet d.protobuf (λ msg. handle_request session (d.request msg))

-- `AuctionPacketHandler::Init` of the auction server, with the codes of SS_AuctionEnum.
unfoldable pub auction_table : Decoders → ℕ → Table (WorkerPool Task)
unfolding empty_table set_handler request_handler handle_invalid
auction_table d session = set_handler 8 (request_handler session d.receipt_item) (
    set_handler 6 (request_handler session d.purchase_item) (
      set_handler 4 (request_handler session d.regist_item) (
        set_handler 2 (request_handler session d.receipt_list)
          (set_handler 0 (request_handler session d.auction_list) (empty_table handle_invalid)))))
