-- ===== src/Cache/Contents.antt =====
-- The snapshot of GameServer/Utils/AuctionCache.cpp: the items of one answer of the auction server,
-- the index of their ids, the largest id and the packet that every client gets.
use j1_server.Prelude.{
  ℕ, ◌+◌, ◌-◌, ◌^◌, Bool, true, false, Option, none, some, List, [], ◌∷◌, take, ltb, if◌then◌else◌,
}
use j1_server.Prelude.Int.{ℤ, pos, eq_ℤ, ltb_ℤ}
use j1_server.Packet.{Protobuf, packet}

-- `Game::AuctionItemInfo`
pub record AuctionItemInfo : Type 0 where
  pub list_id : ℤ
  pub player_id : ℤ
  pub receipt_type : ℤ
  pub item_id : ℤ
  pub count : ℤ
  pub price : ℤ
  pub expired_at : List ℕ

-- `std::unordered_map<int64, size_t>`
abbrev pub Index : Type 0
Index = List (ℤ × ℕ)

pub record Snapshot : Type 0 where
  pub items : List AuctionItemInfo
  pub index : Index
  pub list_packet : Option (List ℕ)
  pub max_list_id : ℤ
  pub complete : Bool
  pub fetched_at : ℕ

-- The message type `Game::RES_AUCTION_LIST`, made from `mylist` and `itemlist`.
pub record Client : Type 1 where
  pub protobuf : Protobuf
  pub open protobuf use {Message, byte_size_long}
  pub res_auction_list : Bool → List AuctionItemInfo → protobuf.Message

-- `kClientListMax`, `SHRT_MAX` and `PKT_RES_AUCTION_LIST`
abbrev pub client_list_max : ℕ
client_list_max = 100

abbrev pub shrt_max : ℕ
shrt_max = 2 ^ 15 - 1

abbrev pub pkt_res_auction_list : ℤ
pkt_res_auction_list = pos 4001

unfoldable pub find_index : ℤ → Index → Option ℕ
find_index id [] = none
find_index id ((k, i) ∷ index) = if eq_ℤ k id then some i else find_index id index

-- `emplace`: a key that is there keeps its value.
unfoldable pub emplace : ℤ → ℕ → Index → Index
unfolding find_index
emplace id i index = elim (find_index id index) [ none ↦ (id, i) ∷ index | some _ ↦ index ]

-- The loop of `FinishRefresh` from position `i` on, over the index and the largest id.
unfoldable pub index_items : ℕ → List AuctionItemInfo → Index × ℤ → Index × ℤ
unfolding emplace
index_items i [] acc = acc
index_items i (item ∷ items) (index, max_list_id) = index_items (i + 1) items (
  emplace item.list_id i index,
  if ltb_ℤ max_list_id item.list_id then item.list_id else max_list_id,
)

unfoldable pub new_snapshot : ℕ → List AuctionItemInfo → Snapshot
unfolding index_items
new_snapshot fetched_at listinfo =
    let (index, max_list_id) = index_items 0 listinfo ([], pos 0) in
    record {
      items = listinfo;
      index = index;
      list_packet = none;
      max_list_id = max_list_id;
      complete = true;
      fetched_at = fetched_at;
    }

-- `BuildClientPacket`: no packet where it would be too large or is not serialised.
unfoldable pub build_client_packet : Client → Snapshot → Snapshot
build_client_packet client s =
    let pkt = client.res_auction_list false (take client_list_max s.items) in
    if ltb shrt_max (client.byte_size_long pkt)
    then s
    else let (serialized, buf) = packet client.protobuf pkt_res_auction_list pkt in
      if serialized then record s { list_packet = some buf } else s
