-- ===== src/Sql/Texts.antt =====
-- The texts and the arguments of the statements of AuctionServer/AuctionService.cpp,
-- GameServer/Network/Handlers/LobbyPacketHandler.cpp and LoginServer/SignManager.cpp, as these hand them to
-- ServerCore/SqlUtils.h. An argument has the C++ type that it has there.
use Prim.Native.String.{String}
use j1_server.Prelude.{List, [], ◌∷◌}
use j1_server.Prelude.Int.{pos}
use j1_server.Sql.{
  Connection, Query, listings, listings_of, receipts_of, check_listing, check_id, check_token,
  characters_of, check_nickname, Update, insert_listing, debit_gold, delete_listing, reduce_listing,
  insert_transaction, insert_receipts, insert_character_base, insert_character_combat,
  insert_character_skin, delete_character_combat, delete_character_skin, delete_character_inventory,
  delete_character_base, insert_session, update_last_login, insert_account,
}
use j1_server.Sql.Connector.{
  Argument, uint64, int64, int32, string, Connector, execute_query, execute_update,
  execute_update_gen_keys,
}

-- `kSchema`, and the literal in the other files.
abbrev pub schema : String
schema = "J1_DB"

abbrev listings_text : String
listings_text =
    "SELECT * FROM auction_listings WHERE expired_at > NOW() ORDER BY listing_id ASC LIMIT 100"

abbrev listings_of_text : String
listings_of_text =
    "SELECT * FROM auction_listings WHERE expired_at > NOW() AND seller_id = ?  ORDER BY listing_id ASC"

abbrev receipts_of_text : String
receipts_of_text =
    "SELECT * FROM auction_receipts WHERE owner_player_id = ? ORDER BY list_id ASC LIMIT 100"

abbrev check_listing_text : String
check_listing_text =
    "SELECT remaining_quantity, price, seller_id, item_id FROM auction_listings WHERE listing_id = ? AND expired_at > NOW() FOR UPDATE"

abbrev check_id_text : String
check_id_text = "SELECT account_id, user_password FROM account WHERE is_active = 1 AND user_id = ?"

abbrev check_token_text : String
check_token_text =
    "SELECT 1 FROM sessions WHERE account_id = ? AND token = ? AND expires_at > NOW()LIMIT 1"

abbrev characters_of_text : String
characters_of_text =
    "SELECT cb.character_id, cb.slot_index, cb.nickname, cb.class_type, cb.level, cb.gold, cs.upper_skin, cs.lower_skin, cs.weapon_skin FROM character_base cb JOIN character_combat cc ON cb.character_id = cc.character_id JOIN character_skin cs   ON cb.character_id = cs.character_id WHERE cb.account_id = ? ORDER BY cb.slot_index"

abbrev check_nickname_text : String
check_nickname_text = "SELECT 1 FROM character_base WHERE nickname = ? LIMIT 1"

abbrev insert_listing_text : String
insert_listing_text =
    "INSERT INTO auction_listings (seller_id, item_id, remaining_quantity, price, expired_at) VALUES(?, ?, ?, ?, NOW() + INTERVAL ? HOUR)"

abbrev debit_gold_text : String
debit_gold_text = "UPDATE character_base SET gold = gold - ? WHERE account_id = ? AND gold >= ?"

abbrev delete_listing_text : String
delete_listing_text = "DELETE FROM auction_listings WHERE listing_id = ?"

abbrev reduce_listing_text : String
reduce_listing_text =
    "UPDATE auction_listings SET remaining_quantity = remaining_quantity - ? WHERE listing_id = ? AND remaining_quantity > ?"

abbrev insert_transaction_text : String
insert_transaction_text =
    "INSERT INTO auction_transactions (item_id, quantity, total_price) VALUES(?, ?, ?)"

abbrev insert_receipts_text : String
insert_receipts_text =
    "INSERT INTO auction_receipts (owner_player_id, receipt_type, gold_amount, item_id, quantity, source_listing_id) VALUE(?, 3, NULL, ?, ?, ?), (?, 1, ?, NULL, NULL, ?)"

abbrev insert_character_base_text : String
insert_character_base_text =
    "INSERT INTO character_base (account_id, slot_index, nickname, class_type) VALUES (?, ?, ?, ?)"

abbrev insert_character_combat_text : String
insert_character_combat_text = "INSERT INTO character_combat (character_id) VALUES (?)"

abbrev insert_character_skin_text : String
insert_character_skin_text =
    "INSERT INTO character_skin (character_id, upper_skin, lower_skin, weapon_skin) VALUES (?, ?, ?, ?)"

abbrev delete_character_combat_text : String
delete_character_combat_text = "DELETE FROM character_combat WHERE character_id = ?"

abbrev delete_character_skin_text : String
delete_character_skin_text = "DELETE FROM character_skin WHERE character_id = ?"

abbrev delete_character_inventory_text : String
delete_character_inventory_text = "DELETE FROM character_inventory WHERE character_id = ?"

abbrev delete_character_base_text : String
delete_character_base_text = "DELETE FROM character_base WHERE character_id = ? AND account_id = ?;"

abbrev insert_session_text : String
insert_session_text =
    "INSERT INTO sessions (account_id, token, expires_at) VALUES(?, ?, NOW() + INTERVAL 30 MINUTE)"

abbrev update_last_login_text : String
update_last_login_text = "UPDATE account SET last_login = NOW() WHERE user_id = ?"

abbrev insert_account_text : String
insert_account_text =
    "INSERT INTO account (user_id, user_password, created_at, is_active) VALUES(?, ?, NOW(), 1)"

abbrev pub query_text : Query → String
query_text listings = listings_text
query_text (listings_of player_id) = listings_of_text
query_text (receipts_of player_id) = receipts_of_text
query_text (check_listing list_id) = check_listing_text
query_text (check_id id) = check_id_text
query_text (check_token id token) = check_token_text
query_text (characters_of id) = characters_of_text
query_text (check_nickname name) = check_nickname_text

abbrev pub query_args : Query → List Argument
query_args listings = []
query_args (listings_of player_id) = int32 player_id ∷ []
query_args (receipts_of player_id) = uint64 player_id ∷ []
query_args (check_listing list_id) = int64 list_id ∷ []
query_args (check_id id) = string id ∷ []
query_args (check_token id token) = int32 id ∷ string token ∷ []
query_args (characters_of id) = uint64 id ∷ []
query_args (check_nickname name) = string name ∷ []

abbrev pub update_text : Update → String
update_text (insert_listing seller item count gold hours) = insert_listing_text
update_text (debit_gold total player_id total') = debit_gold_text
update_text (delete_listing list_id) = delete_listing_text
update_text (reduce_listing count list_id count') = reduce_listing_text
update_text (insert_transaction item count total) = insert_transaction_text
update_text (insert_receipts buyer item count list_id seller total list_id') = insert_receipts_text
update_text (insert_character_base account slot name class) = insert_character_base_text
update_text (insert_character_combat id) = insert_character_combat_text
update_text (insert_character_skin id upper lower weapon) = insert_character_skin_text
update_text (delete_character_combat id) = delete_character_combat_text
update_text (delete_character_skin id) = delete_character_skin_text
update_text (delete_character_inventory id) = delete_character_inventory_text
update_text (delete_character_base id account) = delete_character_base_text
update_text (insert_session account token) = insert_session_text
update_text (update_last_login id) = update_last_login_text
update_text (insert_account id hash) = insert_account_text

abbrev pub update_args : Update → List Argument
update_args (insert_listing seller item count gold hours) =
    int64 seller ∷ int64 item ∷ int64 count ∷ int64 gold ∷ int32 (pos hours) ∷ []
update_args (debit_gold total player_id total') = int64 total ∷ int64 player_id ∷ int64 total' ∷ []
update_args (delete_listing list_id) = int64 list_id ∷ []
update_args (reduce_listing count list_id count') = int64 count ∷ int64 list_id ∷ int64 count' ∷ []
update_args (insert_transaction item count total) = int32 item ∷ int64 count ∷ int64 total ∷ []
update_args (insert_receipts buyer item count list_id seller total list_id') =
    int64 buyer
    ∷ int32 item
    ∷ int64 count
    ∷ int64 list_id
    ∷ int64 seller
    ∷ int64 total
    ∷ int64 list_id'
    ∷ []
update_args (insert_character_base account slot name class) =
    uint64 account ∷ uint64 slot ∷ string name ∷ uint64 class ∷ []
update_args (insert_character_combat id) = int32 id ∷ []
update_args (insert_character_skin id upper lower weapon) =
    int32 id ∷ uint64 upper ∷ uint64 lower ∷ uint64 weapon ∷ []
update_args (delete_character_combat id) = uint64 id ∷ []
update_args (delete_character_skin id) = uint64 id ∷ []
update_args (delete_character_inventory id) = uint64 id ∷ []
update_args (delete_character_base id account) = uint64 id ∷ uint64 account ∷ []
update_args (insert_session account token) = int32 account ∷ string token ∷ []
update_args (update_last_login id) = string id ∷ []
update_args (insert_account id hash) = string id ∷ string hash ∷ []

-- The connection of the servers, by way of `SqlUtils`.
abbrev pub connection : Connector → Connection
connection c = record {
  State = c.State;
  set_auto_commit = c.set_auto_commit;
  commit = c.commit;
  rollback = c.rollback;
  execute_query = λ q. execute_query c schema (query_text q) (query_args q);
  execute_update = λ u. execute_update c schema (update_text u) (update_args u);
  execute_update_gen_keys = λ u. execute_update_gen_keys c schema (update_text u) (update_args u);
}
