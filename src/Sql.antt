-- ===== src/Sql.antt =====
-- What the auction server calls of a database connection: MySQL Connector/C++ behind
-- ServerCore/SqlUtils.h and ServerCore/DB/MySQLConnection.h. The server is a parameter; the
-- statements are those whose text stands in AuctionServer/AuctionService.cpp, in
-- GameServer/Network/Handlers/LobbyPacketHandler.cpp for the characters, and in
-- LoginServer/SignManager.cpp for the accounts.
pub mod Transactions
pub mod Borrow
pub mod Returning
pub mod Connector
pub mod Texts
pub mod Matching
pub mod Binding
mod Tests
use j1_server.Prelude.{ℕ, Bool, true, false, List}
use j1_server.Prelude.Int.{ℤ}

-- The columns that the result sets are asked for.
pub data Column : Type 0 where
  listing_id seller_id item_id remaining_quantity price expired_at : Column
  receipt_id receipt_type quantity gold_amount : Column
  account_id user_password : Column
  character_id slot_index nickname class_type level gold upper_skin lower_skin weapon_skin : Column

-- A row of a result set: `getInt` or `getInt64`, and `getString`.
pub record Row : Type 0 where
  pub int_of : Column → ℤ
  pub string_of : Column → List ℕ

pub data Query : Type 0 where
  -- SELECT * FROM auction_listings WHERE expired_at > NOW() ORDER BY listing_id ASC LIMIT 100, and
  -- with AND seller_id = ?, then without a limit
  listings : Query
  listings_of : ℤ → Query
  -- SELECT * FROM auction_receipts WHERE owner_player_id = ? ORDER BY list_id ASC LIMIT 100
  receipts_of : ℤ → Query
  -- SELECT … FROM auction_listings WHERE listing_id = ? AND expired_at > NOW() FOR UPDATE
  check_listing : ℤ → Query
  -- SELECT account_id, user_password FROM account WHERE is_active = 1 AND user_id = ?
  check_id : List ℕ → Query
  -- SELECT 1 FROM sessions WHERE account_id = ? AND token = ? AND expires_at > NOW() LIMIT 1
  check_token : ℤ → List ℕ → Query
  -- SELECT … FROM character_base JOIN … WHERE account_id = ? ORDER BY slot_index
  characters_of : ℤ → Query
  -- SELECT 1 FROM character_base WHERE nickname = ? LIMIT 1
  check_nickname : List ℕ → Query

pub data Update : Type 0 where
  -- INSERT INTO auction_listings: seller, item, quantity, price, hours until it expires
  insert_listing : ℤ → ℤ → ℤ → ℤ → ℕ → Update
  -- UPDATE character_base SET gold = gold - ? WHERE account_id = ? AND gold >= ?
  debit_gold : ℤ → ℤ → ℤ → Update
  -- DELETE FROM auction_listings WHERE listing_id = ?
  delete_listing : ℤ → Update
  -- UPDATE auction_listings SET remaining_quantity = remaining_quantity - ?
  -- WHERE listing_id = ? AND remaining_quantity > ?
  reduce_listing : ℤ → ℤ → ℤ → Update
  -- INSERT INTO auction_transactions: item, quantity, total price
  insert_transaction : ℤ → ℤ → ℤ → Update
  -- INSERT INTO auction_receipts: buyer, item, quantity, listing; seller, gold, listing
  insert_receipts : ℤ → ℤ → ℤ → ℤ → ℤ → ℤ → ℤ → Update
  -- INSERT INTO character_base: account, slot, nickname, class
  insert_character_base : ℤ → ℤ → List ℕ → ℤ → Update
  -- INSERT INTO character_combat, and character_skin with its three skins
  insert_character_combat : ℤ → Update
  insert_character_skin : ℤ → ℤ → ℤ → ℤ → Update
  -- DELETE FROM the four tables WHERE character_id = ?, and for the last one AND account_id = ?
  delete_character_combat delete_character_skin delete_character_inventory : ℤ → Update
  delete_character_base : ℤ → ℤ → Update
  -- INSERT INTO sessions: account, token; it expires in 30 minutes
  insert_session : ℤ → List ℕ → Update
  -- UPDATE account SET last_login = NOW() WHERE user_id = ?
  update_last_login : List ℕ → Update
  -- INSERT INTO account: user id, password hash; it is active
  insert_account : List ℕ → List ℕ → Update

-- A call returns, or throws `sql::SQLException` with an error code.
pub data Result (A : Type 0) : Type 0 where
  ok : A → Result A
  throws : ℕ → Result A

abbrev pub is_ok : {A : Type 0} → Result A → Bool
is_ok (ok a) = true
is_ok (throws code) = false

-- A connection, with all that it can reach as its state.
pub record Connection : Type 1 where
  pub State : Type 0
  pub set_auto_commit : Bool → State → Result (Unit {0}) × State
  pub commit : State → Result (Unit {0}) × State
  pub rollback : State → Result (Unit {0}) × State
  pub execute_query : Query → State → Result (List Row) × State
  pub execute_update : Update → State → Result ℕ × State
  -- `executeUpdate_GenKeys`: the key that the row was given.
  pub execute_update_gen_keys : Update → State → Result ℤ × State
