-- ===== src/Lobby/Queries.antt =====
-- The handlers of GameServer/Network/Handlers/LobbyPacketHandler.cpp that ask one query: the token of a
-- login, the characters of an account, and whether a nickname is taken. What they return is the
-- fields of the packet that is sent.
use j1_server.Prelude.{ℕ, Bool, true, false, not, List, [], map, if◌then◌else◌}
use j1_server.Prelude.Int.{ℤ, pos, ltb_ℤ}
use j1_server.Sql.{
  Row, character_id, slot_index, nickname, class_type, level, gold, upper_skin, lower_skin,
  weapon_skin, check_token, characters_of, check_nickname, Connection,
}
use j1_server.Sql.Borrow.{Outcome, ◌>>=◌, return, statement, Db, with_connection}
use j1_server.WorkerPool.{Pool, is_empty}
use j1_server.Handlers.{to_int}

-- An entry of `RES_CHARACTER_LIST`.
pub record CharacterEntry : Type 0 where
  pub character : ℤ
  pub slot : ℤ
  pub name : List ℕ
  pub classtype : ℤ
  pub level_of : ℤ
  pub gold_of : ℤ
  pub upperskinid : ℤ
  pub lowerskinid : ℤ
  pub weaponskinid : ℤ

unfoldable pub character_entry : Row → CharacterEntry
character_entry row = record {
  character = row.int_of character_id;
  slot = row.int_of slot_index;
  name = row.string_of nickname;
  classtype = row.int_of class_type;
  level_of = row.int_of level;
  gold_of = row.int_of gold;
  upperskinid = row.int_of upper_skin;
  lowerskinid = row.int_of lower_skin;
  weaponskinid = row.int_of weapon_skin;
}

module _ (pool : Pool) (c : Connection) where
  -- The client's `id` is a `uint64`, and is asked for as an `int`.
  unfoldable pub handle_req_check_tokenvalid : ℤ → List ℕ → Db pool c → Outcome Bool × Db pool c
  unfolding ◌>>=◌
  handle_req_check_tokenvalid id token = with_connection pool c (do
    rows ← statement (c.execute_query (check_token (to_int id) token))
    return (not (is_empty rows)))

  -- The result, which says that the query has been made, and the characters.
  unfoldable pub handle_req_character_list :
      ℤ → Db pool c → Outcome (Bool × List CharacterEntry) × Db pool c
  unfolding ◌>>=◌ return character_entry
  handle_req_character_list id = with_connection pool c (
      if ltb_ℤ (pos 0) id
      then (statement (c.execute_query (characters_of id)) >>= λ rows.
          return (true, map character_entry rows))
      else return (false, []))

  unfoldable pub handle_req_check_nickname : List ℕ → Db pool c → Outcome Bool × Db pool c
  unfolding ◌>>=◌
  handle_req_check_nickname name =
      with_connection pool c
        (do rows ← statement (c.execute_query (check_nickname name)); return (not (is_empty rows)))
