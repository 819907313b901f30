-- ===== src/Login/Accounts.antt =====
-- What the account database does with the statements of LoginServer/SignManager.cpp, and with the token
-- query of GameServer/Network/Handlers/LobbyPacketHandler.cpp, by the documented meaning of their SQL.
use j1_server.Prelude.{
  ℕ, ◌-◌, ◌^◌, ◌≡◌, Bool, true, false, not, ◌&&◌, ◌||◌, Option, none, some, List, [], ◌∷◌, ◌++◌,
  if◌then◌else◌,
}
use j1_server.Prelude.Int.{ℤ, pos, eq_ℤ, ◌≤ℤ◌}
use j1_server.Sql.{
  account_id, user_password, Row, Query, check_id, check_token, insert_session, update_last_login,
  insert_account, ok, throws, Connection,
}
use j1_server.WorkerPool.{is_empty}

-- A row of `account`.
pub record Account : Type 0 where
  pub id : ℤ
  pub user_id : List ℕ
  pub password : List ℕ
  pub is_active : Bool
  -- a time of the database, or NULL
  pub last_login : Option ℕ

-- A row of `sessions` that has not expired.
pub record Ticket : Type 0 where
  pub account : ℤ
  pub token : List ℕ

pub record AccountTables : Type 0 where
  pub accounts : List Account
  pub tickets : List Ticket

-- WHERE is_active = 1 AND user_id = ?; texts are the same by the collation of the database.
unfoldable pub find_account : (List ℕ → List ℕ → Bool) → List ℕ → List Account → Option Account
find_account same id [] = none
find_account same id (a ∷ accounts) =
    if a.is_active && same a.user_id id then some a else find_account same id accounts

-- SET last_login = NOW() WHERE user_id = ?, at a reading of `NOW()`
abbrev pub stamp : (List ℕ → List ℕ → Bool) → List ℕ → ℕ → List Account → List Account
stamp same id time [] = []
stamp same id time (a ∷ accounts) =
    (if same a.user_id id then record a { last_login = some time } else a)
    ∷ stamp same id time accounts

-- WHERE account_id = ? AND token = ? AND expires_at > NOW()
unfoldable pub has_ticket : (List ℕ → List ℕ → Bool) → ℤ → List ℕ → List Ticket → Bool
has_ticket same account token [] = false
has_ticket same account token (t ∷ tickets) =
    eq_ℤ t.account account && same t.token token || has_ticket same account token tickets

abbrev pub ShowsAccount : Option Account → List Row → Type 0
ShowsAccount none rows = rows ≡ []
ShowsAccount (some a) rows =
    (row : Row) × (rest : List Row) × (rows ≡ row ∷ rest)
    × (row.int_of account_id ≡ a.id)
    × (row.string_of user_password ≡ a.password)

-- Without autocommit turned off every statement takes effect where it returns; nothing is claimed of
-- one that throws but that an insert into `sessions` has not been made. The key of a new account is
-- the `int` that `executeUpdate_GenKeys` returns, and its `last_login` what the table has for it.
pub record IsAccountStore (c : Connection) : Type 0 where
  pub same : List ℕ → List ℕ → Bool
  pub same_refl : (text : List ℕ) → same text text ≡ true
  pub read : c.State → AccountTables
  pub query_law : (q : Query) (s : c.State) → read (c.execute_query q s).1 ≡ read s
  pub check_id_law :
      (id : List ℕ) (s : c.State) (rows : List Row)
      → (c.execute_query (check_id id) s).0 ≡ ok rows
      → ShowsAccount (find_account same id (read s).accounts) rows
  pub check_token_law :
      (account : ℤ) (token : List ℕ) (s : c.State) (rows : List Row)
      → (c.execute_query (check_token account token) s).0 ≡ ok rows
      → not (is_empty rows) ≡ has_ticket same account token (read s).tickets
  pub session_law :
      (account : ℤ) (token : List ℕ) (s : c.State) (n : ℕ)
      → (c.execute_update (insert_session account token) s).0 ≡ ok n
      → read (c.execute_update (insert_session account token) s).1 ≡ record (read s) {
        tickets = (read s).tickets ++ record { account = account; token = token } ∷ [];
      }
  pub session_failed :
      (account : ℤ) (token : List ℕ) (s : c.State) (e : ℕ)
      → (c.execute_update (insert_session account token) s).0 ≡ throws e
      → read (c.execute_update (insert_session account token) s).1 ≡ read s
  pub last_login_law :
      (id : List ℕ) (s : c.State) (n : ℕ)
      → (c.execute_update (update_last_login id) s).0 ≡ ok n
      → (time : ℕ) × (read (c.execute_update (update_last_login id) s).1
          ≡ record (read s) { accounts = stamp same id time (read s).accounts })
  pub account_law :
      (id hash : List ℕ) (s : c.State) (account : ℤ)
      → (c.execute_update_gen_keys (insert_account id hash) s).0 ≡ ok account
      → (pos 1 ≤ℤ account)
        × (account ≤ℤ pos (2 ^ 31 - 1))
        × (last_login : Option ℕ) × (read (c.execute_update_gen_keys (insert_account id hash) s).1
            ≡ record (read s) {
              accounts =
                  (read s).accounts
                  ++ record {
                    id = account;
                    user_id = id;
                    password = hash;
                    is_active = true;
                    last_login = last_login;
                  }
                    ∷ [];
            })
