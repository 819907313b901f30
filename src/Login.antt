-- ===== src/Login.antt =====
-- LoginServer/SignManager.cpp and LoginServer/Network/Handlers/LoginPacketHandler.cpp: checking an id,
-- signing in and signing up. bcrypt is the parameter `Bcrypt`, the readings of `std::random_device` and
-- the salts are arguments, and a result set is the list of its rows, never null.
pub mod Tokens
pub mod Hex
pub mod Accounts
pub mod SignIn
pub mod TokenLoop
pub mod SignUp
mod Tests
use j1_server.Prelude.{ℕ, zero, suc, ◌+◌, ◌*◌, Bool, true, false, not, List, [], ◌∷◌, if◌then◌else◌}
use j1_server.Prelude.Int.{ℤ, pos, negsuc, eq_ℤ}
use j1_server.Sql.{
  account_id, user_password, Row, check_id, insert_session, update_last_login, insert_account,
  Connection,
}
use j1_server.Sql.Borrow.{
  Outcome, returned, threw, running, Action, ◌>>=◌, return, statement, Db, with_connection,
}
use j1_server.WorkerPool.{Pool, is_empty}
use j1_server.Login.Tokens.{generate_token}

-- `BCrypt`: the salt of a hash is its first argument here, the cost the last.
pub record Bcrypt : Type 0 where
  pub generate_hash : ℕ → List ℕ → ℕ → List ℕ
  pub validate_password : List ℕ → List ℕ → Bool

-- `HashPassword`
unfoldable pub hash_password : Bcrypt → ℕ → List ℕ → List ℕ
hash_password b salt password = b.generate_hash salt password 12

-- `VerifyPassword`
unfoldable pub verify_password : Bcrypt → List ℕ → List ℕ → Bool
verify_password b password hash = b.validate_password password hash

-- The account and the hash of the first row, if there is one.
unfoldable pub stored_password : List Row → ℤ × List ℕ
stored_password [] = (negsuc 0, [])
stored_password (row ∷ rows) = (row.int_of account_id, row.string_of user_password)

module _ (c : Connection) where
  open c use {State, execute_query, execute_update, execute_update_gen_keys}

  -- The end of a round of the loop over the tokens; `again` is the next round.
  unfoldable pub inserted :
      Action State (ℤ × List ℕ) → ℤ × List ℕ → Outcome ℕ × State → Outcome (ℤ × List ℕ) × State
  inserted again result (returned n, s) = (returned result, s)
  inserted again result (_, s) = again s

  -- The loop over the tokens, from the k-th on; the fuel bounds its rounds. A count of rows is never
  -- negative, so only an exception makes another round.
  unfoldable pub sign_token : ℕ → (ℕ → ℕ) → ℕ → ℤ → Action State (ℤ × List ℕ)
  unfolding inserted
  sign_token zero rd k id s = (running, s)
  sign_token (suc fuel) rd k id s =
      let again = sign_token fuel rd (k + 1) id in
      let token = generate_token rd (8 * k) in
      inserted again (id, token) (statement (execute_update (insert_session id token)) s)

  -- `TrySignIn` where the password has been compared.
  unfoldable pub sign_in : ℕ → (ℕ → ℕ) → List ℕ → ℤ → Bool → Action State (ℤ × List ℕ)
  unfolding ◌>>=◌ return
  sign_in fuel rd id account false = return (negsuc 0, [])
  sign_in fuel rd id account true = do
    result ← sign_token fuel rd 0 account
    updated ← statement (execute_update (update_last_login id))
    return result

module _ (pool : Pool) (c : Connection) where
  -- `TryCheckID`: whether the id is taken.
  unfoldable pub try_check_id : List ℕ → Db pool c → Outcome Bool × Db pool c
  unfolding ◌>>=◌
  try_check_id id =
      with_connection pool c
        (do rows ← statement (c.execute_query (check_id id)); return (not (is_empty rows)))

  -- `TrySignIn`
  unfoldable pub try_sign_in :
      Bcrypt → ℕ → (ℕ → ℕ) → List ℕ → List ℕ → Db pool c → Outcome (ℤ × List ℕ) × Db pool c
  unfolding ◌>>=◌ stored_password
  try_sign_in b fuel rd id pw = with_connection pool c (do
    rows ← statement (c.execute_query (check_id id))
    let (account, hash) = stored_password rows
    sign_in c fuel rd id account (verify_password b pw hash))

  -- `TrySignUp`
  unfoldable pub try_sign_up : Bcrypt → ℕ → List ℕ → List ℕ → Db pool c → Outcome Bool × Db pool c
  unfolding ◌>>=◌
  try_sign_up b salt id pw = with_connection pool c (do
    account ← statement (c.execute_update_gen_keys (insert_account id (hash_password b salt pw)))
    return (not (eq_ℤ account (negsuc 0))))

-- The packets that are sent.
pub data LoginPacket : Type 0 where
  res_login : (player_id : ℤ) (token : List ℕ) → LoginPacket
  res_check_id res_join : (result : Bool) → LoginPacket

module _ (pool : Pool) (c : Connection) where
  -- What a handler sends and returns, from what the manager has returned; where that throws, nothing is sent.
  abbrev pub packet_of :
      {A : Type 0}
      → (A → LoginPacket × Bool)
      → Outcome A × Db pool c
      → Outcome (LoginPacket × Bool) × Db pool c
  packet_of f (returned a, db) = (returned (f a), db)
  packet_of f (threw e, db) = (threw e, db)
  packet_of f (running, db) = (running, db)

  unfoldable pub handle_req_login :
      Bcrypt → ℕ → (ℕ → ℕ) → List ℕ → List ℕ → Db pool c → Outcome (LoginPacket × Bool) × Db pool c
  handle_req_login b fuel rd id pw db =
      packet_of (λ result. (res_login result.0 result.1, true))
        (try_sign_in pool c b fuel rd id pw db)

  unfoldable pub handle_req_check_id : List ℕ → Db pool c → Outcome (LoginPacket × Bool) × Db pool c
  handle_req_check_id id db =
      packet_of (λ success. (res_check_id success, true)) (try_check_id pool c id db)

  -- It returns `success`, which nothing looks at.
  unfoldable pub handle_req_join :
      Bcrypt → ℕ → List ℕ → List ℕ → Db pool c → Outcome (LoginPacket × Bool) × Db pool c
  handle_req_join b salt id pw db =
      packet_of (λ success. (res_join success, success)) (try_sign_up pool c b salt id pw db)
