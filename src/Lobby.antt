-- ===== src/Lobby.antt =====
-- GameServer/Network/Handlers/LobbyPacketHandler.cpp: creating and deleting a character, each in one
-- transaction. The connection that is borrowed is the parameter. An exception that no `catch` of the
-- handler takes leaves it as `throws`.
pub mod Atomic
pub mod Characters
pub mod Queries
pub mod Room
pub mod Presence
mod Tests
use j1_server.Prelude.{
  ℕ, Bool, true, false, ◌&&◌, ◌||◌, Option, none, some, List, [], ◌∷◌, ltb, ◌==◌, if◌then◌else◌,
}
use j1_server.Prelude.Int.{ℤ, pos, ltb_ℤ, eq_ℤ}
use j1_server.Sql.{
  Update, insert_character_base, insert_character_combat, insert_character_skin,
  delete_character_combat, delete_character_skin, delete_character_inventory, delete_character_base,
  Result, ok, throws, Connection,
}

-- The fields of `Game::LobbyCharacterInfo` that are stored.
pub record LobbyCharacterInfo : Type 0 where
  pub slot_id : ℤ
  pub name : List ℕ
  pub classtype : ℤ
  pub upperskinid : ℤ
  pub lowerskinid : ℤ
  pub weaponskinid : ℤ

module _ (c : Connection) where
  open c use {State, set_auto_commit, commit, rollback, execute_update, execute_update_gen_keys}

  abbrev pub Action : Type 0 → Type 0
  Action A = State → Result A × State

  abbrev pub resume : {A B : Type 0} → (A → Action B) → Result A × State → Result B × State
  resume f (ok a, s) = f a s
  resume f (throws e, s) = (throws e, s)

  infixl 5 ◌>>=◌
  unfoldable pub ◌>>=◌ : {A B : Type 0} → Action A → (A → Action B) → Action B
  ◌>>=◌ m f s = resume f (m s)

  unfoldable pub return : {A : Type 0} → A → Action A
  return a s = (ok a, s)

  -- The inserts of `Handle_REQ_CREATE_CHARACTER`, and whether they are to be committed.
  unfoldable pub insert_character : ℤ → LobbyCharacterInfo → Action Bool
  insert_character account_id temp = do
    character_id ←
        execute_update_gen_keys
          (insert_character_base account_id temp.slot_id temp.name temp.classtype)
    cc ← execute_update (insert_character_combat character_id)
    cs ←
        execute_update
          (insert_character_skin character_id temp.upperskinid temp.lowerskinid temp.weaponskinid)
    return (ltb_ℤ (pos 0) character_id && (ltb 0 cc && ltb 0 cs))

  -- The deletes of `Handle_REQ_DELETE_CHARACTER`, and whether they are to be committed.
  unfoldable pub delete_character : ℤ → ℤ → Action Bool
  delete_character account_id character_id = do
    cc ← execute_update (delete_character_combat character_id)
    cs ← execute_update (delete_character_skin character_id)
    ci ← execute_update (delete_character_inventory character_id)
    cb ← execute_update (delete_character_base character_id account_id)
    return (if cb == 0 then false else true)

  -- The end of the `try` block.
  unfoldable pub decide : Bool → Action Bool
  unfolding ◌>>=◌ return
  decide true = commit >>= λ _. return true
  decide false = rollback >>= λ _. return false

  -- The `try` block.
  unfoldable pub attempt : Action Bool → Action Bool
  unfolding ◌>>=◌ decide
  attempt work = set_auto_commit false >>= λ _. work >>= decide

  -- The `catch` block.
  unfoldable pub recover : Result Bool × State → Result Bool × State
  unfolding ◌>>=◌ return
  recover (ok result, s) = (ok result, s)
  recover (throws code, s) = (rollback >>= λ _. return false) s

  -- The transaction with the restored autocommit, as in both handlers.
  unfoldable pub transact : Action Bool → Action Bool
  unfolding ◌>>=◌ return attempt recover
  transact work =
      (λ s. recover (attempt work s)) >>= λ result. set_auto_commit true >>= λ _. return result

  -- What is sent, if anything: the result of the packet.
  unfoldable pub answer : Result Bool × State → Result (Option Bool) × State
  answer (ok result, s) = (ok (some result), s)
  answer (throws code, s) = (throws code, s)

  unfoldable pub handle_req_create_character :
      ℤ → List LobbyCharacterInfo → State → Result (Option Bool) × State
  unfolding transact insert_character answer
  handle_req_create_character account_id (temp ∷ []) s =
      answer (transact (insert_character account_id temp) s)
  handle_req_create_character account_id _ s = (ok none, s)

  unfoldable pub handle_req_delete_character : ℤ → ℤ → State → Result (Option Bool) × State
  unfolding transact delete_character answer
  handle_req_delete_character account_id character_id s =
      if eq_ℤ account_id (pos 0) || eq_ℤ character_id (pos 0)
      then (ok none, s)
      else answer (transact (delete_character account_id character_id) s)
