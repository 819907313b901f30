-- ===== src/Lobby/Characters.antt =====
-- The handlers of GameServer/Network/Handlers/LobbyPacketHandler.cpp that create and delete characters: all of
-- their statements, or none.
use mathlib.Core.Path.{subst}
use j1_server.Prelude.{◌≡◌, Bool, true, false, ◌||◌, Option, none, some, [], ◌∷◌, if◌then◌else◌}
use j1_server.Prelude.Int.{ℤ, pos, eq_ℤ}
use j1_server.Sql.{Result, ok, Connection}
use j1_server.Sql.Transactions.{Views, IsTransactional}
use j1_server.Lobby.{
  LobbyCharacterInfo, Action, insert_character, delete_character, transact, answer,
  handle_req_create_character, handle_req_delete_character,
}
use j1_server.Lobby.Atomic.{
  AllOrNothing, Answered, transact-Answered, insert_character-Keeps, delete_character-Keeps,
}

-- The requests that write characters.
pub data CharacterRequest : Type 0 where
  creates : ℤ → LobbyCharacterInfo → CharacterRequest
  deletes : ℤ → ℤ → CharacterRequest

module _ (c : Connection) (v : Views c) (laws : IsTransactional c v) where
  open c use {State}

  -- On a connection that keeps the documented laws of transactions: where the handler sends that a
  -- character was made, all of its inserts have returned with success and others see the tables as
  -- the transaction saw them after the last one; where it sends that none was made, others see the
  -- tables as they were before.
  handle_req_create_character-AllOrNothing :
      (account_id : ℤ) (temp : LobbyCharacterInfo) (s s' : State) (result : Bool)
      → handle_req_create_character c account_id (temp ∷ []) s ≡ (ok (some result), s')
      → AllOrNothing c v laws (insert_character c account_id temp) s result s'
  unfolding handle_req_create_character
  handle_req_create_character-AllOrNothing account_id temp s s' result e =
      let work = insert_character c account_id temp in
      subst (Answered c v laws work s) e
        (transact-Answered c v laws work s (insert_character-Keeps c v laws account_id temp))

  -- On such a connection, where the handler sends that a character was deleted, the deletes have
  -- returned with success and others see the tables as the transaction saw them after the last one;
  -- where it sends that it was not, others see the tables as they were before.
  handle_req_delete_character-AllOrNothing :
      (account_id character_id : ℤ) (s s' : State) (result : Bool)
      → handle_req_delete_character c account_id character_id s ≡ (ok (some result), s')
      → AllOrNothing c v laws (delete_character c account_id character_id) s result s'
  unfolding handle_req_delete_character
  handle_req_delete_character-AllOrNothing account_id character_id s s' result e =
      go (eq_ℤ account_id (pos 0) || eq_ℤ character_id (pos 0)) e
    where
      work : Action c Bool
      work = delete_character c account_id character_id

      go :
          (b : Bool)
          → (if b then (ok none, s) else answer c (transact c work s)) ≡ (ok (some result), s')
          → AllOrNothing c v laws work s result s'
      go true h = cc h
      go false h = subst (Answered c v laws work s) h (
          transact-Answered c v laws work s
            (delete_character-Keeps c v laws account_id character_id))

  -- The handler of a request, and the statements in its transaction.
  abbrev pub handled : CharacterRequest → State → Result (Option Bool) × State
  handled (creates account_id temp) s = handle_req_create_character c account_id (temp ∷ []) s
  handled (deletes account_id character_id) s =
      handle_req_delete_character c account_id character_id s

  abbrev pub statements : CharacterRequest → Action c Bool
  statements (creates account_id temp) = insert_character c account_id temp
  statements (deletes account_id character_id) = delete_character c account_id character_id

  -- On a connection that keeps the documented laws of transactions: where the handler sends that a character
  -- was made, or deleted, all of its inserts, or deletes, have returned with success and others see the tables
  -- as the transaction saw them after the last one; where it sends that none was, others see the tables as they
  -- were before.
  pub handled-AllOrNothing :
      (request : CharacterRequest) (s s' : State) (result : Bool)
      → handled request s ≡ (ok (some result), s')
      → AllOrNothing c v laws (statements request) s result s'
  handled-AllOrNothing (creates account_id temp) s s' result e =
      handle_req_create_character-AllOrNothing account_id temp s s' result e
  handled-AllOrNothing (deletes account_id character_id) s s' result e =
      handle_req_delete_character-AllOrNothing account_id character_id s s' result e
