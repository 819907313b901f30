-- ===== src/Login/SignUp.antt =====
-- Signing up and in at LoginServer/SignManager.cpp, and entering with the token at the game server
-- (GameServer/Network/Handlers/LobbyPacketHandler.cpp).
use mathlib.Core.Path.{subst}
use j1_server.Prelude.{
  ℕ, suc, ◌-◌, ◌^◌, ◌≡◌, refl, ap, ◌∙◌, inl, inr, true, not, ◌&&◌, none, some, List, [], ◌∷◌, ◌++◌,
  arith, Bool-cases,
}
use j1_server.Prelude.Int.{ℤ, pos, negsuc, eq_ℤ, ◌≤ℤ◌}
use j1_server.Sql.{
  Row, Query, Update, check_id, check_token, insert_session, update_last_login, insert_account,
  is_ok, Connection,
}
use j1_server.Sql.Borrow.{returned, Action, ◌>>=◌, return, statement, with_connection}
use j1_server.Sql.Returning.{>>=-ok, statement-ok, with_connection-ok}
use j1_server.WorkerPool.{Pool, is_empty}
use j1_server.Handlers.{to_int}
use j1_server.Login.Tokens.{generate_token}
use j1_server.Login.Accounts.{
  Account, AccountTables, find_account, has_ticket, ShowsAccount, IsAccountStore,
}
use j1_server.Login.SignIn.{issue, stamped, issue-has_ticket}
use j1_server.Login.{
  Bcrypt, hash_password, verify_password, stored_password, inserted, sign_token, sign_in,
  try_sign_in, try_sign_up, res_login, res_join, packet_of, handle_req_login, handle_req_join,
}
use j1_server.Lobby.Queries.{handle_req_check_tokenvalid}

-- The key of a new account is an `int` as it is.
to_int_key : (z : ℤ) → pos 1 ≤ℤ z → z ≤ℤ pos (2 ^ 31 - 1) → to_int z ≡ z
to_int_key z positive small = ground arith

-- The pool always has a connection to lend.
abbrev pub Lends : Pool → Type 0
Lends pool = (p : pool.State) → (conn : ℕ) × (q : pool.State) × (pool.borrow p ≡ some (conn, q))

-- No statement throws.
abbrev pub IsHealthy : Connection → Type 0
IsHealthy c =
    ((q : Query) (s : c.State) → is_ok (c.execute_query q s).0 ≡ true)
    × ((u : Update) (s : c.State) → is_ok (c.execute_update u s).0 ≡ true)
    × ((u : Update) (s : c.State) → is_ok (c.execute_update_gen_keys u s).0 ≡ true)

module _ (pool : Pool) (c : Connection) (store : IsAccountStore c) (lends : Lends pool)
    (healthy : IsHealthy c) where
  -- A request whose body returns, returns.
  lent :
      {A : Type 0} (body : Action c.State A) (p : pool.State) (s t : c.State) (a : A)
      → body s ≡ (returned a, t)
      → (q : pool.State) × (with_connection pool c body (p, s) ≡ (returned a, (q, t)))
  lent body p s t a ran =
      let (conn, q, got) = lends p in
      (pool.unborrow conn q, with_connection-ok pool c body p q s t a conn got ran)

  -- A new account is found where its id was free.
  find_account-append :
      (id : List ℕ) (a : Account) (accounts : List Account)
      → find_account store.same id accounts ≡ none
      → a.is_active ≡ true
      → store.same a.user_id id ≡ true
      → find_account store.same id (accounts ++ a ∷ []) ≡ some a
  unfolding find_account
  find_account-append id a [] free active named = rw (active, named) refl
  find_account-append id a (x ∷ accounts) free active named =
      elim (Bool-cases (x.is_active && store.same x.user_id id)) [
        | inl here ↦ let never : some x ≡ none = rw here at free in cc never
        | inr other ↦ rw other (find_account-append id a accounts (rw other at free) active named)
      ]

  try_sign_up_lem :
      (b : Bcrypt) (salt : ℕ) (id pw : List ℕ) (p : pool.State) (s : c.State)
      → find_account store.same id (store.read s).accounts ≡ none
      → (q : pool.State) × (t : c.State) × (a : Account) × (try_sign_up pool c b salt id pw (p, s)
          ≡ (returned true, (q, t)))
        × (pos 1 ≤ℤ a.id)
        × (a.id ≤ℤ pos (2 ^ 31 - 1))
        × (a.password ≡ hash_password b salt pw)
        × (find_account store.same id (store.read t).accounts ≡ some a)
  unfolding try_sign_up return
  try_sign_up_lem b salt id pw p s free =
      let hash = hash_password b salt pw in
      let insert = statement (c.execute_update_gen_keys (insert_account id hash)) in
      let (account, got, ran) =
        statement-ok (c.execute_update_gen_keys (insert_account id hash)) s
          (healthy.2 (insert_account id hash) s) in
      let (positive, small, last_login, stored) = store.account_law id hash s account got in
      let t = (c.execute_update_gen_keys (insert_account id hash) s).1 in
      let a : Account = record {
        id = account;
        user_id = id;
        password = hash;
        is_active = true;
        last_login = last_login;
      } in
      let good : not (eq_ℤ account (negsuc 0)) ≡ true = ground (arith, positive) in
      let done =
        >>=-ok insert (λ x. return (not (eq_ℤ x (negsuc 0)))) s t account ran
        ∙ (let e : (return (not (eq_ℤ account (negsuc 0))) t) ≡ (return true t) =
              ap (λ x. return x t) good in
            e) in
      let (q, answered) = lent _ p s t true done in
      (
        q,
        t,
        a,
        answered,
        positive,
        small,
        refl,
        ap (λ (x : AccountTables). find_account store.same id x.accounts) stored
            ∙ find_account-append id a (store.read s).accounts free refl (store.same_refl id),
      )

  sign_in_lem :
      (fuel : ℕ) (rd : ℕ → ℕ) (id : List ℕ) (account : ℤ) (s : c.State)
      → (t : c.State) × (time : ℕ) × (sign_in c (suc fuel) rd id account true s
          ≡ (returned (account, generate_token rd 0), t))
        × (store.read t
            ≡ stamped c store id time (issue c store account (generate_token rd 0) (store.read s)))
  unfolding sign_in sign_token inserted return
  sign_in_lem fuel rd id account s =
      let token = generate_token rd 0 in
      let put = c.execute_update (insert_session account token) in
      let (n, got, ran) = statement-ok put s (healthy.1 (insert_session account token) s) in
      let s1 = (put s).1 in
      let login = c.execute_update (update_last_login id) in
      let (m, count, logged) = statement-ok login s1 (healthy.1 (update_last_login id) s1) in
      let s2 = (login s1).1 in
      let stored : sign_token c (suc fuel) rd 0 account s ≡ (returned (account, token), s1) =
        ap (inserted c (sign_token c fuel rd 1 account) (account, token)) ran in
      let (time, stamps) = store.last_login_law id s1 m count in
      (
        s2,
        time,
        >>=-ok (sign_token c (suc fuel) rd 0 account)
              (λ result. statement login >>= λ _. return result) s s1 (account, token) stored
            ∙ >>=-ok (statement login) (λ _. return (account, token)) s1 s2 m logged,
        stamps ∙ ap (stamped c store id time) (store.session_law account token s n got),
      )

  try_sign_in_lem :
      (b : Bcrypt) (fuel : ℕ) (rd : ℕ → ℕ) (id pw : List ℕ) (p : pool.State) (s : c.State)
      (a : Account)
      → find_account store.same id (store.read s).accounts ≡ some a
      → verify_password b pw a.password ≡ true
      → (q : pool.State) × (t : c.State) × (time : ℕ) × (try_sign_in pool c b
            (suc fuel)
            rd
            id
            pw
            (p, s)
          ≡ (returned (a.id, generate_token rd 0), (q, t)))
        × (store.read t
            ≡ stamped c store id time (issue c store a.id (generate_token rd 0) (store.read s)))
  unfolding try_sign_in stored_password
  try_sign_in_lem b fuel rd id pw p s a found fits =
      let ask = c.execute_query (check_id id) in
      let go : List Row → Action c.State (ℤ × List ℕ) = λ rows.
        sign_in c (suc fuel) rd id (stored_password rows).0
          (verify_password b pw (stored_password rows).1) in
      let (rows, got, asked) = statement-ok ask s (healthy.0 (check_id id) s) in
      let s1 = (ask s).1 in
      let (row, rest, first, named, hash) =
        subst (λ o. ShowsAccount o rows) found (store.check_id_law id s rows got) in
      let (t, time, signed, issued) = sign_in_lem fuel rd id a.id s1 in
      let account : (stored_password rows).0 ≡ a.id = rw first named in
      let fit : verify_password b pw (stored_password rows).1 ≡ true = rw (first, hash) fits in
      let done =
        >>=-ok (statement ask) go s s1 rows asked
        ∙ (λ i. sign_in c (suc fuel) rd id (account i) (fit i) s1)
        ∙ signed in
      let (q, answered) = lent _ p s t (a.id, generate_token rd 0) done in
      (
        q,
        t,
        time,
        answered,
        issued
            ∙ ap (λ x. stamped c store id time (issue c store a.id (generate_token rd 0) x))
                (store.query_law (check_id id) s),
      )

  handle_req_check_tokenvalid_lem :
      (account : ℤ) (token : List ℕ) (p : pool.State) (s : c.State)
      → (handle_req_check_tokenvalid pool c account token (p, s)).0
        ≡ returned (has_ticket store.same (to_int account) token (store.read s).tickets)
  unfolding handle_req_check_tokenvalid return
  handle_req_check_tokenvalid_lem account token p s =
      let ask = c.execute_query (check_token (to_int account) token) in
      let (rows, got, asked) =
        statement-ok ask s (healthy.0 (check_token (to_int account) token) s) in
      let s1 = (ask s).1 in
      let found = store.check_token_law (to_int account) token s rows got in
      let done =
        >>=-ok (statement ask) (λ x. return (not (is_empty x))) s s1 rows asked
        ∙ ap (λ x. return x s1) found in
      let (q, answered) = lent _ p s s1 _ done in ap (λ x. x.0) answered

  -- On a database on which no statement throws, with a pool that lends and a bcrypt that takes a hash for
  -- the hash of its password: a join with a free id is answered with success; a login with the same id and
  -- password is then answered with the number of the new account and the first token of the random
  -- device, in the first round of the loop; and the game server accepts the two.
  pub handle_req_join-handle_req_login :
      (b : Bcrypt) (salt fuel : ℕ) (rd : ℕ → ℕ) (id pw : List ℕ) (p : pool.State) (s : c.State)
      → ((salt' : ℕ) (password : List ℕ)
          → verify_password b password (hash_password b salt' password) ≡ true)
      → find_account store.same id (store.read s).accounts ≡ none
      → let (joined, db1) = handle_req_join pool c b salt id pw (p, s) in
        let (entered, db2) = handle_req_login pool c b (suc fuel) rd id pw db1 in
        (account : ℤ) × (joined ≡ returned (res_join true, true))
        × (entered ≡ returned (res_login account (generate_token rd 0), true))
        × (pos 1 ≤ℤ account)
        × ((handle_req_check_tokenvalid pool c account (generate_token rd 0) db2).0 ≡ returned true)
  unfolding handle_req_join handle_req_login
  handle_req_join-handle_req_login b salt fuel rd id pw p s hashes free =
      let (q, t, a, joined, positive, small, hashed, found) =
        try_sign_up_lem b salt id pw p s free in
      let fits : verify_password b pw a.password ≡ true = rw hashed (hashes salt pw) in
      let (q', u, time, entered, issued) = try_sign_in_lem b fuel rd id pw q t a found fits in
      let token = generate_token rd 0 in
      let first = ap (packet_of pool c (λ success. (res_join success, success))) joined in
      let second =
        ap (handle_req_login pool c b (suc fuel) rd id pw) (ap (λ x. x.1) first)
        ∙ ap (packet_of pool c (λ result. (res_login result.0 result.1, true))) entered in
      let valid =
        handle_req_check_tokenvalid_lem a.id token q' u
        ∙ ap returned (
            ap (λ (x : AccountTables). has_ticket store.same (to_int a.id) token x.tickets) issued
            ∙ ap
                (λ k.
                  has_ticket store.same k token (issue c store a.id token (store.read t)).tickets)
                (to_int_key a.id positive small)
            ∙ issue-has_ticket c store a.id token (store.read t).tickets) in
      (
        a.id,
        ap (λ x. x.0) first,
        ap (λ x. x.0) second,
        positive,
        ap (λ x. (handle_req_check_tokenvalid pool c a.id token x).0) (ap (λ x. x.1) second)
            ∙ valid,
      )
