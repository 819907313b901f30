-- ===== src/Login/SignIn.antt =====
-- `TrySignIn` of LoginServer/SignManager.cpp on the account database, and the token that it gives out at
-- the game server.
use j1_server.Prelude.{
  ℕ, zero, suc, ◌+◌, ◌*◌, ◌≡◌, refl, sym, ap, ◌∙◌, ◌⊎◌, inl, inr, true, false, Option, none, some,
  List, [], ◌∷◌, ◌++◌, Bool-cases, arith,
}
use j1_server.Prelude.Int.{ℤ, negsuc, eq_ℤ, eq_ℤ_iff}
use j1_server.Sql.{
  account_id, Row, check_id, insert_session, update_last_login, Result, ok, throws, Connection,
}
use j1_server.Sql.Borrow.{returned, Action, ◌>>=◌, return, outcome, statement}
use j1_server.Sql.Returning.{
  >>=-returned, statement-returned, return-returned, with_connection-Returned,
}
use j1_server.WorkerPool.{Pool}
use j1_server.Login.Tokens.{generate_token}
use j1_server.Login.Accounts.{
  Account, Ticket, AccountTables, find_account, stamp, has_ticket, ShowsAccount, IsAccountStore,
}
use j1_server.Login.{
  Bcrypt, verify_password, stored_password, inserted, sign_token, sign_in, try_sign_in,
}

eq_ℤ_refl : (x : ℤ) → eq_ℤ x x ≡ true
eq_ℤ_refl x = (eq_ℤ_iff x x).1 refl

module _ (c : Connection) (store : IsAccountStore c) where
  open c use {State, execute_query, execute_update}

  -- The tables with one more ticket.
  abbrev pub issue : ℤ → List ℕ → AccountTables → AccountTables
  issue account token t = record t {
    tickets = t.tickets ++ record { account = account; token = token } ∷ [];
  }

  -- The tables with the time of a login.
  abbrev pub stamped : List ℕ → ℕ → AccountTables → AccountTables
  stamped id time t = record t { accounts = stamp store.same id time t.accounts }

  sign_token-issue :
      (fuel : ℕ) (rd : ℕ → ℕ) (k : ℕ) (account : ℤ) (s s' : State) (r : ℤ × List ℕ)
      → sign_token c fuel rd k account s ≡ (returned r, s')
      → (j : ℕ) × (r ≡ (account, generate_token rd (8 * j)))
        × (store.read s' ≡ issue account (generate_token rd (8 * j)) (store.read s))
  unfolding sign_token inserted statement
  sign_token-issue zero rd k account s s' r e = cc e
  sign_token-issue (suc fuel) rd k account s s' r e =
      let next = (execute_update (insert_session account (generate_token rd (8 * k))) s).1 in
      tried (sign_token-issue fuel rd (k + 1) account next s' r)
        (execute_update (insert_session account (generate_token rd (8 * k))) s).0 refl e
    where
      next : State
      next = (execute_update (insert_session account (generate_token rd (8 * k))) s).1

      tried :
          (sign_token c fuel rd (k + 1) account next ≡ (returned r, s')
            → (j : ℕ) × (r ≡ (account, generate_token rd (8 * j)))
              × (store.read s' ≡ issue account (generate_token rd (8 * j)) (store.read next)))
          → (o : Result ℕ)
          → (execute_update (insert_session account (generate_token rd (8 * k))) s).0 ≡ o
          → inserted c
              (sign_token c fuel rd (k + 1) account)
              (account, generate_token rd (8 * k))
              (outcome
                (o, (execute_update (insert_session account (generate_token rd (8 * k))) s).1))
            ≡ (returned r, s')
          → (j : ℕ) × (r ≡ (account, generate_token rd (8 * j)))
            × (store.read s' ≡ issue account (generate_token rd (8 * j)) (store.read s))
      tried later (ok n) answered h = (
        k,
        (let same : (account, generate_token rd (8 * k)) ≡ r = cc h in sym same),
        ap store.read (sym (ap (λ x. x.1) h))
            ∙ store.session_law account (generate_token rd (8 * k)) s n answered,
      )
      tried later (throws code) answered h =
          let (j, same, after) = later h in
          (
            j,
            same,
            after
                ∙ ap (issue account (generate_token rd (8 * j)))
                    (store.session_failed account (generate_token rd (8 * k)) s code answered),
          )

  -- A ticket that has been given out is found.
  pub issue-has_ticket :
      (account : ℤ) (token : List ℕ) (tickets : List Ticket)
      → has_ticket store.same account token
          (tickets ++ record { account = account; token = token } ∷ [])
        ≡ true
  unfolding has_ticket
  issue-has_ticket account token [] = ground (arith, store.same_refl token, eq_ℤ_refl account)
  issue-has_ticket account token (t ∷ tickets) =
      ground (arith, issue-has_ticket account token tickets)

  module _ (b : Bcrypt) where
    -- No active account of this id has the password: nothing is changed.
    abbrev pub Refused : List ℕ → List ℕ → AccountTables → ℤ × List ℕ → AccountTables → Type 0
    Refused id pw t r t' =
        (r ≡ (negsuc 0, []))
        × (t' ≡ t)
        × ((a : Account)
            → find_account store.same id t.accounts ≡ some a
            → verify_password b pw a.password ≡ false)

    -- The active account of this id has the password, and is given a token of `rd`; the login has its time.
    abbrev pub Issued :
        List ℕ → List ℕ → (ℕ → ℕ) → AccountTables → ℤ × List ℕ → AccountTables → Type 0
    Issued id pw rd t r t' =
        (a : Account) × (j : ℕ) × (time : ℕ) × (find_account store.same id t.accounts ≡ some a)
        × (verify_password b pw a.password ≡ true)
        × (r ≡ (a.id, generate_token rd (8 * j)))
        × (t' ≡ stamped id time (issue a.id (generate_token rd (8 * j)) t))

    module _ (fuel : ℕ) (rd : ℕ → ℕ) (id pw : List ℕ) (s s' : State) (r : ℤ × List ℕ) where
      -- `sign_in` where the password fits.
      sign_in-issue :
          (account : ℤ) (t : State)
          → sign_in c fuel rd id account true t ≡ (returned r, s')
          → (j : ℕ) × (time : ℕ) × (r ≡ (account, generate_token rd (8 * j)))
            × (store.read s'
                ≡ stamped id time (issue account (generate_token rd (8 * j)) (store.read t)))
      unfolding sign_in
      sign_in-issue account t e =
          let update = statement (execute_update (update_last_login id)) in
          let (result, u, signed, more) =
            >>=-returned (sign_token c fuel rd 0 account) (λ result. update >>= λ _. return result)
              t s' r e in
          let (n, w, updated, last) = >>=-returned update (λ _. return result) u s' r more in
          let (same, end) = return-returned result r w s' last in
          let (count, moved) =
            statement-returned (execute_update (update_last_login id)) u w n updated in
          let (j, given, after) = sign_token-issue fuel rd 0 account t u result signed in
          let (time, stamps) = store.last_login_law id u n count in
          (
            j,
            time,
            sym same ∙ given,
            ap store.read (sym end)
                ∙ ap store.read (sym moved)
                ∙ stamps
                ∙ ap (stamped id time) after,
          )

      refused :
          (account : ℤ) (t : State)
          → sign_in c fuel rd id account false t ≡ (returned r, s')
          → store.read t ≡ store.read s
          → ((a : Account)
              → find_account store.same id (store.read s).accounts ≡ some a
              → verify_password b pw a.password ≡ false)
          → Refused id pw (store.read s) r (store.read s')
      unfolding sign_in
      refused account t e kept none_fits =
          let (same, end) = return-returned (negsuc 0, []) r t s' e in
          (sym same, ap store.read (sym end) ∙ kept, none_fits)

      answered :
          b.validate_password pw [] ≡ false
          → (o : Option Account) (rows : List Row) (t : State)
          → find_account store.same id (store.read s).accounts ≡ o
          → ShowsAccount o rows
          → store.read t ≡ store.read s
          → sign_in c fuel rd id
              (stored_password rows).0
              (verify_password b pw (stored_password rows).1)
              t
            ≡ (returned r, s')
          → Refused id pw (store.read s) r (store.read s')
            ⊎ Issued id pw rd (store.read s) r (store.read s')
      unfolding stored_password verify_password
      answered unhashed none rows t found shown kept e =
          let no_hash : verify_password b pw (stored_password rows).1 ≡ false = rw shown unhashed in
          inl (
            refused (stored_password rows).0 t (rw no_hash at e) kept
              (λ a there. cc (found, there)))
      answered unhashed (some a) rows t found shown kept e =
          let (row, rest, first, named, hash) = shown in
          elim (Bool-cases (b.validate_password pw a.password)) [
            | inl fits ↦
                let (j, time, given, after) =
                  sign_in-issue a.id t (rw (first, named, hash, fits) at e) in
                inr (
                  a,
                  j,
                  time,
                  found,
                  fits,
                  given,
                  after ∙ ap (λ x. stamped id time (issue a.id (generate_token rd (8 * j)) x)) kept,
                )
            | inr wrong ↦ inl (
                refused (row.int_of account_id) t (rw (first, hash, wrong) at e) kept
                  (λ x there. let same : a ≡ x = cc (found, there) in rw (← same) wrong))
          ]

    -- A sign in that returns, with a bcrypt that takes the empty text for the hash of no password: either
    -- no active account of this id has the password, then the answer is -1 and no token, and nothing is
    -- changed; or the active account of this id has it, then the answer is its number and a token of
    -- the random device, exactly this token is stored for it, the rows with this id have a time in
    -- `last_login`, and nothing else is changed. In both cases the connection is given back.
    pub try_sign_in-Issued :
        (pool : Pool) (fuel : ℕ) (rd : ℕ → ℕ) (id pw : List ℕ) (p p' : pool.State) (s s' : State)
        (r : ℤ × List ℕ)
        → b.validate_password pw [] ≡ false
        → try_sign_in pool c b fuel rd id pw (p, s) ≡ (returned r, (p', s'))
        → (Refused id pw (store.read s) r (store.read s')
            ⊎ Issued id pw rd (store.read s) r (store.read s'))
          × ((conn : ℕ) × (q : pool.State) × (pool.borrow p ≡ some (conn, q))
              × (p' ≡ pool.unborrow conn q))
    unfolding try_sign_in
    try_sign_in-Issued pool fuel rd id pw p p' s s' r unhashed e =
        let ask = statement (execute_query (check_id id)) in
        let go : List Row → Action State (ℤ × List ℕ) = λ rows.
          sign_in c fuel rd id (stored_password rows).0
            (verify_password b pw (stored_password rows).1) in
        let (conn, q, lent, back, ran) =
          with_connection-Returned pool c (ask >>= go) (p, s) (p', s') r e in
        let (rows, t, shown, more) = >>=-returned ask go s s' r ran in
        let (found, moved) = statement-returned (execute_query (check_id id)) s t rows shown in
        (
          answered fuel rd id pw s s' r unhashed
              (find_account store.same id (store.read s).accounts) rows t refl
              (store.check_id_law id s rows found)
              (ap store.read (sym moved) ∙ store.query_law (check_id id) s) more,
          (conn, q, lent, back),
        )
