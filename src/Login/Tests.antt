-- ===== src/Login/Tests.antt =====
-- LoginServer/SignManager.cpp on a small account database, with an empty table of sessions.
use mathlib.Core.Path.{subst}
use j1_server.Prelude.{
  ℕ, ◌+◌, ◌-◌, ◌%◌, ◌^◌, ◌*◌, ◌≡◌, refl, ap, ◌∙◌, ◌⊎◌, Bool, true, false, not, ◌&&◌, Option, none,
  some, List, [], ◌∷◌, ◌++◌, ◌==◌, length, All, arith,
}
use j1_server.Prelude.Int.{ℤ, pos, ◌≤ℤ◌}
use j1_server.Sql.{
  Row, Query, check_id, check_token, Update, insert_session, update_last_login, insert_account, ok,
  Connection,
}
use j1_server.Sql.Borrow.{returned, statement, with_connection}
use j1_server.WorkerPool.{Pool, is_empty}
use j1_server.Login.Tokens.{generate_token, words, IsHexDigit}
use j1_server.Login.Hex.{generate_token-words}
use j1_server.Login.Accounts.{
  Account, AccountTables, find_account, stamp, has_ticket, ShowsAccount, IsAccountStore,
}
use j1_server.Login.SignIn.{Refused, Issued, try_sign_in-Issued}
use j1_server.Login.TokenLoop.{TokenLoop, sign_token-TokenLoop}
use j1_server.Login.SignUp.{handle_req_join-handle_req_login}
use j1_server.Login.{
  Bcrypt, hash_password, verify_password, res_login, res_join, sign_token, sign_in, try_sign_in,
  handle_req_login, handle_req_join,
}
use j1_server.Lobby.Queries.{handle_req_check_tokenvalid}

abbrev equal : List ℕ → List ℕ → Bool
equal [] [] = true
equal (x ∷ xs) (y ∷ ys) = x == y && equal xs ys
equal _ _ = false

equal_refl : (xs : List ℕ) → equal xs xs ≡ true
equal_refl [] = refl
equal_refl (x ∷ xs) = ground (arith, equal_refl xs)

abbrev account_row : Account → Row
account_row a = record { int_of = λ c. a.id; string_of = λ c. a.password }

abbrev account_rows : Option Account → List Row
account_rows none = []
account_rows (some a) = account_row a ∷ []

abbrev ticket_rows : Bool → List Row
ticket_rows true = record { int_of = λ c. pos 1; string_of = λ c. [] } ∷ []
ticket_rows false = []

abbrev rows_for : Query → AccountTables → List Row
rows_for (check_id id) t = account_rows (find_account equal id t.accounts)
rows_for (check_token account token) t = ticket_rows (has_ticket equal account token t.tickets)
rows_for q t = []

-- The next key, an `int` from 1 on.
abbrev next_key : AccountTables → ℤ
next_key t = pos (length t.accounts % (2 ^ 31 - 1) + 1)

-- It is always noon.
abbrev noon : ℕ
noon = 43200

abbrev change : Update → AccountTables → AccountTables
change (insert_session account token) t = record t {
  tickets = t.tickets ++ record { account = account; token = token } ∷ [];
}
change (insert_account id hash) t = record t {
  accounts =
      t.accounts
      ++ record {
        id = next_key t;
        user_id = id;
        password = hash;
        is_active = true;
        last_login = none;
      }
        ∷ [];
}
change (update_last_login id) t = record t { accounts = stamp equal id noon t.accounts }
change u t = t

abbrev members : Connection
members = record {
  State = AccountTables;
  set_auto_commit = λ on t. (ok tt, t);
  commit = λ t. (ok tt, t);
  rollback = λ t. (ok tt, t);
  execute_query = λ q t. (ok (rows_for q t), t);
  execute_update = λ u t. (ok 1, change u t);
  execute_update_gen_keys = λ u t. (ok (next_key t), change u t);
}

account_rows-ShowsAccount : (o : Option Account) → ShowsAccount o (account_rows o)
account_rows-ShowsAccount none = refl
account_rows-ShowsAccount (some a) = (account_row a, [], refl, refl, refl)

not-ticket_rows : (b : Bool) → not (is_empty (ticket_rows b)) ≡ b
not-ticket_rows true = refl
not-ticket_rows false = refl

found :
    (id : List ℕ) (t : AccountTables) (rows : List Row)
    → ok (rows_for (check_id id) t) ≡ ok rows
    → ShowsAccount (find_account equal id t.accounts) rows
found id t rows e =
    let same : account_rows (find_account equal id t.accounts) ≡ rows = cc e in
    subst (ShowsAccount (find_account equal id t.accounts)) same
      (account_rows-ShowsAccount (find_account equal id t.accounts))

listed :
    (account : ℤ) (token : List ℕ) (t : AccountTables) (rows : List Row)
    → ok (rows_for (check_token account token) t) ≡ ok rows
    → not (is_empty rows) ≡ has_ticket equal account token t.tickets
listed account token t rows e =
    let same : rows ≡ ticket_rows (has_ticket equal account token t.tickets) = cc e in
    ap (λ x. not (is_empty x)) same ∙ not-ticket_rows (has_ticket equal account token t.tickets)

-- The tables with one more account.
abbrev with_account : List ℕ → List ℕ → AccountTables → ℤ → AccountTables
with_account id hash t account = record t {
  accounts =
      t.accounts
      ++ record { id = account; user_id = id; password = hash; is_active = true; last_login = none }
        ∷ [];
}

added :
    (id hash : List ℕ) (t : AccountTables) (account : ℤ)
    → ok (next_key t) ≡ ok account
    → (pos 1 ≤ℤ account)
      × (account ≤ℤ pos (2 ^ 31 - 1))
      × (last_login : Option ℕ) × (change (insert_account id hash) t ≡ record t {
        accounts =
            t.accounts
            ++ record {
              id = account;
              user_id = id;
              password = hash;
              is_active = true;
              last_login = last_login;
            }
              ∷ [];
      })
added id hash t account e =
    let same : next_key t ≡ account = cc e in
    (
      subst (λ x. pos 1 ≤ℤ x) same (omega arith),
      subst (λ x. x ≤ℤ pos (2 ^ 31 - 1)) same (omega arith),
      none,
      ap (with_account id hash t) same,
    )

members_store : IsAccountStore members
members_store = record {
  same = equal;
  same_refl = equal_refl;
  read = λ t. t;
  query_law = λ q t. refl;
  check_id_law = found;
  check_token_law = listed;
  session_law = λ account token t n e. refl;
  session_failed = λ account token t n e. cc e;
  last_login_law = λ id t n e. (noon, refl);
  account_law = added;
}

abbrev pool : Pool
pool = record { State = ℕ; borrow = λ p. some (p, p + 1); unborrow = λ conn p. p }

abbrev bcrypt : Bcrypt
bcrypt = record {
  generate_hash = λ salt pw cost. 36 ∷ pw;
  validate_password = λ pw hash. equal (36 ∷ pw) hash;
}

hashes :
    (salt : ℕ) (password : List ℕ)
    → verify_password bcrypt password (hash_password bcrypt salt password) ≡ true
unfolding verify_password hash_password
hashes salt password = equal_refl (36 ∷ password)

abbrev nobody : AccountTables
nobody = record { accounts = []; tickets = [] }

abbrev somebody : AccountTables
somebody = record {
  accounts =
      record {
        id = pos 4;
        user_id = b'j' ∷ [];
        password = 36 ∷ b'p' ∷ [];
        is_active = true;
        last_login = none;
      }
      ∷ [];
  tickets = [];
}

-- A random device that counts.
abbrev device : ℕ → ℕ
device i = i * 1000

generate_token-words_example :
    (length (generate_token device 8) ≡ 64)
    × All IsHexDigit (generate_token device 8)
    × (words 8 (generate_token device 8)
        ≡ 8000 ∷ 9000 ∷ 10000 ∷ 11000 ∷ 12000 ∷ 13000 ∷ 14000 ∷ 15000 ∷ [])
generate_token-words_example = generate_token-words device 8

sign_token-TokenLoop_example : TokenLoop members device (pos 4) 3 0 somebody
sign_token-TokenLoop_example = sign_token-TokenLoop members device (pos 4) 3 0 somebody

-- The one account signs in with its password.
abbrev signed_in : AccountTables
signed_in =
    change (update_last_login (b'j' ∷ []))
      (change (insert_session (pos 4) (generate_token device 0)) somebody)

try_sign_in-Issued_example :
    (Refused members members_store bcrypt
        (b'j' ∷ [])
        (b'p' ∷ [])
        somebody
        (pos 4, generate_token device 0)
        signed_in
      ⊎ Issued members members_store bcrypt
          (b'j' ∷ [])
          (b'p' ∷ [])
          device
          somebody
          (pos 4, generate_token device 0)
          signed_in)
    × ((conn : ℕ) × (q : ℕ) × (pool.borrow 0 ≡ some (conn, q)) × (1 ≡ q))
unfolding members_store find_account try_sign_in with_connection statement sign_in verify_password
    sign_token
try_sign_in-Issued_example =
    try_sign_in-Issued members members_store bcrypt pool 2 device (b'j' ∷ []) (b'p' ∷ []) 0 1
      somebody signed_in (pos 4, generate_token device 0) refl refl

handle_req_join-handle_req_login_example :
    let (joined, db1) = handle_req_join pool members bcrypt 5 (b'j' ∷ []) (b'p' ∷ []) (0, nobody) in
    let (entered, db2) =
      handle_req_login pool members bcrypt 1 device (b'j' ∷ []) (b'p' ∷ []) db1 in
    (account : ℤ) × (joined ≡ returned (res_join true, true))
    × (entered ≡ returned (res_login account (generate_token device 0), true))
    × (pos 1 ≤ℤ account)
    × ((handle_req_check_tokenvalid pool members account (generate_token device 0) db2).0
        ≡ returned true)
unfolding find_account members_store
handle_req_join-handle_req_login_example =
    handle_req_join-handle_req_login pool members members_store (λ p. (p, p + 1, refl))
      (λ q s. refl, λ u s. refl, λ u s. refl) bcrypt 5 0 device (b'j' ∷ []) (b'p' ∷ []) 0 nobody
      hashes refl
