-- ===== src/Sql/Binding.antt =====
-- The parameters of the statements that ServerCore/SqlUtils.h prepares: each placeholder is set once, from
-- the argument in its place and by the setter for the type of that.
use Prim.Native.Char.{code}
use Prim.Native.String.{String}
use mathlib.Core.Path.{subst}
use j1_server.Prelude.{
  ℕ, zero, suc, ◌+◌, ◌≤◌, ◌<◌, ◌≡◌, refl, ap, ◌∙◌, ◌⊎◌, inl, inr, true, Option, none, some, List,
  [], ◌∷◌, length, get_elem?, arith, ◌==◌, if◌then◌else◌,
}
use j1_server.Sql.{Result, ok, throws, Query, Update}
use j1_server.Sql.Connector.{
  Argument, uint64, int64, uint32, int32, string, double, bool, other, Setter, set_uint64,
  set_int64, set_uint, set_int, set_string, set_double, set_boolean, Connector, after, id_or_none,
  bind_param, bind_params, prepared, execute_query, execute_update, execute_update_gen_keys,
}
use j1_server.Sql.Texts.{schema, connection}
use j1_server.Sql.Matching.{placeholders_in, text, arguments, all_known, command-IsMatched}

-- The setter for the type of an argument.
abbrev pub setter : Argument → Option Setter
setter (uint64 n) = some (set_uint64 n)
setter (int64 n) = some (set_int64 n)
setter (uint32 n) = some (set_uint n)
setter (int32 n) = some (set_int n)
setter (string s) = some (set_string s)
setter (double d) = some (set_double d)
setter (bool b) = some (set_boolean b)
setter other = none

-- What the connector does with the statements of the servers: each `?` of a text is a placeholder, none is
-- set at first, and a setter at the number of a placeholder sets that one.
pub record Prepares (c : Connector) : Type 0 where
  pub placeholders : c.Statement → ℕ
  pub text_of : c.Statement → String
  pub parameter : c.Statement → ℕ → Option Setter
  pub prepare_law :
      (command : Query ⊎ Update) (s s' : c.State) (stmt : c.Statement)
      → c.prepare_statement (text command) s ≡ (ok stmt, s')
      → (placeholders stmt ≡ placeholders_in (text command))
        × (text_of stmt ≡ text command)
        × ((i : ℕ) → parameter stmt i ≡ none)
  pub set_law :
      (stmt : c.Statement) (i : ℕ) (x : Setter)
      → 1 ≤ i
      → i ≤ placeholders stmt
      → (stmt' : c.Statement) × (c.set i x stmt ≡ ok stmt')
        × (placeholders stmt' ≡ placeholders stmt)
        × (text_of stmt' ≡ text_of stmt)
        × ((j : ℕ) → parameter stmt' j ≡ (if i == j then some x else parameter stmt j))

module _ (c : Connector) where
  -- What the connector is asked to do in the end: the query or the update, or also for the new id.
  abbrev pub Executes : Query ⊎ Update → c.State → c.Statement → c.State → Type 0
  Executes (inl q) s stmt t = (connection c).execute_query q s ≡ c.run_query stmt t
  Executes (inr u) s stmt t =
      ((connection c).execute_update u s ≡ c.run_update stmt t)
      × ((connection c).execute_update_gen_keys u s
          ≡ after (λ affected s1. after (λ id s2. (ok (id_or_none id), s2)) (c.last_insert_id s1))
              (c.run_update stmt t))

module _ (c : Connector) (laws : Prepares c) where
  open c use {State, Statement, set, set_schema, prepare_statement, run_query, run_update}
  open laws use {placeholders, text_of, parameter, prepare_law, set_law}

  bind_param-setter :
      (a : Argument) (args : List Argument)
      → all_known (a ∷ args) ≡ true
      → (x : Setter) × (setter a ≡ some x)
        × (all_known args ≡ true)
        × ((stmt : Statement) (i : ℕ) → bind_param c stmt i a ≡ set i x stmt)
  unfolding bind_param
  bind_param-setter (uint64 n) args h = (set_uint64 n, refl, h, λ stmt i. refl)
  bind_param-setter (int64 n) args h = (set_int64 n, refl, h, λ stmt i. refl)
  bind_param-setter (uint32 n) args h = (set_uint n, refl, h, λ stmt i. refl)
  bind_param-setter (int32 n) args h = (set_int n, refl, h, λ stmt i. refl)
  bind_param-setter (string s) args h = (set_string s, refl, h, λ stmt i. refl)
  bind_param-setter (double d) args h = (set_double d, refl, h, λ stmt i. refl)
  bind_param-setter (bool b) args h = (set_boolean b, refl, h, λ stmt i. refl)
  bind_param-setter other args h = cc h

  -- The statement `stmt'` is `stmt` with the parameters from `i` on set from the arguments.
  pub record IsBound (stmt : Statement) (i : ℕ) (args : List Argument) (stmt' : Statement)
      : Type 0 where
    pub as_many : placeholders stmt' ≡ placeholders stmt
    pub same_text : text_of stmt' ≡ text_of stmt
    pub before : (j : ℕ) → j < i → parameter stmt' j ≡ parameter stmt j
    pub set_from :
        (k : ℕ)
        → k < length args
        → (a : Argument) × (x : Setter) × (get_elem? args k ≡ some a)
          × (setter a ≡ some x)
          × (parameter stmt' (i + k) ≡ some x)

  IsBound-cons :
      (a : Argument) (args : List Argument) (stmt stmt1 stmt' : Statement) (i : ℕ) (x : Setter)
      → setter a ≡ some x
      → placeholders stmt1 ≡ placeholders stmt
      → text_of stmt1 ≡ text_of stmt
      → ((j : ℕ) → parameter stmt1 j ≡ (if i == j then some x else parameter stmt j))
      → IsBound stmt1 (i + 1) args stmt'
      → IsBound stmt i (a ∷ args) stmt'
  IsBound-cons a args stmt stmt1 stmt' i x is_set same texts changed v = record {
    as_many = v.as_many ∙ same;
    same_text = v.same_text ∙ texts;
    before = λ j h. v.before j (omega arith) ∙ ground (arith, changed j);
    set_from = from_here;
  }
    where
      from_here :
          (k : ℕ)
          → k < length (a ∷ args)
          → (b : Argument) × (y : Setter) × (get_elem? (a ∷ args) k ≡ some b)
            × (setter b ≡ some y)
            × (parameter stmt' (i + k) ≡ some y)
      from_here zero h =
          let here : i + 0 ≡ i = omega arith in
          (
            a,
            x,
            refl,
            is_set,
            ap (parameter stmt') here ∙ v.before i (omega arith) ∙ ground (arith, changed i),
          )
      from_here (suc k) h =
          let (b, y, at, is_set', set_there) = v.set_from k (omega arith) in
          (b, y, at, is_set', ap (parameter stmt') (omega arith) ∙ set_there)

  bind_params-cons :
      (a : Argument) (args : List Argument) (stmt stmt1 : Statement) (i : ℕ)
      → bind_param c stmt i a ≡ ok stmt1
      → bind_params c stmt i (a ∷ args) ≡ bind_params c stmt1 (i + 1) args
  unfolding bind_params
  bind_params-cons a args stmt stmt1 i e = ap next e
    where
      next : Result Statement → Result Statement
      next (ok stmt2) = bind_params c stmt2 (i + 1) args
      next (throws code) = throws code

  bind_params-IsBound :
      (args : List Argument) (stmt : Statement) (i : ℕ)
      → 1 ≤ i
      → i + length args ≤ placeholders stmt + 1
      → all_known args ≡ true
      → (stmt' : Statement) × (bind_params c stmt i args ≡ ok stmt') × IsBound stmt i args stmt'
  unfolding bind_params
  bind_params-IsBound [] stmt i low high known = (
    stmt,
    refl,
    record {
      as_many = refl;
      same_text = refl;
      before = λ j h. refl;
      set_from = λ k h. absurd (omega arith);
    },
  )
  bind_params-IsBound (a ∷ args) stmt i low high known =
      let (x, is_set, known', calls) = bind_param-setter a args known in
      let (stmt1, returned, same, texts, changed) = set_law stmt i x low (omega arith) in
      let (stmt', bound, v) =
        bind_params-IsBound args stmt1 (i + 1) (omega arith) (omega arith) known' in
      (
        stmt',
        bind_params-cons a args stmt stmt1 i (calls stmt i ∙ returned) ∙ bound,
        IsBound-cons a args stmt stmt1 stmt' i x is_set same texts changed v,
      )

  prepared-bound :
      (query : String) (args : List Argument) (s s1 t : State) (stmt stmt' : Statement)
      → set_schema schema s ≡ (ok tt, s1)
      → prepare_statement query s1 ≡ (ok stmt, t)
      → bind_params c stmt 1 args ≡ ok stmt'
      → prepared c schema query args s ≡ (ok stmt', t)
  unfolding prepared
  prepared-bound query args s s1 t stmt stmt' schema_set made bound =
      rw schema_set (rw made (ap (λ r. (r, t)) bound))

  prepared-IsBound :
      (command : Query ⊎ Update) (s s1 t : State) (stmt : Statement)
      → set_schema schema s ≡ (ok tt, s1)
      → prepare_statement (text command) s1 ≡ (ok stmt, t)
      → (stmt' : Statement) × (prepared c schema (text command) (arguments command) s
          ≡ (ok stmt', t))
        × IsBound stmt 1 (arguments command) stmt'
  prepared-IsBound command s s1 t stmt schema_set made =
      let (as_many, same_text, unset) = prepare_law command s1 t stmt made in
      let (counted, known) = command-IsMatched command in
      let (stmt', bound, v) =
        bind_params-IsBound (arguments command) stmt 1 (omega arith) (omega arith) known in
      (
        stmt',
        prepared-bound (text command) (arguments command) s s1 t stmt stmt' schema_set made bound,
        v,
      )

  prepared-Executes :
      (command : Query ⊎ Update) (s t : State) (stmt : Statement)
      → prepared c schema (text command) (arguments command) s ≡ (ok stmt, t)
      → Executes c command s stmt t
  unfolding execute_query execute_update execute_update_gen_keys
  prepared-Executes (inl q) s t stmt e = ap (after run_query) e
  prepared-Executes (inr u) s t stmt e = (ap (after run_update) e, rw e refl)

  -- A statement of the servers that the connector prepares is executed as such, with its text, with as many
  -- placeholders as it has arguments, and with every placeholder set from the argument in its place, by the
  -- setter for the type of that: `bindParam` skips none, and no setter is refused.
  pub connection-Executes :
      (command : Query ⊎ Update) (s s1 t : State) (stmt : Statement)
      → set_schema schema s ≡ (ok tt, s1)
      → prepare_statement (text command) s1 ≡ (ok stmt, t)
      → (stmt' : Statement) × Executes c command s stmt' t
        × (text_of stmt' ≡ text command)
        × (placeholders stmt' ≡ length (arguments command))
        × ((i : ℕ)
            → i < placeholders stmt'
            → (a : Argument) × (x : Setter) × (get_elem? (arguments command) i ≡ some a)
              × (setter a ≡ some x)
              × (parameter stmt' (1 + i) ≡ some x))
  connection-Executes command s s1 t stmt schema_set made =
      let (as_many, same_text, unset) = prepare_law command s1 t stmt made in
      let counted = (command-IsMatched command).0 in
      let (stmt', ran, v) = prepared-IsBound command s s1 t stmt schema_set made in
      let all = v.as_many ∙ as_many ∙ counted in
      (
        stmt',
        prepared-Executes command s t stmt' ran,
        v.same_text ∙ same_text,
        all,
        λ i inside. v.set_from i (subst (λ n. i < n) all inside),
      )
