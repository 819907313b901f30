-- ===== src/Sql/Connector.antt =====
-- ServerCore/SqlUtils.h: how a statement and its arguments go to MySQL Connector/C++, which is the parameter
-- `Connector`.
use Prim.Native.String.{String}
use j1_server.Prelude.{ℕ, ◌+◌, Bool, Option, none, some, List, [], ◌∷◌}
use j1_server.Prelude.Int.{ℤ, negsuc}
use j1_server.Sql.{Row, Result, ok, throws}

-- A value with its C++ type; the eight bytes of a `double` are a number. Any other type is `other`.
pub data Argument : Type 0 where
  uint64 int64 uint32 int32 : ℤ → Argument
  string : List ℕ → Argument
  double : ℕ → Argument
  bool : Bool → Argument
  other : Argument

-- A call of a setter of a prepared statement: `setUInt64` and so on.
pub data Setter : Type 0 where
  set_uint64 set_int64 set_uint set_int : ℤ → Setter
  set_string : List ℕ → Setter
  set_double : ℕ → Setter
  set_boolean : Bool → Setter

pub record Connector : Type 1 where
  pub State : Type 0
  pub Statement : Type 0
  pub set_schema : String → State → Result (Unit {0}) × State
  pub prepare_statement : String → State → Result Statement × State
  pub set : ℕ → Setter → Statement → Result Statement
  pub run_query : Statement → State → Result (List Row) × State
  pub run_update : Statement → State → Result ℕ × State
  -- A new statement with SELECT LAST_INSERT_ID(), and the first column of its first row.
  pub last_insert_id : State → Result (Option ℤ) × State
  pub set_auto_commit : Bool → State → Result (Unit {0}) × State
  pub commit : State → Result (Unit {0}) × State
  pub rollback : State → Result (Unit {0}) × State

-- What follows a call that returns.
abbrev pub after : {S A B : Type 0} → (A → S → Result B × S) → Result A × S → Result B × S
after f (ok a, s) = f a s
after f (throws code, s) = (throws code, s)

-- `int id = -1; if (rs->next()) id = rs->getInt(1);`
abbrev pub id_or_none : Option ℤ → ℤ
id_or_none none = negsuc 0
id_or_none (some id) = id

module _ (c : Connector) where
  open c use {
    State, Statement, set_schema, prepare_statement, set, run_query, run_update, last_insert_id,
  }

  -- `bindParam`: nothing for a type that is not in its list.
  unfoldable pub bind_param : Statement → ℕ → Argument → Result Statement
  bind_param stmt index (uint64 n) = set index (set_uint64 n) stmt
  bind_param stmt index (int64 n) = set index (set_int64 n) stmt
  bind_param stmt index (uint32 n) = set index (set_uint n) stmt
  bind_param stmt index (int32 n) = set index (set_int n) stmt
  bind_param stmt index (string s) = set index (set_string s) stmt
  bind_param stmt index (double d) = set index (set_double d) stmt
  bind_param stmt index (bool b) = set index (set_boolean b) stmt
  bind_param stmt index other = ok stmt

  -- `bindParams`, and no call of it for no arguments.
  unfoldable pub bind_params : Statement → ℕ → List Argument → Result Statement
  unfolding bind_param
  bind_params stmt index [] = ok stmt
  bind_params stmt index (value ∷ args) = elim (bind_param stmt index value) [
    | ok stmt' ↦ bind_params stmt' (index + 1) args
    | throws code ↦ throws code
  ]

  -- The statement with its parameters, up to where it is executed.
  unfoldable pub prepared : String → String → List Argument → State → Result Statement × State
  unfolding bind_params
  prepared schema query args s =
      after (λ _ s1. after (λ stmt s2. (bind_params stmt 1 args, s2)) (prepare_statement query s1))
        (set_schema schema s)

  -- `executeQuery`
  unfoldable pub execute_query : String → String → List Argument → State → Result (List Row) × State
  unfolding prepared
  execute_query schema query args s = after run_query (prepared schema query args s)

  -- `executeUpdate`
  unfoldable pub execute_update : String → String → List Argument → State → Result ℕ × State
  unfolding prepared
  execute_update schema query args s = after run_update (prepared schema query args s)

  -- `executeUpdate_GenKeys`
  unfoldable pub execute_update_gen_keys :
      String → String → List Argument → State → Result ℤ × State
  unfolding prepared
  execute_update_gen_keys schema query args s =
      after (λ affected s1. after (λ id s2. (ok (id_or_none id), s2)) (last_insert_id s1))
        (after run_update (prepared schema query args s))
