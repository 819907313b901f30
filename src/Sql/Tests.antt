-- ===== src/Sql/Tests.antt =====
-- ServerCore/SqlUtils.h with a connector that keeps the parameters of a statement in a map, refuses a setter
-- at any other number, and logs the statements that it runs.
use Prim.Native.String.{String}
use mathlib.Core.Path.{subst}
use j1_server.Prelude.{
  ℕ, ◌+◌, ◌<◌, ◌≡◌, refl, ap, ◌⊎◌, inr, ◌&&◌, none, some, List, [], ◌∷◌, length, get_elem?, arith,
  leb, if◌then◌else◌,
}
use j1_server.Prelude.Dict.{Dict, lookup, insert, lookup-insert}
use j1_server.Prelude.Int.{pos}
use j1_server.Sql.{Result, ok, throws, Query, Update, insert_session}
use j1_server.Sql.Connector.{Argument, Setter, Connector}
use j1_server.Sql.Texts.{schema}
use j1_server.Sql.Matching.{placeholders_in, text, arguments}
use j1_server.Sql.Binding.{setter, Prepares, Executes, connection-Executes}

record Stmt : Type 0 where
  query : String
  count : ℕ
  params : Dict Setter

abbrev set_param : ℕ → Setter → Stmt → Result Stmt
set_param i x stmt =
    if leb 1 i && leb i stmt.count
    then ok (record stmt { params = insert i x stmt.params })
    else throws 1

abbrev logging : Connector
logging = record {
  State = List Stmt;
  Statement = Stmt;
  set_schema = λ name s. (ok tt, s);
  prepare_statement = λ q s. (ok (record { query = q; count = placeholders_in q; params = [] }), s);
  set = set_param;
  run_query = λ stmt s. (ok [], stmt ∷ s);
  run_update = λ stmt s. (ok 1, stmt ∷ s);
  last_insert_id = λ s. (ok (some (pos (length s))), s);
  set_auto_commit = λ b s. (ok tt, s);
  commit = λ s. (ok tt, s);
  rollback = λ s. (ok tt, s);
}

abbrev new_stmt : String → Stmt
new_stmt q = record { query = q; count = placeholders_in q; params = [] }

abbrev stmt_of : Result Stmt → Stmt
stmt_of (ok stmt) = stmt
stmt_of (throws code) = new_stmt schema

as_prepared :
    (q : String) (stmt : Stmt)
    → new_stmt q ≡ stmt
    → (stmt.count ≡ placeholders_in q) × (stmt.query ≡ q) × ((i : ℕ) → lookup i stmt.params ≡ none)
as_prepared q stmt e =
    subst
      (λ st.
        (st.count ≡ placeholders_in q) × (st.query ≡ q) × ((i : ℕ) → lookup i st.params ≡ none))
      e (refl, refl, λ i. refl)

logging-Prepares : Prepares logging
logging-Prepares = record {
  placeholders = λ stmt. stmt.count;
  text_of = λ stmt. stmt.query;
  parameter = λ stmt i. lookup i stmt.params;
  prepare_law = λ command s s' stmt e. as_prepared (text command) stmt (ap (λ r. stmt_of r.0) e);
  set_law = λ stmt i x low high. (
    record stmt { params = insert i x stmt.params },
    ground arith,
    refl,
    refl,
    λ j. lookup-insert i j x stmt.params,
  );
}

abbrev token_command : Query ⊎ Update
token_command = inr (insert_session (pos 7) (1 ∷ 2 ∷ []))

connection-Executes_example :
    (stmt' : Stmt) × Executes logging token_command [] stmt' []
    × (stmt'.query ≡ text token_command)
    × (stmt'.count ≡ 2)
    × ((i : ℕ)
        → i < stmt'.count
        → (a : Argument) × (x : Setter) × (get_elem? (arguments token_command) i ≡ some a)
          × (setter a ≡ some x)
          × (lookup (1 + i) stmt'.params ≡ some x))
unfolding logging-Prepares
connection-Executes_example =
    connection-Executes logging logging-Prepares token_command [] [] []
      (new_stmt (text token_command)) refl refl
