-- ===== src/Sql/Matching.antt =====
-- The texts of Sql/Texts against their arguments: as many placeholders as arguments, each of a type that
-- `bindParam` of ServerCore/SqlUtils.h knows.
use Prim.Native.Char.{code}
use Prim.Native.String.{String}
use j1_server.Prelude.{
  ℕ, suc, ◌≡◌, refl, ◌⊎◌, inl, inr, Bool, true, false, List, [], ◌∷◌, length, ◌==◌, if◌then◌else◌,
}
use j1_server.Sql.{
  Query, Update, listings, listings_of, receipts_of, check_listing, check_id, check_token,
  characters_of, check_nickname, insert_listing, debit_gold, delete_listing, reduce_listing,
  insert_transaction, insert_receipts, insert_character_base, insert_character_combat,
  insert_character_skin, delete_character_combat, delete_character_skin, delete_character_inventory,
  delete_character_base, insert_session, update_last_login, insert_account,
}
use j1_server.Sql.Connector.{Argument, other}
use j1_server.Sql.Texts.{query_text, query_args, update_text, update_args}

-- The `?` of a text.
abbrev pub placeholders_in : String → ℕ
placeholders_in String.[] = 0
placeholders_in (String.◌∷◌ c s) =
    let rest = placeholders_in s in if code c == b'?' then suc rest else rest

abbrev pub text : Query ⊎ Update → String
text (inl q) = query_text q
text (inr u) = update_text u

abbrev pub arguments : Query ⊎ Update → List Argument
arguments (inl q) = query_args q
arguments (inr u) = update_args u

-- `bindParam` has a setter for each.
abbrev pub all_known : List Argument → Bool
all_known [] = true
all_known (other ∷ args) = false
all_known (a ∷ args) = all_known args

-- A text of the servers has as many placeholders as arguments, each of a type that `bindParam` knows.
abbrev pub IsMatched : String → List Argument → Type 0
IsMatched query args = (placeholders_in query ≡ length args) × (all_known args ≡ true)

query-IsMatched : (q : Query) → IsMatched (query_text q) (query_args q)
query-IsMatched listings = (refl, refl)
query-IsMatched (listings_of p) = (refl, refl)
query-IsMatched (receipts_of p) = (refl, refl)
query-IsMatched (check_listing i) = (refl, refl)
query-IsMatched (check_id i) = (refl, refl)
query-IsMatched (check_token i t) = (refl, refl)
query-IsMatched (characters_of i) = (refl, refl)
query-IsMatched (check_nickname n) = (refl, refl)

update-IsMatched : (u : Update) → IsMatched (update_text u) (update_args u)
update-IsMatched (insert_listing a b c d e) = (refl, refl)
update-IsMatched (debit_gold a b c) = (refl, refl)
update-IsMatched (delete_listing a) = (refl, refl)
update-IsMatched (reduce_listing a b c) = (refl, refl)
update-IsMatched (insert_transaction a b c) = (refl, refl)
update-IsMatched (insert_receipts a b c d e f g) = (refl, refl)
update-IsMatched (insert_character_base a b c d) = (refl, refl)
update-IsMatched (insert_character_combat a) = (refl, refl)
update-IsMatched (insert_character_skin a b c d) = (refl, refl)
update-IsMatched (delete_character_combat a) = (refl, refl)
update-IsMatched (delete_character_skin a) = (refl, refl)
update-IsMatched (delete_character_inventory a) = (refl, refl)
update-IsMatched (delete_character_base a b) = (refl, refl)
update-IsMatched (insert_session a b) = (refl, refl)
update-IsMatched (update_last_login a) = (refl, refl)
update-IsMatched (insert_account a b) = (refl, refl)

pub command-IsMatched : (command : Query ⊎ Update) → IsMatched (text command) (arguments command)
command-IsMatched (inl q) = query-IsMatched q
command-IsMatched (inr u) = update-IsMatched u
