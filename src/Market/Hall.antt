-- ===== src/Market/Hall.antt =====
-- A database for the tests of Market: its statements do what `apply_update` says.
use mathlib.Core.Path.{subst}
use j1_server.Prelude.{
  ℕ, ◌≡◌, refl, Bool, true, false, Option, none, some, List, [], ◌∷◌, map, take, if◌then◌else◌,
}
use j1_server.Prelude.Int.{ℤ, pos}
use j1_server.Sql.{
  Column, listing_id, seller_id, item_id, remaining_quantity, price, Row, Query, listings,
  check_listing, Result, ok, Connection,
}
use j1_server.Sql.Transactions.{Views, IsTransactional}
use j1_server.Market.{Listing, Character, Tables, find_live, apply_update}
use j1_server.Market.Store.{Shows, lives, ShowsAll, IsStore}

pub record Hall : Type 0 where
  pub published : Tables
  pub current : Tables
  pub auto : Bool

abbrev pub column : Listing → Column → ℤ
column l listing_id = l.listing_id
column l seller_id = l.seller_id
column l item_id = l.item_id
column l remaining_quantity = l.remaining
column l price = l.price
column l c = pos 0

abbrev pub row_of : Listing → Row
row_of l = record { int_of = column l; string_of = λ c. [] }

abbrev pub found_rows : Option Listing → List Row
found_rows none = []
found_rows (some l) = row_of l ∷ []

abbrev pub rows_for : Query → Tables → List Row
rows_for (check_listing id) t = found_rows (find_live id t.listings)
rows_for listings t = map row_of (take 100 (lives t.listings))
rows_for q t = []

abbrev pub run : Option (ℕ × Tables) → Hall → Result ℕ × Hall
run none s = (ok 0, s)
run (some (n, t)) s =
    (ok n, record s { current = t; published = if s.auto then t else s.published })

abbrev pub hall : Connection
hall = record {
  State = Hall;
  set_auto_commit =
      λ on s. (ok tt, record s { auto = on; published = if on then s.current else s.published });
  commit = λ s. (ok tt, record s { published = s.current });
  rollback = λ s. (ok tt, record s { current = s.published });
  execute_query = λ q s. (ok (rows_for q s.current), s);
  execute_update = λ u s. run (apply_update u s.current) s;
  execute_update_gen_keys = λ u s. (ok (pos 7), (run (apply_update u s.current) s).1);
}

abbrev pub hall_views : Views hall
hall_views = record { Tables = Tables; committed = λ s. s.published; working = λ s. s.current }

pub run-open :
    (o : Option (ℕ × Tables)) (s : Hall)
    → s.auto ≡ false
    → ((run o s).1.auto ≡ false) × ((run o s).1.published ≡ s.published)
run-open none s h = (h, refl)
run-open (some (n, t)) s h = (h, rw h refl)

pub hall-IsTransactional : IsTransactional hall hall_views
hall-IsTransactional = record {
  begin_law = λ s. (refl, refl);
  IsOpen = λ s. s.auto ≡ false;
  begin_open = λ s h. refl;
  query_law = λ q s h. (h, refl);
  update_law = λ u s h. run-open (apply_update u s.current) s h;
  gen_keys_law = λ u s h. run-open (apply_update u s.current) s h;
  commit_law = λ s. (λ h. (refl, refl), λ h. cc h);
  rollback_law = λ s. (refl, λ h. refl);
  auto_law = λ s h. (h, h);
}

pub found_rows-Shows : (o : Option Listing) → Shows o (found_rows o)
found_rows-Shows none = refl
found_rows-Shows (some l) = (row_of l, [], refl, refl, refl, refl, refl)

pub map-ShowsAll : (ls : List Listing) → ShowsAll ls (map row_of ls)
map-ShowsAll [] = tt
map-ShowsAll (l ∷ ls) = (refl, refl, refl, map-ShowsAll ls)

pub run-some :
    (o : Option (ℕ × Tables)) (s : Hall) (n m : ℕ) (t : Tables)
    → (run o s).0 ≡ ok n
    → o ≡ some (m, t)
    → (n ≡ m) × ((run o s).1.current ≡ t)
run-some none s n m t e h = cc h
run-some (some (k, u)) s n m t e h =
    let from_ok : k ≡ n = cc e in
    let count : k ≡ m = cc h in let tables : u ≡ t = cc h in (cc (from_ok, count), tables)

pub found :
    (id : ℤ) (t : Tables) (rows : List Row)
    → ok (rows_for (check_listing id) t) ≡ ok rows
    → Shows (find_live id t.listings) rows
found id t rows e =
    let same : found_rows (find_live id t.listings) ≡ rows = cc e in
    subst (Shows (find_live id t.listings)) same (found_rows-Shows (find_live id t.listings))

pub listed :
    (t : Tables) (rows : List Row)
    → ok (rows_for listings t) ≡ ok rows
    → ShowsAll (take 100 (lives t.listings)) rows
listed t rows e =
    let all = take 100 (lives t.listings) in
    let same : map row_of all ≡ rows = cc e in subst (ShowsAll all) same (map-ShowsAll all)

unfoldable pub hall-IsStore : IsStore hall hall_views hall-IsTransactional
hall-IsStore = record {
  read = λ t. t;
  check_law = λ id s rows h e. (found id s.current rows e, refl);
  update_law = λ u s n m t h e a. run-some (apply_update u s.current) s n m t e a;
  list_law = λ s rows h e. listed s.current rows e;
}

abbrev pub listing : ℤ → ℤ → ℤ → ℤ → Listing
listing id seller left cost = record {
  listing_id = id;
  seller_id = seller;
  item_id = pos 50;
  remaining = left;
  price = cost;
  live = true;
}

abbrev pub character : ℤ → ℤ → Character
character account gold = record { account_id = account; gold = gold }

-- Player 9 has two characters, with 45 and 3 gold; of the listings one costs 10 and one 2^62.
abbrev pub market : Tables
market = record {
  listings =
      listing (pos 3) (pos 1) (pos 5) (pos 10)
      ∷ listing (pos 7) (pos 2) (pos 9) (pos 4611686018427387904)
      ∷ [];
  characters =
      character (pos 1) (pos 0) ∷ character (pos 9) (pos 45) ∷ character (pos 9) (pos 3) ∷ [];
  trades = [];
  receipts = [];
}

abbrev pub open_hall : Hall
open_hall = record { published = market; current = market; auto = true }

abbrev pub outcome : Option (ℤ × Tables) → ℤ × Tables
outcome none = (pos 0, market)
outcome (some r) = r
