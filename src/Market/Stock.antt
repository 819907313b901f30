-- ===== src/Market/Stock.antt =====
-- The listings under the sales of AuctionServer/AuctionService.cpp: no listing is sold beyond its stock.
use mathlib.Core.Path.{subst}
use j1_server.Prelude.{
  ◌≡◌, refl, ap, ◌∙◌, inl, inr, Bool, true, false, none, some, List, [], ◌∷◌, arith, ◌==◌,
  if◌then◌else◌, Bool-cases,
}
use j1_server.Prelude.Int.{ℤ, pos, ◌-ℤ◌, ◌≤ℤ◌, eq_ℤ, eq_ℤ_iff, ltb_ℤ}
use j1_server.Cache.Contents.{AuctionItemInfo}
use j1_server.Market.Sold.{sell-Sold}
use j1_server.Market.{Listing, Tables, find_live, remove, reduce, take_stock, sell}

-- No row has this id.
abbrev pub IsAbsent : ℤ → List Listing → Type 0
IsAbsent id [] = Unit
IsAbsent id (l ∷ ls) = (eq_ℤ l.listing_id id ≡ false) × IsAbsent id ls

-- The ids are a key, and every listing has something left.
abbrev pub IsStocked : List Listing → Type 0
IsStocked [] = Unit
IsStocked (l ∷ ls) = IsAbsent l.listing_id ls × (pos 1 ≤ℤ l.remaining) × IsStocked ls

-- What is left of a listing; nothing of one that is not there.
abbrev pub stock_of : ℤ → List Listing → ℤ
stock_of id [] = pos 0
stock_of id (l ∷ ls) = if eq_ℤ l.listing_id id then l.remaining else stock_of id ls

eq_ℤ-trans : (a b c : ℤ) → eq_ℤ a b ≡ true → eq_ℤ a c ≡ eq_ℤ b c
eq_ℤ-trans a b c h = ap (λ z. eq_ℤ z c) ((eq_ℤ_iff a b).0 h)

stock_of-IsAbsent : (id : ℤ) (ls : List Listing) → IsAbsent id ls → stock_of id ls ≡ pos 0
stock_of-IsAbsent id [] h = refl
stock_of-IsAbsent id (l ∷ ls) h = rw (h.0) (stock_of-IsAbsent id ls h.1)

remove-IsAbsent : (k id : ℤ) (ls : List Listing) → IsAbsent k ls → IsAbsent k (remove id ls).1
remove-IsAbsent k id [] h = tt
remove-IsAbsent k id (l ∷ ls) h = ground (arith, remove-IsAbsent k id ls h.1)

reduce-IsAbsent : (k id n : ℤ) (ls : List Listing) → IsAbsent k ls → IsAbsent k (reduce id n ls).1
reduce-IsAbsent k id n [] h = tt
reduce-IsAbsent k id n (l ∷ ls) h = ground (arith, reduce-IsAbsent k id n ls h.1)

remove-IsStocked : (id : ℤ) (ls : List Listing) → IsStocked ls → IsStocked (remove id ls).1
remove-IsStocked id [] h = tt
remove-IsStocked id (l ∷ ls) h =
    ground (arith, remove-IsStocked id ls h.2, remove-IsAbsent l.listing_id id ls h.0)

sub_positive : (a n : ℤ) → ltb_ℤ n a ≡ true → pos 1 ≤ℤ a -ℤ n
unfolding ◌-ℤ◌
sub_positive a n h = ground arith

reduce-IsStocked : (id n : ℤ) (ls : List Listing) → IsStocked ls → IsStocked (reduce id n ls).1
reduce-IsStocked id n [] h = tt
reduce-IsStocked id n (l ∷ ls) h = ground (
  arith,
  reduce-IsStocked id n ls h.2,
  reduce-IsAbsent l.listing_id id n ls h.0,
  sub_positive l.remaining n,
)

reduce_none : (id n : ℤ) (ls : List Listing) → IsAbsent id ls → reduce id n ls ≡ (0, ls)
reduce_none id n [] h = refl
reduce_none id n (l ∷ ls) h = rw (h.0, reduce_none id n ls h.1) refl

find_live-none : (id : ℤ) (ls : List Listing) → IsAbsent id ls → find_live id ls ≡ none
find_live-none id [] h = refl
find_live-none id (l ∷ ls) h = ground (arith, find_live-none id ls h.1)

IsAbsent-eq : (a b : ℤ) (ls : List Listing) → eq_ℤ a b ≡ true → IsAbsent a ls → IsAbsent b ls
IsAbsent-eq a b ls h = rw ((eq_ℤ_iff a b).0 h) (λ x. x)

pub stock_of-find_live :
    (id : ℤ) (ls : List Listing) (l : Listing)
    → IsStocked ls
    → find_live id ls ≡ some l
    → (l.listing_id ≡ id) × (stock_of id ls ≡ l.remaining)
stock_of-find_live id [] l h e = cc e
stock_of-find_live id (x ∷ ls) l h e = elim (Bool-cases (eq_ℤ x.listing_id id)) [
  | inl same ↦
      let gone = find_live-none id ls (IsAbsent-eq x.listing_id id ls same h.0) in
      ground (arith, same, gone, (eq_ℤ_iff x.listing_id id).0)
  | inr other ↦ ground (arith, other, stock_of-find_live id ls l h.2)
]

stock_of-remove :
    (k id : ℤ) (ls : List Listing)
    → stock_of k (remove id ls).1 ≡ (if eq_ℤ id k then pos 0 else stock_of k ls)
stock_of-remove k id [] = ground arith
stock_of-remove k id (l ∷ ls) =
    ground (arith, stock_of-remove k id ls, eq_ℤ-trans l.listing_id id k)

-- Where a row is reduced, it is the one of the id, and it had more.
stock_of-reduce :
    (k id n : ℤ) (ls : List Listing)
    → IsStocked ls
    → ((reduce id n ls).0 == 0) ≡ false
    → (stock_of k (reduce id n ls).1 ≡ (if eq_ℤ id k then stock_of id ls -ℤ n else stock_of k ls))
      × (ltb_ℤ n (stock_of id ls) ≡ true)
stock_of-reduce k id n [] h some_row = ground arith
stock_of-reduce k id n (l ∷ ls) h some_row = elim (Bool-cases (eq_ℤ l.listing_id id)) [
  | inl same ↦
      let alone = reduce_none id n ls (IsAbsent-eq l.listing_id id ls same h.0) in
      ground (arith, same, alone, eq_ℤ-trans l.listing_id id k)
  | inr other ↦ ground (
    arith,
    other,
    stock_of-reduce k id n ls h.2,
    (eq_ℤ_iff l.listing_id k).0,
    (eq_ℤ_iff id k).0,
    (eq_ℤ_iff l.listing_id id).1,
  )
]

some_unless :
    {A : Type 0} (b : Bool) (x y : A)
    → (if b then none else some x) ≡ some y
    → (b ≡ false) × (x ≡ y)
some_unless true x y e = cc e
some_unless false x y e = (refl, cc e)

sub_self : (a b : ℤ) → eq_ℤ a b ≡ true → (a -ℤ b ≡ pos 0) × (b ≤ℤ a)
unfolding ◌-ℤ◌
sub_self a b h = ground (arith, (eq_ℤ_iff a b).0 h)

-- What is taken leaves the stock of every other listing alone, and there was enough of it.
abbrev Taken : ℤ → Listing → ℤ → List Listing → List Listing → Type 0
Taken k l count ls ls' =
    IsStocked ls'
    × (stock_of k ls'
        ≡ (if eq_ℤ l.listing_id k then stock_of l.listing_id ls -ℤ count else stock_of k ls))
    × (count ≤ℤ stock_of l.listing_id ls)

take_stock-Taken :
    (k : ℤ) (l : Listing) (count : ℤ) (ls ls' : List Listing)
    → IsStocked ls
    → stock_of l.listing_id ls ≡ l.remaining
    → take_stock l count ls ≡ some ls'
    → Taken k l count ls ls'
take_stock-Taken k l count ls ls' h all e = elim (Bool-cases (eq_ℤ l.remaining count)) [
  | inl whole ↦
      let (_, same) = some_unless _ (remove l.listing_id ls).1 ls' (rw whole at e) in
      let (zero_left, enough) = sub_self (stock_of l.listing_id ls) count (rw all whole) in
      subst (Taken k l count ls) same (
        remove-IsStocked l.listing_id ls h,
        rw zero_left (stock_of-remove k l.listing_id ls),
        enough,
      )
  | inr part ↦
      let (some_row, same) = some_unless _ (reduce l.listing_id count ls).1 ls' (rw part at e) in
      let (left, more) = stock_of-reduce k l.listing_id count ls h some_row in
      subst (Taken k l count ls) same
        (reduce-IsStocked l.listing_id count ls h, left, ground (arith, more))
]

-- A sale, on tables whose listings have distinct ids and are not empty: there was as much of the
-- listing as is bought, exactly that much less is left of it, nothing changes for any other, and
-- the listings that remain again have distinct ids and are not empty.
pub sell-stock_of :
    (info : AuctionItemInfo) (t t' : Tables) (total k : ℤ)
    → IsStocked t.listings
    → sell info t ≡ some (total, t')
    → IsStocked t'.listings
      × (stock_of k t'.listings ≡ (
          if eq_ℤ info.list_id k
          then stock_of info.list_id t.listings -ℤ info.count
          else stock_of k t.listings))
      × (info.count ≤ℤ stock_of info.list_id t.listings)
sell-stock_of info t t' total k h e =
    let sale = sell-Sold info t total t' e in
    let (named, all) = stock_of-find_live info.list_id t.listings sale.listing h sale.found in
    let id_eq = ap (λ id. stock_of id t.listings) named in
    let (stocked, left, enough) =
      take_stock-Taken k sale.listing info.count t.listings t'.listings h (id_eq ∙ all)
        sale.stock in
    (stocked, rw named at left, rw id_eq at enough)
