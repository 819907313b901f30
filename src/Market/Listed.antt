-- ===== src/Market/Listed.antt =====
-- The items that `GetListings` of AuctionServer/AuctionService.cpp returns, against the rows of the
-- listings: what a search of the items says of the live row of an id.
use j1_server.Prelude.{
  ℕ, zero, suc, ◌≡◌, refl, sym, ap, ◌∙◌, inl, inr, true, false, none, some, List, [], ◌∷◌, map,
  arith, Bool-cases, take,
}
use j1_server.Prelude.Int.{ℤ, pos, eq_ℤ, eq_ℤ_iff, ltb_ℤ}
use j1_server.Cache.Contents.{AuctionItemInfo}
use j1_server.Cache.Verdicts.{find_item, is_above}
use j1_server.Sql.{Row}
use j1_server.AuctionService.{listing_item}
use j1_server.Market.{Listing, find_live}
use j1_server.Market.Store.{lives, ShowsAll}

-- Every id in the rows is above this one.
abbrev pub IsBelow : ℤ → List Listing → Type 0
IsBelow id [] = Unit
IsBelow id (l ∷ ls) = (ltb_ℤ id l.listing_id ≡ true) × IsBelow id ls

-- The rows in the order of their key.
abbrev pub IsOrdered : List Listing → Type 0
IsOrdered [] = Unit
IsOrdered (l ∷ ls) = IsBelow l.listing_id ls × IsOrdered ls

-- The items that an answer lists, for the rows.
abbrev pub Lists : List Listing → List AuctionItemInfo → Type 0
Lists [] [] = Unit
Lists (l ∷ ls) (item ∷ items) =
    (item.list_id ≡ l.listing_id)
    × (item.player_id ≡ l.seller_id)
    × (item.count ≡ l.remaining)
    × Lists ls items
Lists _ _ = ⊥

pub ShowsAll-Lists :
    (ls : List Listing) (rows : List Row) → ShowsAll ls rows → Lists ls (map listing_item rows)
unfolding listing_item
ShowsAll-Lists [] [] h = tt
ShowsAll-Lists [] (row ∷ rows) h = absurd h
ShowsAll-Lists (l ∷ ls) [] h = absurd h
ShowsAll-Lists (l ∷ ls) (row ∷ rows) (id, seller, left, rest) =
    (id, seller, left, ShowsAll-Lists ls rows rest)

find_live-IsBelow : (id : ℤ) (ls : List Listing) → IsBelow id ls → find_live id ls ≡ none
find_live-IsBelow id [] h = refl
find_live-IsBelow id (l ∷ ls) h =
    ground (arith, find_live-IsBelow id ls h.1, (eq_ℤ_iff l.listing_id id).0)

IsBelow-trans : (a b : ℤ) (ls : List Listing) → ltb_ℤ a b ≡ true → IsBelow b ls → IsBelow a ls
IsBelow-trans a b [] less h = tt
IsBelow-trans a b (l ∷ ls) less h = (ground (arith, less, h.0), IsBelow-trans a b ls less h.1)

pub not_positive :
    (id : ℤ) (ls : List Listing)
    → ltb_ℤ (pos 0) id ≡ false
    → IsBelow (pos 0) ls
    → find_live id ls ≡ none
not_positive id [] low h = refl
not_positive id (l ∷ ls) low h =
    ground (arith, low, not_positive id ls low h.1, (eq_ℤ_iff l.listing_id id).0)

-- An item that is listed is the live row of its id.
pub find_item-some :
    (n : ℕ) (id : ℤ) (ls : List Listing) (items : List AuctionItemInfo) (item : AuctionItemInfo)
    → Lists (take n (lives ls)) items
    → find_item id items ≡ some item
    → (l : Listing) × (find_live id ls ≡ some l)
      × (item.player_id ≡ l.seller_id)
      × (item.count ≡ l.remaining)
unfolding find_item
find_item-some n id ls [] item h e = cc e
find_item-some zero id ls (x ∷ xs) item h e = absurd h
find_item-some (suc n) id [] (x ∷ xs) item h e = absurd h
find_item-some (suc n) id (l ∷ ls) (x ∷ xs) item h e = elim (Bool-cases l.live) [
  | inr expired ↦
      let (row, found, seller, left) =
        find_item-some (suc n) id ls (x ∷ xs) item (rw expired at h) e in
      (row, ground (arith, found, expired), seller, left)
  | inl live ↦
      let h' : Lists (l ∷ take n (lives ls)) (x ∷ xs) = rw live at h in
      elim (Bool-cases (eq_ℤ l.listing_id id)) [
        | inl same ↦
            let here : eq_ℤ x.list_id id ≡ true = ap (λ k. eq_ℤ k id) h'.0 ∙ same in
            let e' : some x ≡ some item = rw here at e in
            let e'' : x ≡ item = cc e' in
            (
              l,
              rw (same, live) refl,
              ap (λ (y : AuctionItemInfo). y.player_id) (sym e'') ∙ h'.1,
              ap (λ (y : AuctionItemInfo). y.count) (sym e'') ∙ h'.2,
            )
        | inr other ↦
            let here : eq_ℤ x.list_id id ≡ false = ap (λ k. eq_ℤ k id) h'.0 ∙ other in
            let (row, found, seller, left) = find_item-some n id ls xs item h'.3 (rw here at e) in
            (row, rw other found, seller, left)
      ]
]

-- An id that is missing, and not above every listed one, has no live row.
pub find_item-none :
    (n : ℕ) (id : ℤ) (ls : List Listing) (items : List AuctionItemInfo)
    → IsOrdered ls
    → Lists (take n (lives ls)) items
    → find_item id items ≡ none
    → is_above id items ≡ false
    → find_live id ls ≡ none
unfolding find_item is_above
find_item-none n id ls [] ordered h e above = cc above
find_item-none zero id ls (x ∷ xs) ordered h e above = absurd h
find_item-none (suc n) id [] (x ∷ xs) ordered h e above = refl
find_item-none (suc n) id (l ∷ ls) (x ∷ xs) ordered h e above = elim (Bool-cases l.live) [
  | inr expired ↦
      let rest = find_item-none (suc n) id ls (x ∷ xs) ordered.1 (rw expired at h) e above in
      ground (arith, expired, rest)
  | inl live ↦
      let h' : Lists (l ∷ take n (lives ls)) (x ∷ xs) = rw live at h in
      elim (Bool-cases (eq_ℤ l.listing_id id)) [
        | inl same ↦
            let here : eq_ℤ x.list_id id ≡ true = ap (λ k. eq_ℤ k id) h'.0 ∙ same in
            ground (arith, here)
        | inr other ↦
            let here : eq_ℤ x.list_id id ≡ false = ap (λ k. eq_ℤ k id) h'.0 ∙ other in
            elim (Bool-cases (ltb_ℤ l.listing_id id)) [
              | inl below ↦
                  let less : ltb_ℤ x.list_id id ≡ true = ap (λ k. ltb_ℤ k id) h'.0 ∙ below in
                  rw other
                    (find_item-none n id ls xs ordered.1 h'.3 (rw here at e) (rw less at above))
              | inr below ↦
                  let after : ltb_ℤ id l.listing_id ≡ true =
                    ground (arith, other, below, (eq_ℤ_iff l.listing_id id).1) in
                  rw other
                    (find_live-IsBelow id ls (IsBelow-trans id l.listing_id ls after ordered.0))
            ]
      ]
]
