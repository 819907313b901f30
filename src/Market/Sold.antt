-- ===== src/Market/Sold.antt =====
-- What holds where a sale of AuctionServer/AuctionService.cpp goes through: the tests it has passed, and
-- the tables it leaves.
use j1_server.Prelude.{
  ◌≡◌, refl, sym, ap, ◌∙◌, Bool, true, false, ◌||◌, Option, none, some, List, [], ◌∷◌, ◌++◌, ◌==◌,
  if◌then◌else◌,
}
use j1_server.Prelude.Int.{ℤ, pos, eq_ℤ, leb_ℤ}
use j1_server.Cache.Contents.{AuctionItemInfo}
use j1_server.AuctionService.{mul_int64}
use j1_server.Market.{
  Listing, Tables, bought, sold, find_live, debit, take_stock, sell_listing, sell,
}

pub record Sold (info : AuctionItemInfo) (t : Tables) (total : ℤ) (t' : Tables) : Type 0 where
  pub listing : Listing
  pub found : find_live info.list_id t.listings ≡ some listing
  pub positive : leb_ℤ info.count (pos 0) ≡ false
  pub other : eq_ℤ listing.seller_id info.player_id ≡ false
  pub pays : ((debit info.player_id total t.characters).0 == 0) ≡ false
  pub stock : take_stock listing info.count t.listings ≡ some t'.listings
  pub price : total ≡ mul_int64 listing.price info.count
  pub characters : t'.characters ≡ (debit info.player_id total t.characters).1
  pub receipts :
      t'.receipts
      ≡ t.receipts
        ++ bought info.player_id listing.item_id info.count listing.listing_id
          ∷ sold listing.seller_id total listing.listing_id
          ∷ []

module _ (info : AuctionItemInfo) (t : Tables) (total : ℤ) (t' : Tables) where
  sell_listing-Sold :
      (l : Listing)
      → find_live info.list_id t.listings ≡ some l
      → leb_ℤ info.count (pos 0) ≡ false
      → sell_listing info l t ≡ some (total, t')
      → Sold info t total t'
  unfolding sell_listing
  sell_listing-Sold l found positive e =
      let price = mul_int64 l.price info.count in
      tests (eq_ℤ l.seller_id info.player_id) ((debit info.player_id price t.characters).0 == 0)
        refl refl
        (opened (take_stock l info.count t.listings)
          (eq_ℤ l.seller_id info.player_id || (debit info.player_id price t.characters).0 == 0) e)
    where
      after : List Listing → Tables
      after ls =
          let price = mul_int64 l.price info.count in
          record {
            listings = ls;
            characters = (debit info.player_id price t.characters).1;
            trades =
                t.trades
                ++ record { item_id = l.item_id; quantity = info.count; total_price = price } ∷ [];
            receipts =
                t.receipts
                ++ bought info.player_id l.item_id info.count l.listing_id
                  ∷ sold l.seller_id price l.listing_id
                  ∷ [];
          }

      outcome : Option (List Listing) → Option (ℤ × Tables)
      outcome none = none
      outcome (some ls) = some (mul_int64 l.price info.count, after ls)

      stocked :
          (o : Option (List Listing))
          → take_stock l info.count t.listings ≡ o
          → eq_ℤ l.seller_id info.player_id ≡ false
          → ((debit info.player_id (mul_int64 l.price info.count) t.characters).0 == 0) ≡ false
          → outcome o ≡ some (total, t')
          → Sold info t total t'
      stocked none taken other pays h = cc h
      stocked (some ls) taken other pays h =
          let p : mul_int64 l.price info.count ≡ total = cc h in
          let q : after ls ≡ t' = cc h in
          record {
            listing = l;
            found = found;
            positive = positive;
            other = other;
            pays = rw (← p) pays;
            stock = taken ∙ ap some (ap (λ (x : Tables). x.listings) q);
            price = sym p;
            characters = rw (← p) (sym (ap (λ (x : Tables). x.characters) q));
            receipts = rw (← p) (sym (ap (λ (x : Tables). x.receipts) q));
          }

      opened :
          (o : Option (List Listing)) (b : Bool)
          → (if b then none else elim o as (λ _. Option (ℤ × Tables)) [
            | none ↦ none
            | some ls ↦ some (mul_int64 l.price info.count, after ls)
          ])
            ≡ some (total, t')
          → (if b then none else outcome o) ≡ some (total, t')
      opened none b h = h
      opened (some ls) b h = h

      tests :
          (own poor : Bool)
          → eq_ℤ l.seller_id info.player_id ≡ own
          → ((debit info.player_id (mul_int64 l.price info.count) t.characters).0 == 0) ≡ poor
          → (if own || poor then none else outcome (take_stock l info.count t.listings))
            ≡ some (total, t')
          → Sold info t total t'
      tests true poor other pays h = cc h
      tests false true other pays h = cc h
      tests false false other pays h =
          stocked (take_stock l info.count t.listings) refl other pays h

  pub sell-Sold : sell info t ≡ some (total, t') → Sold info t total t'
  unfolding sell
  sell-Sold e = tests (leb_ℤ info.count (pos 0)) (find_live info.list_id t.listings) refl refl e
    where
      tests :
          (none_asked : Bool) (o : Option Listing)
          → leb_ℤ info.count (pos 0) ≡ none_asked
          → find_live info.list_id t.listings ≡ o
          → (if none_asked then none else elim o [ none ↦ none | some l ↦ sell_listing info l t ])
            ≡ some (total, t')
          → Sold info t total t'
      tests true o positive found h = cc h
      tests false none positive found h = cc h
      tests false (some l) positive found h = sell_listing-Sold l found positive h
