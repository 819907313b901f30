-- ===== src/Market/Gold.antt =====
-- The gold under the sales of AuctionServer/AuctionService.cpp: what the buyer's characters pay, what the
-- seller's receipt says, and the price where the product of `TryPurchase` does not fit an `int64`.
use j1_server.Prelude.{
  ℕ, ◌+◌, ◌-◌, ◌*◌, ◌^◌, ◌≤◌, ◌<◌, ◌≡◌, ap, ◌∙◌, false, some, List, [], ◌∷◌, ◌++◌, arith, ◌==◌,
  if◌then◌else◌,
}
use j1_server.Prelude.Int.{ℤ, pos, negsuc, pos_part, ◌-ℤ◌, ◌*ℤ◌, ◌≤ℤ◌}
use j1_server.Cache.Contents.{AuctionItemInfo}
use j1_server.AuctionService.{mul_int64}
use j1_server.Market.{
  Listing, Character, Receipt, bought, sold, Tables, find_live, can_pay, debit, sell,
}
use j1_server.Market.Sold.{sell-Sold}

-- No character owes gold.
abbrev pub IsSolvent : List Character → Type 0
IsSolvent [] = Unit
IsSolvent (ch ∷ chs) = (pos 0 ≤ℤ ch.gold) × IsSolvent chs

abbrev pub gold_total : List Character → ℕ
gold_total [] = 0
gold_total (ch ∷ chs) = pos_part ch.gold + gold_total chs

-- The characters that a price is taken from.
abbrev pub payers : ℤ → ℤ → List Character → ℕ
payers account total [] = 0
payers account total (ch ∷ chs) =
    let n = payers account total chs in if can_pay account total ch then n + 1 else n

-- The gold that the sellers' receipts say.
abbrev pub proceeds : List Receipt → ℕ
proceeds [] = 0
proceeds (sold owner gold source ∷ rs) = pos_part gold + proceeds rs
proceeds (bought owner item quantity source ∷ rs) = proceeds rs

proceeds-append : (xs ys : List Receipt) → proceeds (xs ++ ys) ≡ proceeds xs + proceeds ys
proceeds-append [] ys = omega arith
proceeds-append (sold owner gold source ∷ xs) ys = omega (arith, proceeds-append xs ys)
proceeds-append (bought owner item quantity source ∷ xs) ys = proceeds-append xs ys

mul_int64_small : (p n : ℕ) → p * n < 2 ^ 63 → mul_int64 (pos p) (pos n) ≡ pos (p * n)
unfolding mul_int64 ◌*ℤ◌
mul_int64_small p n h = ground arith

mul_int64_large :
    (p n : ℕ)
    → 2 ^ 63 ≤ p * n
    → p * n < 2 ^ 64
    → mul_int64 (pos p) (pos n) ≡ negsuc (2 ^ 64 - 1 - p * n)
unfolding mul_int64 ◌*ℤ◌
mul_int64_large p n h k = ground arith

times_suc : (n p : ℕ) → (n + 1) * p ≡ n * p + p
times_suc n p = omega arith

-- A price that is not negative.
debit_price :
    (account : ℤ) (p : ℕ) (chs : List Character)
    → IsSolvent chs
    → let (n, chs') = debit account (pos p) chs in
      IsSolvent chs'
      × (gold_total chs' + payers account (pos p) chs * p ≡ gold_total chs)
      × (n ≤ payers account (pos p) chs)
unfolding ◌-ℤ◌
debit_price account p [] h = (tt, omega arith, omega arith)
debit_price account p (ch ∷ chs) h =
    ground (arith, debit_price account p chs h.1, times_suc (payers account (pos p) chs) p)

-- A price that is -(k + 1).
debit_gift :
    (account : ℤ) (k : ℕ) (chs : List Character)
    → IsSolvent chs
    → gold_total (debit account (negsuc k) chs).1
      ≡ gold_total chs + payers account (negsuc k) chs * (k + 1)
unfolding ◌-ℤ◌
debit_gift account k [] h = omega arith
debit_gift account k (ch ∷ chs) h =
    ground (arith, debit_gift account k chs h.1, times_suc (payers account (negsuc k) chs) (k + 1))

-- A sale of `n` at the price `q`, where the product is below 2^63 and no character owes gold: its price is
-- the product, at least one character of the buyer pays it, every character of the buyer that can
-- pay it does, the gold of all characters falls by that price for each of them, the sellers'
-- receipts grow by it once, and still no character owes gold.
pub sell-IsSolvent :
    (info : AuctionItemInfo) (t t' : Tables) (total : ℤ) (l : Listing) (q n : ℕ)
    → IsSolvent t.characters
    → find_live info.list_id t.listings ≡ some l
    → l.price ≡ pos q
    → info.count ≡ pos n
    → q * n < 2 ^ 63
    → sell info t ≡ some (total, t')
    → let paying = payers info.player_id total t.characters in
      (total ≡ pos (q * n))
      × IsSolvent t'.characters
      × (1 ≤ paying)
      × (gold_total t'.characters + paying * (q * n) ≡ gold_total t.characters)
      × (proceeds t'.receipts ≡ proceeds t.receipts + q * n)
sell-IsSolvent info t t' total l q n solvent found priced counted small e =
    let sale = sell-Sold info t total t' e in
    let same : sale.listing ≡ l = cc (sale.found, found) in
    let exact : total ≡ pos (q * n) =
      sale.price
      ∙ (λ i. mul_int64 ((ap (λ (x : Listing). x.price) same ∙ priced) i) (counted i))
      ∙ mul_int64_small q n small in
    let (still, fell, most) = debit_price info.player_id (q * n) t.characters solvent in
    let paid : t'.characters ≡ (debit info.player_id (pos (q * n)) t.characters).1 =
      rw exact at sale.characters in
    let some_paid : ((debit info.player_id (pos (q * n)) t.characters).0 == 0) ≡ false =
      rw exact at sale.pays in
    let grown =
      ap proceeds sale.receipts
      ∙ proceeds-append t.receipts (
          bought info.player_id sale.listing.item_id info.count sale.listing.listing_id
          ∷ sold sale.listing.seller_id total sale.listing.listing_id
          ∷ []) in
    (
      exact,
      rw paid still,
      rw exact (ground (arith, some_paid, most)),
      rw (paid, exact) fell,
      (let g : proceeds t'.receipts ≡ proceeds t.receipts + (q * n + 0) = rw exact at grown in
          omega (arith, g)),
    )

-- The class of prices that the code gets wrong: where the product is from 2^63 up to 2^64 - 1, the price of
-- the sale is negative, and every character of the buyer is given gold instead of paying.
pub sell_overflow :
    (info : AuctionItemInfo) (t t' : Tables) (total : ℤ) (l : Listing) (q n : ℕ)
    → IsSolvent t.characters
    → find_live info.list_id t.listings ≡ some l
    → l.price ≡ pos q
    → info.count ≡ pos n
    → 2 ^ 63 ≤ q * n
    → q * n < 2 ^ 64
    → sell info t ≡ some (total, t')
    → (total ≡ negsuc (2 ^ 64 - 1 - q * n))
      × (gold_total t'.characters
          ≡ gold_total t.characters + payers info.player_id total t.characters * (2 ^ 64 - q * n))
sell_overflow info t t' total l q n solvent found priced counted large fits e =
    let sale = sell-Sold info t total t' e in
    let same : sale.listing ≡ l = cc (sale.found, found) in
    let wrapped : total ≡ negsuc (2 ^ 64 - 1 - q * n) =
      sale.price
      ∙ (λ i. mul_int64 ((ap (λ (x : Listing). x.price) same ∙ priced) i) (counted i))
      ∙ mul_int64_large q n large fits in
    let given = debit_gift info.player_id (2 ^ 64 - 1 - q * n) t.characters solvent in
    let paid : t'.characters ≡ (debit info.player_id (negsuc (2 ^ 64 - 1 - q * n)) t.characters).1 =
      rw wrapped at sale.characters in
    (wrapped, rw (paid, wrapped) (ground (arith, given)))
