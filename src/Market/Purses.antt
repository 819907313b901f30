-- ===== src/Market/Purses.antt =====
-- What a `Purchase` of AuctionServer/AuctionService.cpp does to each character's gold, where the price fits
-- an `int64` and where it does not.
use mathlib.Core.Path.{subst}
use j1_server.Prelude.{
  ℕ, ◌+◌, ◌-◌, ◌*◌, ◌^◌, ◌≤◌, ◌<◌, ◌≡◌, refl, sym, ◌∙◌, ap, inl, inr, true, false, ◌&&◌, some, List,
  [], ◌∷◌, map, arith, if◌then◌else◌,
}
use j1_server.Prelude.Int.{ℤ, pos, negsuc, pos_part, eq_ℤ, leb_ℤ, ◌+ℤ◌, ◌-ℤ◌}
use j1_server.Cache.Contents.{AuctionItemInfo}
use j1_server.Sql.{is_ok, Connection}
use j1_server.Sql.Transactions.{Views, IsTransactional}
use j1_server.AuctionService.{purchase}
use j1_server.Market.{Listing, Character, Tables, find_live, debit, sell}
use j1_server.Market.Store.{IsStore}
use j1_server.Market.Sale.{purchase-sell}
use j1_server.Market.Sold.{sell-Sold}
use j1_server.Market.Gold.{IsSolvent, payers, proceeds, gold_total, sell-IsSolvent, sell_overflow}

-- A character of the account that has the gold pays, the others keep theirs.
abbrev pub charged : ℤ → ℕ → Character → Character
charged account p ch =
    if eq_ℤ ch.account_id account && leb_ℤ (pos p) ch.gold
    then record ch { gold = ch.gold -ℤ pos p }
    else ch

-- A character of the account is given gold, the others keep theirs.
abbrev pub given : ℤ → ℕ → Character → Character
given account g ch =
    if eq_ℤ ch.account_id account then record ch { gold = ch.gold +ℤ pos g } else ch

-- With `g` more the gold of each character is still an `int64`.
abbrev pub HasRoom : ℕ → List Character → Type 0
HasRoom g [] = Unit
HasRoom g (ch ∷ chs) = (pos_part ch.gold + g < 2 ^ 63) × HasRoom g chs

minus_zero : (z : ℤ) → z -ℤ pos 0 ≡ z
unfolding ◌-ℤ◌
minus_zero (pos n) = ground arith
minus_zero (negsuc n) = ground arith

debit-charged :
    (account : ℤ) (p : ℕ) (chs : List Character)
    → (debit account (pos p) chs).1 ≡ map (charged account p) chs
debit-charged account p [] = refl
debit-charged account p (ch ∷ chs) = ground (arith, debit-charged account p chs, minus_zero ch.gold)

debit-given :
    (account : ℤ) (k : ℕ) (chs : List Character)
    → IsSolvent chs
    → (debit account (negsuc k) chs).1 ≡ map (given account (k + 1)) chs
unfolding ◌-ℤ◌ ◌+ℤ◌
debit-given account k [] h = refl
debit-given account k (ch ∷ chs) h = ground (arith, debit-given account k chs h.1)

given-HasRoom :
    (account : ℤ) (g : ℕ) (chs : List Character)
    → HasRoom g chs
    → HasRoom 0 (map (given account g) chs)
unfolding ◌+ℤ◌
given-HasRoom account g [] h = tt
given-HasRoom account g (ch ∷ chs) h = ground (arith, given-HasRoom account g chs h.1)

sell-charged :
    (info : AuctionItemInfo) (t t' : Tables) (total : ℤ) (p : ℕ)
    → total ≡ pos p
    → sell info t ≡ some (total, t')
    → t'.characters ≡ map (charged info.player_id p) t.characters
sell-charged info t t' total p exact e =
    (sell-Sold info t total t' e).characters
    ∙ ap (λ x. (debit info.player_id x t.characters).1) exact
    ∙ debit-charged info.player_id p t.characters

sell-given :
    (info : AuctionItemInfo) (t t' : Tables) (total : ℤ) (k : ℕ)
    → IsSolvent t.characters
    → total ≡ negsuc k
    → sell info t ≡ some (total, t')
    → t'.characters ≡ map (given info.player_id (k + 1)) t.characters
sell-given info t t' total k solvent exact e =
    (sell-Sold info t total t' e).characters
    ∙ ap (λ x. (debit info.player_id x t.characters).1) exact
    ∙ debit-given info.player_id k t.characters solvent

module _ (c : Connection) (v : Views c) (laws : IsTransactional c v)
    (store : IsStore c v laws) where
  -- The tables as the other connections see them.
  abbrev pub seen : c.State → Tables
  seen s = store.read (v.committed s)

  purchase-won :
      ((t : c.State) → is_ok (c.rollback t).0 ≡ true)
      → (info : AuctionItemInfo) (s : c.State) → v.working s ≡ v.committed s
      → (purchase c info s).0.success ≡ true
      → sell info (seen s) ≡ some ((purchase c info s).0.total_price, seen (purchase c info s).1)
  purchase-won rolls_back info s settled won =
      elim (purchase-sell c v laws store rolls_back info s settled) [
        | inl (failed, _) ↦ let never : true ≡ false = sym won ∙ failed in cc never
        | inr (_, sold) ↦ sold
      ]

  -- On a connection to the tables of the auction whose rollbacks return, from a state with nothing pending
  -- in which no character owes gold: a `Purchase` of `n` at the price `q`, where the product is below
  -- 2^63, that reports success reports the product as its price. Every character of the buyer that has so
  -- much gold pays exactly the product, there is at least one, and all others keep their gold; the gold
  -- of all characters falls by the product for each that pays, the sellers' receipts grow by it once,
  -- and still no character owes gold.
  pub purchase-charged :
      ((t : c.State) → is_ok (c.rollback t).0 ≡ true)
      → (info : AuctionItemInfo) (s : c.State) (l : Listing) (q n : ℕ) → v.working s ≡ v.committed s
      → IsSolvent (seen s).characters
      → find_live info.list_id (seen s).listings ≡ some l
      → l.price ≡ pos q
      → info.count ≡ pos n
      → q * n < 2 ^ 63
      → (purchase c info s).0.success ≡ true
      → let (result, s') = purchase c info s in
        let paying = payers info.player_id (pos (q * n)) (seen s).characters in
        (result.total_price ≡ pos (q * n))
        × ((seen s').characters ≡ map (charged info.player_id (q * n)) (seen s).characters)
        × (1 ≤ paying)
        × (gold_total (seen s').characters + paying * (q * n) ≡ gold_total (seen s).characters)
        × (proceeds (seen s').receipts ≡ proceeds (seen s).receipts + q * n)
        × IsSolvent (seen s').characters
  purchase-charged rolls_back info s l q n settled solvent found priced counted small won =
      let s' = (purchase c info s).1 in
      let total = (purchase c info s).0.total_price in
      let sale = purchase-won rolls_back info s settled won in
      let (exact, still, some_paid, fell, grown) =
        sell-IsSolvent info (seen s) (seen s') total l q n solvent found priced counted small
          sale in
      (
        exact,
        sell-charged info (seen s) (seen s') total (q * n) exact sale,
        rw exact at some_paid,
        rw exact at fell,
        grown,
        still,
      )

  -- The class of prices that the code gets wrong. On a connection to the tables of the auction whose
  -- rollbacks return, from a state with nothing pending in which no character owes gold: where the
  -- product of price and count is from 2^63 up to 2^64 - 1, a `Purchase` that reports success reports a
  -- negative price, and every character of the buyer is given 2^64 less the product instead of paying,
  -- while all others keep their gold. Each character's gold is taken to leave room for so much in an
  -- `int64`, and what each then has is an `int64`.
  pub purchase-given :
      ((t : c.State) → is_ok (c.rollback t).0 ≡ true)
      → (info : AuctionItemInfo) (s : c.State) (l : Listing) (q n : ℕ) → v.working s ≡ v.committed s
      → IsSolvent (seen s).characters
      → find_live info.list_id (seen s).listings ≡ some l
      → l.price ≡ pos q
      → info.count ≡ pos n
      → 2 ^ 63 ≤ q * n
      → q * n < 2 ^ 64
      → HasRoom (2 ^ 64 - q * n) (seen s).characters
      → (purchase c info s).0.success ≡ true
      → let (result, s') = purchase c info s in
        (result.total_price ≡ negsuc (2 ^ 64 - 1 - q * n))
        × ((seen s').characters ≡ map (given info.player_id (2 ^ 64 - q * n)) (seen s).characters)
        × HasRoom 0 (seen s').characters
  purchase-given rolls_back info s l q n settled solvent found priced counted large fits room won =
      let s' = (purchase c info s).1 in
      let total = (purchase c info s).0.total_price in
      let sale = purchase-won rolls_back info s settled won in
      let (wrapped, _) =
        sell_overflow info (seen s) (seen s') total l q n solvent found priced counted large fits
          sale in
      let gift : 2 ^ 64 - 1 - q * n + 1 ≡ 2 ^ 64 - q * n = omega arith in
      let after =
        sell-given info (seen s) (seen s') total (2 ^ 64 - 1 - q * n) solvent wrapped sale
        ∙ ap (λ g. map (given info.player_id g) (seen s).characters) gift in
      (
        wrapped,
        after,
        subst (HasRoom 0) (sym after)
            (given-HasRoom info.player_id (2 ^ 64 - q * n) (seen s).characters room),
      )
