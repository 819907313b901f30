-- ===== src/Cache/Verdicts.antt =====
-- `ValidatePurchase` of GameServer/Utils/AuctionCache.cpp against a plain search of the items: the
-- index names the first item of each id, and `maxListId` bounds the ids.
use j1_server.Prelude.{
  ℕ, suc, ◌+◌, ◌-◌, ◌≤◌, ◌≡◌, refl, ap, ◌∙◌, inl, inr, Bool, true, false, ◌||◌, ◌&&◌, Option, none,
  some, List, [], ◌∷◌, arith, get_elem?, ltb, if◌then◌else◌, Bool-cases, Option-cases,
}
use j1_server.Prelude.Int.{ℤ, pos, eq_ℤ, eq_ℤ_iff, ltb_ℤ, leb_ℤ}
use j1_server.Cache.Contents.{
  AuctionItemInfo, Index, Snapshot, Client, find_index, emplace, index_items, new_snapshot,
  build_client_packet,
}
use j1_server.Cache.{
  Verdict, pass, unknown, reject_not_found, reject_shortage, reject_own, Cache, next64, is_fresh,
  finish_refresh, stale_limit, judge, validate_purchase,
}

-- The first item of an id, by a search from the front.
unfoldable pub find_item : ℤ → List AuctionItemInfo → Option AuctionItemInfo
find_item id [] = none
find_item id (item ∷ items) = if eq_ℤ item.list_id id then some item else find_item id items

-- The position of that item, counted from `i`.
position : ℕ → ℤ → List AuctionItemInfo → Option ℕ
position i id [] = none
position i id (item ∷ items) = if eq_ℤ item.list_id id then some i else position (i + 1) id items

abbrev or_else : Option ℕ → Option ℕ → Option ℕ
or_else none o = o
or_else (some i) o = some i

find_index-emplace :
    (k id : ℤ) (i : ℕ) (index : Index)
    → find_index id (emplace k i index)
      ≡ or_else (find_index id index) (if eq_ℤ k id then some i else none)
unfolding emplace find_index
find_index-emplace k id i index = elim (Bool-cases (eq_ℤ k id)) [
  | inl same ↦
      let e : find_index k index ≡ find_index id index =
        ap (λ x. find_index x index) ((eq_ℤ_iff k id).0 same) in
      ground (arith, e, same)
  | inr other ↦ ground (arith, other)
]

find_index-index_items :
    (i : ℕ) (id : ℤ) (items : List AuctionItemInfo) (index : Index) (m : ℤ)
    → find_index id (index_items i items (index, m)).0
      ≡ or_else (find_index id index) (position i id items)
unfolding index_items position
find_index-index_items i id [] index m = ground arith
find_index-index_items i id (x ∷ xs) index m =
    let m' = if ltb_ℤ m x.list_id then x.list_id else m in
    ground (
      arith,
      find_index-index_items (i + 1) id xs (emplace x.list_id i index) m',
      find_index-emplace x.list_id id i index,
    )

-- A position leads to the first item of the id.
get_elem?-position :
    (i : ℕ) (id : ℤ) (items : List AuctionItemInfo) (k : ℕ)
    → position i id items ≡ some k
    → (item : AuctionItemInfo) × (i ≤ k)
      × (get_elem? items (k - i) ≡ some item)
      × (find_item id items ≡ some item)
unfolding position find_item
get_elem?-position i id [] k e = cc
get_elem?-position i id (x ∷ xs) k e = elim (Bool-cases (eq_ℤ x.list_id id)) [
  | inl same ↦
      let here : i ≡ k = ground (arith, same) in
      (x, omega arith, rw (let z : k - i ≡ 0 = omega arith in z), rw same)
  | inr other ↦
      let (item, above, got, found) = get_elem?-position (i + 1) id xs k (ground (arith, other)) in
      (
        item,
        omega arith,
        rw (let z : k - i ≡ suc (k - (i + 1)) = omega arith in z) got,
        rw other found,
      )
]

position-none :
    (i : ℕ) (id : ℤ) (items : List AuctionItemInfo)
    → position i id items ≡ none
    → find_item id items ≡ none
unfolding position find_item
position-none i id [] e = refl
position-none i id (x ∷ xs) e = ground (arith, position-none (i + 1) id xs)

-- An id above the id of every item.
unfoldable pub is_above : ℤ → List AuctionItemInfo → Bool
is_above id [] = true
is_above id (item ∷ items) = ltb_ℤ item.list_id id && is_above id items

index_items-max_list_id :
    (i : ℕ) (id : ℤ) (items : List AuctionItemInfo) (index : Index) (m : ℤ)
    → ltb_ℤ (index_items i items (index, m)).1 id ≡ (ltb_ℤ m id && is_above id items)
unfolding index_items is_above
index_items-max_list_id i id [] index m = ground arith
index_items-max_list_id i id (x ∷ xs) index m =
    let m' = if ltb_ℤ m x.list_id then x.list_id else m in
    ground (arith, index_items-max_list_id (i + 1) id xs (emplace x.list_id i index) m')

-- The verdict by a plain search of the items: an id that is not listed is unknown if it is above 0
-- and above every listed id, and rejected as gone otherwise.
unfoldable pub expected : ℤ → ℤ → ℤ → List AuctionItemInfo → Verdict
expected list_id count buyer_id items = elim (find_item list_id items) [
  | none ↦ if ltb_ℤ (pos 0) list_id && is_above list_id items then unknown else reject_not_found
  | some item ↦
      if leb_ℤ count (pos 0) || ltb_ℤ item.count count
      then reject_shortage
      else if eq_ℤ item.player_id buyer_id
      then reject_own
      else pass
]

-- Whether a verdict is counted as a rejection.
abbrev pub rejects : Verdict → Bool
rejects pass = false
rejects unknown = false
rejects v = true

abbrev pub counted : Verdict → Cache → Cache
counted v c = if rejects v then record c { rejected = next64 c.rejected } else c

judge-new_snapshot :
    (fetched_at : ℕ) (items : List AuctionItemInfo) (packet : Option (List ℕ))
    (list_id count buyer_id : ℤ) (c : Cache)
    → let v = expected list_id count buyer_id items in
      judge list_id count buyer_id
        (record (new_snapshot fetched_at items) { list_packet = packet })
        c
      ≡ some (counted v c, v)
unfolding new_snapshot judge expected
judge-new_snapshot fetched_at items packet list_id count buyer_id c =
    elim (Option-cases (position 0 list_id items)) [
      | inl e ↦
          let missing : find_index list_id (index_items 0 items ([], pos 0)).0 ≡ none =
            find_index-index_items 0 list_id items [] (pos 0) ∙ e in
          ground (
            arith,
            missing,
            position-none 0 list_id items e,
            index_items-max_list_id 0 list_id items [] (pos 0),
          )
      | inr (k, e) ↦
          let at : find_index list_id (index_items 0 items ([], pos 0)).0 ≡ some k =
            find_index-index_items 0 list_id items [] (pos 0) ∙ e in
          let (item, _, got, found) = get_elem?-position 0 list_id items k e in
          let got' : get_elem? items k ≡ some item =
            rw (let z : k - 0 ≡ k = omega arith in z) at got in
          ground (arith, at, found, got')
    ]

build_client_packet_lem :
    (client : Client) (s : Snapshot)
    → build_client_packet client s
      ≡ record s { list_packet = (build_client_packet client s).list_packet }
unfolding build_client_packet
build_client_packet_lem client s = ground arith

snapshot-finish_refresh :
    (client : Client) (fetched_at now arm_now : ℕ) (items : List AuctionItemInfo) (c : Cache)
    → (finish_refresh client fetched_at now arm_now items c).0.snapshot
      ≡ some (build_client_packet client (new_snapshot fetched_at items))
unfolding finish_refresh
snapshot-finish_refresh client fetched_at now arm_now items c = ground arith

validate_snapshot :
    (fetched_at later : ℕ) (items : List AuctionItemInfo) (packet : Option (List ℕ))
    (list_id count buyer_id : ℤ) (c : Cache)
    → c.snapshot ≡ some (record (new_snapshot fetched_at items) { list_packet = packet })
    → let v =
        if ltb (later - fetched_at) stale_limit
        then expected list_id count buyer_id items
        else unknown in
      validate_purchase later list_id count buyer_id c ≡ some (counted v c, v)
unfolding validate_purchase is_fresh new_snapshot
validate_snapshot fetched_at later items packet list_id count buyer_id c e =
    ground (arith, judge-new_snapshot fetched_at items packet list_id count buyer_id c)

module _ (client : Client) where
  -- Against the cache that a refresh leaves, and while its snapshot is fresh, `ValidatePurchase`
  -- answers for every request as a plain search of the refreshed items does, never reads outside of
  -- the items, and counts exactly the rejections; once the snapshot is three minutes old the answer
  -- is unknown and nothing is counted.
  pub validate_purchase-finish_refresh :
      (fetched_at now arm_now later : ℕ) (items : List AuctionItemInfo) (c : Cache)
      (list_id count buyer_id : ℤ)
      → let c' = (finish_refresh client fetched_at now arm_now items c).0 in
        let v =
          if ltb (later - fetched_at) stale_limit
          then expected list_id count buyer_id items
          else unknown in
        validate_purchase later list_id count buyer_id c' ≡ some (counted v c', v)
  validate_purchase-finish_refresh fetched_at now arm_now later items c list_id count buyer_id =
      let snap = build_client_packet client (new_snapshot fetched_at items) in
      validate_snapshot fetched_at later items snap.list_packet list_id count buyer_id
        (finish_refresh client fetched_at now arm_now items c).0
        (snapshot-finish_refresh client fetched_at now arm_now items c
          ∙ ap some (build_client_packet_lem client (new_snapshot fetched_at items)))
