-- ===== src/Cache.antt =====
-- GameServer/Utils/AuctionCache.h and AuctionCache.cpp: the snapshot of the auction list that the
-- game server answers from, and the cycle that refreshes it. A handler is a function of the readings
-- of the clock that it makes, in order (nanoseconds of the steady clock), and returns the new cache
-- with the timers and packets that it starts.
pub mod Contents
pub mod Verdicts
pub mod Liveness
pub mod Tests
use j1_server.Prelude.{
  ℕ, ◌+◌, ◌-◌, ◌*◌, ◌%◌, ◌^◌, Bool, true, false, not, ◌&&◌, ◌||◌, Option, none, some, List, [], ◌∷◌,
  ◌++◌, get_elem?, ltb, leb, ◌==◌, if◌then◌else◌,
}
use j1_server.Prelude.Int.{ℤ, pos, eq_ℤ, ltb_ℤ, leb_ℤ}
use j1_server.Packet.{Protobuf}
use Contents.{AuctionItemInfo, Snapshot, Client, new_snapshot, build_client_packet, find_index}

pub data Verdict : Type 0 where
  pass unknown reject_not_found reject_shortage reject_own : Verdict

abbrev pub seconds : ℕ → ℕ
seconds n = n * 10 ^ 9

-- `kRefreshInterval`, `kMinRefreshGap`, `kRequestTimeout`, `kStaleLimit`
abbrev pub refresh_interval : ℕ
refresh_interval = seconds 60

abbrev pub min_refresh_gap : ℕ
min_refresh_gap = seconds 3

abbrev pub request_timeout : ℕ
request_timeout = seconds 5

abbrev pub stale_limit : ℕ
stale_limit = seconds 180

-- `has_timer`: `Init` has made the two timers. The counters are `uint64`, and the sequence number is
-- the bit pattern of an `int32`.
pub record Cache : Type 0 where
  pub snapshot : Option Snapshot
  pub in_flight : Bool
  pub refresh_seq : ℕ
  pub dirty : Bool
  pub last_request_at : ℕ
  pub has_timer : Bool
  pub timer_armed : Bool
  pub timer_target : ℕ
  pub hit : ℕ
  pub miss : ℕ
  pub rejected : ℕ

pub data Effect : Type 0 where
  -- REQ_AUCTION_LIST for the reserved session 0, with this request id
  send_request : ℕ → Effect
  -- the timeout timer, set to run out at a time, and the sequence number in its handler
  await_timeout : ℕ → ℕ → Effect
  cancel_timeout : Effect
  -- the refresh timer, set to a time
  await_timer : ℕ → Effect

abbrev pub Handled : Type 0
Handled = Cache × List Effect

pub new_cache : Cache
new_cache = record {
  snapshot = none;
  in_flight = false;
  refresh_seq = 0;
  dirty = false;
  last_request_at = 0;
  has_timer = false;
  timer_armed = false;
  timer_target = 0;
  hit = 0;
  miss = 0;
  rejected = 0;
}

-- `Init`
unfoldable pub init : Cache → Cache
init c = record c { has_timer = true }

-- `fetch_add(1)` on a `uint64`, and `++` on an `int32` that wraps.
abbrev pub next64 : ℕ → ℕ
next64 n = (n + 1) % 2 ^ 64

abbrev pub next32 : ℕ → ℕ
next32 n = (n + 1) % 2 ^ 32

-- `LoadSnapshot` and `StoreSnapshot`
unfoldable pub load_snapshot : Cache → Option Snapshot
load_snapshot c = c.snapshot

unfoldable pub store_snapshot : Snapshot → Cache → Cache
store_snapshot s c = record c { snapshot = some s }

unfoldable pub is_fresh : ℕ → Snapshot → Bool
is_fresh now s = ltb (now - s.fetched_at) stale_limit

-- `ArmTimer`: an earlier appointment stays.
unfoldable pub arm_timer : ℕ → ℕ → Cache → Handled
arm_timer now delay c =
    let target = now + delay in
    if c.timer_armed && leb c.timer_target target
    then (c, [])
    else (record c { timer_armed = true; timer_target = target }, await_timer target ∷ [])

-- The delay after a change: at once, but not within the gap after the last request.
unfoldable pub early_delay : ℕ → Cache → ℕ
early_delay now c =
    let elapsed = now - c.last_request_at in
    if leb min_refresh_gap elapsed then 0 else min_refresh_gap - elapsed

-- `RequestRefresh`; `connected` is whether `GAuctionSession` is set.
unfoldable pub request_refresh : Bool → ℕ → ℕ → Cache → Handled
request_refresh connected now timeout_now c =
    if c.in_flight || (not connected || not c.has_timer)
    then (c, [])
    else let seq = next32 c.refresh_seq in
      (
        record c { in_flight = true; refresh_seq = seq; last_request_at = now },
        send_request seq ∷ await_timeout (timeout_now + request_timeout) seq ∷ [],
      )

-- `MarkDirty`
unfoldable pub mark_dirty : ℕ → ℕ → Cache → Handled
unfolding arm_timer early_delay
mark_dirty now arm_now c =
    let c' : Cache = record c { dirty = true } in
    if c.in_flight then (c', []) else arm_timer arm_now (early_delay now c') c'

module _ (client : Client) where
  -- `FinishRefresh`: the snapshot is replaced whole.
  unfoldable pub finish_refresh : ℕ → ℕ → ℕ → List AuctionItemInfo → Cache → Handled
  unfolding store_snapshot arm_timer early_delay
  finish_refresh fetched_at now arm_now listinfo c =
      let snap = build_client_packet client (new_snapshot fetched_at listinfo) in
      let c' : Cache = record (store_snapshot snap c) { in_flight = false } in
      let (c'', effects) =
        if c'.dirty
        then arm_timer arm_now (early_delay now (record c' { dirty = false }))
            (record c' { dirty = false })
        else arm_timer arm_now refresh_interval c' in
      (c'', cancel_timeout ∷ effects)

  -- `OnRefreshResponse`: only the answer to the request in flight counts.
  unfoldable pub on_refresh_response : ℕ → ℕ → ℕ → ℕ → List AuctionItemInfo → Cache → Handled
  unfolding finish_refresh
  on_refresh_response fetched_at now arm_now request_id listinfo c =
      if not c.in_flight || not (request_id == c.refresh_seq)
      then (c, [])
      else finish_refresh fetched_at now arm_now listinfo c

-- `OnRequestTimeout`
unfoldable pub on_request_timeout : ℕ → Cache → Handled
unfolding arm_timer
on_request_timeout arm_now c = arm_timer arm_now refresh_interval (record c { in_flight = false })

-- The handler of the timeout timer, with the sequence number that it holds; `aborted` is `ec`.
unfoldable pub on_timeout : Bool → ℕ → ℕ → Cache → Handled
unfolding on_request_timeout
on_timeout aborted arm_now seq c =
    if aborted
    then (c, [])
    else if c.in_flight && seq == c.refresh_seq
    then on_request_timeout arm_now c
    else (c, [])

-- `OnTimer`
unfoldable pub on_timer : Bool → Bool → ℕ → ℕ → ℕ → Cache → Handled
unfolding request_refresh arm_timer
on_timer connected aborted now timeout_now arm_now c =
    if aborted
    then (c, [])
    else let (c', effects) =
        request_refresh connected now timeout_now
          (record c { timer_armed = false; dirty = false }) in
      if c'.in_flight
      then (c', effects)
      else let (c'', more) = arm_timer arm_now refresh_interval c' in (c'', effects ++ more)

-- `TrySendList`: the packet to put into the session's send queue, if it is answered from here.
unfoldable pub try_send_list : ℕ → Cache → Cache × Option (List ℕ)
unfolding load_snapshot
try_send_list now c = elim (load_snapshot c) [
  | none ↦ (record c { miss = next64 c.miss }, none)
  | some snap ↦ elim snap.list_packet [
    | none ↦ (record c { miss = next64 c.miss }, none)
    | some buffer ↦
        if not (is_fresh now snap)
        then (record c { miss = next64 c.miss }, none)
        else (record c { hit = next64 c.hit }, some buffer)
  ]
]

unfoldable pub reject : Verdict → Cache → Cache × Verdict
reject v c = (record c { rejected = next64 c.rejected }, v)

-- The tests on the item that the index names.
unfoldable pub judge_item : ℤ → ℤ → AuctionItemInfo → Cache → Cache × Verdict
unfolding reject
judge_item count buyer_id item c =
    if leb_ℤ count (pos 0) || ltb_ℤ item.count count
    then reject reject_shortage c
    else if eq_ℤ item.player_id buyer_id
    then reject reject_own c
    else (c, pass)

-- The look up in a fresh snapshot; `none` where the index points outside of `items`.
unfoldable pub judge : ℤ → ℤ → ℤ → Snapshot → Cache → Option (Cache × Verdict)
unfolding judge_item
judge list_id count buyer_id snap c = elim (find_index list_id snap.index) [
  | none ↦ some (if ltb_ℤ snap.max_list_id list_id then (c, unknown) else reject reject_not_found c)
  | some i ↦ elim (get_elem? snap.items i) [
    | none ↦ none
    | some item ↦ some (judge_item count buyer_id item c)
  ]
]

-- `ValidatePurchase`
unfoldable pub validate_purchase : ℕ → ℤ → ℤ → ℤ → Cache → Option (Cache × Verdict)
unfolding load_snapshot judge
validate_purchase now list_id count buyer_id c = elim (load_snapshot c) [
  | none ↦ some (c, unknown)
  | some snap ↦
      if not (is_fresh now snap) then some (c, unknown) else judge list_id count buyer_id snap c
]
