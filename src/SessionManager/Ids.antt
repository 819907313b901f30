-- ===== src/SessionManager/Ids.antt =====
-- The ids of GameServer/Utils/GameSessionManager.cpp: fresh at every registration, never the id 0
-- that the cache keeps for itself, and leading to the session that was registered.
use j1_server.Prelude.{
  ℕ, ◌+◌, ◌^◌, ◌≤◌, ◌<◌, ◌≡◌, refl, Bool, none, some, List, [], ◌∷◌, arith, length, ◌==◌,
  if◌then◌else◌,
}
use j1_server.Prelude.Dict.{
  Dict, lookup, insert, erase, lookup-insert, lookup-erase, length-insert_new,
}
use j1_server.Session.{Session}
use j1_server.SessionManager.{
  SessionManager, new_manager, register, find, unregister_session, count,
}

-- Every id in use has been issued, and none is 0.
abbrev IsIssued : ℕ → Dict ℕ → Type 0
IsIssued next [] = Unit
IsIssued next ((id, handle) ∷ d) = (1 ≤ id) × (id < next) × IsIssued next d

pub record IsValid (m : SessionManager) : Type 0 where
  pub issued : IsIssued m.next_id m.sessions
  pub positive : 1 ≤ m.next_id

-- What a server does with its manager.
pub data Op : Type 0 where
  registers unregisters : ℕ → Op

abbrev pub apply : Session → SessionManager → Op → SessionManager
apply s m (registers handle) = (register handle s m).0
apply s m (unregisters id) = unregister_session id m

pub run : Session → SessionManager → List Op → SessionManager
run s m [] = m
run s m (op ∷ ops) = run s (apply s m op) ops

IsIssued-fresh : (next : ℕ) (d : Dict ℕ) (id : ℕ) → IsIssued next d → next ≤ id → lookup id d ≡ none
IsIssued-fresh next [] id v h = refl
IsIssued-fresh next ((j, w) ∷ d) id v h = ground (arith, IsIssued-fresh next d id v.2 h)

IsIssued-zero : (next : ℕ) (d : Dict ℕ) → IsIssued next d → lookup 0 d ≡ none
IsIssued-zero next [] v = refl
IsIssued-zero next ((j, w) ∷ d) v = ground (arith, IsIssued-zero next d v.2)

IsIssued-insert :
    (next : ℕ) (d : Dict ℕ) (handle : ℕ)
    → IsIssued next d
    → 1 ≤ next
    → IsIssued (next + 1) (insert next handle d)
IsIssued-insert next [] handle v h = omega arith
IsIssued-insert next ((j, w) ∷ d) handle v h = ground (arith, IsIssued-insert next d handle v.2 h)

IsIssued-erase : (next : ℕ) (d : Dict ℕ) (id : ℕ) → IsIssued next d → IsIssued next (erase id d)
IsIssued-erase next [] id v = tt
IsIssued-erase next ((j, w) ∷ d) id v = ground (arith, IsIssued-erase next d id v.2)

-- A registration takes an id that no session has, sets it in the session, and changes the answer of
-- `Find` at that id alone: there it is the session, as long as it lives.
find-register :
    (alive : ℕ → Bool) (handle j : ℕ) (s : Session) (m : SessionManager)
    → IsValid m
    → m.next_id + 1 < 2 ^ 64
    → let (m', s', id) = register handle s m in
      IsValid m'
      × (find alive id m ≡ none)
      × (s'.session_id ≡ id)
      × (find alive j m'
          ≡ (if id == j then (if alive handle then some handle else none) else find alive j m))
      × (count m' ≡ count m + 1)
unfolding register find count
find-register alive handle j s m v room = ground (
  arith,
  IsIssued-fresh m.next_id m.sessions m.next_id v.issued,
  IsIssued-insert m.next_id m.sessions handle v.issued v.positive,
  lookup-insert m.next_id j handle m.sessions,
  length-insert_new m.next_id handle m.sessions,
)

-- `Unregister` takes the one id away and leaves every other answer of `Find`.
find-unregister_session :
    (alive : ℕ → Bool) (id j : ℕ) (m : SessionManager)
    → IsValid m
    → IsValid (unregister_session id m)
      × (find alive j (unregister_session id m) ≡ (if id == j then none else find alive j m))
unfolding unregister_session find
find-unregister_session alive id j m v =
    ground (arith, IsIssued-erase m.next_id m.sessions id v.issued, lookup-erase id j m.sessions)

-- A registration takes an id that no session has, sets it in the session, and changes the answer of
-- `Find` at that id alone: there it is the session, as long as it lives. An `Unregister` after it takes
-- away the one id that it is given, and leaves every other answer of `Find`.
pub unregister_session-register :
    (alive : ℕ → Bool) (handle gone j : ℕ) (s : Session) (m : SessionManager)
    → IsValid m
    → m.next_id + 1 < 2 ^ 64
    → let (m', s', id) = register handle s m in
      let m'' = unregister_session gone m' in
      IsValid m''
      × (find alive id m ≡ none)
      × (s'.session_id ≡ id)
      × (find alive j m'
          ≡ (if id == j then (if alive handle then some handle else none) else find alive j m))
      × (count m' ≡ count m + 1)
      × (find alive j m'' ≡ (if gone == j then none else find alive j m'))
unregister_session-register alive handle gone j s m v room =
    let (valid, fresh, set, found, counted) = find-register alive handle j s m v room in
    let (still, left) = find-unregister_session alive gone j (register handle s m).0 valid in
    (still, fresh, set, found, counted, left)

apply-IsValid :
    (s : Session) (m : SessionManager) (op : Op)
    → IsValid m
    → m.next_id + 1 < 2 ^ 64
    → IsValid (apply s m op) × ((apply s m op).next_id ≤ m.next_id + 1)
unfolding unregister_session register
apply-IsValid s m (registers handle) v room =
    ground (arith, IsIssued-insert m.next_id m.sessions handle v.issued v.positive)
apply-IsValid s m (unregisters id) v room =
    ground (arith, IsIssued-erase m.next_id m.sessions id v.issued)

run-IsValid :
    (s : Session) (m : SessionManager) (ops : List Op)
    → IsValid m
    → m.next_id + length ops < 2 ^ 64
    → IsValid (run s m ops)
unfolding run
run-IsValid s m [] v room = v
run-IsValid s m (op ∷ ops) v room =
    let (v', next) = apply-IsValid s m op v (omega arith) in
    run-IsValid s (apply s m op) ops v' (omega arith)

-- After any sequence of registrations and unregistrations, fewer than 2^64 - 1 of them, no id in
-- use is 0: `Find` of the id that the cache's own requests carry finds no session.
pub find-run_zero :
    (alive : ℕ → Bool) (s : Session) (ops : List Op)
    → length ops + 1 < 2 ^ 64
    → find alive 0 (run s new_manager ops) ≡ none
unfolding find
find-run_zero alive s ops room =
    let v = run-IsValid s new_manager ops start (omega arith) in
    ground (
      arith,
      IsIssued-zero (run s new_manager ops).next_id (run s new_manager ops).sessions v.issued,
    )
  where
    start : IsValid new_manager
    start = record { issued = tt; positive = omega arith }
