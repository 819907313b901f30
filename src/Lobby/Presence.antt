-- ===== src/Lobby/Presence.antt =====
-- Who is in the room of GameServer/GameRoom.cpp, and for how long.
use j1_server.Prelude.{
  ℕ, ◌==◌, ◌≡◌, refl, ap, ◌∙◌, Bool, true, false, none, some, Option-cases, Bool-cases, ==_iff,
  List, [], ◌∷◌, if◌then◌else◌, inl, inr,
}
use j1_server.Prelude.Dict.{Dict, lookup, insert, erase, lookup-insert, lookup-erase}
use j1_server.Prelude.Int.{ℤ}
use j1_server.Lobby.Room.{
  GameMember, GameRoom, GamePacket, res_enter_game, Sent, member_key, contains_handle,
  create_player, notify, enter_room, handle_enter_room, leave_room, handle_req_enter_game,
  handle_req_leave_game, Event, enters, leaves, ends, step, run,
}

-- No request of any session leaves with this key.
abbrev pub Remains : ℕ → List Event → Type 0
Remains key [] = Unit
Remains key (leaves session id ∷ es) = ((member_key id == key) ≡ false) × Remains key es
Remains key (enters session id name ∷ es) = Remains key es
Remains key (ends session ∷ es) = Remains key es

-- A packet to a session, unless it has ended.
abbrev pub to_open : List ℕ → ℕ → GamePacket → Sent
to_open closed session packet =
    if contains_handle session closed then [] else (session, packet) ∷ []

enter_room_taken :
    (player : GameMember) (r : GameRoom) (m : GameMember)
    → lookup player.player_id r.members ≡ some m
    → enter_room player r ≡ (false, player, r)
unfolding enter_room
enter_room_taken player r m here = rw (enter_room, here) refl

enter_room_free :
    (player : GameMember) (r : GameRoom)
    → lookup player.player_id r.members ≡ none
    → let player' : GameMember = record player { in_room = true } in
      enter_room player r
      ≡ (true, player', record r { members = insert player.player_id player' r.members })
unfolding enter_room
enter_room_free player r free = rw (enter_room, free) refl

leave_room_absent :
    (id : ℤ) (r : GameRoom) → lookup (member_key id) r.members ≡ none → leave_room id r ≡ (r, [])
unfolding leave_room
leave_room_absent id r free = rw (leave_room, free) refl

leave_room_members :
    (id : ℤ) (r : GameRoom) (m : GameMember)
    → lookup (member_key id) r.members ≡ some m
    → (leave_room id r).0.members ≡ erase (member_key id) r.members
unfolding leave_room
leave_room_members id r m here = rw (leave_room, here) refl

-- The room with the session's `player` set, and what `HandleEnterPlayerLocked` makes of its result.
abbrev with_player : ℕ → GameRoom → GameRoom
with_player session r = record r { players = insert session true r.players }

abbrev entering : ℕ → ℤ → List ℕ → GameMember
entering session id name = record (create_player id name) { session = some session }

abbrev entered : GameRoom → Bool × GameMember × GameRoom → GameRoom × Sent
entered r (success, player, r') = (r', notify r.closed player (res_enter_game success))

handle_req_enter_game-entered :
    (session : ℕ) (id : ℤ) (name : List ℕ) (r : GameRoom)
    → handle_req_enter_game session id name r
      ≡ entered r (enter_room (entering session id name) (with_player session r))
unfolding handle_req_enter_game handle_enter_room
handle_req_enter_game-entered session id name r = refl

enter_present :
    (session : ℕ) (id : ℤ) (name : List ℕ) (r : GameRoom) (m : GameMember)
    → lookup (member_key id) r.members ≡ some m
    → handle_req_enter_game session id name r
      ≡ (with_player session r, to_open r.closed session (res_enter_game false))
unfolding create_player notify
enter_present session id name r m here =
    handle_req_enter_game-entered session id name r
    ∙ ap (entered r) (enter_room_taken (entering session id name) (with_player session r) m here)

enter_free :
    (session : ℕ) (id : ℤ) (name : List ℕ) (r : GameRoom)
    → lookup (member_key id) r.members ≡ none
    → let m : GameMember = record {
      name = name;
      player_id = member_key id;
      session = some session;
      in_room = true;
    } in
      handle_req_enter_game session id name r ≡ (
        record (with_player session r) { members = insert (member_key id) m r.members },
        to_open r.closed session (res_enter_game true),
      )
unfolding create_player notify
enter_free session id name r free =
    handle_req_enter_game-entered session id name r
    ∙ ap (entered r) (enter_room_free (entering session id name) (with_player session r) free)

lookup-insert_other :
    (k key : ℕ) (v m : GameMember) (d : Dict GameMember)
    → lookup k d ≡ none
    → lookup key d ≡ some m
    → lookup key (insert k v d) ≡ some m
lookup-insert_other k key v m d free here = elim (Bool-cases (k == key)) [
  | inl same ↦ let e : k ≡ key = (==_iff k key).0 same in cc (free, here, e)
  | inr other ↦ lookup-insert k key v d ∙ rw other here
]

step_present :
    (key : ℕ) (e : Event) (es : List Event) (r : GameRoom) (m : GameMember)
    → Remains key (e ∷ es)
    → lookup key r.members ≡ some m
    → Remains key es × (lookup key (step e r).0.members ≡ some m)
unfolding step handle_req_leave_game
step_present key (enters session id name) es r m stays here =
    elim (Option-cases (lookup (member_key id) r.members)) [
      | inr (other, there) ↦ (
        stays,
        ap (λ (x : GameRoom × Sent). lookup key x.0.members)
              (enter_present session id name r other there)
            ∙ here,
      )
      | inl free ↦ (
        stays,
        ap (λ (x : GameRoom × Sent). lookup key x.0.members) (enter_free session id name r free)
            ∙ lookup-insert_other (member_key id) key _ m r.members free here,
      )
    ]
step_present key (leaves session id) es r m stays here =
    let r' : GameRoom = record r { players = erase session r.players } in
    elim (Option-cases (lookup (member_key id) r.members)) [
      | inl free ↦ (
        stays.1,
        ap (λ (x : GameRoom × Sent). lookup key x.0.members) (leave_room_absent id r' free) ∙ here,
      )
      | inr (other, there) ↦ (
        stays.1,
        ap (lookup key) (leave_room_members id r' other there)
            ∙ lookup-erase (member_key id) key r.members
            ∙ rw (stays.0) here,
      )
    ]
step_present key (ends session) es r m stays here = (stays, here)

run_present :
    (key : ℕ) (es : List Event) (r : GameRoom) (m : GameMember)
    → Remains key es
    → lookup key r.members ≡ some m
    → lookup key (run es r).members ≡ some m
unfolding run
run_present key [] r m stays here = here
run_present key (e ∷ es) r m stays here =
    let (later, there) = step_present key e es r m stays here in
    run_present key es (step e r).0 m later there

-- A player that enters under an id that is free is a member from then on until a request leaves with
-- this id, whatever else happens, the end of its session included: any later request to enter with
-- this id is answered with a failure, and changes no member.
pub run-handle_req_enter_game :
    (session session' : ℕ) (id : ℤ) (name name' : List ℕ) (es : List Event) (r : GameRoom)
    → lookup (member_key id) r.members ≡ none
    → Remains (member_key id) es
    → let (r1, sent) = handle_req_enter_game session id name r in
      let r2 = run es r1 in
      let (r3, sent') = handle_req_enter_game session' id name' r2 in
      (sent ≡ to_open r.closed session (res_enter_game true))
      × (lookup (member_key id) r2.members
          ≡ some (record {
            name = name;
            player_id = member_key id;
            session = some session;
            in_room = true;
          }))
      × (sent' ≡ to_open r2.closed session' (res_enter_game false))
      × (r3.members ≡ r2.members)
run-handle_req_enter_game session session' id name name' es r free stays =
    let m : GameMember = record {
      name = name;
      player_id = member_key id;
      session = some session;
      in_room = true;
    } in
    let first = enter_free session id name r free in
    let r1 = (handle_req_enter_game session id name r).0 in
    let in_r1 : lookup (member_key id) r1.members ≡ some m =
      ap (λ (x : GameRoom × Sent). lookup (member_key id) x.0.members) first
      ∙ lookup-insert (member_key id) (member_key id) m r.members
      ∙ rw ((==_iff (member_key id) (member_key id)).1 refl) refl in
    let in_r2 = run_present (member_key id) es r1 m stays in_r1 in
    let second = enter_present session' id name' (run es r1) m in_r2 in
    (
      ap (λ (x : GameRoom × Sent). x.1) first,
      in_r2,
      ap (λ (x : GameRoom × Sent). x.1) second,
      ap (λ (x : GameRoom × Sent). x.0.members) second,
    )
