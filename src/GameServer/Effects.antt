-- ===== src/GameServer/Effects.antt =====
-- What the handlers of ServerCore/Session.cpp and of GameServer/GameSession.cpp do to the registry of
-- the sessions: an id is taken out exactly where the session closes.
use j1_server.Prelude.{ℕ, ◌≡◌, refl, ap, ◌∙◌, ◌⊎◌, inl, inr, true, false, List, [], ◌∷◌, arith}
use j1_server.Session.{
  Session, Effect, async_read_header, async_read_body, async_write, close_socket, handle_packet,
  unregister, Run, done, fault, success, failure, Handled, game_close, async_header_read,
  async_body_read, do_write, send, enqueue_send, on_write, on_header_read, on_body_read,
}
use j1_server.SessionManager.{SessionManager, unregister_session}
use j1_server.GameServer.{
  apply_effects, SessionEvent, header_read, body_read, written, sent, closed_by_server, handle,
}

abbrev pub unregistered : List Effect → List ℕ
unregistered [] = []
unregistered (unregister id ∷ es) = id ∷ unregistered es
unregistered (e ∷ es) = unregistered es

-- A handler keeps the id, and unregisters it exactly where it closes the session.
abbrev pub Keeps : Session → Handled → Type 0
Keeps s (s', effects) =
    (s'.session_id ≡ s.session_id)
    × (((s'.closed ≡ s.closed) × (unregistered effects ≡ []))
        ⊎ ((s.closed ≡ false) × (s'.closed ≡ true) × (unregistered effects ≡ s.session_id ∷ [])))

abbrev pub KeepsAll : Session → Run Handled → Type 0
KeepsAll s (done r) = Keeps s r
KeepsAll s (fault f) = Unit

game_close-Keeps : (s : Session) → Keeps s (game_close s).0
unfolding game_close
game_close-Keeps s = ground arith

do_write-KeepsAll : (s : Session) → KeepsAll s (do_write s)
unfolding do_write
do_write-KeepsAll s = ground arith

async_body_read-KeepsAll : (s : Session) → KeepsAll s (async_body_read s)
unfolding async_body_read
async_body_read-KeepsAll s = ground arith

pub handle-KeepsAll : (e : SessionEvent) (s : Session) → KeepsAll s (handle e s)
unfolding handle on_header_read on_body_read on_write send enqueue_send async_body_read
    async_header_read do_write game_close
handle-KeepsAll (header_read failure bytes) s = game_close-Keeps s
handle-KeepsAll (header_read success bytes) s = ground arith
handle-KeepsAll (body_read failure bytes) s = game_close-Keeps s
handle-KeepsAll (body_read success bytes) s = (refl, inl (refl, refl))
handle-KeepsAll (written failure) s =
    game_close-Keeps (record s { send_queue = []; writing = false })
handle-KeepsAll (written success) s = ground arith
handle-KeepsAll (sent buffer) s = ground arith
handle-KeepsAll closed_by_server s = game_close-Keeps s

-- The registry after the effects of a handler that closes no session, and of one that closes one.
pub apply_effects-none :
    (es : List Effect) (m : SessionManager) → unregistered es ≡ [] → apply_effects es m ≡ m
unfolding apply_effects
apply_effects-none [] m h = refl
apply_effects-none (unregister id ∷ es) m h = cc
apply_effects-none (async_read_header ∷ es) m h = apply_effects-none es m h
apply_effects-none (async_read_body n ∷ es) m h = apply_effects-none es m h
apply_effects-none (async_write b ∷ es) m h = apply_effects-none es m h
apply_effects-none (close_socket ∷ es) m h = apply_effects-none es m h
apply_effects-none (handle_packet header b ∷ es) m h = apply_effects-none es m h

pub apply_effects-one :
    (es : List Effect) (m : SessionManager) (id : ℕ)
    → unregistered es ≡ id ∷ []
    → apply_effects es m ≡ unregister_session id m
unfolding apply_effects
apply_effects-one [] m id h = cc
apply_effects-one (unregister j ∷ es) m id h =
    let none_left : unregistered es ≡ [] = cc in
    let this_one : j ≡ id = cc in
    apply_effects-none es (unregister_session j m) none_left
    ∙ ap (λ k. unregister_session k m) this_one
apply_effects-one (async_read_header ∷ es) m id h = apply_effects-one es m id h
apply_effects-one (async_read_body n ∷ es) m id h = apply_effects-one es m id h
apply_effects-one (async_write b ∷ es) m id h = apply_effects-one es m id h
apply_effects-one (close_socket ∷ es) m id h = apply_effects-one es m id h
apply_effects-one (handle_packet header b ∷ es) m id h = apply_effects-one es m id h

pub apply_effects-Keeps :
    (s s' : Session) (effects : List Effect) (m : SessionManager)
    → Keeps s (s', effects)
    → (apply_effects effects m).next_id ≡ m.next_id
unfolding unregister_session
apply_effects-Keeps s s' effects m (same, inl (still, none_left)) =
    ap (λ k. k.next_id) (apply_effects-none effects m none_left)
apply_effects-Keeps s s' effects m (same, inr (was_open, is_closed, this_one)) =
    ap (λ k. k.next_id) (apply_effects-one effects m s.session_id this_one)
