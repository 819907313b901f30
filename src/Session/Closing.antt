-- ===== src/Session/Closing.antt =====
-- `Close` and the overflow branch of `EnqueueSend` (ServerCore/Session.cpp), and `Close` of
-- GameServer/GameSession.cpp.
use mathlib.Core.Path.{subst}
use j1_server.Prelude.{
  sym, ap, ℕ, zero, suc, ◌≤◌, ◌≡◌, refl, Bool, true, false, List, [], ◌∷◌, ◌++◌, arith, length, leb,
  if◌then◌else◌,
}
use j1_server.Session.{
  Buffer, max_send_queue, Session, close_socket, unregister, empty_deque, done, fault, Handled,
  game_close, enqueue_send, on_write,
}
use j1_server.Session.Sending.{Link, IsWriting, IsValid, link, link_send, link_written}

-- `n` calls of `Close`, from whatever callbacks, with all that they do.
pub closes : ℕ → Session → Handled
closes zero s = (s, [])
closes (suc n) s =
    let ((s', effects), _) = game_close s in
    let (s'', later) = closes n s' in (s'', effects ++ later)

closes_closed :
    (n : ℕ) (s : Session) → closes n (record s { closed = true }) ≡ (record s { closed = true }, [])
unfolding closes game_close
closes_closed zero s = refl
closes_closed (suc n) s = closes_closed n s

closes_open :
    (n : ℕ) (s : Session)
    → closes (suc n) (record s { closed = false })
      ≡ (record s { closed = true }, close_socket ∷ unregister s.session_id ∷ [])
unfolding closes game_close
closes_open n s =
    ap (λ (r : Handled). (r.0, close_socket ∷ unregister s.session_id ∷ r.1)) (closes_closed n s)

-- However often an open game session is closed, the socket is closed once and the session is
-- unregistered once, under its own id, by the first call; the session ends closed.
pub closes_once :
    (n : ℕ) (s : Session)
    → s.closed ≡ false
    → closes (suc n) s ≡ (record s { closed = true }, close_socket ∷ unregister s.session_id ∷ [])
closes_once n s e =
    subst
      (λ b.
        closes (suc n) (record s { closed = b })
        ≡ (record s { closed = true }, close_socket ∷ unregister s.session_id ∷ []))
      (sym e) (closes_open n s)

-- A send to a full queue drops all that is queued, the new buffer with it, and closes the session.
pub enqueue_send_full :
    (b : Buffer) (s : Session)
    → max_send_queue ≤ length s.send_queue
    → enqueue_send game_close b s
      ≡ done (
        record s { send_queue = []; writing = false; closed = true },
        if s.closed then [] else close_socket ∷ unregister s.session_id ∷ [],
      )
unfolding enqueue_send game_close
enqueue_send_full b s full = ground arith

overflow_cases :
    (b : Buffer) (s : Session) (wire : List Buffer) (closed writing : Bool)
    (queue in_flight : List Buffer)
    → IsWriting writing queue in_flight
    → length queue ≡ max_send_queue
    → let l = link (record s { closed = closed }) queue writing in_flight wire in
      (l' : Link) × (link_send game_close b l ≡ done l')
      × (link_written game_close l' ≡ fault empty_deque)
unfolding link_send link_written enqueue_send on_write game_close
overflow_cases b s wire closed false [] in_flight h full = absurd (omega arith)
overflow_cases b s wire closed false (c ∷ queue) in_flight h full = cc h.0
overflow_cases b s wire closed true [] in_flight h full = absurd h
overflow_cases b s wire closed true (c ∷ queue) [] h full = cc h
overflow_cases b s wire closed true (c ∷ queue) (d ∷ x ∷ in_flight) h full = cc h
overflow_cases b s wire false true (c ∷ queue) (d ∷ []) h full = (
  link (record s { closed = true }) [] false (d ∷ []) wire,
  rw (let t : leb 4096 (suc (length queue)) ≡ true = ground arith in t),
  refl,
)
overflow_cases b s wire true true (c ∷ queue) (d ∷ []) h full = (
  link (record s { closed = true }) [] false (d ∷ []) wire,
  rw (let t : leb 4096 (suc (length queue)) ≡ true = ground arith in t),
  refl,
)

-- The class of states that the overflow branch gets wrong: the queue is full and a write is
-- outstanding. The branch empties the queue and leaves that write, so where it completes without
-- an error, `OnWrite` takes the front off an empty deque.
pub overflow_then_written :
    {sent : List Buffer} (b : Buffer) (l : Link)
    → IsValid sent l
    → length l.session.send_queue ≡ max_send_queue
    → (l' : Link) × (link_send game_close b l ≡ done l')
      × (link_written game_close l' ≡ fault empty_deque)
overflow_then_written b l v full =
    overflow_cases b l.session l.wire l.session.closed l.session.writing l.session.send_queue
      l.in_flight v.one_write full
