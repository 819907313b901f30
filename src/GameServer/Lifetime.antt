-- ===== src/GameServer/Lifetime.antt =====
-- The server of GameServer/GameServer.cpp over any number of events, and the one way in which it ends.
use j1_server.Prelude.{
  ℕ, ◌+◌, ◌^◌, ◌≤◌, ◌<◌, ◌≡◌, refl, inl, inr, some, ◌⊎◌, ◌++◌, ap, ◌∙◌, List, [], ◌∷◌, length,
  arith,
}
use j1_server.Prelude.Dict.{lookup}
use j1_server.Session.{Fault, Session, Run, done, fault}
use j1_server.GameServer.{
  GameServer, new_server, start_accept, SessionEvent, handle, Event, accepted, at_session, step,
  run, serve,
}
use j1_server.GameServer.Registry.{IsValid, Ensures, FaultsAt, step-Ensures}

run-done :
    (e : Event) (es : List Event) (g : GameServer) (r : Run GameServer)
    → step e g ≡ r
    → run (e ∷ es) g ≡ elim r [ fault f ↦ fault f | done g' ↦ run es g' ]
unfolding run
run-done e es g r h = ap next h
  where
    next : Run GameServer → Run GameServer
    next (fault f) = fault f
    next (done g') = run es g'

-- The server after the events: it goes on and satisfies the invariant, or a handler has ended it.
abbrev Served : List Event → GameServer → Run GameServer → Type 0
Served es g (done g') = IsValid g'
Served es g (fault f) =
    (before after : List Event) × (h : ℕ) × (e : SessionEvent) × (g' : GameServer) × (s : Session)
    × (es ≡ before ++ at_session h e ∷ after)
    × (run before g ≡ done g')
    × (lookup h g'.sessions ≡ some s)
    × (handle e s ≡ fault f)

Served-first :
    (e : Event) (es : List Event) (g : GameServer) (f : Fault)
    → FaultsAt e g f
    → Served (e ∷ es) g (fault f)
unfolding run
Served-first (accepted ec) es g f none_there = absurd none_there
Served-first (at_session h e) es g f (s, here, ran) = ([], es, h, e, g, s, refl, refl, here, ran)

Served-cons :
    (e : Event) (es : List Event) (g g1 : GameServer) (r : Run GameServer)
    → step e g ≡ done g1
    → Served es g1 r
    → Served (e ∷ es) g r
Served-cons e es g g1 (done g') h served = served
Served-cons e es g g1 (fault f) h (before, after, at, ev, g', s, split, ran, here, faults) = (
  e ∷ before,
  after,
  at,
  ev,
  g',
  s,
  ap (◌∷◌ e) split,
  run-done e before g (done g1) h ∙ ran,
  here,
  faults,
)

run-Served :
    (es : List Event) (g : GameServer)
    → IsValid g
    → g.manager.next_id + length es < 2 ^ 64
    → Served es g (run es g)
unfolding run
run-Served [] g v room = v
run-Served (e ∷ es) g v room =
    after_step (step e g) refl (step-Ensures e g v (omega arith))
      (λ g' v' le. run-Served es g' v' (omega arith))
  where
    after_step :
        (r : Run GameServer)
        → step e g ≡ r
        → Ensures e g r
        → ((g' : GameServer)
            → IsValid g'
            → g'.manager.next_id ≤ g.manager.next_id + 1
            → Served es g' (run es g'))
        → Served (e ∷ es) g (elim r [ fault f ↦ fault f | done g' ↦ run es g' ])
    after_step (fault f) h faults next = Served-first e es g f faults
    after_step (done g1) h valid next =
        Served-cons e es g g1 (run es g1) h (next g1 valid.0 valid.1)

start-IsValid : IsValid (start_accept new_server)
unfolding start_accept
start-IsValid = record {
  waiting = 0;
  one_accept = refl;
  newest = refl;
  registry = record { known = λ h s e. cc; found = λ id h e. cc; listed = λ h s e is_open. cc };
}

-- The server after any accepts and any handlers of its sessions, while the ids suffice. Either it goes on: then
-- exactly one accept is outstanding, whether those before it failed or not, and an id leads to a session object
-- in the registry exactly where the object is a session that was started, has this id and is not closed. Or it
-- has ended: then the handler of a session that was started has faulted, after events on which the server
-- went on; no accept ends it.
pub serve-IsValid :
    (es : List Event)
    → 1 + length es < 2 ^ 64
    → ((g : GameServer) × (serve es ≡ done g) × IsValid g)
      ⊎ ((before after : List Event) × (h : ℕ) × (e : SessionEvent) × (g : GameServer)
          × (s : Session) × (f : Fault) × (es ≡ before ++ at_session h e ∷ after)
          × (serve before ≡ done g)
          × (lookup h g.sessions ≡ some s)
          × (handle e s ≡ fault f)
          × (serve es ≡ fault f))
unfolding serve
serve-IsValid es room =
    ended (run es (start_accept new_server)) refl
      (run-Served es (start_accept new_server) start-IsValid room)
  where
    ended :
        (r : Run GameServer)
        → serve es ≡ r
        → Served es (start_accept new_server) r
        → ((g : GameServer) × (serve es ≡ done g) × IsValid g)
          ⊎ ((before after : List Event) × (h : ℕ) × (e : SessionEvent) × (g : GameServer)
              × (s : Session) × (f : Fault) × (es ≡ before ++ at_session h e ∷ after)
              × (serve before ≡ done g)
              × (lookup h g.sessions ≡ some s)
              × (handle e s ≡ fault f)
              × (serve es ≡ fault f))
    ended (done g) is v = inl (g, is, v)
    ended (fault f) is (before, after, h, e, g, s, split, ran, here, faults) =
        inr (before, after, h, e, g, s, f, split, ran, here, faults, is)
