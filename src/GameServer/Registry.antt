-- ===== src/GameServer/Registry.antt =====
-- The registry of GameServer/GameServer.cpp against the sessions: an id leads to a session exactly while
-- that session is open.
use mathlib.Core.Path.{subst}
use j1_server.Prelude.{
  ℕ, ◌+◌, ◌%◌, ◌^◌, ◌≤◌, ◌<◌, ◌≡◌, refl, sym, inl, inr, none, some, Option, List, [], ◌∷◌, arith,
}
use j1_server.Prelude.Dict.{lookup, insert}
use j1_server.Session.{
  Fault, Session, Effect, new_session, Run, done, fault, ErrorCode, success, failure, Handled,
  start, async_header_read,
}
use j1_server.SessionManager.{SessionManager, register, unregister_session}
use j1_server.GameServer.Effects.{
  Keeps, KeepsAll, handle-KeepsAll, apply_effects-none, apply_effects-one, apply_effects-Keeps,
}
use j1_server.GameServer.Agreement.{IsRegistry, kept-IsRegistry, gone-IsRegistry, added-IsRegistry}
use j1_server.GameServer.{
  GameServer, start_accept, accept, on_accept, apply_effects, after_handler, SessionEvent, handle,
  Event, accepted, at_session, step,
}

pub record IsValid (g : GameServer) : Type 0 where
  -- Exactly one accept is outstanding, for an object that is newer than every session.
  pub waiting : ℕ
  pub one_accept : g.accepting ≡ waiting ∷ []
  pub newest : g.next_handle ≡ waiting + 1
  pub registry : IsRegistry waiting g.manager.next_id g.sessions g.manager.sessions

after_handler-IsValid :
    (g : GameServer) (h : ℕ) (s s' : Session) (effects : List Effect)
    → IsValid g
    → lookup h g.sessions ≡ some s
    → Keeps s (s', effects)
    → IsValid
        (record g { sessions = insert h s' g.sessions; manager = apply_effects effects g.manager })
unfolding unregister_session
after_handler-IsValid g h s s' effects v here (same, kept) = record {
  waiting = v.waiting;
  one_accept = v.one_accept;
  newest = v.newest;
  registry = elim kept [
    | inl (still, none_left) ↦
        subst at_manager (sym (apply_effects-none effects g.manager none_left)) (
          kept-IsRegistry v.waiting g.manager.next_id h g.sessions g.manager.sessions s s'
            v.registry here same still)
    | inr (was_open, is_closed, this_one) ↦
        subst at_manager (sym (apply_effects-one effects g.manager s.session_id this_one)) (
          gone-IsRegistry v.waiting g.manager.next_id h g.sessions g.manager.sessions s s'
            v.registry here same was_open is_closed)
  ];
}
  where
    at_manager : SessionManager → Type 0
    at_manager m = IsRegistry v.waiting m.next_id (insert h s' g.sessions) m.sessions

on_accept-waiting :
    (ec : ErrorCode) (w : ℕ) (g : GameServer)
    → g.accepting ≡ w ∷ []
    → on_accept ec g ≡ elim ec [
      | success ↦ start_accept (accept w (record g { accepting = [] }))
      | failure ↦ start_accept (record g { accepting = [] })
    ]
unfolding on_accept
on_accept-waiting success w g e = ground (arith, e)
on_accept-waiting failure w g e = ground (arith, e)

accept-IsValid :
    (g : GameServer) → IsValid g → g.manager.next_id + 1 < 2 ^ 64 → IsValid (on_accept success g)
unfolding accept start_accept start async_header_read register new_session
accept-IsValid g v room =
    subst IsValid (sym (on_accept-waiting success v.waiting g v.one_accept)) record {
      waiting = g.next_handle;
      one_accept = refl;
      newest = refl;
      registry =
          subst
            (λ n.
              IsRegistry g.next_handle n (insert v.waiting entered g.sessions)
                (insert g.manager.next_id v.waiting g.manager.sessions))
            next_up
            (subst
              (λ w.
                IsRegistry w (g.manager.next_id + 1) (insert v.waiting entered g.sessions)
                  (insert g.manager.next_id v.waiting g.manager.sessions))
              (sym v.newest)
              (added-IsRegistry v.waiting g.manager.next_id g.sessions g.manager.sessions entered
                v.registry refl refl));
    }
  where
    entered : Session
    entered = (start (register v.waiting new_session g.manager).1).0

    next_up : g.manager.next_id + 1 ≡ (g.manager.next_id + 1) % 2 ^ 64
    next_up = omega arith

refuse-IsValid : (g : GameServer) → IsValid g → IsValid (on_accept failure g)
unfolding start_accept
refuse-IsValid g v =
    subst IsValid (sym (on_accept-waiting failure v.waiting g v.one_accept)) record {
      waiting = g.next_handle;
      one_accept = refl;
      newest = refl;
      registry = record {
        known = λ j t e. ground (arith, v.registry.known j t e, v.newest);
        found = v.registry.found;
        listed = v.registry.listed;
      };
    }

on_accept-next_id :
    (ec : ErrorCode) (g : GameServer)
    → g.manager.next_id + 1 < 2 ^ 64
    → (on_accept ec g).manager.next_id ≤ g.manager.next_id + 1
unfolding on_accept accept start_accept register
on_accept-next_id success g room = ground arith
on_accept-next_id failure g room = ground arith

-- The handler of an open session object that ends the server at an event.
abbrev pub FaultsAt : Event → GameServer → Fault → Type 0
FaultsAt (accepted ec) g f = ⊥
FaultsAt (at_session h e) g f =
    (s : Session) × (lookup h g.sessions ≡ some s) × (handle e s ≡ fault f)

abbrev pub Ensures : Event → GameServer → Run GameServer → Type 0
Ensures e g (fault f) = FaultsAt e g f
Ensures e g (done g') = IsValid g' × (g'.manager.next_id ≤ g.manager.next_id + 1)

after_handler-Ensures :
    (g : GameServer) (h : ℕ) (e : SessionEvent) (s : Session) (r : Run Handled)
    → IsValid g
    → lookup h g.sessions ≡ some s
    → handle e s ≡ r
    → KeepsAll s r
    → Ensures (at_session h e) g (after_handler h r g)
unfolding after_handler
after_handler-Ensures g h e s (fault f) v here ran kept = (s, here, ran)
after_handler-Ensures g h e s (done (s', effects)) v here ran kept = (
  after_handler-IsValid g h s s' effects v here kept,
  ground (arith, apply_effects-Keeps s s' effects g.manager kept),
)

pub step-Ensures :
    (e : Event) (g : GameServer)
    → IsValid g
    → g.manager.next_id + 1 < 2 ^ 64
    → Ensures e g (step e g)
unfolding step
step-Ensures (accepted success) g v room =
    (accept-IsValid g v room, on_accept-next_id success g room)
step-Ensures (accepted failure) g v room = (refuse-IsValid g v, on_accept-next_id failure g room)
step-Ensures (at_session h e) g v room = found (lookup h g.sessions) refl
  where
    found :
        (o : Option Session)
        → lookup h g.sessions ≡ o
        → Ensures
            (at_session h e)
            g
            (elim o [ none ↦ done g | some s ↦ after_handler h (handle e s) g ])
    found none absent = (v, omega arith)
    found (some s) here =
        after_handler-Ensures g h e s (handle e s) v here refl (handle-KeepsAll e s)
