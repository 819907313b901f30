-- ===== src/AuctionServer/Accepts.antt =====
-- The loop of AuctionServer/AuctionServer.cpp that accepts connections. A session object is named by a handle,
-- which counts the objects that `StartAccept` makes. LoginServer/LoginServer.cpp and ChatServer/ChatServer.cpp
-- have the same loop.
use j1_server.Prelude.{
  ℕ, ◌+◌, ◌≡◌, ap, ◌∙◌, List, [], ◌∷◌, ◌++◌, append_assoc, append-nil, length, arith,
}
use j1_server.Session.{Session, new_session, ErrorCode, success, failure, start}

-- The sessions that are started, and the objects that wait in the accepts that are outstanding.
pub record Acceptor : Type 0 where
  pub sessions : List (ℕ × Session)
  pub accepting : List ℕ
  pub next_handle : ℕ

-- `StartAccept`
unfoldable pub start_accept : Acceptor → Acceptor
start_accept a = record a {
  accepting = a.accepting ++ a.next_handle ∷ [];
  next_handle = a.next_handle + 1;
}

-- `OnAccept`, for the oldest accept that is outstanding.
unfoldable pub on_accept : ErrorCode → Acceptor → Acceptor
unfolding start_accept start new_session
on_accept ec a = elim a.accepting [
  | [] ↦ a
  | h ∷ rest ↦
      let waiting : Acceptor = record a { accepting = rest } in
      elim ec [
        | success ↦
            start_accept
              (record waiting { sessions = a.sessions ++ (h, (start new_session).0) ∷ [] })
        | failure ↦ start_accept waiting
      ]
]

-- The loop from the first `StartAccept` on, for the results of the accepts.
unfoldable pub accept_all : List ErrorCode → Acceptor → Acceptor
unfolding on_accept
accept_all [] a = a
accept_all (ec ∷ ecs) a = accept_all ecs (on_accept ec a)

-- The sessions of the accepts that succeed, the first accept being the number `h`.
abbrev pub connected : ℕ → List ErrorCode → List (ℕ × Session)
connected h [] = []
connected h (success ∷ ecs) = (h, (start new_session).0) ∷ connected (h + 1) ecs
connected h (failure ∷ ecs) = connected (h + 1) ecs

abbrev pub at_accept : List (ℕ × Session) → ℕ → Acceptor
at_accept sessions h = record { sessions = sessions; accepting = h ∷ []; next_handle = h + 1 }

accept_all_from :
    (ecs : List ErrorCode) (sessions : List (ℕ × Session)) (h : ℕ)
    → accept_all ecs (at_accept sessions h)
      ≡ at_accept (sessions ++ connected h ecs) (h + length ecs)
unfolding accept_all start_accept
accept_all_from [] sessions h = ground (arith, append-nil sessions)
accept_all_from (success ∷ ecs) sessions h =
    accept_all_from ecs (sessions ++ (h, (start new_session).0) ∷ []) (h + 1)
    ∙ ap (λ ss. at_accept ss ((h + 1) + length ecs))
        (append_assoc sessions ((h, (start new_session).0) ∷ []) (connected (h + 1) ecs))
    ∙ ap (at_accept (sessions ++ connected h (success ∷ ecs))) (omega arith)
accept_all_from (failure ∷ ecs) sessions h =
    accept_all_from ecs sessions (h + 1)
    ∙ ap (at_accept (sessions ++ connected (h + 1) ecs)) (omega arith)

-- After any results of accepts there is one session for each that succeeded, started and in order, and exactly
-- one accept is outstanding, for an object that is newer than all of them.
pub accept_all-connected :
    (ecs : List ErrorCode)
    → accept_all ecs (start_accept (record { sessions = []; accepting = []; next_handle = 0 }))
      ≡ at_accept (connected 0 ecs) (length ecs)
unfolding start_accept
accept_all-connected ecs =
    accept_all_from ecs [] 0
    ∙ ap (at_accept (connected 0 ecs)) (let e : 0 + length ecs ≡ length ecs = omega arith in e)
