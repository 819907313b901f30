-- ===== src/SessionManager/Tests.antt =====
-- GameServer/Utils/GameSessionManager.cpp with three sessions.
use j1_server.Prelude.{
  ℕ, ◌+◌, ◌≡◌, true, false, Bool, none, some, [], ◌∷◌, arith, ◌==◌, if◌then◌else◌,
}
use j1_server.Session.{new_session}
use j1_server.SessionManager.{
  SessionManager, new_manager, register, find, unregister_session, count,
}
use j1_server.SessionManager.Ids.{
  IsValid, registers, unregisters, run, unregister_session-register, find-run_zero,
}

-- All sessions live but that of handle 11.
abbrev alive : ℕ → Bool
alive h = elim (h == 11) [ true ↦ false | false ↦ true ]

abbrev two_sessions : SessionManager
two_sessions = record { sessions = (2, 11) ∷ (1, 10) ∷ []; next_id = 3 }

two_sessions-IsValid : IsValid two_sessions
two_sessions-IsValid = record {
  issued = (omega arith, omega arith, (omega arith, omega arith, tt));
  positive = omega arith;
}

registered_and_gone :
    let (m', s', id) = register 12 new_session two_sessions in
    let m'' = unregister_session 1 m' in
    IsValid m''
    × (find alive id two_sessions ≡ none)
    × (s'.session_id ≡ id)
    × (find alive 3 m'
        ≡ (if id == 3 then (if alive 12 then some 12 else none) else find alive 3 two_sessions))
    × (count m' ≡ count two_sessions + 1)
    × (find alive 3 m'' ≡ (if 1 == 3 then none else find alive 3 m'))
registered_and_gone =
    unregister_session-register alive 12 1 3 new_session two_sessions two_sessions-IsValid
      (omega arith)

find-run_zero_example :
    find alive 0 (run new_session new_manager (registers 10 ∷ registers 12 ∷ unregisters 1 ∷ []))
    ≡ none
find-run_zero_example =
    find-run_zero alive new_session (registers 10 ∷ registers 12 ∷ unregisters 1 ∷ []) (omega arith)
