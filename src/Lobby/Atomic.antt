-- ===== src/Lobby/Atomic.antt =====
-- The two transactions of GameServer/Network/Handlers/LobbyPacketHandler.cpp: what other connections see
-- changes by the whole of one or not at all.
use j1_server.Prelude.{
  ◌≡◌, refl, ◌⊎◌, inl, inr, sym, ap, ◌∙◌, Bool, true, false, Option, none, some,
}
use j1_server.Prelude.Int.{ℤ}
use j1_server.Sql.{Update, Result, ok, throws, is_ok, Connection}
use j1_server.Sql.Transactions.{Views, IsTransactional}
use j1_server.Lobby.{
  LobbyCharacterInfo, Action, resume, ◌>>=◌, return, insert_character, delete_character, decide,
  attempt, recover, transact, answer,
}

module _ (c : Connection) (v : Views c) (laws : IsTransactional c v) where
  open c use {State, set_auto_commit, commit, rollback, execute_update, execute_update_gen_keys}
  open v use {committed, working}
  open laws use {IsOpen}

  -- An action that stays inside the transaction, however it ends.
  pub record Keeps {A : Type 0} (m : Action c A) : Type 0 where
    stays : (s : State) → IsOpen s → IsOpen (m s).1 × (committed (m s).1 ≡ committed s)

  resume-stays :
      {A B : Type 0} (f : A → Action c B) (r : Result A) (s s' : State)
      → IsOpen s'
      → committed s' ≡ committed s
      → ((a : A) → Keeps (f a))
      → IsOpen (resume c f (r, s')).1 × (committed (resume c f (r, s')).1 ≡ committed s)
  resume-stays f (ok a) s s' o same k = let (o', e) = (k a).stays s' o in (o', e ∙ same)
  resume-stays f (throws e) s s' o same k = (o, same)

  >>=-Keeps :
      {A B : Type 0} (m : Action c A) (f : A → Action c B)
      → Keeps m
      → ((a : A) → Keeps (f a))
      → Keeps (◌>>=◌ c m f)
  unfolding ◌>>=◌
  >>=-Keeps m f h k = record {
    stays = λ s o. let (o', same) = h.stays s o in resume-stays f (m s).0 s (m s).1 o' same k;
  }

  return-Keeps : {A : Type 0} (a : A) → Keeps (return c a)
  unfolding return
  return-Keeps a = record { stays = λ s o. (o, refl) }

  update-Keeps : (u : Update) → Keeps (execute_update u)
  update-Keeps u = record { stays = λ s o. laws.update_law u s o }

  gen_keys-Keeps : (u : Update) → Keeps (execute_update_gen_keys u)
  gen_keys-Keeps u = record { stays = λ s o. laws.gen_keys_law u s o }

  ruleset keeps = (>>=-Keeps, return-Keeps, update-Keeps, gen_keys-Keeps)

  pub insert_character-Keeps :
      (account_id : ℤ) (temp : LobbyCharacterInfo) → Keeps (insert_character c account_id temp)
  unfolding insert_character
  insert_character-Keeps account_id temp = search keeps depth 8

  pub delete_character-Keeps :
      (account_id character_id : ℤ) → Keeps (delete_character c account_id character_id)
  unfolding delete_character
  delete_character-Keeps account_id character_id = search keeps depth 8

  -- The statements of a transaction that begins in `s`, up to the decision.
  abbrev pub prepared : Action c Bool → State → Result Bool × State
  prepared work s = work (set_auto_commit false s).1

  abbrev Published : Action c Bool → State → State → Type 0
  Published work s s' =
      ((prepared work s).0 ≡ ok true) × (committed s' ≡ working (prepared work s).1)

  -- What a step has left, by its result, with `E` for what it has left where it threw.
  abbrev Left : (State → Type 0) → Action c Bool → State → Result Bool × State → Type 0
  Left E work s (ok true, s') = Published work s s' × (working s' ≡ committed s')
  Left E work s (ok false, s') = (committed s' ≡ committed s) × (working s' ≡ committed s')
  Left E work s (throws code, s') = E s'

  abbrev Unchanged : State → State → Type 0
  Unchanged s s' = committed s' ≡ committed s

  abbrev Anything : State → Type 0
  Anything s' = Unit

  -- A rollback that returns, after nothing was published.
  rolled_back :
      (E : State → Type 0) (work : Action c Bool) (s s2 : State)
      → committed s2 ≡ committed s
      → (committed (rollback s2).1 ≡ committed s → E (rollback s2).1)
      → Left E work s (◌>>=◌ c rollback (λ _. return c false) s2)
  unfolding ◌>>=◌ return
  rolled_back E work s s2 same thrown = go (rollback s2).0 refl
    where
      go :
          (r : Result (Unit {0}))
          → (rollback s2).0 ≡ r
          → Left E work s (resume c (λ _. return c false) (r, (rollback s2).1))
      go (ok _) returned =
          let (kept, dropped) = laws.rollback_law s2 in
          (kept ∙ same, dropped (ap is_ok returned) ∙ sym kept)
      go (throws code) failed = thrown ((laws.rollback_law s2).0 ∙ same)

  committed_whole :
      (work : Action c Bool) (s s2 : State)
      → prepared work s ≡ (ok true, s2)
      → committed s2 ≡ committed s
      → Left (Unchanged s) work s (◌>>=◌ c commit (λ _. return c true) s2)
  unfolding ◌>>=◌ return
  committed_whole work s s2 e same = go (commit s2).0 refl
    where
      go :
          (r : Result (Unit {0}))
          → (commit s2).0 ≡ r
          → Left (Unchanged s) work s (resume c (λ _. return c true) (r, (commit s2).1))
      go (ok _) returned =
          let (shown, kept) = (laws.commit_law s2).0 (ap is_ok returned) in
          rw e ((refl, shown), kept ∙ sym shown)
      go (throws code) failed = (laws.commit_law s2).1 (ap is_ok failed) ∙ same

  decide-Left :
      (work : Action c Bool) (s : State) (r : Result Bool) (s2 : State)
      → prepared work s ≡ (r, s2)
      → committed s2 ≡ committed s
      → Left (Unchanged s) work s (resume c (decide c) (r, s2))
  unfolding decide
  decide-Left work s (ok true) s2 e same = committed_whole work s s2 e same
  decide-Left work s (ok false) s2 e same = rolled_back (Unchanged s) work s s2 same (λ h. h)
  decide-Left work s (throws code) s2 e same = same

  attempt-Left :
      (work : Action c Bool) (s : State) → Keeps work → Left (Unchanged s) work s (attempt c work s)
  unfolding attempt ◌>>=◌
  attempt-Left work s keep = go (set_auto_commit false s).0 refl
    where
      go :
          (r : Result (Unit {0}))
          → (set_auto_commit false s).0 ≡ r
          → Left
              (Unchanged s)
              work
              s
              (resume c (λ _. ◌>>=◌ c work (decide c)) (r, (set_auto_commit false s).1))
      go (ok _) began =
          let (_, same) = keep.stays (set_auto_commit false s).1 (laws.begin_open s began) in
          decide-Left work s (prepared work s).0 (prepared work s).1 refl
            (same ∙ (laws.begin_law s).0)
      go (throws code) failed = (laws.begin_law s).0

  recover-Left :
      (work : Action c Bool) (s : State) (r : Result Bool) (s' : State)
      → Left (Unchanged s) work s (r, s')
      → Left Anything work s (recover c (r, s'))
  unfolding recover
  recover-Left work s (ok true) s' h = h
  recover-Left work s (ok false) s' h = h
  recover-Left work s (throws code) s' h = rolled_back Anything work s s' h (λ _. tt)

  -- The whole of the transaction is published, or nothing of it.
  abbrev pub AllOrNothing : Action c Bool → State → Bool → State → Type 0
  AllOrNothing work s result s' =
      ((result ≡ true)
        × ((prepared work s).0 ≡ ok true)
        × (committed s' ≡ working (prepared work s).1))
      ⊎ ((result ≡ false) × (committed s' ≡ committed s))

  abbrev pub Answered : Action c Bool → State → Result (Option Bool) × State → Type 0
  Answered work s (ok (some result), s') = AllOrNothing work s result s'
  Answered work s (ok none, s') = Unit
  Answered work s (throws code, s') = Unit

  restored :
      (work : Action c Bool) (s : State) (r : Result Bool) (s1 : State)
      → Left Anything work s (r, s1)
      → Answered work s
          (answer c (resume c (λ b. ◌>>=◌ c (set_auto_commit true) (λ _. return c b)) (r, s1)))
  unfolding ◌>>=◌ return answer
  restored work s (throws code) s1 h = tt
  restored work s (ok true) s1 h = go (set_auto_commit true s1).0
    where
      go :
          (r : Result (Unit {0}))
          → Answered work s
              (answer c (resume c (λ _. return c true) (r, (set_auto_commit true s1).1)))
      go (ok _) = inl (refl, h.0.0, (laws.auto_law s1 h.1).0 ∙ h.0.1)
      go (throws code) = tt
  restored work s (ok false) s1 h = go (set_auto_commit true s1).0
    where
      go :
          (r : Result (Unit {0}))
          → Answered work s
              (answer c (resume c (λ _. return c false) (r, (set_auto_commit true s1).1)))
      go (ok _) = inr (refl, (laws.auto_law s1 h.1).0 ∙ h.0)
      go (throws code) = tt

  pub transact-Answered :
      (work : Action c Bool) (s : State)
      → Keeps work
      → Answered work s (answer c (transact c work s))
  unfolding transact ◌>>=◌
  transact-Answered work s keep =
      let out = attempt c work s in
      let after = recover c out in
      restored work s after.0 after.1 (recover-Left work s out.0 out.1 (attempt-Left work s keep))
