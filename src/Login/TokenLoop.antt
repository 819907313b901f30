-- ===== src/Login/TokenLoop.antt =====
-- The loop of `TrySignIn` in LoginServer/SignManager.cpp that stores a token, which every exception makes
-- go round once more.
use mathlib.Core.Path.{subst}
use j1_server.Prelude.{
  ℕ, zero, suc, ◌+◌, ◌*◌, ◌<◌, ◌≡◌, refl, ap, ◌∙◌, ◌⊎◌, inl, inr, true, false, arith,
}
use j1_server.Prelude.Int.{ℤ}
use j1_server.Sql.{insert_session, Result, ok, throws, is_ok, Connection}
use j1_server.Sql.Borrow.{returned, running, outcome, statement}
use j1_server.Login.Tokens.{generate_token}
use j1_server.Login.{inserted, sign_token}

module _ (c : Connection) where
  open c use {State, execute_update}

  module _ (rd : ℕ → ℕ) (account : ℤ) where
    -- The insert of the k-th round.
    abbrev pub insert_token : ℕ → State → Result ℕ × State
    insert_token k s = execute_update (insert_session account (generate_token rd (8 * k))) s

    -- The state before the round k + n, where the rounds from k on have thrown.
    abbrev pub after_failures : ℕ → ℕ → State → State
    after_failures zero k s = s
    after_failures (suc n) k s = after_failures n (k + 1) (insert_token k s).1

    -- The n rounds from the k-th on throw.
    abbrev pub AllThrow : ℕ → ℕ → State → Type 0
    AllThrow zero k s = Unit
    AllThrow (suc n) k s =
        (is_ok (insert_token k s).0 ≡ false) × AllThrow n (k + 1) (insert_token k s).1

    -- The loop ends with the token m, whose insert returns on the state t.
    abbrev pub Ends : ℕ → ℕ → State → ℕ → State → Type 0
    Ends fuel k s m t =
        (is_ok (insert_token m t).0 ≡ true)
        × (sign_token c fuel rd k account s
            ≡ (returned (account, generate_token rd (8 * m)), (insert_token m t).1))

    -- The loop has run through its fuel, or stored the first token whose insert returned.
    abbrev pub TokenLoop : ℕ → ℕ → State → Type 0
    TokenLoop fuel k s =
        (((sign_token c fuel rd k account s).0 ≡ running) × AllThrow fuel k s)
        ⊎ ((n : ℕ) × (n < fuel) × AllThrow n k s × Ends fuel k s (k + n) (after_failures n k s))

    round :
        (fuel k : ℕ) (s : State) (o : Result ℕ)
        → (insert_token k s).0 ≡ o
        → sign_token c (suc fuel) rd k account s
          ≡ inserted c
              (sign_token c fuel rd (k + 1) account)
              (account, generate_token rd (8 * k))
              (outcome (o, (insert_token k s).1))
    unfolding sign_token statement
    round fuel k s o answered =
        ap
          (λ x.
            inserted c (sign_token c fuel rd (k + 1) account) (account, generate_token rd (8 * k))
              (outcome (x, (insert_token k s).1)))
          answered

    round_again :
        (fuel k : ℕ) (s : State) (code : ℕ)
        → (insert_token k s).0 ≡ throws code
        → sign_token c (suc fuel) rd k account s
          ≡ sign_token c fuel rd (k + 1) account (insert_token k s).1
    unfolding inserted
    round_again fuel k s code answered = round fuel k s (throws code) answered

    stored_now :
        (fuel k : ℕ) (s : State) (n : ℕ)
        → (insert_token k s).0 ≡ ok n
        → sign_token c (suc fuel) rd k account s
          ≡ (returned (account, generate_token rd (8 * k)), (insert_token k s).1)
    unfolding inserted
    stored_now fuel k s n answered = round fuel k s (ok n) answered

    -- However many rounds are allowed: either the inserts of all of them throw and the loop is still
    -- running, or it ends with the token of the first insert that returns, which is stored. So it ends
    -- where an insert returns, and never where all of them throw.
    pub sign_token-TokenLoop : (fuel k : ℕ) (s : State) → TokenLoop fuel k s
    unfolding sign_token
    sign_token-TokenLoop zero k s = inl (refl, tt)
    sign_token-TokenLoop (suc fuel) k s =
        step (sign_token-TokenLoop fuel (k + 1) (insert_token k s).1) (insert_token k s).0 refl
      where
        failed :
            (code : ℕ) → (insert_token k s).0 ≡ throws code → is_ok (insert_token k s).0 ≡ false
        failed code answered = ap is_ok answered

        step :
            TokenLoop fuel (k + 1) (insert_token k s).1
            → (o : Result ℕ) → (insert_token k s).0 ≡ o
            → TokenLoop (suc fuel) k s
        step later (ok n) answered = inr (
          0,
          omega arith,
          tt,
          subst (λ m. Ends (suc fuel) k s m s) (let e : k ≡ k + 0 = omega arith in e)
              (ap is_ok answered, stored_now fuel k s n answered),
        )
        step (inl (going, all)) (throws code) answered = inl (
          ap (λ x. x.0) (round_again fuel k s code answered) ∙ going,
          (failed code answered, all),
        )
        step (inr (n, small, all, (good, ends))) (throws code) answered = inr (
          suc n,
          omega arith,
          (failed code answered, all),
          subst (λ m. Ends (suc fuel) k s m (after_failures n (k + 1) (insert_token k s).1))
              (let e : (k + 1) + n ≡ k + suc n = omega arith in e)
              (good, round_again fuel k s code answered ∙ ends),
        )
