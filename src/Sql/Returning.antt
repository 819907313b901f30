-- ===== src/Sql/Returning.antt =====
-- What has happened where a chain of calls on a borrowed connection returned: every call in it did.
use j1_server.Prelude.{ℕ, true, ◌≡◌, refl, sym, ap, ◌∙◌, Option, none, some}
use j1_server.Sql.{Result, ok, throws, is_ok, Connection}
use j1_server.Sql.Borrow.{
  Outcome, returned, threw, running, Action, ◌>>=◌, return, outcome, resume, statement, Db,
  give_back, borrowed, with_connection,
}
use j1_server.WorkerPool.{Pool}

module _ {S A : Type 0} where
  pub >>=-returned :
      {B : Type 0} (m : Action S A) (f : A → Action S B) (s s'' : S) (b : B)
      → (m >>= f) s ≡ (returned b, s'')
      → (a : A) × (t : S) × (m s ≡ (returned a, t)) × (f a t ≡ (returned b, s''))
  unfolding ◌>>=◌
  >>=-returned {B} m f s s'' b e = split (m s).0 (m s).1 refl e
    where
      split :
          (r : Outcome A) (t : S)
          → m s ≡ (r, t)
          → resume f (r, t) ≡ (returned b, s'')
          → (a : A) × (t : S) × (m s ≡ (returned a, t)) × (f a t ≡ (returned b, s''))
      split (returned a) t ran h = (a, t, ran, h)
      split (threw code) t ran h = cc h
      split running t ran h = cc h

  pub statement-returned :
      (f : S → Result A × S) (s t : S) (a : A)
      → statement f s ≡ (returned a, t)
      → ((f s).0 ≡ ok a) × ((f s).1 ≡ t)
  unfolding statement
  statement-returned f s t a e = split (f s).0 (f s).1 refl refl e
    where
      split :
          (r : Result A) (u : S)
          → (f s).0 ≡ r
          → (f s).1 ≡ u
          → outcome (r, u) ≡ (returned a, t)
          → ((f s).0 ≡ ok a) × ((f s).1 ≡ t)
      split (ok x) u answered left h =
          let same : x ≡ a = cc (ap (λ y. y.0) h) in (answered ∙ ap ok same, left ∙ ap (λ y. y.1) h)
      split (throws code) u answered left h = cc (ap (λ y. y.0) h)

  pub return-returned : (a b : A) (s t : S) → return a s ≡ (returned b, t) → (a ≡ b) × (s ≡ t)
  unfolding return
  return-returned a b s t e = ((let same : a ≡ b = cc (ap (λ y. y.0) e) in same), ap (λ y. y.1) e)

  -- The other way: a call that returns goes on with what follows.
  pub >>=-ok :
      {B : Type 0} (m : Action S A) (f : A → Action S B) (s t : S) (a : A)
      → m s ≡ (returned a, t)
      → (m >>= f) s ≡ f a t
  unfolding ◌>>=◌
  >>=-ok m f s t a e = ap (resume f) e

  pub statement-ok :
      (f : S → Result A × S) (s : S)
      → is_ok (f s).0 ≡ true
      → (a : A) × ((f s).0 ≡ ok a) × (statement f s ≡ (returned a, (f s).1))
  unfolding statement
  statement-ok f s h = split (f s).0 (f s).1 refl h
    where
      split :
          (r : Result A) (t : S)
          → (f s).0 ≡ r
          → is_ok r ≡ true
          → (a : A) × (r ≡ ok a) × (outcome (r, t) ≡ (returned a, t))
      split (ok a) t answered h = (a, refl, refl)
      split (throws code) t answered h = cc h

-- A call that returned has given its connection back to the pool.
abbrev pub Returned :
    (pool : Pool) (c : Connection) {A : Type 0}
    → Action c.State A
    → Db pool c
    → A
    → Db pool c
    → Type 0
Returned pool c body (p, s) a (p', s') =
    (conn : ℕ) × (q : pool.State) × (pool.borrow p ≡ some (conn, q))
    × (p' ≡ pool.unborrow conn q)
    × (body s ≡ (returned a, s'))

pub with_connection-Returned :
    (pool : Pool) (c : Connection) {A : Type 0} (body : Action c.State A) (db db' : Db pool c)
    (a : A)
    → with_connection pool c body db ≡ (returned a, db')
    → Returned pool c body db a db'
unfolding with_connection
with_connection-Returned pool c {A} body (p, s) (p', s') a e = lent (pool.borrow p) refl e
  where
    gave :
        (r : Outcome A) (t : c.State) (conn : ℕ) (q : pool.State)
        → pool.borrow p ≡ some (conn, q)
        → body s ≡ (r, t)
        → r ≡ returned a
        → give_back pool c r conn q ≡ p'
        → t ≡ s'
        → Returned pool c body (p, s) a (p', s')
    gave (returned b) t conn q got ran same back end =
        (conn, q, got, sym back, ran ∙ (λ i. (same i, end i)))
    gave (threw code) t conn q got ran same back end = cc same
    gave running t conn q got ran same back end = cc same

    lent :
        (o : Option (ℕ × pool.State))
        → pool.borrow p ≡ o
        → borrowed pool c body o (p, s) ≡ (returned a, (p', s'))
        → Returned pool c body (p, s) a (p', s')
    lent none got h = cc h
    lent (some (conn, q)) got h =
        gave (body s).0 (body s).1 conn q got refl (ap (λ x. x.0) h) (ap (λ x. x.1.0) h)
          (ap (λ x. x.1.1) h)

pub with_connection-ok :
    (pool : Pool) (c : Connection) {A : Type 0} (body : Action c.State A) (p q : pool.State)
    (s s' : c.State) (a : A) (conn : ℕ)
    → pool.borrow p ≡ some (conn, q)
    → body s ≡ (returned a, s')
    → with_connection pool c body (p, s) ≡ (returned a, (pool.unborrow conn q, s'))
unfolding with_connection
with_connection-ok pool c body p q s s' a conn lent ran =
    ap (λ o. borrowed pool c body o (p, s)) lent
    ∙ ap (λ x. (x.0, (give_back pool c x.0 conn q, x.1))) ran
