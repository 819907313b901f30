-- ===== src/AuctionService/Returns.antt =====
-- What it takes for a sequence of calls in AuctionServer/AuctionService.cpp to return: no call of it
-- has thrown.
use j1_server.Prelude.{◌≡◌, refl, sym, ap, ◌∙◌, Bool, true, false, List, [], ◌∷◌}
use j1_server.Prelude.Int.{ℤ}
use j1_server.Sql.{Row, Result, ok, throws, Connection}
use j1_server.AuctionService.{Action, ◌>>=◌, ◌>>◌, resume, throw_if, first_row}

module _ (c : Connection) where
  open c use {State, execute_update}

  -- What a sequence that returned has done: its first action has returned a value, and the rest has
  -- returned from there.
  pub >>=-ok :
      {A B : Type 0} (m : Action c A) (f : A → Action c B) (s : State × ℤ) (b : B)
      → (◌>>=◌ c m f s).0 ≡ ok b
      → (a : A) × ((m s).0 ≡ ok a)
        × ((f a (m s).1).0 ≡ ok b)
        × ((◌>>=◌ c m f s).1 ≡ (f a (m s).1).1)
  unfolding ◌>>=◌
  >>=-ok m f s b e = go (m s).0 (m s).1 e
    where
      go :
          (r : Result _) (s' : State × ℤ)
          → (resume c f r s').0 ≡ ok b
          → (a : _) × (r ≡ ok a) × ((f a s').0 ≡ ok b) × ((resume c f r s').1 ≡ (f a s').1)
      go (ok a) s' h = (a, refl, h, refl)
      go (throws code) s' h = cc h

  pub >>-ok :
      {B : Type 0} (m : Action c (Unit {0})) (k : Action c B) (s : State × ℤ) (b : B)
      → (◌>>◌ c m k s).0 ≡ ok b
      → ((m s).0 ≡ ok tt) × ((k (m s).1).0 ≡ ok b) × ((◌>>◌ c m k s).1 ≡ (k (m s).1).1)
  unfolding ◌>>◌
  >>-ok m k s b e = let (_, first, rest, same) = >>=-ok m (λ _. k) s b e in (first, rest, same)

  pub throw_if-ok :
      (b : Bool) (s : State × ℤ)
      → (throw_if c b s).0 ≡ ok tt
      → (b ≡ false) × ((throw_if c b s).1 ≡ s)
  unfolding throw_if
  throw_if-ok true s e = cc e
  throw_if-ok false s e = (refl, refl)

  first_row-ok :
      (rows : List Row) (s : State × ℤ) (row : Row)
      → (first_row c rows s).0 ≡ ok row
      → (rest : List Row) × (rows ≡ row ∷ rest) × ((first_row c rows s).1 ≡ s)
  unfolding first_row
  first_row-ok [] s row e = cc e
  first_row-ok (r ∷ rows) s row e = (rows, cc e, refl)

  -- A test that did not throw, and a first row that was there, in front of the rest.
  pub guard-ok :
      {B : Type 0} (test : Bool) (k : Action c B) (s : State × ℤ) (b : B)
      → (◌>>◌ c (throw_if c test) k s).0 ≡ ok b
      → (test ≡ false) × ((k s).0 ≡ ok b) × ((◌>>◌ c (throw_if c test) k s).1 ≡ (k s).1)
  guard-ok test k s b e =
      let (e1, r1, s1) = >>-ok (throw_if c test) k s b e in
      let (passed, kept) = throw_if-ok test s e1 in
      (passed, ap (λ x. (k x).0) (sym kept) ∙ r1, s1 ∙ ap (λ x. (k x).1) kept)

  pub row-ok :
      {B : Type 0} (rows : List Row) (f : Row → Action c B) (s : State × ℤ) (b : B)
      → (◌>>=◌ c (first_row c rows) f s).0 ≡ ok b
      → (row : Row) × (rest : List Row) × (rows ≡ row ∷ rest)
        × ((f row s).0 ≡ ok b)
        × ((◌>>=◌ c (first_row c rows) f s).1 ≡ (f row s).1)
  row-ok rows f s b e =
      let (row, e1, r1, s1) = >>=-ok (first_row c rows) f s b e in
      let (rest, listed, kept) = first_row-ok rows s row e1 in
      (row, rest, listed, ap (λ x. (f row x).0) (sym kept) ∙ r1, s1 ∙ ap (λ x. (f row x).1) kept)
