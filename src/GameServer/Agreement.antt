-- ===== src/GameServer/Agreement.antt =====
-- The sessions of GameServer/GameServer.cpp against the entries of GameServer/Utils/GameSessionManager.cpp:
-- what an entry that is set, left or taken out does to their agreement.
use j1_server.Prelude.{ℕ, ◌+◌, ◌<◌, ◌≡◌, inl, inr, true, false, Bool-cases, some, arith, ◌==◌}
use j1_server.Prelude.Dict.{Dict, lookup, insert, erase, lookup-insert, lookup-erase}
use j1_server.Session.{Session}

-- The sessions, older than the object `w`, against a registry that has issued the ids below `next`.
pub record IsRegistry (w next : ℕ) (d : Dict Session) (r : Dict ℕ) : Type 0 where
  pub known : (h : ℕ) (s : Session) → lookup h d ≡ some s → (h < w) × (s.session_id < next)
  pub found :
      (id h : ℕ)
      → lookup id r ≡ some h
      → (s : Session) × (lookup h d ≡ some s) × (s.session_id ≡ id) × (s.closed ≡ false)
  pub listed :
      (h : ℕ) (s : Session)
      → lookup h d ≡ some s
      → s.closed ≡ false
      → lookup s.session_id r ≡ some h

-- The session `h` stays open, or closed, under the same id.
pub kept-IsRegistry :
    (w next h : ℕ) (d : Dict Session) (r : Dict ℕ) (s s' : Session)
    → IsRegistry w next d r
    → lookup h d ≡ some s
    → s'.session_id ≡ s.session_id
    → s'.closed ≡ s.closed
    → IsRegistry w next (insert h s' d) r
kept-IsRegistry w next h d r s s' v here same open_still = record {
  known = λ j t e. ground (arith, v.known j t, v.known h s here, lookup-insert h j s' d);
  found = λ id j e.
      let (t, at, named, is_open) = v.found id j e in
      elim (Bool-cases (h == j)) [
        | inl eq ↦ (s', ground (arith, lookup-insert h j s' d), ground arith, ground arith)
        | inr ne ↦ (t, ground (arith, lookup-insert h j s' d), named, is_open)
      ];
  listed = λ j t e is_open. ground (arith, v.listed j t, v.listed h s here, lookup-insert h j s' d);
}

-- The session `h` closes, and its id is taken away.
pub gone-IsRegistry :
    (w next h : ℕ) (d : Dict Session) (r : Dict ℕ) (s s' : Session)
    → IsRegistry w next d r
    → lookup h d ≡ some s
    → s'.session_id ≡ s.session_id
    → s.closed ≡ false
    → s'.closed ≡ true
    → IsRegistry w next (insert h s' d) (erase s.session_id r)
gone-IsRegistry w next h d r s s' v here same was_open is_closed = record {
  known = λ j t e. ground (arith, v.known j t, v.known h s here, lookup-insert h j s' d);
  found = λ id j e.
      let still : lookup id r ≡ some j = ground (arith, lookup-erase s.session_id id r) in
      let (t, at, is_named, is_open) = v.found id j still in
      (
        t,
        ground (arith, lookup-erase s.session_id id r, lookup-insert h j s' d),
        is_named,
        is_open,
      );
  listed = λ j t e is_open. ground (
    arith,
    v.listed j t,
    v.listed h s here was_open,
    lookup-insert h j s' d,
    lookup-erase s.session_id t.session_id r,
  );
}

-- A new session takes the next id.
pub added-IsRegistry :
    (w next : ℕ) (d : Dict Session) (r : Dict ℕ) (s : Session)
    → IsRegistry w next d r
    → s.session_id ≡ next
    → s.closed ≡ false
    → IsRegistry (w + 1) (next + 1) (insert w s d) (insert next w r)
added-IsRegistry w next d r s v named fresh = record {
  known = λ j t e. ground (arith, v.known j t, lookup-insert w j s d);
  found = λ id j e. elim (Bool-cases (next == id)) [
    | inl eq ↦
        (s, ground (arith, lookup-insert next id w r, lookup-insert w j s d), ground arith, fresh)
    | inr ne ↦
        let still : lookup id r ≡ some j = ground (arith, lookup-insert next id w r) in
        let (t, at, is_named, is_open) = v.found id j still in
        (t, ground (arith, v.known j t at, lookup-insert w j s d), is_named, is_open)
  ];
  listed = λ j t e is_open. ground (
    arith,
    v.listed j t,
    v.known j t,
    lookup-insert w j s d,
    lookup-insert next t.session_id w r,
  );
}
