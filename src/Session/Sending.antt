-- ===== src/Session/Sending.antt =====
-- The send queue of ServerCore/Session.cpp against the writes that asio has outstanding: buffers
-- leave in the order in which they were sent, with one `async_write` at a time.
use mathlib.Core.Path.{subst}
use j1_server.Prelude.{
  ℕ, zero, suc, ◌<◌, ◌≡◌, refl, sym, ap, ◌∙◌, Bool, true, false, List, [], ◌∷◌, ◌++◌, append_assoc,
  append-nil, arith, length, leb,
}
use mathlib.Core.List.{tail}
use j1_server.Session.{
  Buffer, max_send_queue, Session, Effect, async_write, new_session, Run, done, fault, success,
  Handled, enqueue_send, on_write,
}

-- A session with the buffers of the writes that are outstanding, and those written in full.
pub record Link : Type 0 where
  pub session : Session
  pub in_flight : List Buffer
  pub wire : List Buffer

unfoldable pub fresh_link : Link
unfolding new_session
fresh_link = record { session = new_session; in_flight = []; wire = [] }

abbrev writes : List Effect → List Buffer
writes [] = []
writes (async_write b ∷ es) = b ∷ writes es
writes (e ∷ es) = writes es

-- The link after a handler: the writes that it started are outstanding.
abbrev pub after : Link → Run Handled → Run Link
after l (done (s, effects)) =
    done (record l { session = s; in_flight = l.in_flight ++ writes effects })
after l (fault f) = fault f

module _ (virtual_close : Session → Handled × Bool) where
  unfoldable pub link_send : Buffer → Link → Run Link
  link_send b l = after l (enqueue_send virtual_close b l.session)

  -- The oldest write completes, and its handler runs.
  unfoldable pub link_written : Link → Run Link
  link_written l = elim l.in_flight [
    | [] ↦ done l
    | b ∷ rest ↦
        after (record l { in_flight = rest; wire = l.wire ++ b ∷ [] })
          (on_write virtual_close success l.session)
  ]

  -- The links that sends and completed writes lead to, with the buffers sent so far. The send queue
  -- never holds `MaxSendQueue` buffers at a send, and no write fails.
  pub data Reach : List Buffer → Link → Type 0 where
    fresh : Reach [] fresh_link
    sends :
        {sent : List Buffer} {l l' : Link} (b : Buffer)
        → Reach sent l
        → length l.session.send_queue < max_send_queue
        → link_send b l ≡ done l'
        → Reach (sent ++ b ∷ []) l'
    written :
        {sent : List Buffer} {l l' : Link} → Reach sent l → link_written l ≡ done l' → Reach sent l'

-- One write is outstanding while the session writes: the front of the queue. None otherwise, and
-- then the queue is empty.
abbrev pub IsWriting : Bool → List Buffer → List Buffer → Type 0
IsWriting false queue in_flight = (queue ≡ []) × (in_flight ≡ [])
IsWriting true [] in_flight = ⊥
IsWriting true (b ∷ queue) in_flight = in_flight ≡ b ∷ []

pub record IsValid (sent : List Buffer) (l : Link) : Type 0 where
  pub one_write : IsWriting l.session.writing l.session.send_queue l.in_flight
  pub in_order : l.wire ++ l.session.send_queue ≡ sent

abbrev pub link : Session → List Buffer → Bool → List Buffer → List Buffer → Link
link s queue writing in_flight wire = record {
  session = record s { send_queue = queue; writing = writing };
  in_flight = in_flight;
  wire = wire;
}

module _ (virtual_close : Session → Handled × Bool) {sent : List Buffer} (s : Session)
    (wire : List Buffer) where
  pub send_cases :
      (b : Buffer) (writing : Bool) (queue in_flight : List Buffer)
      → IsWriting writing queue in_flight
      → wire ++ queue ≡ sent
      → length queue < max_send_queue
      → (l' : Link) × (link_send virtual_close b (link s queue writing in_flight wire) ≡ done l')
        × IsValid (sent ++ b ∷ []) l'
  unfolding link_send enqueue_send
  send_cases b false [] [] h e room = (
    link s (b ∷ []) true (b ∷ []) wire,
    refl,
    record { one_write = refl; in_order = ap (λ xs. xs ++ b ∷ []) (sym (append-nil wire) ∙ e) },
  )
  send_cases b false (c ∷ queue) in_flight h e room = cc h.0
  send_cases b false [] (c ∷ in_flight) h e room = cc h.1
  send_cases b true [] in_flight h e room = absurd h
  send_cases b true (c ∷ queue) in_flight h e room = (
    link s (c ∷ (queue ++ b ∷ [])) true (in_flight ++ []) wire,
    rw (let t : leb 4096 (suc (length queue)) ≡ false = ground arith in t),
    record {
      one_write = append-nil in_flight ∙ h;
      in_order = sym (append_assoc wire (c ∷ queue) (b ∷ [])) ∙ ap (λ xs. xs ++ b ∷ []) e;
    },
  )

  written_cases :
      (writing : Bool) (queue in_flight : List Buffer)
      → IsWriting writing queue in_flight
      → wire ++ queue ≡ sent
      → (l' : Link) × (link_written virtual_close (link s queue writing in_flight wire) ≡ done l')
        × IsValid sent l'
        × ((l'.wire ≡ wire ++ in_flight) × (l'.session.send_queue ≡ tail queue))
  unfolding link_written on_write
  written_cases false [] [] h e = (
    link s [] false [] wire,
    refl,
    record { one_write = (refl, refl); in_order = e },
    (sym (append-nil wire), refl),
  )
  written_cases false (c ∷ queue) in_flight h e = cc h.0
  written_cases false [] (c ∷ in_flight) h e = cc h.1
  written_cases true [] in_flight h e = absurd h
  written_cases true (c ∷ queue) [] h e = cc h
  written_cases true (c ∷ []) (d ∷ []) h e = (
    link s [] false [] (wire ++ d ∷ []),
    refl,
    record {
      one_write = (refl, refl);
      in_order = append-nil (wire ++ d ∷ []) ∙ ap (◌++◌ wire) h ∙ e;
    },
    (refl, refl),
  )
  written_cases true (c ∷ next ∷ more) (d ∷ []) h e = (
    link s (next ∷ more) true (next ∷ []) (wire ++ d ∷ []),
    refl,
    record {
      one_write = refl;
      in_order =
          append_assoc wire (d ∷ []) (next ∷ more) ∙ ap (λ xs. wire ++ (xs ++ next ∷ more)) h ∙ e;
    },
    (refl, refl),
  )
  written_cases true (c ∷ queue) (d ∷ x ∷ in_flight) h e = cc h

pub done-injective : {A : Type 0} {a b : A} → done a ≡ done b → a ≡ b
done-injective e = cc

length-tail : {A : Type 0} (xs : List A) (n : ℕ) → length xs ≡ suc n → length (tail xs) ≡ n
length-tail [] n e = absurd (omega arith)
length-tail (x ∷ xs) n e = omega arith

idle_cases :
    (writing : Bool) (queue in_flight : List Buffer)
    → IsWriting writing queue in_flight
    → length queue ≡ 0
    → (queue ≡ []) × (writing ≡ false)
idle_cases false queue in_flight h e = (h.0, refl)
idle_cases true [] in_flight h e = absurd h
idle_cases true (c ∷ queue) in_flight h e = absurd (omega arith)

module _ (virtual_close : Session → Handled × Bool) where
  pub written-IsValid :
      {sent : List Buffer} (l : Link)
      → IsValid sent l
      → (l' : Link) × (link_written virtual_close l ≡ done l')
        × IsValid sent l'
        × ((l'.wire ≡ l.wire ++ l.in_flight) × (l'.session.send_queue ≡ tail l.session.send_queue))
  written-IsValid l v =
      written_cases virtual_close l.session l.wire l.session.writing l.session.send_queue
        l.in_flight v.one_write v.in_order

  -- Whatever is sent and written, while the queue stays below `MaxSendQueue` and no write fails:
  -- the buffers on the wire followed by those in the queue are the buffers sent, in order, and
  -- exactly one write is outstanding while the session writes, of the front of the queue.
  pub Reach-IsValid : {sent : List Buffer} {l : Link} → Reach virtual_close sent l → IsValid sent l
  unfolding fresh_link new_session
  Reach-IsValid fresh = record { one_write = (refl, refl); in_order = refl }
  Reach-IsValid (sends {l = l} b r room e) =
      let v = Reach-IsValid r in
      let (l'', e'', v'') =
        send_cases virtual_close l.session l.wire b l.session.writing l.session.send_queue
          l.in_flight v.one_write v.in_order room in
      subst (IsValid _) (done-injective (sym e'' ∙ e)) v''
  Reach-IsValid (written {l = l} r e) =
      let (l'', e'', v'', _) = written-IsValid l (Reach-IsValid r) in
      subst (IsValid _) (done-injective (sym e'' ∙ e)) v''

  -- The next completions, `n` of them.
  unfoldable pub drain : ℕ → Link → Run Link
  drain zero l = done l
  drain (suc n) l =
      let next = drain n in
      elim (link_written virtual_close l) [ fault f ↦ fault f | done l' ↦ next l' ]

  drain_valid :
      {sent : List Buffer} (n : ℕ) (l : Link)
      → IsValid sent l
      → length l.session.send_queue ≡ n
      → (l' : Link) × (drain n l ≡ done l')
        × ((l'.wire ≡ sent) × (l'.session.send_queue ≡ []) × (l'.session.writing ≡ false))
  unfolding drain
  drain_valid zero l v e =
      let (empty, idle) =
        idle_cases l.session.writing l.session.send_queue l.in_flight v.one_write e in
      (l, refl, (sym (append-nil l.wire) ∙ rw empty at v.in_order, empty, idle))
  drain_valid (suc n) l v e =
      let (l1, e1, v1, facts) = written-IsValid l v in
      let (l2, e2, all) =
        drain_valid n l1 v1 (ap length facts.1 ∙ length-tail l.session.send_queue n e) in
      (l2, rw (e1, drain) e2, all)

  -- From every such link, as many completions as buffers are queued put all that was sent on the
  -- wire: no completion faults, the queue ends empty and the session idle.
  pub drain-wire :
      {sent : List Buffer} (l : Link)
      → Reach virtual_close sent l
      → (l' : Link) × (drain (length l.session.send_queue) l ≡ done l')
        × ((l'.wire ≡ sent) × (l'.session.send_queue ≡ []) × (l'.session.writing ≡ false))
  drain-wire l r = drain_valid (length l.session.send_queue) l (Reach-IsValid r) refl
