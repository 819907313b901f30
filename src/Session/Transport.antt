-- ===== src/Session/Transport.antt =====
-- The way of messages from `SendPacket` of one session (as in LoginServer/LoginSession.cpp, and alike in the
-- other session classes) to the read cycle of the session at the other end.
use mathlib.Core.Path.{subst}
use j1_server.Prelude.{
  ℕ, Bool, zero, suc, ◌+◌, ◌≤◌, ◌<◌, ◌≡◌, refl, sym, ap, ◌∙◌, List, [], ◌∷◌, ◌++◌, map,
  append_assoc, append-nil, arith, length, length-append, take, take_append, All,
}
use j1_server.Prelude.Int.{ℤ}
use j1_server.Packet.{Protobuf, IsProtobuf, packet}
use j1_server.Session.{Buffer, max_send_queue, Session, Run, done, fault, Handled, send}
use j1_server.Session.Sending.{
  Link, fresh_link, after, link_send, link_written, send_cases, written-IsValid, drain, Reach,
  drain-wire, Reach-IsValid,
}
use j1_server.Session.Framing.{Packets, read_packets, wire, IsSendable, Decodes, read_packets-wire}

-- The bytes of the buffers, one behind another.
abbrev pub stream : List Buffer → Buffer
stream [] = []
stream (b ∷ bs) = b ++ stream bs

map-take : {A B : Type 0} (f : A → B) (n : ℕ) (xs : List A) → take n (map f xs) ≡ map f (take n xs)
map-take f zero xs = refl
map-take f (suc n) [] = refl
map-take f (suc n) (x ∷ xs) = ap (◌∷◌ (f x)) (map-take f n xs)

length-map : {A B : Type 0} (f : A → B) (xs : List A) → length (map f xs) ≡ length xs
length-map f [] = refl
length-map f (x ∷ xs) = ap suc (length-map f xs)

All-take : {A : Type 0} (P : A → Type 0) (n : ℕ) (xs : List A) → All P xs → All P (take n xs)
All-take P zero xs h = tt
All-take P (suc n) [] h = tt
All-take P (suc n) (x ∷ xs) h = (h.0, All-take P n xs h.1)

-- What happens at the sending end: a call of `SendPacket`, or the completion of the oldest write.
pub data Event (M : Type 0) : Type 0 where
  packet_sent : ℤ → M → Event M
  write_done : Event M

-- The messages that are sent.
abbrev pub messages : {M : Type 0} → List (Event M) → List (ℤ × M)
messages [] = []
messages (packet_sent code msg ∷ es) = (code, msg) ∷ messages es
messages (write_done ∷ es) = messages es

module _ (virtual_close : Session → Handled × Bool) (p : Protobuf) where
  open p use {Message, byte_size_long}

  -- `SendPacket`
  unfoldable pub send_packet : ℤ → Message → Session → Run Handled
  unfolding send
  send_packet code msg s = send virtual_close (packet p code msg).1 s

  unfoldable pub happen : Event Message → Link → Run Link
  unfolding send_packet
  happen (packet_sent code msg) l = after l (send_packet code msg l.session)
  happen write_done l = link_written virtual_close l

  unfoldable pub happen_all : List (Event Message) → Link → Run Link
  unfolding happen
  happen_all [] l = done l
  happen_all (e ∷ es) l =
      let rest = happen_all es in elim (happen e l) [ fault f ↦ fault f | done l' ↦ rest l' ]

  abbrev bytes : ℤ × Message → Buffer
  bytes (code, msg) = (packet p code msg).1

  happen_all-Reach :
      (es : List (Event Message)) (sent : List Buffer) (l : Link)
      → Reach virtual_close sent l
      → length sent + length (messages es) ≤ max_send_queue
      → (l' : Link) × (happen_all es l ≡ done l')
        × Reach virtual_close (sent ++ map bytes (messages es)) l'
  unfolding happen_all happen link_send
  happen_all-Reach [] sent l r room =
      (l, refl, subst (λ x. Reach virtual_close x l) (sym (append-nil sent)) r)
  happen_all-Reach (packet_sent code msg ∷ es) sent l r room =
      let b = bytes (code, msg) in
      let v = Reach-IsValid virtual_close r in
      let size = length-append l.wire l.session.send_queue in
      let few : length l.session.send_queue < max_send_queue =
        omega (arith, size, ap length v.in_order) in
      let (l1, e1, _) =
        send_cases virtual_close l.session l.wire b l.session.writing l.session.send_queue
          l.in_flight v.one_write v.in_order few in
      let (l2, e2, r2) =
        happen_all-Reach es (sent ++ b ∷ []) l1 (Reach.sends b r few e1)
          (omega (arith, length-append sent (b ∷ []))) in
      (
        l2,
        rw (e1, happen_all) e2,
        subst (λ x. Reach virtual_close x l2) (append_assoc sent (b ∷ []) (map bytes (messages es)))
            r2,
      )
  happen_all-Reach (write_done ∷ es) sent l r room =
      let (l1, e1, _, _) = written-IsValid virtual_close l (Reach-IsValid virtual_close r) in
      let (l2, e2, r2) = happen_all-Reach es sent l1 (Reach.written r e1) room in
      (l2, rw (e1, happen_all) e2, r2)

module _ (p : Protobuf) (laws : IsProtobuf p)
    (sender_close receiver_close : Session → Handled × Bool) where
  open p use {Message, byte_size_long}

  stream-map :
      (ms : List (ℤ × Message))
      → stream (map (bytes sender_close p) ms) ≡ wire receiver_close p laws ms
  stream-map [] = refl
  stream-map ((code, msg) ∷ ms) = ap (◌++◌ (packet p code msg).1) (stream-map ms)

  -- A session whose bytes begin with these buffers reads the messages, one packet each and in order, and
  -- leaves the bytes behind them.
  abbrev pub Arrives : Session → Buffer → List Buffer → List (ℤ × Message) → Type 0
  Arrives receiver rest buffers ms =
      (packets : Packets) × (read_packets receiver_close (length ms) receiver
          (stream buffers ++ rest)
        ≡ done (packets, rest))
      × Decodes receiver_close p laws packets ms

  map-Arrives :
      (receiver : Session) (rest : Buffer) (buffers : List Buffer) (ms : List (ℤ × Message))
      → All (IsSendable receiver_close p laws) ms
      → receiver.offset ≡ 0
      → buffers ≡ map (bytes sender_close p) ms
      → Arrives receiver rest buffers ms
  map-Arrives receiver rest buffers ms sendable start e =
      let (packets, read, decoded) =
        read_packets-wire receiver_close p laws receiver ms rest sendable start in
      (
        packets,
        ap (λ x. read_packets receiver_close (length ms) receiver (x ++ rest))
              (ap stream e ∙ stream-map ms)
            ∙ read,
        decoded,
      )

  -- Up to 4096 messages, each of fewer than 2^15 bytes and with a code that a `short` holds, that a new
  -- session sends, while writes complete in any order with the calls: no handler faults; the session at the
  -- other end, which starts at offset 0, has by then received exactly as many of them as buffers were
  -- written, from the first on and in order, and the others are queued; and as many completions as
  -- buffers are queued bring it all of them.
  pub happen_all-Arrives :
      (es : List (Event Message)) (receiver : Session) (rest : Buffer)
      → All (IsSendable receiver_close p laws) (messages es)
      → length (messages es) ≤ max_send_queue
      → receiver.offset ≡ 0
      → (l l' : Link) × (happen_all sender_close p es fresh_link ≡ done l)
        × (length l.wire + length l.session.send_queue ≡ length (messages es))
        × Arrives receiver rest l.wire (take (length l.wire) (messages es))
        × (drain sender_close (length l.session.send_queue) l ≡ done l')
        × Arrives receiver rest l'.wire (messages es)
  happen_all-Arrives es receiver rest sendable room start =
      let ms = messages es in
      let (l, ran, reach) =
        happen_all-Reach sender_close p es [] fresh_link Reach.fresh (omega (arith, room)) in
      let v = Reach-IsValid sender_close reach in
      let (l', drained, (all, _, _)) = drain-wire sender_close l reach in
      let n = length l.wire in
      let prefix : l.wire ≡ map (bytes sender_close p) (take n ms) =
        sym (take_append l.wire l.session.send_queue refl)
        ∙ ap (take n) v.in_order
        ∙ map-take (bytes sender_close p) n ms in
      (
        l,
        l',
        ran,
        sym (length-append l.wire l.session.send_queue)
            ∙ ap length v.in_order
            ∙ length-map (bytes sender_close p) ms,
        map-Arrives receiver rest l.wire (take n ms)
            (All-take (IsSendable receiver_close p laws) n ms sendable) start prefix,
        drained,
        map-Arrives receiver rest l'.wire ms sendable start all,
      )
