-- ===== src/Session/Framing.antt =====
-- The read cycle of ServerCore/Session.cpp over a byte stream: `OnHeaderRead` and `OnBodyRead` in
-- turn, as the reads that they start complete, cut the stream into the packets that were sent.
use j1_server.Prelude.{
  ℕ, zero, suc, ◌+◌, ◌<◌, ◌^◌, ◌≡◌, refl, Bool, false, Option, none, some, List, [], ◌∷◌, ◌++◌,
  append_assoc, arith, length, length-append, length-drop, take, drop, ltb, if◌then◌else◌, All,
}
use j1_server.Prelude.Int.{ℤ, pos}
use j1_server.Packet.{PacketHeader, Protobuf, IsProtobuf, packet, parse, parse_header}
use j1_server.Packet.RoundTrip.{IsShort, parse-packet, length-packet}
use j1_server.Session.{
  Buffer, header_buffer_size, Session, Effect, async_read_body, handle_packet, Run, done, fault,
  success, Handled, on_header_read, on_body_read,
}

abbrev pub Packets : Type 0
Packets = List (PacketHeader × Buffer)

-- The packets that a handler passes to `HandlePacket`.
abbrev handled : List Effect → Packets
handled [] = []
handled (handle_packet h body ∷ es) = (h, body) ∷ handled es
handled (e ∷ es) = handled es

-- The body read that a handler started, if it did.
abbrev body_size : List Effect → Option ℕ
body_size [] = none
body_size (async_read_body n ∷ es) = some n
body_size (e ∷ es) = body_size es

module _ (virtual_close : Session → Handled × Bool) where
  abbrev read_body : Session → Option ℕ → Buffer → Option (Session × Packets × Buffer)
  read_body s none stream = none
  read_body s (some n) stream =
      if ltb (length stream) n
      then none
      else let (s', effects) = on_body_read virtual_close success (take n stream) s in
        some (s', handled effects, drop n stream)

  -- One header and one body; `none` where a read waits for more bytes or the session has closed.
  unfoldable pub read_one : Session → Buffer → Run (Option (Session × Packets × Buffer))
  read_one s stream =
      if ltb (length stream) header_buffer_size
      then done none
      else elim (on_header_read virtual_close success (take header_buffer_size stream) s) [
        | fault f ↦ fault f
        | done (s', effects) ↦
            done (read_body s' (body_size effects) (drop header_buffer_size stream))
      ]

  -- `n` rounds: the packets handled, and the bytes that are left.
  unfoldable pub read_packets : ℕ → Session → Buffer → Run (Packets × Buffer)
  read_packets zero s stream = done ([], stream)
  read_packets (suc n) s stream =
      let next = read_packets n in
      elim (read_one s stream) [
        | fault f ↦ fault f
        | done none ↦ done ([], stream)
        | done (some (s', packets, rest)) ↦ elim (next s' rest) [
          | fault f ↦ fault f
          | done (more, left) ↦ done (packets ++ more, left)
        ]
      ]

module _ (virtual_close : Session → Handled × Bool) where
  abbrev pub received : Session → ℤ → ℕ → Session
  received s code n = record s {
    header = record { len = pos n; code = code };
    offset = 0;
    recv_body_size = n;
  }

  read_one_lem :
      (s : Session) (stream : Buffer) (code : ℤ) (n : ℕ)
      → ltb (length stream) 4 ≡ false
      → parse_header (take 4 stream) s.offset ≡ some (record { len = pos n; code = code }, 4)
      → ltb (length (drop 4 stream)) n ≡ false
      → read_one virtual_close s stream
        ≡ done (
            some (
              received s code n,
              (record { len = pos n; code = code }, take n (drop 4 stream)) ∷ [],
              drop n (drop 4 stream),
            ))
  unfolding read_one on_header_read on_body_read
  read_one_lem s stream code n enough header body = rw (enough, header) (rw body refl)

module _ (virtual_close : Session → Handled × Bool) (p : Protobuf) (laws : IsProtobuf p) where
  open p use {Message, byte_size_long}

  -- What `SendPacket` puts on the wire for these messages, each with its code.
  abbrev pub wire : List (ℤ × Message) → Buffer
  wire [] = []
  wire ((code, msg) ∷ ms) = (packet p code msg).1 ++ wire ms

  -- A packet code that a `short` holds, and a message that fits its length field.
  abbrev pub IsSendable : ℤ × Message → Type 0
  IsSendable (code, msg) = IsShort code × (byte_size_long msg < 2 ^ 15)

  -- Header by header the code and the size, and body by body the message.
  abbrev pub Decodes : Packets → List (ℤ × Message) → Type 0
  Decodes [] [] = Unit
  Decodes ((h, body) ∷ ps) ((code, msg) ∷ ms) =
      (h ≡ record { len = pos (byte_size_long msg); code = code })
      × (parse p body 4 ≡ some (msg, 4 + byte_size_long msg))
      × Decodes ps ms
  Decodes _ _ = ⊥

  pub read_one-packet :
      (s : Session) (code : ℤ) (msg : Message) (rest : Buffer)
      → IsSendable (code, msg)
      → s.offset ≡ 0
      → (body : Buffer) × (read_one virtual_close s ((packet p code msg).1 ++ rest)
          ≡ done (
              some (
                received virtual_close s code (byte_size_long msg),
                (record { len = pos (byte_size_long msg); code = code }, body) ∷ [],
                rest,
              )))
        × (parse p body 4 ≡ some (msg, 4 + byte_size_long msg))
  read_one-packet s code msg rest (short, small) start =
      let (_, header, body, left) = parse-packet p laws code msg rest short small in
      let bytes : Buffer = (packet p code msg).1 in
      let size = length-packet p laws code msg in
      let total = length-append bytes rest in
      (
        take (byte_size_long msg) (drop 4 (bytes ++ rest)),
        rw left at (
            read_one_lem virtual_close s (bytes ++ rest) code (byte_size_long msg)
              (ground (arith, size, total)) (rw start header)
              (ground (arith, size, total, length-drop 4 (bytes ++ rest)))),
        body,
      )

  -- Messages that `SendPacket` wrote one behind another, each of fewer than 2^15 bytes and with a
  -- code that a `short` holds, are handled as the same messages with the same codes, one packet
  -- each and in order, and the bytes behind them are left for the next read. The session starts at
  -- offset 0.
  pub read_packets-wire :
      (s : Session) (ms : List (ℤ × Message)) (rest : Buffer)
      → All IsSendable ms
      → s.offset ≡ 0
      → (packets : Packets) × (read_packets virtual_close (length ms) s (wire ms ++ rest)
          ≡ done (packets, rest))
        × Decodes packets ms
  unfolding read_packets
  read_packets-wire s [] rest sendable start = ([], refl, tt)
  read_packets-wire s ((code, msg) ∷ ms) rest (one, others) start =
      let (body, e, parsed) = read_one-packet s code msg (wire ms ++ rest) one start in
      let s' = received virtual_close s code (byte_size_long msg) in
      let (more, e', decoded) = read_packets-wire s' ms rest others refl in
      (
        (record { len = pos (byte_size_long msg); code = code }, body) ∷ more,
        rw (append_assoc (packet p code msg).1 (wire ms) rest, e, read_packets, e', read_packets),
        (refl, parsed, decoded),
      )
