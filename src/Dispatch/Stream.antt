-- ===== src/Dispatch/Stream.antt =====
-- The way of requests from the send queue of the game server, through the read cycle of the session of the
-- auction server and its handler table (AuctionServer/Network/Handlers/AuctionPacketHandler.h), to the queues
-- of the workers.
use j1_server.Prelude.{
  ℕ, ◌+◌, ◌<◌, ◌^◌, ◌≡◌, refl, sym, ap, ◌∙◌, Bool, Option, none, some, List, [], ◌∷◌, ◌++◌, map,
  append_assoc, append-nil, arith, length, All,
}
use j1_server.Prelude.Int.{pos}
use j1_server.Packet.{PacketHeader, IsProtobuf, packet}
use j1_server.Packet.RoundTrip.{IsShort}
use j1_server.Session.{Buffer, Session, done, Handled}
use j1_server.Session.Framing.{Packets, read_packets, received, read_one-packet}
use j1_server.Session.Sending.{Link, Reach, drain, drain-wire}
use j1_server.Session.Transport.{stream}
use j1_server.WorkerPool.{WorkerPool}
use j1_server.Handlers.Auction.{Task, handle_request}
use j1_server.Dispatch.{Decoders, handle_packet, auction_table}
use j1_server.Dispatch.Requests.{Kind, code_of, decoder_of, code_of_small, handle_packet_parsed}

module _ (d : Decoders) where
  -- A request, with its type.
  abbrev pub Sent : Type 0
  Sent = (k : Kind) × (decoder_of d k).protobuf.Message

  abbrev pub sent_bytes : Sent → Buffer
  sent_bytes (k, msg) = (packet (decoder_of d k).protobuf (pos (code_of k)) msg).1

  abbrev pub IsSmall : Sent → Type 0
  IsSmall (k, msg) = (decoder_of d k).protobuf.byte_size_long msg < 2 ^ 15

-- What follows a packet whose code is inside of the table.
abbrev pub then_packets :
    (WorkerPool Task → Option (WorkerPool Task))
    → Option (Bool × WorkerPool Task)
    → Option (WorkerPool Task)
then_packets rest none = none
then_packets rest (some (b, p)) = rest p

module _ (d : Decoders) (session : ℕ) where
  -- What `HandlePacket` of the session does with its packets, whether a handler succeeds or not.
  abbrev pub handle_packets : Packets → WorkerPool Task → Option (WorkerPool Task)
  handle_packets [] p = some p
  handle_packets ((h, body) ∷ packets) p =
      then_packets (handle_packets packets) (handle_packet (auction_table d session) h body p)

  -- The handlers of the requests, one after another.
  abbrev pub handle_requests : List (Sent d) → WorkerPool Task → WorkerPool Task
  handle_requests [] p = p
  handle_requests ((k, msg) ∷ rs) p =
      handle_requests rs (handle_request session ((decoder_of d k).request msg) p).1

module _ (d : Decoders) (session : ℕ) (laws : (k : Kind) → IsProtobuf (decoder_of d k).protobuf)
    (virtual_close : Session → Handled × Bool) where
  read_packets-handle_requests :
      (s : Session) (rs : List (Sent d)) (rest : Buffer) (p : WorkerPool Task)
      → All (IsSmall d) rs
      → s.offset ≡ 0
      → (packets : Packets) × (read_packets virtual_close
            (length rs)
            s
            (stream (map (sent_bytes d) rs) ++ rest)
          ≡ done (packets, rest))
        × (handle_packets d session packets p ≡ some (handle_requests d session rs p))
  unfolding read_packets
  read_packets-handle_requests s [] rest p small start = ([], refl, refl)
  read_packets-handle_requests s ((k, msg) ∷ rs) rest p (one, others) start =
      let proto = (decoder_of d k).protobuf in
      let short : IsShort (pos (code_of k)) = (omega arith, omega (arith, code_of_small k)) in
      let left = stream (map (sent_bytes d) rs) ++ rest in
      let (body, e, parsed) =
        read_one-packet virtual_close proto (laws k) s (pos (code_of k)) msg left (short, one)
          start in
      let s' = received virtual_close s (pos (code_of k)) (proto.byte_size_long msg) in
      let p' = (handle_request session ((decoder_of d k).request msg) p).1 in
      let (more, e', handled) = read_packets-handle_requests s' rs rest p' others refl in
      let h : PacketHeader = record {
        len = pos (proto.byte_size_long msg);
        code = pos (code_of k);
      } in
      (
        (h, body) ∷ more,
        rw (
          append_assoc (sent_bytes d (k, msg)) (stream (map (sent_bytes d) rs)) rest,
          e,
          read_packets,
          e',
          read_packets,
        ),
        ap (then_packets (handle_packets d session more)) (
              handle_packet_parsed d session k h body msg (4 + proto.byte_size_long msg) p refl
                parsed)
            ∙ handled,
      )

  -- Requests of any of the five types, each of fewer than 2^15 bytes, that the session of the game server has
  -- been given to send, where its queue was never full at that: as many completions of writes as buffers are
  -- queued put them all on the wire, and from there the read cycle of the session at the auction server hands
  -- them to the table, which runs the handler of the type of each with the very message, in the order in which
  -- they were sent.
  pub drain-handle_requests :
      (sender_close : Session → Handled × Bool) (rs : List (Sent d)) (l : Link) (receiver : Session)
      (p : WorkerPool Task)
      → All (IsSmall d) rs
      → Reach sender_close (map (sent_bytes d) rs) l
      → receiver.offset ≡ 0
      → (l' : Link) × (packets : Packets) × (drain sender_close (length l.session.send_queue) l
          ≡ done l')
        × (read_packets virtual_close (length rs) receiver (stream l'.wire) ≡ done (packets, []))
        × (handle_packets d session packets p ≡ some (handle_requests d session rs p))
  drain-handle_requests sender_close rs l receiver p small reach start =
      let (l', drained, (all, _, _)) = drain-wire sender_close l reach in
      let (packets, read, handled) = read_packets-handle_requests receiver rs [] p small start in
      (
        l',
        packets,
        drained,
        ap (read_packets virtual_close (length rs) receiver)
              (ap stream all ∙ sym (append-nil (stream (map (sent_bytes d) rs))))
            ∙ read,
        handled,
      )
