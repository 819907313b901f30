-- ===== src/Session/Tests.antt =====
-- ServerCore/Session.cpp with the `Close` of GameServer/GameSession.cpp, on small buffers.
use j1_server.Prelude.{
  ℕ, ◌+◌, length, take, ◌≡◌, refl, true, false, List, [], ◌∷◌, ◌++◌, arith, length-replicate,
  replicate,
}
use j1_server.Prelude.Int.{pos}
use j1_server.Packet.Tests.{zeros, zeros-IsProtobuf}
use j1_server.Session.{
  Buffer, Session, close_socket, unregister, empty_deque, done, fault, new_session, game_close,
  enqueue_send, on_write,
}
use j1_server.Session.Sending.{
  Link, fresh_link, Reach, fresh, sends, written, IsValid, link, link_send, link_written, drain,
  Reach-IsValid, drain-wire,
}
use j1_server.Session.Framing.{Packets, read_packets, wire, Decodes, read_packets-wire}
use j1_server.Session.Transport.{
  Event, packet_sent, write_done, happen_all, Arrives, happen_all-Arrives,
}
use j1_server.Session.Closing.{closes, closes_once, enqueue_send_full, overflow_then_written}

abbrev buffers : List Buffer
buffers = (1 ∷ []) ∷ (2 ∷ 3 ∷ []) ∷ []

-- Two buffers sent, the first one in flight.
abbrev two_sent : Link
two_sent = link new_session buffers true ((1 ∷ []) ∷ []) []

two_sent-Reach : Reach game_close buffers two_sent
unfolding link_send enqueue_send fresh_link new_session
two_sent-Reach = sends (2 ∷ 3 ∷ []) (sends (1 ∷ []) fresh (omega arith) refl) (omega arith) refl

-- The first one written, the second one in flight.
one_written-Reach :
    Reach game_close buffers
      (link new_session ((2 ∷ 3 ∷ []) ∷ []) true ((2 ∷ 3 ∷ []) ∷ []) ((1 ∷ []) ∷ []))
unfolding link_written on_write new_session
one_written-Reach = written two_sent-Reach refl

Reach-IsValid_example :
    IsValid buffers (link new_session ((2 ∷ 3 ∷ []) ∷ []) true ((2 ∷ 3 ∷ []) ∷ []) ((1 ∷ []) ∷ []))
Reach-IsValid_example = Reach-IsValid game_close one_written-Reach

written_out :
    (l' : Link) × (drain game_close 2 two_sent ≡ done l')
    × ((l'.wire ≡ buffers) × (l'.session.send_queue ≡ []) × (l'.session.writing ≡ false))
written_out = drain-wire game_close two_sent two_sent-Reach

-- Two messages, with a write done in between.
abbrev two_packets : List (Event ℕ)
two_packets = packet_sent (pos 4001) 3 ∷ write_done ∷ packet_sent (pos 1) 0 ∷ []

happen_all-Arrives_example :
    (l l' : Link) × (happen_all game_close zeros two_packets fresh_link ≡ done l)
    × (length l.wire + length l.session.send_queue ≡ 2)
    × Arrives zeros zeros-IsProtobuf game_close game_close new_session
        (9 ∷ [])
        l.wire
        (take (length l.wire) ((pos 4001, 3) ∷ (pos 1, 0) ∷ []))
    × (drain game_close (length l.session.send_queue) l ≡ done l')
    × Arrives zeros zeros-IsProtobuf game_close game_close new_session
        (9 ∷ [])
        l'.wire
        ((pos 4001, 3) ∷ (pos 1, 0) ∷ [])
unfolding new_session
happen_all-Arrives_example =
    happen_all-Arrives zeros zeros-IsProtobuf game_close game_close two_packets new_session (9 ∷ [])
      (((omega arith, omega arith), omega arith), (((omega arith, omega arith), omega arith), tt))
      (omega arith) refl

read_packets-wire_example :
    (packets : Packets) × (read_packets game_close 2 new_session
        (wire game_close zeros zeros-IsProtobuf ((pos 4001, 3) ∷ (pos 1, 0) ∷ []) ++ 9 ∷ [])
      ≡ done (packets, 9 ∷ []))
    × Decodes game_close zeros zeros-IsProtobuf packets ((pos 4001, 3) ∷ (pos 1, 0) ∷ [])
unfolding new_session
read_packets-wire_example =
    read_packets-wire game_close zeros zeros-IsProtobuf new_session
      ((pos 4001, 3) ∷ (pos 1, 0) ∷ []) (9 ∷ [])
      (((omega arith, omega arith), omega arith), (((omega arith, omega arith), omega arith), tt))
      refl

closes_once_example :
    closes 3 (record new_session { session_id = 7; closed = false })
    ≡ (record new_session { session_id = 7; closed = true }, close_socket ∷ unregister 7 ∷ [])
closes_once_example = closes_once 2 (record new_session { session_id = 7; closed = false }) refl

-- A queue of `MaxSendQueue` buffers of one byte, the first one in flight.
abbrev full : Session
full = record new_session {
  send_queue = replicate 4096 (1 ∷ []);
  writing = true;
  session_id = 7;
  closed = false;
}

full_queue_closes :
    enqueue_send game_close (2 ∷ []) full
    ≡ done (
      record full { send_queue = []; writing = false; closed = true },
      close_socket ∷ unregister 7 ∷ [],
    )
full_queue_closes =
    enqueue_send_full (2 ∷ []) full (omega (arith, length-replicate {A = Buffer} 4096 (1 ∷ [])))

abbrev full_link : Link
full_link = record { session = full; in_flight = (1 ∷ []) ∷ []; wire = [] }

full_link-IsValid : IsValid (replicate 4096 (1 ∷ [])) full_link
full_link-IsValid = record { one_write = refl; in_order = refl }

overflow_then_written_example :
    (l' : Link) × (link_send game_close (2 ∷ []) full_link ≡ done l')
    × (link_written game_close l' ≡ fault empty_deque)
overflow_then_written_example =
    overflow_then_written (2 ∷ []) full_link full_link-IsValid
      (length-replicate {A = Buffer} 4096 (1 ∷ []))
