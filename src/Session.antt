-- ===== src/Session.antt =====
-- ServerCore/Session.h and Session.cpp: one connection, with its read cycle and its send queue.
-- Each handler that runs on the strand is a function from the session to the new session and the
-- asynchronous operations that it starts, in order. The completion of an operation is a call of
-- its handler with the result. `Close` is virtual, so the handlers take it as a parameter.
pub mod Sending
pub mod Framing
pub mod Closing
pub mod Transport
mod Tests
use j1_server.Prelude.{
  ℕ, Bool, true, false, Option, none, some, List, [], ◌∷◌, ◌++◌, length, leb, if◌then◌else◌,
}
use j1_server.Prelude.Int.{ℤ, pos, negsuc}
use j1_server.Packet.{PacketHeader, parse_header}

abbrev pub Buffer : Type 0
Buffer = List ℕ

-- `MaxSendQueue`
abbrev pub max_send_queue : ℕ
max_send_queue = 4096

-- `HeaderBufferSize`
abbrev pub header_buffer_size : ℕ
header_buffer_size = 4

-- The fields of a session that its handlers change.
pub record Session : Type 0 where
  pub header : PacketHeader
  pub offset : ℕ
  pub recv_body_size : ℕ
  pub closed : Bool
  pub send_queue : List Buffer
  pub writing : Bool
  pub session_id : ℕ

-- What a handler starts or calls outside the session.
pub data Effect : Type 0 where
  async_read_header : Effect
  async_read_body : ℕ → Effect
  async_write : Buffer → Effect
  close_socket : Effect
  unregister : ℕ → Effect
  handle_packet : PacketHeader → Buffer → Effect

-- What the handlers do not survive: `std::length_error` out of `resize`, and the undefined
-- behaviour of `front` and `pop_front` on an empty deque.
pub data Fault : Type 0 where
  length_error empty_deque : Fault

pub data Run (A : Type 0) : Type 0 where
  done : A → Run A
  fault : Fault → Run A

-- An error code of asio: set or not.
pub data ErrorCode : Type 0 where
  success failure : ErrorCode

abbrev pub Handled : Type 0
Handled = Session × List Effect

-- The constructor.
unfoldable pub new_session : Session
new_session = record {
  header = record { len = pos 0; code = pos 0 };
  offset = 0;
  recv_body_size = 0;
  closed = false;
  send_queue = [];
  writing = false;
  session_id = 0;
}

-- `Session::Close`: only the first call closes the socket and returns true.
unfoldable pub close : Session → Handled × Bool
close s =
    if s.closed then ((s, []), false) else ((record s { closed = true }, close_socket ∷ []), true)

-- `GameSession::Close` (GameServer/GameSession.cpp): the first call also unregisters the session.
unfoldable pub game_close : Session → Handled × Bool
unfolding close
game_close s =
    let ((s', effects), first) = close s in
    if first then ((s', effects ++ unregister s'.session_id ∷ []), true) else ((s', effects), false)

-- `AsyncHeaderRead`
unfoldable pub async_header_read : Session → Handled
async_header_read s = (record s { offset = 0 }, async_read_header ∷ [])

-- `Start`
unfoldable pub start : Session → Handled
unfolding async_header_read
start s = async_header_read s

-- `AsyncBodyRead`: `resize` takes the `short` as a `size_t`, so a negative length throws.
unfoldable pub async_body_read : Session → Run Handled
async_body_read s = elim s.header.len [
  | pos n ↦ done (record s { recv_body_size = n }, async_read_body n ∷ [])
  | negsuc n ↦ fault length_error
]

-- `DoWrite`
unfoldable pub do_write : Session → Run Handled
do_write s = elim s.send_queue [
  | [] ↦ fault empty_deque
  | front ∷ rest ↦ done (record s { writing = true }, async_write front ∷ [])
]

module _ (virtual_close : Session → Handled × Bool) where
  -- The body of the lambda that `EnqueueSend` dispatches to the strand.
  unfoldable pub enqueue_send : Buffer → Session → Run Handled
  unfolding do_write
  enqueue_send buffer s =
      if leb max_send_queue (length s.send_queue)
      then done (virtual_close (record s { send_queue = []; writing = false })).0
      else let pushed : Session = record s { send_queue = s.send_queue ++ buffer ∷ [] } in
        if s.writing then done (pushed, []) else do_write pushed

  -- `Send` and `AsyncWrite`, which copy the buffer.
  unfoldable pub send : Buffer → Session → Run Handled
  unfolding enqueue_send
  send buffer s = enqueue_send buffer s

  -- `SendShared`: nothing for a null or an empty buffer.
  unfoldable pub send_shared : Option Buffer → Session → Run Handled
  unfolding enqueue_send
  send_shared none s = done (s, [])
  send_shared (some []) s = done (s, [])
  send_shared (some (b ∷ bs)) s = enqueue_send (b ∷ bs) s

  -- `OnWrite`
  unfoldable pub on_write : ErrorCode → Session → Run Handled
  unfolding do_write
  on_write failure s = done (virtual_close (record s { send_queue = []; writing = false })).0
  on_write success s = elim s.send_queue [
    | [] ↦ fault empty_deque
    | front ∷ rest ↦ elim rest [
      | [] ↦ done (record s { send_queue = []; writing = false }, [])
      | next ∷ more ↦ do_write (record s { send_queue = next ∷ more })
    ]
  ]

  -- `OnHeaderRead`, with the bytes that were read into the header buffer.
  unfoldable pub on_header_read : ErrorCode → Buffer → Session → Run Handled
  unfolding async_body_read
  on_header_read failure bytes s = done (virtual_close s).0
  on_header_read success bytes s = elim (parse_header bytes s.offset) [
    | none ↦ done (virtual_close s).0
    | some (h, offset) ↦ async_body_read (record s { header = h; offset = offset })
  ]

  -- `OnBodyRead`: the packet is handled before the next header is awaited, and `HandlePacket` of
  -- every session class ends with `_offset = 0`.
  unfoldable pub on_body_read : ErrorCode → Buffer → Session → Handled
  unfolding async_header_read
  on_body_read failure bytes s = (virtual_close s).0
  on_body_read success bytes s =
      let (s', effects) = async_header_read (record s { offset = 0 }) in
      (s', handle_packet s.header bytes ∷ effects)
