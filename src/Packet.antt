-- ===== src/Packet.antt =====
-- ServerCore/Packet.h: the four byte header in front of every message, and the two directions
-- between a message and a buffer. A buffer is the list of its bytes. Protobuf is the parameter
-- `Protobuf`; a `short` lies in memory with its low byte first, as on the x64 of the project files.
pub mod RoundTrip
pub mod Tests
use j1_server.Prelude.{
  ℕ, ◌+◌, ◌-◌, ◌*◌, ◌/◌, ◌%◌, ◌^◌, ◌≤◌, ◌<◌, ◌≡◌, Bool, true, false, Option, none, some, List, [],
  ◌∷◌, ◌++◌, length, take, drop, replicate, ltb, leb, if◌then◌else◌,
}
use j1_server.Prelude.Int.{ℤ, pos, wrap, signed}

-- `short Length; short Code;`
pub record PacketHeader : Type 0 where
  pub len : ℤ
  pub code : ℤ

-- `sizeof(PacketHeader)`
abbrev pub header_size : ℕ
header_size = 4

-- What the code calls of `google::protobuf::Message`, for one message type.
pub record Protobuf : Type 1 where
  pub Message : Type 0
  pub byte_size_long : Message → ℕ
  -- `none`: it returns false, for want of room.
  pub serialize_to_array : Message → ℕ → Option (List ℕ)
  pub parse_from_array : List ℕ → Option Message

-- The documented behaviour: with room for `ByteSizeLong()` bytes exactly these are written, and
-- they parse to the message.
pub record IsProtobuf (p : Protobuf) : Type 0 where
  pub size_law :
      (m : p.Message) (room : ℕ)
      → p.byte_size_long m ≤ room
      → (bytes : List ℕ) × (p.serialize_to_array m room ≡ some bytes)
        × (length bytes ≡ p.byte_size_long m)
        × (p.parse_from_array bytes ≡ some m)

-- `static_cast<short>(n)`
unfoldable pub to_short : ℕ → ℤ
to_short n = signed 16 (n % 2 ^ 16)

short_bytes : ℤ → List ℕ
short_bytes v = wrap 16 v % 256 ∷ wrap 16 v / 256 ∷ []

-- The bytes that `memcpy` takes from a `PacketHeader`.
unfoldable pub header_bytes : PacketHeader → List ℕ
unfolding short_bytes
header_bytes h = short_bytes h.len ++ short_bytes h.code

-- `memcpy(buffer + at, bytes)`, inside the buffer.
unfoldable pub overwrite : ℕ → List ℕ → List ℕ → List ℕ
overwrite at bytes buffer = take at buffer ++ (bytes ++ drop (at + length bytes) buffer)

module _ (p : Protobuf) where
  open p use {Message, byte_size_long, serialize_to_array, parse_from_array}

  unfoldable pub required_size : Message → ℕ
  required_size msg = header_size + byte_size_long msg

  -- The header is written before the payload fails: the buffer comes back either way.
  unfoldable pub serialize : List ℕ → ℤ → Message → Bool × List ℕ
  unfolding required_size
  serialize buffer packet_code msg =
      if ltb (length buffer) (required_size msg)
      then (false, buffer)
      else let header : PacketHeader = record {
        len = to_short (byte_size_long msg);
        code = packet_code;
      } in
        let buffer' = overwrite 0 (header_bytes header) buffer in
        elim (serialize_to_array msg (length buffer' - header_size)) [
          | none ↦ (false, buffer')
          | some bytes ↦ (true, overwrite header_size bytes buffer')
        ]

  -- `SendPacket` of every session class: a zeroed buffer of the required size, serialised into.
  unfoldable pub packet : ℤ → Message → Bool × List ℕ
  packet packet_code msg = serialize (replicate (required_size msg) 0) packet_code msg

  -- `Parse`: the offset grows by the size of the message that was read.
  unfoldable pub parse : List ℕ → ℕ → Option (Message × ℕ)
  parse buffer offset = elim (parse_from_array buffer) [
    | none ↦ none
    | some msg ↦ some (msg, offset + byte_size_long msg)
  ]

-- The header in four bytes of memory.
unfoldable pub header_of_bytes : List ℕ → Option PacketHeader
header_of_bytes (a ∷ b ∷ c ∷ d ∷ rest) =
    some (record { len = signed 16 (a + b * 256); code = signed 16 (c + d * 256) })
header_of_bytes _ = none

-- `ParseHeader`: the header at `offset` and the offset behind it; `none` where it returns false.
unfoldable pub parse_header : List ℕ → ℕ → Option (PacketHeader × ℕ)
unfolding header_of_bytes
parse_header buffer offset =
    if leb (length buffer) offset
    then none
    else if ltb (length buffer - offset) header_size
    then none
    else elim (header_of_bytes (drop offset buffer)) [
      | none ↦ none
      | some h ↦ some (h, offset + header_size)
    ]
