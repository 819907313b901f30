-- ===== src/Packet/RoundTrip.antt =====
-- Serialising a message and reading it back, as ServerCore/Packet.h does on the two ends.
use j1_server.Prelude.{
  ℕ, zero, suc, ◌+◌, ◌-◌, ◌*◌, ◌/◌, ◌%◌, ◌^◌, ◌≤◌, ◌<◌, ◌≡◌, refl, ap, sym, ◌∙◌, true, false, some,
  List, [], ◌∷◌, ◌++◌, append-nil, append_assoc, arith, length, take, drop, replicate,
  length-append, length-replicate, take_append, drop_append, ltb,
}
use j1_server.Prelude.Int.{ℤ, pos, negsuc, ◌≤ℤ◌, wrap, signed}
use j1_server.Packet.{
  PacketHeader, Protobuf, IsProtobuf, to_short, header_bytes, overwrite, required_size, serialize,
  packet, parse, header_of_bytes, parse_header,
}

-- A value that a `short` holds.
abbrev pub IsShort : ℤ → Type 0
IsShort v = (negsuc (2 ^ 15 - 1) ≤ℤ v) × (v ≤ℤ pos (2 ^ 15 - 1))

signed-wrap16 : (v : ℤ) → IsShort v → signed 16 (wrap 16 v % 256 + wrap 16 v / 256 * 256) ≡ v
signed-wrap16 (pos n) h = ground arith
signed-wrap16 (negsuc n) h = ground arith

pub header_of_bytes-header_bytes :
    (h : PacketHeader) (rest : List ℕ)
    → IsShort h.len
    → IsShort h.code
    → header_of_bytes (header_bytes h ++ rest) ≡ some h
unfolding header_of_bytes header_bytes
header_of_bytes-header_bytes h rest l c =
    ap some (λ i. record { len = signed-wrap16 h.len l i; code = signed-wrap16 h.code c i })

pub to_short-IsShort : (n : ℕ) → IsShort (to_short n)
unfolding to_short
to_short-IsShort n = ground arith

pub to_short_small : (n : ℕ) → n < 2 ^ 15 → to_short n ≡ pos n
unfolding to_short
to_short_small n h = ground arith

pub to_short_large : (n : ℕ) → 2 ^ 15 ≤ n → n < 2 ^ 16 → to_short n ≡ negsuc (2 ^ 16 - 1 - n)
unfolding to_short
to_short_large n h k = ground arith

length-header_bytes : (h : PacketHeader) → length (header_bytes h) ≡ 4
unfolding header_bytes
length-header_bytes h = refl

take-header_bytes :
    (h : PacketHeader) (rest : List ℕ) → take 4 (header_bytes h ++ rest) ≡ header_bytes h
unfolding header_bytes
take-header_bytes h rest = refl

drop-header_bytes : (h : PacketHeader) (rest : List ℕ) → drop 4 (header_bytes h ++ rest) ≡ rest
unfolding header_bytes
drop-header_bytes h rest = refl

drop_all : (xs : List ℕ) (n : ℕ) → length xs ≡ n → drop n xs ≡ []
drop_all [] zero h = refl
drop_all [] (suc n) h = refl
drop_all (x ∷ xs) zero h = absurd (omega arith)
drop_all (x ∷ xs) (suc n) h = drop_all xs n (omega arith)

overwrite_header :
    (h : PacketHeader) (a b c d : ℕ) (rest : List ℕ)
    → overwrite 0 (header_bytes h) (a ∷ b ∷ c ∷ d ∷ rest) ≡ header_bytes h ++ rest
unfolding overwrite header_bytes
overwrite_header h a b c d rest = refl

overwrite_payload :
    (h : PacketHeader) (bytes rest : List ℕ)
    → length bytes ≡ length rest
    → overwrite 4 bytes (header_bytes h ++ rest) ≡ header_bytes h ++ bytes
unfolding overwrite header_bytes
overwrite_payload h bytes rest e = rw (
  (let s : 4 + length bytes ≡ suc (suc (suc (suc (length bytes)))) = omega arith in s),
  drop_all rest (length bytes) (sym e),
  append-nil,
)

four_more : {A : Type 0} (n : ℕ) (a : A) → replicate (4 + n) a ≡ a ∷ a ∷ a ∷ a ∷ replicate n a
four_more n a = rw (let s : 4 + n ≡ suc (suc (suc (suc n))) = omega arith in s)

module _ (p : Protobuf) (laws : IsProtobuf p) where
  open p use {Message, byte_size_long, serialize_to_array, parse_from_array}

  serialize_lem :
      (code : ℤ) (msg : Message) (a b c d : ℕ) (rest bytes : List ℕ)
      → length rest ≡ byte_size_long msg
      → serialize_to_array msg (byte_size_long msg) ≡ some bytes
      → length bytes ≡ byte_size_long msg
      → serialize p (a ∷ b ∷ c ∷ d ∷ rest) code msg ≡ (
        true,
        header_bytes (record { len = to_short (byte_size_long msg); code = code }) ++ bytes,
      )
  unfolding serialize
  serialize_lem code msg a b c d rest bytes room written exact =
      rw (fits, overwrite_header header a b c d rest, length_payload, written, serialize)
        (ap (λ b. (true, b))
          (ap (overwrite 4 bytes) (overwrite_header header a b c d rest)
            ∙ overwrite_payload header bytes rest (exact ∙ sym room)))
    where
      header : PacketHeader
      header = record { len = to_short (byte_size_long msg); code = code }

      fits : ltb (length (a ∷ b ∷ c ∷ d ∷ rest)) (4 + byte_size_long msg) ≡ false
      fits = ground arith

      length_payload : length (header_bytes header ++ rest) - 4 ≡ byte_size_long msg
      length_payload =
          omega (arith, length-append (header_bytes header) rest, length-header_bytes header)

  -- What `SendPacket` puts on the wire.
  pub packet_lem :
      (code : ℤ) (msg : Message)
      → (bytes : List ℕ) × (packet p code msg ≡ (
        true,
        header_bytes (record { len = to_short (byte_size_long msg); code = code }) ++ bytes,
      ))
        × (length bytes ≡ byte_size_long msg)
        × (parse_from_array bytes ≡ some msg)
  unfolding packet required_size
  packet_lem code msg =
      let (bytes, written, exact, parses) = laws.size_law msg (byte_size_long msg) (omega arith) in
      (
        bytes,
        rw (four_more {A = ℕ} (byte_size_long msg) 0) (
            serialize_lem code msg 0 0 0 0 (replicate (byte_size_long msg) 0) bytes
              (length-replicate (byte_size_long msg) 0) written exact),
        exact,
        parses,
      )

pub parse_header-header_bytes :
    (h : PacketHeader)
    → IsShort h.len
    → IsShort h.code
    → parse_header (header_bytes h) 0 ≡ some (h, 4)
unfolding parse_header
parse_header-header_bytes h l c = rw (
  (let n : length (header_bytes h) ≡ 4 = length-header_bytes h in n),
  (let e : header_of_bytes (drop 0 (header_bytes h)) ≡ some h = whole in e),
  parse_header,
)
  where
    whole : header_of_bytes (header_bytes h) ≡ some h
    whole = rw (append-nil (header_bytes h)) at (header_of_bytes-header_bytes h [] l c)

module _ (p : Protobuf) (laws : IsProtobuf p) where
  open p use {Message, byte_size_long, parse_from_array}

  -- A message of fewer than 2^15 bytes, serialised by `SendPacket` with a code that fits a `short`,
  -- is read back from the front of the wire: `Serialize` reports success, `ParseHeader` on the
  -- first four bytes gives the size and the code, `Parse` on as many bytes as the header says gives
  -- the message, and what follows on the wire is left untouched.
  pub parse-packet :
      (code : ℤ) (msg : Message) (rest : List ℕ)
      → IsShort code
      → byte_size_long msg < 2 ^ 15
      → let (done, bytes) = packet p code msg in
        (done ≡ true)
        × (parse_header (take 4 (bytes ++ rest)) 0
            ≡ some (record { len = pos (byte_size_long msg); code = code }, 4))
        × (parse p (take (byte_size_long msg) (drop 4 (bytes ++ rest))) 4
            ≡ some (msg, 4 + byte_size_long msg))
        × (drop (byte_size_long msg) (drop 4 (bytes ++ rest)) ≡ rest)
  unfolding parse
  parse-packet code msg rest short small =
      let (bytes, sent, exact, parses) = packet_lem p laws code msg in
      let h : PacketHeader = record { len = to_short (byte_size_long msg); code = code } in
      rw
        (
          sent,
          append_assoc (header_bytes h) bytes rest,
          take-header_bytes h (bytes ++ rest),
          drop-header_bytes h (bytes ++ rest),
          take_append bytes rest exact,
          drop_append bytes rest exact,
        )
        (
          refl,
          parse_header-header_bytes h (to_short-IsShort (byte_size_long msg)) short ∙ (λ i.
              some (record { len = to_short_small (byte_size_long msg) small i; code = code }, 4)),
          rw (parse, parses),
          refl,
        )

  pub length-packet :
      (code : ℤ) (msg : Message) → length (packet p code msg).1 ≡ 4 + byte_size_long msg
  length-packet code msg =
      let (bytes, sent, exact, parses) = packet_lem p laws code msg in
      let h : PacketHeader = record { len = to_short (byte_size_long msg); code = code } in
      rw sent (omega (arith, length-append (header_bytes h) bytes, length-header_bytes h))

  -- The class of messages that the code gets wrong: from 2^15 to 2^16 - 1 bytes `Serialize` still
  -- reports success, and the length that `ParseHeader` reads is negative.
  pub packet_oversized :
      (code : ℤ) (msg : Message)
      → IsShort code
      → 2 ^ 15 ≤ byte_size_long msg
      → byte_size_long msg < 2 ^ 16
      → let (done, bytes) = packet p code msg in
        (done ≡ true)
        × (parse_header (take 4 bytes) 0
            ≡ some (record { len = negsuc (2 ^ 16 - 1 - byte_size_long msg); code = code }, 4))
  packet_oversized code msg short large fits =
      let (bytes, sent, exact, parses) = packet_lem p laws code msg in
      let h : PacketHeader = record { len = to_short (byte_size_long msg); code = code } in
      rw (sent, take-header_bytes h bytes)
        (
          refl,
          parse_header-header_bytes h (to_short-IsShort (byte_size_long msg)) short ∙ (λ i.
              some (
                record { len = to_short_large (byte_size_long msg) large fits i; code = code },
                4,
              )),
        )
