-- ===== src/Packet/Tests.antt =====
-- ServerCore/Packet.h on messages of `n` zero bytes.
use j1_server.Prelude.{
  ℕ, ◌+◌, ◌≡◌, ap, true, false, none, some, ◌∷◌, [], ◌++◌, arith, length, length-replicate, take,
  drop, replicate, ltb, if◌then◌else◌,
}
use j1_server.Prelude.Int.{pos, negsuc}
use j1_server.Packet.{Protobuf, IsProtobuf, packet, parse, parse_header}
use j1_server.Packet.RoundTrip.{parse-packet, packet_oversized}

abbrev pub zeros : Protobuf
zeros = record {
  Message = ℕ;
  byte_size_long = λ n. n;
  serialize_to_array = λ n room. if ltb room n then none else some (replicate n 0);
  parse_from_array = λ bytes. some (length bytes);
}

pub zeros-IsProtobuf : IsProtobuf zeros
zeros-IsProtobuf = record {
  size_law = λ n room h. (
    replicate n 0,
    (let t : ltb room n ≡ false = ground arith in rw t),
    length-replicate n 0,
    ap some (length-replicate n 0),
  );
}

packet_read_back :
    let (done, bytes) = packet zeros (pos 4001) 3 in
    (done ≡ true)
    × (parse_header (take 4 (bytes ++ 7 ∷ [])) 0
        ≡ some (record { len = pos 3; code = pos 4001 }, 4))
    × (parse zeros (take 3 (drop 4 (bytes ++ 7 ∷ []))) 4 ≡ some (3, 4 + 3))
    × (drop 3 (drop 4 (bytes ++ 7 ∷ [])) ≡ 7 ∷ [])
packet_read_back =
    parse-packet zeros zeros-IsProtobuf (pos 4001) 3 (7 ∷ []) (omega arith, omega arith)
      (omega arith)

packet_oversized_example :
    let (done, bytes) = packet zeros (pos 4001) 40000 in
    (done ≡ true)
    × (parse_header (take 4 bytes) 0 ≡ some (record { len = negsuc 25535; code = pos 4001 }, 4))
packet_oversized_example =
    packet_oversized zeros zeros-IsProtobuf (pos 4001) 40000 (omega arith, omega arith)
      (omega arith) (omega arith)
