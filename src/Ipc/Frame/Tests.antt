-- ===== src/Ipc/Frame/Tests.antt =====
-- The receiving loop on a stream of two packets, in pieces.
use utils_c.Base.{ℕ, ◌≡◌, refl, arith, Option, some, List, [], ◌∷◌, take, drop, replicate, map}
use utils_c.Hash.Key.{value_of}
use utils_c.Io.{ReadResult, got, bytes}
use utils_c.Ipc.Proto
use utils_c.Ipc.Proto.{
  Header, Packet, IsHeader, header_bytes, header_of, to_le, packet_bytes, header_of-header_bytes,
}
use utils_c.Ipc.Frame.{read_step, wants, stored, head_read, buf_read, reset_cli_proto, serve}
use utils_c.Ipc.Frame.Place.{IsPacket, delivered}
use utils_c.Ipc.Frame.Stream.{fresh, Flows, AllGood, serve-packets}

abbrev request : Packet
request = record {
  head = record { ttl = 3; msg_type = Proto.sync_send; seq_id = 70000; ack_id = 0 };
  buf = 1 ∷ 2 ∷ 3 ∷ [];
}

abbrev ping : Packet
ping = record {
  head = record { ttl = 0; msg_type = Proto.heartbeat; seq_id = 70001; ack_id = 0 };
  buf = [];
}

abbrev zeroed : ℕ → Option (List ℕ)
zeroed n = some (replicate n 0)

-- The header of the request comes in two parts and its payload in two, with a wait and an interrupt.
abbrev pieces : List ReadResult
pieces =
    got (take 10 (header_bytes request.head))
    ∷ ReadResult.again
    ∷ got (drop 10 (header_bytes request.head))
    ∷ ReadResult.interrupted
    ∷ got (1 ∷ [])
    ∷ got (2 ∷ 3 ∷ [])
    ∷ got (header_bytes ping.head)
    ∷ ReadResult.again
    ∷ []

request-IsPacket : IsPacket request
request-IsPacket = record {
  head = record {
    ttl = omega arith;
    msg_type = omega arith;
    seq_id = omega arith;
    ack_id = omega arith;
  };
  counted = refl;
  room = omega arith;
}

ping-IsPacket : IsPacket ping
ping-IsPacket = record {
  head = record {
    ttl = omega arith;
    msg_type = omega arith;
    seq_id = omega arith;
    ack_id = omega arith;
  };
  counted = refl;
  room = omega arith;
}

both_good : AllGood zeroed (request ∷ ping ∷ [])
both_good = (request-IsPacket, (0 ∷ 0 ∷ 0 ∷ [], refl, refl), (ping-IsPacket, ([], refl, refl), tt))

pieces-Flows : Flows zeroed fresh pieces
unfolding read_step wants stored head_read buf_read header_of header_bytes value_of to_le
    reset_cli_proto
pieces-Flows = omega arith

serve-packets_example :
    serve 9 zeroed fresh pieces ≡ (map delivered (request ∷ ping ∷ []), some fresh)
serve-packets_example =
    serve-packets zeroed (request ∷ ping ∷ []) pieces 9 both_good pieces-Flows
      (unfold bytes header_bytes in refl) (omega arith)
