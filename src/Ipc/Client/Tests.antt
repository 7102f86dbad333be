-- ===== src/Ipc/Client/Tests.antt =====
-- A client with one message, its answer, and the wait for it.
use utils_c.Ipc.Client.Start.{Attempts, equal, io_sockfd, init_client, init_client-track}
use utils_c.Ipc.Resources.{track, is_some}
use utils_c.Base.{
  ℕ, ◌+◌, ◌<◌, ◌≡◌, ◌↔◌, ◌*◌, ◌%◌, refl, sym, ap, subst, ◌∙◌, inl, inr, arith, true, false, Option,
  none, some, some_injective, List, [], ◌∷◌, take, drop, length, replicate, ok, done,
}
use utils_c.Hash.Key.{uint64, cal_key_len}
use utils_c.Hash.Table.Chains.{lookup}
use utils_c.Hash.Table.Invariant.{view, key_len}
use utils_c.Io.{
  ReadResult, got, bytes, ReadEnd, left, Fits, io_read, read_loop, WriteResult, accepted,
}
use utils_c.Io.Read.{Steady}
use utils_c.Ipc.Proto
use utils_c.Ipc.Proto.{Packet, IsHeader, header_bytes, packet_bytes, u64_key, to_le}
use utils_c.Ipc.Frame.Place.{IsPacket}
use utils_c.Ipc.Numbered.{IsNumbered, entry, Sets, u64_key-IsKey}
use utils_c.Ipc.Server.Send.{CanSend}
use utils_c.Ipc.Client.{
  Acks, Client, begin_send, insert_seq, wait_wake, signalled, takes, rcv_msg, keeps, deadline,
}
use utils_c.Ipc.Client.Receive.{Reads, IsAnswer, rcv_msg-awaited}
use utils_c.Ipc.Client.Wait.{insert_seq-Sets, wait_finish-Sets, wait_wake-takes}
use utils_c.Ipc.Client.Exchange.{Exchange, begin_send-Exchange}
use utils_c.Ipc.Client.System.{
  System, Reach, here, next, notes, receives, wakes, Correlates, Reach-Correlates,
}
use utils_c.Ipc.Client.Deadline.{deadline-bounds}

abbrev table : Acks
table = record {
  name = [];
  key_type = uint64;
  mem_key_len = 0;
  node_ttl = 0;
  height = 1;
  hash_cal_fun = λ bs. 0;
  nodes = [] ∷ [];
}

table-IsNumbered : IsNumbered table
unfolding key_len cal_key_len
table-IsNumbered = record {
  valid = record {
    known = refl;
    room = omega arith;
    width = refl;
    placed = (tt, tt);
    counted = refl;
  };
  key_type = refl;
  mem_key_len = refl;
}

nothing : (seq : ℕ) → entry table seq ≡ none
unfolding view lookup
nothing seq = refl

abbrev client : Client
client = record { io_sockfd = 5; seq_id = 20000; acks = table }

abbrev zeroed : ℕ → Option (List ℕ)
zeroed n = some (replicate n 0)

abbrev slow : List WriteResult
slow = accepted 20 ∷ WriteResult.again ∷ accepted 11 ∷ []

slow-CanSend : CanSend zeroed slow 31
slow-CanSend = record {
  sized = λ block e. ap (length {A = ℕ}) (sym (some_injective e));
  small = omega arith;
  takes = omega arith;
  willing = tt;
  enough = omega arith;
}

abbrev answer : Packet
answer = record {
  head = record { ttl = 2; msg_type = Proto.sync_ack; seq_id = 30000; ack_id = 20000 };
  buf = 7 ∷ 8 ∷ [];
}

answer-IsPacket : IsPacket answer
answer-IsPacket = record {
  head = record {
    ttl = omega arith;
    msg_type = omega arith;
    seq_id = omega arith;
    ack_id = omega arith;
  };
  counted = refl;
  room = omega arith;
}

answer-IsAnswer : IsAnswer answer
answer-IsAnswer = record { kind = inr refl; numbered = omega arith; fits = omega arith }

-- The header comes in two parts.
abbrev pieces : List ReadResult
pieces =
    got (take 10 (header_bytes answer.head))
    ∷ ReadResult.interrupted
    ∷ got (drop 10 (header_bytes answer.head))
    ∷ got (7 ∷ 8 ∷ [])
    ∷ []

abbrev after_head : ReadEnd
after_head = record {
  ret = left 0;
  buf = header_bytes answer.head;
  closed = false;
  rest = got (7 ∷ 8 ∷ []) ∷ [];
}

head_run : io_read pieces 28 ≡ some after_head
unfolding io_read read_loop header_bytes
head_run = refl

body-Fits : Fits 2 after_head.rest
body-Fits = ((λ h. (omega arith, omega arith, omega arith)), tt)

pieces-Reads : Reads pieces 2
pieces-Reads = record {
  head_fits =
      unfold header_bytes in
      (
        (λ h. (omega arith, omega arith, omega arith)),
        ((λ h. (omega arith, omega arith, omega arith)), ((λ h. absurd (h refl)), tt)),
      );
  head_steady = tt;
  body_fits =
      λ r e. subst (λ (x : ReadEnd). Fits 2 x.rest) (some_injective (sym head_run ∙ e)) body-Fits;
  body_steady =
      λ r e. subst (λ (x : ReadEnd). Steady x.rest) (some_injective (sym head_run ∙ e)) tt;
}

begin_send-Exchange_example :
    Exchange
      (begin_send 0x7b4123c4 0x5f879be6 Proto.sync_send zeroed true slow
        (some (u64_key 0))
        client
        (some (1 ∷ 2 ∷ 3 ∷ []))
        3)
      zeroed
      client
      Proto.sync_send
      (1 ∷ 2 ∷ 3 ∷ [])
      pieces
      answer
      []
begin_send-Exchange_example =
    begin_send-Exchange 0x7b4123c4 0x5f879be6 Proto.sync_send zeroed slow (u64_key 0) client
      table-IsNumbered (omega arith) (u64_key-IsKey 0 0 refl) (some (1 ∷ 2 ∷ 3 ∷ []))
      (1 ∷ 2 ∷ 3 ∷ []) (replicate 31 0) (replicate 30 0) [] answer pieces (nothing 20000)
      slow-CanSend refl (inl refl) answer-IsPacket (omega arith) answer-IsAnswer refl refl refl
      pieces-Reads (unfold bytes header_bytes in refl)

deadline-bounds_example :
    ((deadline 5 999000 1500).0 * 1000000000 + (deadline 5 999000 1500).1
      ≡ 5 * 1000000000 + 999000 * 1000 + 1500 * 1000000)
    × (((deadline 5 999000 1500).1 < 1000000000) ↔ (999000 + 1500 % 1000 * 1000 < 1000000))
deadline-bounds_example = deadline-bounds 5 999000 1500 (omega arith)

-- A caller notes the number, its answer comes, and the wait is signalled.
noted :
    (acks : Acks) × (insert_seq table 20000 (some (u64_key 0)) ≡ ok (done, acks))
    × Sets table 20000 (some none) acks
noted =
    insert_seq-Sets table table-IsNumbered 20000 (omega arith) (u64_key 0) (u64_key-IsKey 0 0 refl)

slot_noted : entry noted.0 20000 ≡ some none
slot_noted = noted.2.entries 20000 (omega arith)

received :
    (acks : Acks) × (rcv_msg noted.0 answer ≡ ok (keeps acks))
    × Sets noted.0 20000 (some (some answer)) acks
received = rcv_msg-awaited noted.0 noted.2.numbered answer answer-IsAnswer none slot_noted

slot_received : entry received.0 20000 ≡ some (some answer)
slot_received = received.2.entries 20000 (omega arith)

finished : (acks : Acks) × (wait_wake true signalled received.0 20000 ≡ ok (takes answer, acks))
finished =
    let (acks, e, _) =
      wait_finish-Sets received.0 received.2.numbered 20000 (omega arith) (some answer)
        slot_received in
    (
      acks,
      wait_wake-takes received.0 received.2.numbered 20000 (omega arith) true answer slot_received
          ∙ e,
    )

abbrev initial : System
initial = record { acks = table; arrived = []; answers = [] }

last : System
last = record { acks = finished.0; arrived = answer ∷ []; answers = (20000, answer) ∷ [] }

run : Reach initial last
unfolding last
run =
    next
      (next
        (next here (
          notes 20000 (some (u64_key 0)) (done, noted.0) (omega arith) (u64_key-IsKey 0 0 refl)
            noted.1 refl))
        (receives answer (keeps received.0) (omega arith) received.1 refl))
      (wakes 20000 true signalled (takes answer, finished.0) (omega arith) finished.1 refl)

Reach-Correlates_example : Correlates last
Reach-Correlates_example =
    Reach-Correlates
      (record { numbered = table-IsNumbered; empty = λ seq k. nothing seq; no_answers = refl }) run

-- Nobody listens at the port.
abbrev refused : Attempts
refused = record {
  calloc = true;
  init_io = true;
  init_seq = true;
  init_ack = true;
  init_cond = true;
  urandom = some 77;
  socket = true;
  connect = false;
  create_hash = true;
  create_pool = true;
}

init_client-track_example :
    (track equal io_sockfd (init_client refused).1 false ≡ some false)
    × (is_some (init_client refused).0 ≡ false)
init_client-track_example = init_client-track refused io_sockfd
