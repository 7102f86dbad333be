-- ===== src/Ipc/Server/Tests.antt =====
-- The server with one client, and the answers that it sends.
use utils_c.Ipc.Server.Start.{Calls, same, sockfd, init_server, init_server-track}
use utils_c.Ipc.Resources.{track, is_some}
use utils_c.Base.{
  ℕ, ◌<◌, ◌≡◌, refl, arith, inl, true, Option, some, List, [], ◌∷◌, replicate, length,
  some_injective, ok, done, ap, sym, false,
}
use utils_c.Hash.Key.{uint64, cal_key_len}
use utils_c.Hash.Key.Compare.{IsKey, hashed_bytes}
use utils_c.Hash.Table.Chains.{lookup}
use utils_c.Hash.Table.Invariant.{view, key_len}
use utils_c.Io.{WriteResult, accepted, io_write, write_loop}
use utils_c.Ipc.Proto
use utils_c.Ipc.Proto.{Header, Packet, header_len, header_bytes, header_of, to_le}
use utils_c.Ipc.Frame.{Cli, reset_cli_proto}
use utils_c.Ipc.Frame.Place.{IsPacket, payload}
use utils_c.Ipc.Server.{
  Server, Sent, Handled, replied, piped, Callback, uuid_key, send_msg, handle_client_msg, callback,
  pipe_write,
}
use utils_c.Ipc.Server.Send.{IsServer, CanSend, Sends, outgoing, counted, fd_of, send_msg-Sends}
use utils_c.Ipc.Server.Answer.{
  Holds, pipe_data, handle-sync, sync_answered, async_acked, heartbeat_echoed,
}
use utils_c.Ipc.Server.Pipe.{Reaches, handle_client_msg-Reaches}

abbrev first_byte : List ℕ → ℕ
first_byte [] = 0
first_byte (b ∷ bs) = b

-- The client 1 has the descriptor 7.
abbrev server : Server
server = record {
  seq_id = 20000;
  fds = record {
    name = [];
    key_type = uint64;
    mem_key_len = 0;
    node_ttl = 1;
    height = 2;
    hash_cal_fun = first_byte;
    nodes = [] ∷ (record { keys = uuid_key 1; val = 7 } ∷ []) ∷ [];
  };
}

uuid-IsKey : IsKey 0 (uuid_key 1)
unfolding to_le
uuid-IsKey = record { size = refl; octets = omega arith; mem_size = omega arith }

server-IsServer : IsServer server
unfolding key_len cal_key_len hashed_bytes lookup to_le
server-IsServer = record {
  valid = record {
    known = refl;
    room = omega arith;
    width = refl;
    placed = (tt, ((uuid-IsKey, refl, refl, tt), tt));
    counted = refl;
  };
  key_type = refl;
  mem_key_len = refl;
}

abbrev zeroed : ℕ → Option (List ℕ)
zeroed n = some (replicate n 0)

abbrev slow : List WriteResult
slow = accepted 20 ∷ WriteResult.again ∷ accepted 11 ∷ []

slow-CanSend : CanSend zeroed slow 31
slow-CanSend = record {
  sized = λ block e. ap (length {A = ℕ}) (sym (some_injective e));
  small = omega arith;
  takes = omega arith;
  willing = tt;
  enough = omega arith;
}

send_msg-Sends_example :
    (s : Sent) × (send_msg zeroed slow server 1 70000 Proto.sync_ack (some (1 ∷ 2 ∷ 3 ∷ [])) 3
      ≡ ok (counted server, s))
    × Sends
        (outgoing server 70000 Proto.sync_ack (1 ∷ 2 ∷ 3 ∷ []))
        slow
        (fd_of server 1)
        (zeroed 31)
        s
send_msg-Sends_example =
    send_msg-Sends zeroed slow server server-IsServer 1 70000 Proto.sync_ack (some (1 ∷ 2 ∷ 3 ∷ []))
      (1 ∷ 2 ∷ 3 ∷ []) slow-CanSend (inl refl)

-- The descriptor is found.
fd_of_one : fd_of server 1 ≡ some 7
unfolding view lookup hashed_bytes key_len cal_key_len to_le
fd_of_one = refl

abbrev packet : ℕ → Packet
packet msg_type = record {
  head = record { ttl = 3; msg_type = msg_type; seq_id = 70000; ack_id = 0 };
  buf = 1 ∷ 2 ∷ 3 ∷ [];
}

packet-IsPacket : (msg_type : ℕ) → msg_type < 10 → IsPacket (packet msg_type)
packet-IsPacket msg_type h = record {
  head = record {
    ttl = omega arith;
    msg_type = omega arith;
    seq_id = omega arith;
    ack_id = omega arith;
  };
  counted = refl;
  room = omega arith;
}

abbrev holder : ℕ → Cli
holder msg_type = record {
  has_read = 31;
  head_done = true;
  buf_done = true;
  ipc_head = header_bytes (packet msg_type).head;
  buf = some (1 ∷ 2 ∷ 3 ∷ []);
}

holder-Holds : (msg_type : ℕ) → Holds (holder msg_type) (packet msg_type)
unfolding payload
holder-Holds msg_type = record { buf_done = refl; ipc_head = refl; buf = refl }

abbrev pointer : List ℕ
pointer = 16 ∷ 32 ∷ 48 ∷ 64 ∷ 0 ∷ 0 ∷ 0 ∷ 0 ∷ []

abbrev pipe : List WriteResult
pipe = accepted 8 ∷ []

pipe_taken : pipe_write pipe pointer ≡ some true
unfolding pipe_write io_write write_loop
pipe_taken = refl

-- A callback that returns what it is called with.
abbrev mirror : Callback
mirror msg_type buf len = (buf, len)

sync_answered_example :
    (s : Sent) × (handle_client_msg zeroed slow pipe server 1
        (holder Proto.sync_send)
        (some pointer)
      ≡ ok (record {
        server = server;
        cli = reset_cli_proto (holder Proto.sync_send);
        events = piped (pipe_data 1 (packet Proto.sync_send)) ∷ [];
        ret = some done;
      }))
    × (callback zeroed slow mirror server (pipe_data 1 (packet Proto.sync_send))
        ≡ ok (counted server, some s))
    × Sends
        (outgoing server 70000 Proto.sync_ack (1 ∷ 2 ∷ 3 ∷ []))
        slow
        (fd_of server 1)
        (zeroed 31)
        s
sync_answered_example =
    sync_answered zeroed slow pipe server 1 (holder Proto.sync_send) (packet Proto.sync_send)
      (packet-IsPacket Proto.sync_send (omega arith)) (holder-Holds Proto.sync_send) pointer server
      mirror (some (1 ∷ 2 ∷ 3 ∷ [])) (1 ∷ 2 ∷ 3 ∷ []) refl pipe_taken server-IsServer
      (unfold payload in refl) (inl refl) slow-CanSend

short-CanSend : CanSend zeroed (accepted 28 ∷ []) 28
short-CanSend = record {
  sized = λ block e. ap (length {A = ℕ}) (sym (some_injective e));
  small = omega arith;
  takes = omega arith;
  willing = tt;
  enough = omega arith;
}

async_acked_example :
    (s : Sent) × (handle_client_msg zeroed
        (accepted 28 ∷ [])
        pipe
        server
        1
        (holder Proto.async_send)
        (some pointer)
      ≡ ok (record {
        server = counted server;
        cli = reset_cli_proto (holder Proto.async_send);
        events = replied s ∷ piped (pipe_data 1 (packet Proto.async_send)) ∷ [];
        ret = some done;
      }))
    × Sends
        (outgoing server 70000 Proto.async_ack [])
        (accepted 28 ∷ [])
        (fd_of server 1)
        (zeroed 28)
        s
async_acked_example =
    async_acked zeroed (accepted 28 ∷ []) pipe server 1 (holder Proto.async_send)
      (packet Proto.async_send) (packet-IsPacket Proto.async_send (omega arith))
      (holder-Holds Proto.async_send) pointer refl pipe_taken server-IsServer short-CanSend

heartbeat_echoed_example :
    (s : Sent) × (handle_client_msg zeroed slow pipe server 1
        (holder Proto.heartbeat)
        (some pointer)
      ≡ ok (record {
        server = counted server;
        cli = reset_cli_proto (holder Proto.heartbeat);
        events = replied s ∷ [];
        ret = some done;
      }))
    × Sends
        (outgoing server 70000 Proto.heartbeat (1 ∷ 2 ∷ 3 ∷ []))
        slow
        (fd_of server 1)
        (zeroed 31)
        s
heartbeat_echoed_example =
    heartbeat_echoed zeroed slow pipe server 1 (holder Proto.heartbeat) (packet Proto.heartbeat)
      (packet-IsPacket Proto.heartbeat (omega arith)) (holder-Holds Proto.heartbeat) pointer refl
      server-IsServer (0 ∷ 0 ∷ 0 ∷ [], refl, refl) slow-CanSend

abbrev handed : Handled
handed = record {
  server = server;
  cli = reset_cli_proto (holder Proto.sync_send);
  events = piped (pipe_data 1 (packet Proto.sync_send)) ∷ [];
  ret = some done;
}

handed_run :
    handle_client_msg zeroed slow pipe server 1 (holder Proto.sync_send) (some pointer) ≡ ok handed
handed_run =
    handle-sync zeroed slow pipe server 1 (holder Proto.sync_send) (packet Proto.sync_send)
      (packet-IsPacket Proto.sync_send (omega arith)) (holder-Holds Proto.sync_send) pointer refl
      pipe_taken

handle_client_msg-Reaches_example :
    Reaches 1 (holder Proto.sync_send) pipe (some pointer) (pipe_data 1 (packet Proto.sync_send))
handle_client_msg-Reaches_example =
    handle_client_msg-Reaches zeroed slow pipe server 1 (holder Proto.sync_send) (some pointer)
      handed (pipe_data 1 (packet Proto.sync_send)) handed_run (inl refl)

-- Somebody listens at the port already.
abbrev taken_port : Calls
taken_port = record {
  calloc = true;
  mutex_init_fd = true;
  mutex_init_seq = true;
  random = some 77;
  pipe = true;
  epoll_create = true;
  create_info = true;
  create_fd = true;
  socket = true;
  bind = true;
  listen = false;
  calloc_cli = true;
  epoll_add = true;
  create_pool = true;
}

init_server-track_example :
    (track same sockfd (init_server taken_port).1 false ≡ some false)
    × (is_some (init_server taken_port).0 ≡ false)
init_server-track_example = init_server-track taken_port sockfd
