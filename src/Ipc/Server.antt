-- ===== src/Ipc/Server.antt =====
-- ipc/uc_ipc_server.c: what the server does with a message, and how it sends one.
pub mod Clients
pub mod Start
pub mod Send
pub mod Answer
pub mod Pipe
mod Tests
use utils_c.Base.{
  ℕ, zero, suc, ◌+◌, ◌%◌, ◌^◌, ◌==◌, if◌then◌else◌, Bool, true, false, Option, none, some, List, [],
  ◌∷◌, ◌++◌, length, take, replicate, ◌||◌, Run, ok, fault, ◌>>=◌, Status, done, failed,
}
use utils_c.Hash.Key.{Key}
use utils_c.Hash.Table.{Table, Node, find}
use utils_c.Io.{Return, left, error, WriteResult, WriteEnd, io_write, is_zero}
use utils_c.Io.Random.{put}
use utils_c.Ipc.Proto
use utils_c.Ipc.Proto.{Header, header_len, header_bytes, header_of, to_le, next_seq_id, u64_key}
use utils_c.Ipc.Frame.{Cli, reset_cli_proto}

-- The part of `uc_ipc_server_handler_t` that sending is about: the next number, and the descriptors of
-- the clients by their uuid.
pub record Server : Type 0 where
  pub seq_id : ℕ
  pub fds : Table ℕ

abbrev pub uuid_key : ℕ → Key
uuid_key uuid = u64_key uuid

-- How a message is sent: not at all, with an error; or `uc_io_write` has returned, for a descriptor; or
-- it has not returned yet.
pub data Sent : Type 0 where
  unsent : ℕ → Sent
  wrote : ℕ → WriteEnd → Sent
  writing : Sent

abbrev pub is_sent : Sent → Bool
is_sent (unsent e) = false
is_sent (wrote fd r) = is_zero r.ret
is_sent writing = false

-- The packet in its block.
pub fill_packet : List ℕ → Header → Option (List ℕ) → ℕ → List ℕ
fill_packet block head none len = put block 0 (header_bytes head)
fill_packet block head (some buf) len =
    if len == 0
    then put block 0 (header_bytes head)
    else put (put block 0 (header_bytes head)) header_len (take len buf)

unfoldable pub write_packet : List WriteResult → Option (Node ℕ) → List ℕ → ℕ → Sent
write_packet ws none packet len = unsent 0x5e8ef49f
write_packet ws (some node) packet len = elim (io_write ws packet len) [
  | none ↦ writing
  | some r ↦ wrote node.val r
]

-- `malloc` tells of each size what block it gives; `ws` are the results of write(2).
module _ (malloc : ℕ → Option (List ℕ)) (ws : List WriteResult) where
  pub send_block : Server → ℕ → Header → Option (List ℕ) → ℕ → Option (List ℕ) → Run (Server × Sent)
  unfolding fill_packet write_packet
  send_block srv cli_uuid head buf len none = ok (srv, unsent 0x1f9385ca)
  send_block srv cli_uuid head buf len (some block) = find srv.fds (uuid_key cli_uuid) >>= λ node.
      ok (srv, write_packet ws node (fill_packet block head buf len) ((header_len + len) % 2 ^ 64))

  pub send_msg : Server → ℕ → ℕ → ℕ → Option (List ℕ) → ℕ → Run (Server × Sent)
  unfolding next_seq_id send_block
  send_msg srv cli_uuid ack_id msg_type buf len =
      let (seq_id, next) = next_seq_id srv.seq_id in
      send_block (record srv { seq_id = next }) cli_uuid
        (record { ttl = len; msg_type = msg_type; seq_id = seq_id; ack_id = ack_id }) buf len
        (malloc ((header_len + len) % 2 ^ 64))

  pub send_ack : Server → ℕ → ℕ → Run (Server × (Sent × Status))
  unfolding send_msg
  send_ack srv cli_uuid ack_id = send_msg srv cli_uuid ack_id Proto.async_ack none 0 >>= λ r.
      ok (r.0, (r.1, (if is_sent r.1 then done else failed 0x274ceea5)))

-- A message for the thread that calls back.
pub record PipeData : Type 0 where
  pub cli_uuid : ℕ
  pub ipc_head : List ℕ
  pub buf : Option (List ℕ)

abbrev pub head_of : PipeData → Header
head_of m = header_of m.ipc_head

-- What is sent, when anything is.
abbrev pub Reply : Type 0
Reply = Option Sent

abbrev pub reply : Server × Sent → Run (Server × Reply)
reply r = ok (r.0, some r.1)

-- `malloc` and `memcpy` for an echo. A payload that is NULL cannot be copied.
pub echo : Option (List ℕ) → Option (List ℕ) → ℕ → Run (Option (List ℕ))
echo none buf len = ok none
echo (some block) none len = fault
echo (some block) (some buf) len = ok (some (put block 0 (take len buf)))

module _ (malloc : ℕ → Option (List ℕ)) (ws : List WriteResult) where
  pub echo_reply : Server → PipeData → Option (List ℕ) → Run (Server × Reply)
  unfolding send_msg
  echo_reply srv m none = ok (srv, none)
  echo_reply srv m (some copy) =
      send_msg malloc ws srv m.cli_uuid (head_of m).seq_id Proto.heartbeat (some copy)
        (head_of m).ttl
      >>= reply

  pub heartbeat_cb : Server → PipeData → Run (Server × Reply)
  unfolding send_msg echo echo_reply
  heartbeat_cb srv m =
      if (head_of m).ttl == 0
      then (send_msg malloc ws srv m.cli_uuid (head_of m).seq_id Proto.heartbeat none
            (head_of m).ttl
          >>= reply)
      else echo (malloc (head_of m).ttl) m.buf (head_of m).ttl >>= echo_reply srv m

-- `uc_io_write(hdl->pipe[1], &pipe_msg, sizeof(pipe_msg))`, of the bytes of a pointer; none while it has
-- not returned.
pub pipe_write : List WriteResult → List ℕ → Option Bool
pipe_write ps ptr = elim (io_write ps ptr 8) [ none ↦ none | some r ↦ some (is_zero r.ret) ]

-- What a message makes the server write, when anything is written: a packet to the client, and the
-- pointer of the message to the pipe.
pub data Output : Type 0 where
  replied : Sent → Output
  piped : PipeData → Output

abbrev pub replies : Reply → List Output
replies none = []
replies (some s) = replied s ∷ []

-- Whether `uc_io_write` to the client, if it was called, has returned.
abbrev pub returned : Sent → Bool
returned (unsent e) = true
returned (wrote fd r) = true
returned writing = false

abbrev pub reply_returned : Reply → Bool
reply_returned none = true
reply_returned (some s) = returned s

-- The end of `uc_ipc_server_handle_client_msg`, with what was written, in that order; `ret` is none while
-- a call of `uc_io_write` has not returned.
pub record Handled : Type 0 where
  pub server : Server
  pub cli : Cli
  pub events : List Output
  pub ret : Option Status

-- The message is in the pipe, or is freed; `err` is returned then.
pub pass_on : Server → Cli → List Output → PipeData → Status → Option Bool → Handled
pass_on srv cli before m err none = record { server = srv; cli = cli; events = before; ret = none }
pass_on srv cli before m err (some true) = record {
  server = srv;
  cli = cli;
  events = before ++ piped m ∷ [];
  ret = some done;
}
pass_on srv cli before m err (some false) = record {
  server = srv;
  cli = cli;
  events = before;
  ret = some err;
}

abbrev pub ends_with : Server → Cli → Reply → Status → Handled
ends_with srv cli reply ret = record {
  server = srv;
  cli = cli;
  events = replies reply;
  ret = if reply_returned reply then some ret else none;
}

-- `ps` are the results of write(2) on the pipe.
module _ (malloc : ℕ → Option (List ℕ)) (ws ps : List WriteResult) where
  -- Behind the acknowledgement, which may have failed. While it is being written the pipe has to wait.
  pub acked : Cli → List ℕ → PipeData → Server → Sent → Handled
  unfolding pass_on pipe_write
  acked cli ptr m srv s =
      if returned s
      then pass_on srv cli (replied s ∷ []) m done (pipe_write ps ptr)
      else ends_with srv cli (some s) done

  -- By the type of the message. `IPC_DEBUG_IO` is defined: a message that is sent without an answer is
  -- counted and freed.
  pub dispatch : Server → Cli → List ℕ → PipeData → Run Handled
  unfolding heartbeat_cb send_ack acked
  dispatch srv cli ptr m =
      if (head_of m).msg_type == Proto.heartbeat
      then (heartbeat_cb malloc ws srv m >>= λ r. ok (ends_with r.0 cli r.1 done))
      else if (head_of m).msg_type == Proto.void
      then ok (ends_with srv cli none done)
      else if (head_of m).msg_type == Proto.async_send
      then (send_ack malloc ws srv m.cli_uuid (head_of m).seq_id >>= λ r.
          ok (acked cli ptr m r.0 r.1.0))
      else if (head_of m).msg_type == Proto.sync_send
      then ok (pass_on srv cli [] m (failed 0x5afb2312) (pipe_write ps ptr))
      else ok (ends_with srv cli none (failed 0x0421a96f))

  -- `ptr` is what `malloc(sizeof(uc_ipc_pipe_data_t))` returns, the bytes of a pointer or NULL.
  pub handle_client_msg : Server → ℕ → Cli → Option (List ℕ) → Run Handled
  unfolding dispatch reset_cli_proto
  handle_client_msg srv uuid cli none = ok (
      if cli.buf_done
      then ends_with srv (reset_cli_proto cli) none (failed 0x19171e01)
      else ends_with srv cli none (failed 0x33a51be5))
  handle_client_msg srv uuid cli (some ptr) =
      if cli.buf_done
      then dispatch srv (reset_cli_proto cli) ptr
          (record { cli_uuid = uuid; ipc_head = cli.ipc_head; buf = cli.buf })
      else ok (ends_with srv cli none (failed 0x33a51be5))

-- What the callback is called with: the type, the payload and its length. It returns a block and a
-- length.
abbrev pub Callback : Type 0
Callback = ℕ → Option (List ℕ) → ℕ → Option (List ℕ) × ℕ

-- A round of `uc_ipc_server_loop_callback`, for a message from the pipe.
pub callback :
    (ℕ → Option (List ℕ)) → List WriteResult → Callback → Server → PipeData → Run (Server × Reply)
unfolding send_msg
callback malloc ws cb srv m =
    if (head_of m).msg_type == Proto.void || (head_of m).msg_type == Proto.async_send
    then ok (srv, none)
    else if (head_of m).msg_type == Proto.sync_send
    then (let (addr, len) = cb (head_of m).msg_type m.buf (head_of m).ttl in
        send_msg malloc ws srv m.cli_uuid (head_of m).seq_id Proto.sync_ack addr len >>= reply)
    else ok (srv, none)
