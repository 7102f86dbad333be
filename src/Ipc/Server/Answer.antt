-- ===== src/Ipc/Server/Answer.antt =====
-- ipc/uc_ipc_server.c: the answers to the messages of a client.
use utils_c.Io.Random.{put}
use utils_c.Io.Random.Put.{take-whole, put-all}
use utils_c.Ipc.Server.Send.{
  IsServer, CanSend, Carries, Sends, outgoing, counted, fd_of, send_msg-Sends,
}
use utils_c.Base.{
  ℕ, ◌≡◌, refl, ◌∙◌, true, Option, none, some, List, ok, done, take, length, sym, ap, ◌+◌, inl, inr,
  ◌==◌, false, arith, [], ◌∷◌, ◌>>=◌, Run,
}
use utils_c.Io.{WriteResult}
use utils_c.Ipc.Proto
use utils_c.Ipc.Proto.{
  Header, Packet, header_len, header_of, header_bytes, IsHeader, header_of-header_bytes,
}
use utils_c.Ipc.Frame.{Cli, reset_cli_proto}
use utils_c.Ipc.Frame.Place.{IsPacket, payload, Grants}
use utils_c.Ipc.Server.{
  Server, PipeData, pipe_write, pass_on, dispatch, handle_client_msg, send_ack, callback,
  heartbeat_cb, Callback, Sent, echo, echo_reply, Reply, ends_with, acked, returned, replied, piped,
}

-- A client whose packet `p` is whole, as the receiving loop leaves it.
pub record Holds (cli : Cli) (p : Packet) : Type 0 where
  pub buf_done : cli.buf_done ≡ true
  pub ipc_head : cli.ipc_head ≡ header_bytes p.head
  pub buf : cli.buf ≡ payload p.buf

abbrev pub pipe_data : ℕ → Packet → PipeData
pipe_data uuid p = record { cli_uuid = uuid; ipc_head = header_bytes p.head; buf = payload p.buf }

Sends-returned :
    (p : Packet) (ws : List WriteResult) (fd : Option ℕ) (got : Option (List ℕ)) (s : Sent)
    → Sends p ws fd got s
    → returned s ≡ true
Sends-returned p ws none none s e = rw e refl
Sends-returned p ws (some fd) none s e = rw e refl
Sends-returned p ws none (some block) s e = rw e refl
Sends-returned p ws (some fd) (some block) s sent = rw sent.1 refl

module _ (malloc : ℕ → Option (List ℕ)) (ws ps : List WriteResult) (srv : Server) (uuid : ℕ)
    (cli : Cli) (p : Packet) (w : IsPacket p) (holds : Holds cli p) (ptr : List ℕ) where
  same_head : header_of (header_bytes p.head) ≡ p.head
  same_head = header_of-header_bytes p.head w.head

  handle-dispatch :
      handle_client_msg malloc ws ps srv uuid cli (some ptr)
      ≡ dispatch malloc ws ps srv (reset_cli_proto cli) ptr (pipe_data uuid p)
  unfolding handle_client_msg
  handle-dispatch = simp (holds.buf_done, holds.ipc_head, holds.buf) refl

  pub handle-sync :
      p.head.msg_type ≡ Proto.sync_send
      → pipe_write ps ptr ≡ some true
      → handle_client_msg malloc ws ps srv uuid cli (some ptr)
        ≡ ok (record {
          server = srv;
          cli = reset_cli_proto cli;
          events = piped (pipe_data uuid p) ∷ [];
          ret = some done;
        })
  handle-sync sync taken =
      handle-dispatch ∙ unfold dispatch pass_on in simp (same_head, sync, taken) refl

  -- A request that is sent synchronously is handed to the thread that calls back, when write(2) on the
  -- pipe takes the pointer, with nothing sent yet and the client ready for its next packet. That thread,
  -- whatever the state of the server is by then, calls the callback with the payload and its length, and
  -- sends what it returns: the packet answers the number of the request, on the descriptor that the
  -- client has then; where there is no such client, or no block, `uc_ipc_server_send_msg` fails.
  -- The packet that was received is well formed, the table of descriptors is valid, `malloc` gives blocks
  -- of the size that it is asked for, and write(2) to the client does not fail and accepts all the bytes.
  pub sync_answered :
      (srv' : Server) (cb : Callback) (addr : Option (List ℕ)) (bs : List ℕ)
      → p.head.msg_type ≡ Proto.sync_send
      → pipe_write ps ptr ≡ some true
      → IsServer srv'
      → cb Proto.sync_send (payload p.buf) (length p.buf) ≡ (addr, length bs)
      → Carries addr bs
      → CanSend malloc ws (header_len + length bs)
      → (s : Sent) × (handle_client_msg malloc ws ps srv uuid cli (some ptr)
          ≡ ok (record {
            server = srv;
            cli = reset_cli_proto cli;
            events = piped (pipe_data uuid p) ∷ [];
            ret = some done;
          }))
        × (callback malloc ws cb srv' (pipe_data uuid p) ≡ ok (counted srv', some s))
        × Sends
            (outgoing srv' p.head.seq_id Proto.sync_ack bs)
            ws
            (fd_of srv' uuid)
            (malloc (header_len + length bs))
            s
  unfolding callback
  sync_answered srv' cb addr bs sync taken valid called carries can =
      let (s, e, sends) =
        send_msg-Sends malloc ws srv' valid uuid p.head.seq_id Proto.sync_ack addr bs can carries in
      (s, handle-sync sync taken, simp (same_head, sync, w.counted, called, e) refl, sends)

  -- A message that is sent asynchronously is acknowledged, by a packet without a payload that answers
  -- its number, and when that write has returned the message is handed to the thread that calls back,
  -- when write(2) on the pipe takes the pointer. Where there is no block, or where the client has no
  -- descriptor, nothing is sent to it, and the message is handed on all the same.
  -- The packet that was received is well formed, the table of descriptors is valid, `malloc` gives blocks
  -- of the size that it is asked for, and write(2) to the client does not fail and accepts all the bytes.
  pub async_acked :
      p.head.msg_type ≡ Proto.async_send
      → pipe_write ps ptr ≡ some true
      → IsServer srv
      → CanSend malloc ws header_len
      → (s : Sent) × (handle_client_msg malloc ws ps srv uuid cli (some ptr)
          ≡ ok (record {
            server = counted srv;
            cli = reset_cli_proto cli;
            events = replied s ∷ piped (pipe_data uuid p) ∷ [];
            ret = some done;
          }))
        × Sends
            (outgoing srv p.head.seq_id Proto.async_ack [])
            ws
            (fd_of srv uuid)
            (malloc header_len)
            s
  unfolding dispatch acked pass_on send_ack
  async_acked async taken valid can =
      let (s, e, sends) =
        send_msg-Sends malloc ws srv valid uuid p.head.seq_id Proto.async_ack none [] can
          (inr refl) in
      let back = Sends-returned _ ws (fd_of srv uuid) (malloc header_len) s sends in
      (s, handle-dispatch ∙ simp (same_head, async, taken, e, back) refl, sends)

  beats :
      (buf : List ℕ)
      → p.buf ≡ buf
      → IsServer srv
      → Grants malloc p
      → CanSend malloc ws (header_len + length buf)
      → (s : Sent) × (heartbeat_cb malloc ws srv (pipe_data uuid p) ≡ ok (counted srv, some s))
        × Sends
            (outgoing srv p.head.seq_id Proto.heartbeat buf)
            ws
            (fd_of srv uuid)
            (malloc (header_len + length buf))
            s
  unfolding heartbeat_cb echo echo_reply payload
  beats [] same valid grants can =
      let (s, e, sends) =
        send_msg-Sends malloc ws srv valid uuid p.head.seq_id Proto.heartbeat none [] can
          (inr refl) in
      let empty : p.head.ttl ≡ 0 = w.counted ∙ ap (length {A = ℕ}) same in
      (s, simp (same_head, empty, e) refl, sends)
  beats (b ∷ bs) same valid (block, granted, size) can =
      let (s, e, sends) =
        send_msg-Sends malloc ws srv valid uuid p.head.seq_id Proto.heartbeat (some (b ∷ bs))
          (b ∷ bs) can (inl refl) in
      let ttl : p.head.ttl ≡ length (b ∷ bs) = w.counted ∙ ap (length {A = ℕ}) same in
      let some_left : (length (b ∷ bs) == 0) ≡ false = ground arith in
      let given : malloc (length (b ∷ bs)) ≡ some block =
        ap (λ (l : List ℕ). malloc (length l)) (sym same) ∙ granted in
      let copied : put block 0 (take (length (b ∷ bs)) (b ∷ bs)) ≡ b ∷ bs =
        ap (λ (l : List ℕ). put block 0 l) (take-whole (b ∷ bs))
        ∙ put-all block [] (b ∷ bs) refl (omega (arith, size, ap (length {A = ℕ}) same)) in
      (s, simp (same_head, ttl, same, some_left, given, copied, e) refl, sends)

  handle-heartbeat :
      p.head.msg_type ≡ Proto.heartbeat
      → handle_client_msg malloc ws ps srv uuid cli (some ptr) ≡ (
          heartbeat_cb malloc ws srv (pipe_data uuid p) >>= λ x.
          ok (ends_with x.0 (reset_cli_proto cli) x.1 done))
  handle-heartbeat beat = handle-dispatch ∙ unfold dispatch in simp (same_head, beat) refl

  -- A heartbeat is answered at once with its own payload, by a packet that answers its number, and goes
  -- no further, when `malloc` has a block for the copy. Where there is no block for the packet, or where
  -- the client has no descriptor, nothing is sent.
  -- The packet that was received is well formed, the table of descriptors is valid, `malloc` gives blocks
  -- of the size that it is asked for, and write(2) to the client does not fail and accepts all the bytes.
  pub heartbeat_echoed :
      p.head.msg_type ≡ Proto.heartbeat
      → IsServer srv
      → Grants malloc p
      → CanSend malloc ws (header_len + length p.buf)
      → (s : Sent) × (handle_client_msg malloc ws ps srv uuid cli (some ptr)
          ≡ ok (record {
            server = counted srv;
            cli = reset_cli_proto cli;
            events = replied s ∷ [];
            ret = some done;
          }))
        × Sends
            (outgoing srv p.head.seq_id Proto.heartbeat p.buf)
            ws
            (fd_of srv uuid)
            (malloc (header_len + length p.buf))
            s
  heartbeat_echoed beat valid grants can =
      let (s, e, sends) = beats p.buf refl valid grants can in
      let back =
        Sends-returned _ ws (fd_of srv uuid) (malloc (header_len + length p.buf)) s sends in
      (
        s,
        handle-heartbeat beat
            ∙ ap
                (λ (r : Run (Server × Reply)).
                  r >>= λ x. ok (ends_with x.0 (reset_cli_proto cli) x.1 done))
                e
            ∙ simp back refl,
        sends,
      )
