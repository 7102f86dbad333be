-- ===== src/Ipc/Client.antt =====
-- ipc/uc_ipc_client.c: how the client sends, receives and waits for answers. Each function is what the
-- code does between taking the lock of the pending answers and giving it back, or without that lock.
pub mod Receive
pub mod Wait
pub mod Send
pub mod Exchange
pub mod Outcome
pub mod System
pub mod Deadline
pub mod Start
mod Tests
use utils_c.Base.{
  ℕ, ◌+◌, ◌*◌, ◌/◌, ◌%◌, ◌^◌, ◌==◌, ltb, if◌then◌else◌, Bool, true, false, not, ◌||◌, Option, none,
  some, List, [], length, drop, Run, ok, fault, ◌>>=◌, Status, done, failed,
}
use utils_c.Hash.Key.{Key}
use utils_c.Hash.Table.{Table, find, insert, delete, update}
use utils_c.Io.{ReadResult, ReadEnd, WriteResult, io_read, io_write, is_zero}
use utils_c.Io.Random.{put}
use utils_c.Ipc.Proto
use utils_c.Ipc.Proto.{Header, Packet, header_len, header_of, u64_key, next_seq_id, seq_id_min}
use utils_c.Ipc.Server.{Sent, unsent, wrote, writing, fill_packet}

-- `ack_hash`, from the number of a message to its answer, which is NULL until it comes.
abbrev pub Acks : Type 0
Acks = Table (Option Packet)

-- `malloc` is the node that the table adds, or none.
pub insert_seq : Acks → ℕ → Option Key → Run (Status × Acks)
insert_seq acks seq_id malloc = do
  (status, freed, acks') ← insert acks (u64_key seq_id) none malloc
  ok (status, acks')

pub delete_seq : Acks → ℕ → Run Acks
delete_seq acks seq_id = do (status, freed, acks') ← delete acks (u64_key seq_id); ok acks'

-- `uc_ipc_client_write`: what becomes of the packet is not returned to the sender.
pub client_write : List WriteResult → ℕ → List ℕ → ℕ → Sent
client_write ws fd packet ttl = elim (io_write ws packet ((header_len + ttl) % 2 ^ 64)) [
  | none ↦ writing
  | some r ↦ wrote fd r
]

-- `uc_ipc_client_send`. `malloc` tells of each size what block it gives for the packet, `malloc_msg`
-- whether there is one for the pair of descriptor and packet.
pub client_send :
    (ℕ → Option (List ℕ))
    → Bool
    → List WriteResult
    → ℕ
    → ℕ
    → ℕ
    → Option (List ℕ)
    → ℕ
    → Status × Sent
unfolding client_write
client_send malloc malloc_msg ws fd seq_id msg_type buf len =
    elim (malloc ((header_len + len) % 2 ^ 64)) [
      | none ↦ (failed 0x1f9385ca, unsent 0x1f9385ca)
      | some block ↦
          if malloc_msg
          then (
            done,
            client_write ws fd
                (fill_packet block
                  (record { ttl = len; msg_type = msg_type; seq_id = seq_id; ack_id = 0 }) buf len)
                len,
          )
          else (failed 0x3cbe5a0f, unsent 0x3cbe5a0f)
    ]

-- The beginning of `uc_ipc_client_async_send` and `uc_ipc_client_sync_send`, up to the waiting: the
-- number is noted before the message goes out. The codes are those that each returns.
pub record Begun : Type 0 where
  pub status : Status
  pub sent : Option Sent
  pub acks : Acks

pub begin_sent : ℕ → Acks → ℕ → Status × Sent → Run Begun
unfolding delete_seq
begin_sent send_code acks seq_id (done, sent) =
    ok (record { status = done; sent = some sent; acks = acks })
begin_sent send_code acks seq_id (failed e, sent) = delete_seq acks seq_id >>= λ acks'.
    ok (record { status = failed send_code; sent = some sent; acks = acks' })

pub begin_inserted : ℕ → ℕ → ℕ → Status × Sent → Status × Acks → Run Begun
unfolding begin_sent
begin_inserted insert_code send_code seq_id sent (done, acks) =
    begin_sent send_code acks seq_id sent
begin_inserted insert_code send_code seq_id sent (failed e, acks) =
    ok (record { status = failed insert_code; sent = none; acks = acks })

-- How a waiting call of `uc_ipc_client_wait_ack` goes on: it sleeps on the condition; it returns an error
-- `-c`; it returns 0 with the answer; or the answer that it has seen is gone, and it returns 0x428f2521.
pub data Waited : Type 0 where
  sleeps lost : Waited
  gives_up : ℕ → Waited
  takes : Packet → Waited

abbrev pub taken : Option (Option Packet) → Waited
taken (some (some msg)) = takes msg
taken _ = lost

-- The answer is taken out, and the number is deleted with nothing to free.
pub wait_finish : Acks → ℕ → Run (Waited × Acks)
wait_finish acks seq_id = do
  (old, acks1) ← update acks (u64_key seq_id) none
  (status, freed, acks2) ← delete acks1 (u64_key seq_id)
  ok (taken old, acks2)

-- The test of the loop and what is behind it, where `ret` was 0 or not. The node is one that the table
-- had: without it, the pointer to it dangles.
pub wait_seen : Bool → Acks → ℕ → Option Packet → Run (Waited × Acks)
unfolding wait_finish
wait_seen zero_ret acks seq_id none = ok (sleeps, acks)
wait_seen zero_ret acks seq_id (some msg) =
    if zero_ret then wait_finish acks seq_id else ok (gives_up 0x4f885afb, acks)

-- The code keeps the pointer to the node that it has found before it waits, which is the node of the
-- number until that is deleted.
pub wait_look : Bool → Acks → ℕ → Run (Waited × Acks)
unfolding wait_seen
wait_look zero_ret acks seq_id = find acks (u64_key seq_id) >>= λ node. elim node [
  | none ↦ fault
  | some n ↦ wait_seen zero_ret acks seq_id n.val
]

-- The first section, with the lookup of the node.
pub wait_enter : Acks → ℕ → Run (Waited × Acks)
unfolding wait_seen
wait_enter acks seq_id = find acks (u64_key seq_id) >>= λ node. elim node [
  | none ↦ ok (gives_up 0x790396ad, acks)
  | some n ↦ wait_seen true acks seq_id n.val
]

-- What the call that waits returns: 0, ETIMEDOUT, or another error.
pub data Woken : Type 0 where
  signalled timed_out failing : Woken

-- A section after a wait, which has a time limit or not.
pub wait_wake : Bool → Woken → Acks → ℕ → Run (Waited × Acks)
unfolding wait_look
wait_wake timed signalled acks seq_id = wait_look true acks seq_id
wait_wake true timed_out acks seq_id = ok (gives_up 0x4f885afb, acks)
wait_wake false timed_out acks seq_id = wait_look false acks seq_id
wait_wake timed failing acks seq_id = wait_look false acks seq_id

-- Until when a call waits, in seconds and nanoseconds, from the time of day in seconds and microseconds,
-- for a time to wait that is not negative.
pub deadline : ℕ → ℕ → ℕ → ℕ × ℕ
deadline sec usec wait_millisecond =
    (sec + wait_millisecond / 1000, usec * 1000 + wait_millisecond % 1000 * 1000 * 1000)

-- How a round of `uc_ipc_client_loop_rcv` ends: the loop goes on, or connects again for a reason; or
-- there is no other result of read(2) yet.
pub data Received : Type 0 where
  keeps : Acks → Received
  reconnects : ℕ → Acks → Received
  starved : Received

pub rcv_ack : Acks → Packet → Run Received
rcv_ack acks msg = find acks (u64_key msg.head.ack_id) >>= λ node. elim node [
  | none ↦ ok (keeps acks)
  | some n ↦ update acks (u64_key msg.head.ack_id) (some msg) >>= λ r. ok (keeps r.1)
]

-- A whole packet, by its type.
pub rcv_msg : Acks → Packet → Run Received
unfolding rcv_ack
rcv_msg acks msg =
    if msg.head.msg_type == Proto.heartbeat
    then ok (if ltb msg.head.ack_id seq_id_min then reconnects 0x1d53361d acks else keeps acks)
    else if msg.head.msg_type == Proto.async_ack || msg.head.msg_type == Proto.sync_ack
    then (if ltb msg.head.ack_id seq_id_min
        then ok (reconnects 0x13a5edcb acks)
        else rcv_ack acks msg)
    else ok (keeps acks)

-- The payload is read into the rest of the block, whatever room that has; that is looked at when the
-- reading ends.
pub rcv_end : Acks → Header → List ℕ → Option ReadEnd → Run (Received × List ReadResult)
unfolding rcv_msg
rcv_end acks head block none = ok (starved, [])
rcv_end acks head block (some r) =
    if ltb (length block) (header_len + length r.buf)
    then fault
    else if not (is_zero r.ret) || r.closed
    then ok (reconnects 0x17073c93 acks, r.rest)
    else (rcv_msg acks (record { head = head; buf = put (drop header_len block) 0 r.buf }) >>= λ d.
        ok (d, r.rest))

pub rcv_body :
    (ℕ → Option (List ℕ)) → Acks → Header → List ReadResult → Run (Received × List ReadResult)
unfolding rcv_end
rcv_body malloc acks head rs = elim (malloc ((header_len + head.ttl) % 2 ^ 64)) [
  | none ↦ ok (reconnects 0x650beacb acks, rs)
  | some block ↦ rcv_end acks head block (io_read rs head.ttl)
]

pub rcv_head : (ℕ → Option (List ℕ)) → Acks → Option ReadEnd → Run (Received × List ReadResult)
unfolding rcv_body
rcv_head malloc acks none = ok (starved, [])
rcv_head malloc acks (some r) =
    if not (is_zero r.ret) || r.closed
    then ok (reconnects 0x7f839461 acks, r.rest)
    else if ltb (header_of r.buf).seq_id seq_id_min
    then ok (reconnects 0x3ba3bb2c acks, r.rest)
    else rcv_body malloc acks (header_of r.buf) r.rest

-- A round of `uc_ipc_client_loop_rcv`.
pub rcv_round : (ℕ → Option (List ℕ)) → Acks → List ReadResult → Run (Received × List ReadResult)
unfolding rcv_head
rcv_round malloc acks rs = rcv_head malloc acks (io_read rs header_len)

-- The part of `uc_ipc_client_handler_t` that sending is about.
pub record Client : Type 0 where
  pub io_sockfd : ℕ
  pub seq_id : ℕ
  pub acks : Acks

-- A message with an answer, of the type `msg_type`, up to the waiting: the number of the message, what
-- has become of it, and the next number. `node` is what `malloc` gives the table.
pub begin_send :
    ℕ
    → ℕ
    → ℕ
    → (ℕ → Option (List ℕ))
    → Bool
    → List WriteResult
    → Option Key
    → Client
    → Option (List ℕ)
    → ℕ
    → Run (ℕ × Begun × ℕ)
unfolding insert_seq begin_inserted client_send
begin_send insert_code send_code msg_type malloc malloc_msg ws node cl buf len =
    let (seq_id, next) = next_seq_id cl.seq_id in
    insert_seq cl.acks seq_id node >>= λ r.
    begin_inserted insert_code send_code seq_id
      (client_send malloc malloc_msg ws cl.io_sockfd seq_id msg_type buf len) r
    >>= λ begun. ok (seq_id, begun, next)

abbrev pub async_begin :
    (ℕ → Option (List ℕ))
    → Bool
    → List WriteResult
    → Option Key
    → Client
    → Option (List ℕ)
    → ℕ
    → Run (ℕ × Begun × ℕ)
async_begin = begin_send 0x3d5ee086 0x274ceea5 Proto.async_send

abbrev pub sync_begin :
    (ℕ → Option (List ℕ))
    → Bool
    → List WriteResult
    → Option Key
    → Client
    → Option (List ℕ)
    → ℕ
    → Run (ℕ × Begun × ℕ)
sync_begin = begin_send 0x7b4123c4 0x5f879be6 Proto.sync_send

-- The end of `uc_ipc_client_async_send`, behind the waiting; none while it sleeps.
pub async_end : Acks → ℕ → Waited → Run (Option Status × Acks)
unfolding delete_seq
async_end acks seq_id sleeps = ok (none, acks)
async_end acks seq_id (takes msg) = ok (some done, acks)
async_end acks seq_id lost =
    delete_seq acks seq_id >>= λ acks'. ok (some (failed 0x213492c0), acks')
async_end acks seq_id (gives_up e) =
    delete_seq acks seq_id >>= λ acks'. ok (some (failed 0x213492c0), acks')

-- `uc_ipc_client_try_send`: the status, what has become of the message, and the next number.
pub try_send :
    (ℕ → Option (List ℕ))
    → Bool
    → List WriteResult
    → Client
    → Option (List ℕ)
    → ℕ
    → Status × Sent × ℕ
unfolding client_send
try_send malloc malloc_msg ws cl buf len =
    let (seq_id, next) = next_seq_id cl.seq_id in
    let (status, sent) = client_send malloc malloc_msg ws cl.io_sockfd seq_id Proto.void buf len in
    (elim status [ done ↦ done | failed e ↦ failed 0x146071f6 ], sent, next)
