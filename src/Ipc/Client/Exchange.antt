-- ===== src/Ipc/Client/Exchange.antt =====
-- ipc/uc_ipc_client.c: a message from its number to its answer.
use utils_c.Base.{
  ℕ, ◌+◌, ◌^◌, ◌<◌, ◌≤◌, ◌≡◌, refl, sym, ap, ◌∙◌, inl, inr, ◌==◌, ==_iff, ==_self, Bool, Bool-cases,
  true, Option, none, some, List, ◌++◌, length, done, Run, ok,
}
use utils_c.Hash.Key.{Key}
use utils_c.Hash.Key.Compare.{IsKey}
use utils_c.Io.{ReadResult, bytes, left, WriteResult, WriteEnd}
use utils_c.Ipc.Proto.{Packet, header_len, packet_bytes, seq_id_min, next_seq_id}
use utils_c.Ipc.Frame.Place.{IsPacket}
use utils_c.Ipc.Numbered.{IsNumbered, entry, Sets}
use utils_c.Ipc.Server.{wrote}
use utils_c.Ipc.Server.Send.{CanSend, Carries}
use utils_c.Ipc.Client.{
  Acks, Client, Begun, begin_sent, begin_inserted, begin_send, sleeps, takes, wait_enter, wait_wake,
  signalled, keeps, rcv_round,
}
use utils_c.Ipc.Client.Receive.{Reads, IsAnswer, rcv_round-rcv_msg, rcv_msg-awaited}
use utils_c.Ipc.Client.Wait.{
  insert_seq-Sets, wait_finish-Sets, wait_enter-sleeps, wait_enter-takes, wait_wake-takes,
}
use utils_c.Ipc.Client.Send.{message, client_send-Sends}

module _ (insert_code send_code msg_type : ℕ) (malloc : ℕ → Option (List ℕ)) (ws : List WriteResult)
    (fresh : Key) (cl : Client) (w : IsNumbered cl.acks) (small : cl.seq_id < 2 ^ 64)
    (block_is_key : IsKey 0 fresh) where
  -- A message goes out under the next number, which is noted first, without an answer.
  pub begin_send-Sets :
      (buf : Option (List ℕ)) (bs block : List ℕ)
      → CanSend malloc ws (header_len + length bs)
      → malloc (header_len + length bs) ≡ some block
      → Carries buf bs
      → (r : WriteEnd) × (acks : Acks) × (begin_send insert_code send_code msg_type malloc true ws
            (some fresh)
            cl
            buf
            (length bs)
          ≡ ok (
            cl.seq_id,
            record { status = done; sent = some (wrote cl.io_sockfd r); acks = acks },
            (next_seq_id cl.seq_id).1,
          ))
        × (r.ret ≡ left 0)
        × (r.sent ≡ packet_bytes (message cl.seq_id msg_type bs))
        × Sets cl.acks cl.seq_id (some none) acks
  begin_send-Sets buf bs block can given carries =
      let (acks, noted, sets) = insert_seq-Sets cl.acks w cl.seq_id small fresh block_is_key in
      let (r, e, ret, sent) =
        client_send-Sends malloc ws cl.io_sockfd cl.seq_id msg_type buf bs block can given
          carries in
      (
        r,
        acks,
        unfold begin_send begin_inserted begin_sent next_seq_id in rw (noted, e) refl,
        ret,
        sent,
        sets,
      )

-- A message that is sent and its answer: the states of the pending answers in between.
pub record Exchange (begun : Run (ℕ × Begun × ℕ)) (malloc : ℕ → Option (List ℕ)) (cl : Client)
    (msg_type : ℕ) (bs : List ℕ) (rs : List ReadResult) (p : Packet) (more : List ℕ) : Type 0 where
  pub sent : WriteEnd
  pub noted : Acks
  pub answered : Acks
  pub end : Acks
  pub rest : List ReadResult
  pub begins :
      begun
      ≡ ok (
        cl.seq_id,
        record { status = done; sent = some (wrote cl.io_sockfd sent); acks = noted },
        (next_seq_id cl.seq_id).1,
      )
  pub written : (sent.ret ≡ left 0) × (sent.sent ≡ packet_bytes (message cl.seq_id msg_type bs))
  pub waits : wait_enter noted cl.seq_id ≡ ok (sleeps, noted)
  pub comes : rcv_round malloc noted rs ≡ ok (keeps answered, rest)
  pub behind : bytes rest ≡ more
  pub returned : (timed : Bool) → wait_wake timed signalled answered cl.seq_id ≡ ok (takes p, end)
  pub at_once : wait_enter answered cl.seq_id ≡ ok (takes p, end)
  pub restored : (m : ℕ) → m < 2 ^ 64 → entry end m ≡ entry cl.acks m

module _ (insert_code send_code msg_type : ℕ) (malloc : ℕ → Option (List ℕ)) (ws : List WriteResult)
    (fresh : Key) (cl : Client) (w : IsNumbered cl.acks) (small : cl.seq_id < 2 ^ 64)
    (block_is_key : IsKey 0 fresh) where
  -- A message with an answer, from its number to the end of the waiting. It is noted under the next
  -- number and goes out whole under it, with 0 returned. Until the answer comes a wait sleeps. A packet
  -- that answers this number, in whatever pieces it comes, is received whole, and the stream goes on
  -- behind it; then a wait that is signalled, with or without a time limit, and one that begins only now
  -- return 0 with this packet. In the end every number has the entry that it had before. The conditions
  -- are that the table is valid, that the number is below 2 ^ 64 and not in use, that `malloc` has the
  -- blocks, that write(2) accepts all the bytes and does not fail, and that read(2) hands out the bytes
  -- of the packet without an error.
  pub begin_send-Exchange :
      (buf : Option (List ℕ)) (bs block answer_block more : List ℕ) (p : Packet)
      (rs : List ReadResult)
      → entry cl.acks cl.seq_id ≡ none
      → CanSend malloc ws (header_len + length bs)
      → malloc (header_len + length bs) ≡ some block
      → Carries buf bs
      → IsPacket p
      → seq_id_min ≤ p.head.seq_id
      → IsAnswer p
      → p.head.ack_id ≡ cl.seq_id
      → malloc (header_len + length p.buf) ≡ some answer_block
      → length answer_block ≡ header_len + length p.buf
      → Reads rs (length p.buf)
      → bytes rs ≡ packet_bytes p ++ more
      → Exchange
          (begin_send insert_code send_code msg_type malloc true ws (some fresh) cl buf (length bs))
          malloc
          cl
          msg_type
          bs
          rs
          p
          more
  begin_send-Exchange buf bs block answer_block more p rs new can given carries packet numbered
        answer names answer_given size reads stream =
      let seq = cl.seq_id in
      let (r, acks1, begins, ret, sent, sets1) =
        begin_send-Sets insert_code send_code msg_type malloc ws fresh cl w small block_is_key buf
          bs block can given carries in
      let slot1 : entry acks1 seq ≡ some none = sets1.entries seq small ∙ rw (==_self seq) refl in
      let (acks2, noted, sets2) =
        rcv_msg-awaited acks1 sets1.numbered p answer none (ap (entry acks1) names ∙ slot1) in
      let (rest, round, behind) =
        rcv_round-rcv_msg malloc acks1 p packet numbered rs more answer_block answer_given size
          reads stream in
      let slot2 : entry acks2 seq ≡ some (some p) =
        sets2.entries seq small ∙ rw (names, ==_self seq) refl in
      let (acks3, finishes, sets3) =
        wait_finish-Sets acks2 sets2.numbered seq small (some p) slot2 in
      record {
        sent = r;
        noted = acks1;
        answered = acks2;
        end = acks3;
        rest = rest;
        begins = begins;
        written = (ret, sent);
        waits = wait_enter-sleeps acks1 sets1.numbered seq small slot1;
        comes = round ∙ rw noted refl;
        behind = behind;
        returned = λ timed. wait_wake-takes acks2 sets2.numbered seq small timed p slot2 ∙ finishes;
        at_once = wait_enter-takes acks2 sets2.numbered seq small p slot2 ∙ finishes;
        restored = λ m k. elim (Bool-cases (seq == m)) [
          | inl same ↦
              sets3.entries m k ∙ rw same (sym new ∙ ap (entry cl.acks) ((==_iff seq m).0 same))
          | inr other ↦
              sets3.entries m k
              ∙ rw other (sets2.entries m k ∙ rw (names, other) (sets1.entries m k ∙ rw other refl))
        ];
      }
