-- ===== src/Ipc/Client/Send.antt =====
-- ipc/uc_ipc_client.c: what `uc_ipc_client_send` sends.
use utils_c.Base.{
  ℕ, ◌+◌, ◌%◌, ◌^◌, ◌≡◌, refl, ap, ◌∙◌, arith, true, Option, some, List, length, done,
}
use utils_c.Hash.Table.{Node}
use utils_c.Io.{left, WriteResult, WriteEnd}
use utils_c.Ipc.Proto.{Packet, header_len, packet_bytes, u64_key}
use utils_c.Ipc.Server.{Sent, wrote, write_packet}
use utils_c.Ipc.Server.Send.{CanSend, Carries, write_packet-packet}
use utils_c.Ipc.Client.{client_write, client_send}

-- The packet of a message that the client sends.
abbrev pub message : ℕ → ℕ → List ℕ → Packet
message seq_id msg_type bs = record {
  head = record { ttl = length bs; msg_type = msg_type; seq_id = seq_id; ack_id = 0 };
  buf = bs;
}

abbrev node_of : ℕ → Node ℕ
node_of fd = record { keys = u64_key 0; val = fd }

client_write-write_packet :
    (ws : List WriteResult) (fd : ℕ) (packet : List ℕ) (ttl : ℕ)
    → client_write ws fd packet ttl
      ≡ write_packet ws (some (node_of fd)) packet ((header_len + ttl) % 2 ^ 64)
unfolding client_write write_packet
client_write-write_packet ws fd packet ttl = refl

-- With both blocks, all the bytes of the packet go out on the descriptor, and no error is returned.
pub client_send-Sends :
    (malloc : ℕ → Option (List ℕ)) (ws : List WriteResult) (fd seq_id msg_type : ℕ)
    (buf : Option (List ℕ)) (bs block : List ℕ)
    → CanSend malloc ws (header_len + length bs)
    → malloc (header_len + length bs) ≡ some block
    → Carries buf bs
    → (r : WriteEnd) × (client_send malloc true ws fd seq_id msg_type buf (length bs)
        ≡ (done, wrote fd r))
      × (r.ret ≡ left 0)
      × (r.sent ≡ packet_bytes (message seq_id msg_type bs))
client_send-Sends malloc ws fd seq_id msg_type buf bs block can given carries =
    let len : (header_len + length bs) % 2 ^ 64 ≡ header_len + length bs =
      omega (arith, can.small) in
    let (r, e, ret, sent) =
      write_packet-packet ws (node_of fd) block (message seq_id msg_type bs) buf carries
        (can.sized block given) can.small can.takes can.willing can.enough in
    (
      r,
      unfold client_send in
          rw (client_send, len, given)
            (ap (λ (s : Sent). (done, s)) (client_write-write_packet ws fd _ (length bs) ∙ e)),
      ret,
      sent,
    )
