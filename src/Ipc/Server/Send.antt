-- ===== src/Ipc/Server/Send.antt =====
-- ipc/uc_ipc_server.c: what `uc_ipc_server_send_msg` sends.
use mathlib.Core.List.{append-nil}
use utils_c.Base.{
  ℕ, suc, ◌+◌, ◌%◌, ◌^◌, ◌<◌, ◌≤◌, ◌≡◌, refl, sym, ap, ◌∙◌, ◌⊎◌, inl, inr, arith, ◌==◌, false,
  Option, none, some, List, [], ◌∷◌, ◌++◌, length, take, ok, length-append, some_injective,
}
use utils_c.Hash.Key.{uint64}
use utils_c.Hash.Key.Compare.{IsKey}
use utils_c.Hash.Table.{Node}
use utils_c.Hash.Table.Find.{find-view, value}
use utils_c.Hash.Table.Invariant.{IsValid, view, key_bytes}
use utils_c.Io.{left, WriteResult, WriteEnd, io_write, Takes}
use utils_c.Io.Write.{Willing, room, io_write-Delivered}
use utils_c.Io.Random.{put}
use utils_c.Io.Random.Put.{length-put, take-put, put-all, take-whole}
use utils_c.Ipc.Proto.{
  Header, Packet, header_len, header_bytes, packet_bytes, to_le, next_seq_id, length-header_bytes,
}
use utils_c.Ipc.Server.{
  Server, Sent, unsent, wrote, uuid_key, fill_packet, write_packet, send_block, send_msg,
}

-- The table of descriptors, as `uc_ipc_init_server` makes it.
pub record IsServer (srv : Server) : Type 0 where
  pub valid : IsValid srv.fds
  pub key_type : srv.fds.key_type ≡ uint64
  pub mem_key_len : srv.fds.mem_key_len ≡ 0

-- The descriptor of a client, when it is there.
abbrev pub fd_of : Server → ℕ → Option ℕ
fd_of srv uuid = view srv.fds (key_bytes srv.fds (uuid_key uuid))

uuid_key-IsKey : (uuid m : ℕ) → m ≡ 0 → IsKey m (uuid_key uuid)
unfolding to_le
uuid_key-IsKey uuid m e = record { size = refl; octets = omega arith; mem_size = omega arith }

-- A payload and its length: nothing is read at an address where the length is 0.
abbrev pub Carries : Option (List ℕ) → List ℕ → Type 0
Carries buf bs = (buf ≡ some bs) ⊎ (bs ≡ [])

module _ (block : List ℕ) (head : Header) where
  headed : length block ≡ header_len → put block 0 (header_bytes head) ≡ header_bytes head
  headed size = put-all block [] (header_bytes head) refl (omega (arith, length-header_bytes head))

  filled :
      (bs : List ℕ)
      → length block ≡ header_len + length bs
      → put (put block 0 (header_bytes head)) header_len bs ≡ header_bytes head ++ bs
  unfolding header_bytes
  filled bs size =
      put-all (put block 0 (header_bytes head)) (header_bytes head) bs
        (take-put block [] (header_bytes head) refl)
        (omega (
          arith,
          length-put block 0 (header_bytes head) (omega (arith, length-header_bytes head)),
          length-header_bytes head,
        ))

  fill_packet-none :
      (buf : Option (List ℕ))
      → length block ≡ header_len
      → fill_packet block head buf 0 ≡ header_bytes head ++ []
  unfolding fill_packet
  fill_packet-none none size = headed size ∙ sym (append-nil (header_bytes head))
  fill_packet-none (some buf) size = headed size ∙ sym (append-nil (header_bytes head))

  fill_packet-some :
      (bs : List ℕ)
      → length block ≡ header_len + length bs
      → fill_packet block head (some bs) (length bs) ≡ header_bytes head ++ bs
  fill_packet-some [] size = fill_packet-none (some []) size
  fill_packet-some (b ∷ bs) size =
      let some_left : (suc (length bs) == 0) ≡ false = ground arith in
      unfold fill_packet in rw (some_left, take-whole bs) (filled (b ∷ bs) size)

  fill_packet-Carries :
      (buf : Option (List ℕ)) (bs : List ℕ)
      → Carries buf bs
      → length block ≡ header_len + length bs
      → fill_packet block head buf (length bs) ≡ header_bytes head ++ bs
  fill_packet-Carries buf bs (inl e) size = rw e (fill_packet-some bs size)
  fill_packet-Carries buf bs (inr e) size =
      rw e (fill_packet-none buf (size ∙ ap (λ (l : List ℕ). header_len + length l) e))

wrote_packet :
    (ws : List WriteResult) (node : Node ℕ) (packet : List ℕ) (len : ℕ) (r : WriteEnd)
    → io_write ws packet len ≡ some r
    → write_packet ws (some node) packet len ≡ wrote node.val r
unfolding write_packet
wrote_packet ws node packet len r e = rw (e, write_packet) refl

-- What `uc_io_write` is given is the packet.
pub write_packet-packet :
    (ws : List WriteResult) (node : Node ℕ) (block : List ℕ) (p : Packet) (buf : Option (List ℕ))
    → Carries buf p.buf
    → length block ≡ header_len + length p.buf
    → header_len + length p.buf < 2 ^ 64
    → Takes (header_len + length p.buf) ws
    → Willing ws
    → header_len + length p.buf ≤ room ws
    → (r : WriteEnd) × (write_packet ws
          (some node)
          (fill_packet block p.head buf (length p.buf))
          ((header_len + length p.buf) % 2 ^ 64)
        ≡ wrote node.val r)
      × (r.ret ≡ left 0)
      × (r.sent ≡ packet_bytes p)
write_packet-packet ws node block p buf carries size small takes willing enough =
    let len : (header_len + length p.buf) % 2 ^ 64 ≡ header_len + length p.buf = omega arith in
    let size_of_packet : length (packet_bytes p) ≡ header_len + length p.buf =
      omega (arith, length-append (header_bytes p.head) p.buf, length-header_bytes p.head) in
    let whole : take (header_len + length p.buf) (packet_bytes p) ≡ packet_bytes p =
      ap (λ (n : ℕ). take n (packet_bytes p)) (sym size_of_packet) ∙ take-whole (packet_bytes p) in
    let (rest, e) =
      io_write-Delivered ws (packet_bytes p) (header_len + length p.buf) small takes willing
        enough in
    (
      record { ret = left 0; sent = packet_bytes p; rest = rest },
      simp (fill_packet-Carries block p.head buf p.buf carries size, len)
          (wrote_packet ws node (packet_bytes p) (header_len + length p.buf) _
            (e ∙ ap (λ (l : List ℕ). some (record { ret = left 0; sent = l; rest = rest })) whole)),
      refl,
      refl,
    )

-- The packet of a message that the server sends.
abbrev pub outgoing : Server → ℕ → ℕ → List ℕ → Packet
outgoing srv ack_id msg_type bs = record {
  head = record { ttl = length bs; msg_type = msg_type; seq_id = srv.seq_id; ack_id = ack_id };
  buf = bs;
}

abbrev pub counted : Server → Server
counted srv = record srv { seq_id = (next_seq_id srv.seq_id).1 }

counted-IsServer : (srv : Server) → IsServer srv → IsServer (counted srv)
counted-IsServer srv v = record {
  valid = v.valid;
  key_type = v.key_type;
  mem_key_len = v.mem_key_len;
}

-- `malloc` gives a block of the size that it is asked for, when it gives one; write(2) does not fail, and
-- accepts `n` bytes in all.
pub record CanSend (malloc : ℕ → Option (List ℕ)) (ws : List WriteResult) (n : ℕ) : Type 0 where
  pub sized : (block : List ℕ) → malloc n ≡ some block → length block ≡ n
  pub small : n < 2 ^ 64
  pub takes : Takes n ws
  pub willing : Willing ws
  pub enough : n ≤ room ws

-- What sending is to do, by the client's descriptor and by the block.
abbrev pub Sends : Packet → List WriteResult → Option ℕ → Option (List ℕ) → Sent → Type 0
Sends p ws none none s = s ≡ unsent 0x1f9385ca
Sends p ws (some fd) none s = s ≡ unsent 0x1f9385ca
Sends p ws none (some block) s = s ≡ unsent 0x5e8ef49f
Sends p ws (some fd) (some block) s =
    (r : WriteEnd) × (s ≡ wrote fd r) × (r.ret ≡ left 0) × (r.sent ≡ packet_bytes p)

unsent-Sends :
    (p : Packet) (ws : List WriteResult) (fd : Option ℕ) → Sends p ws fd none (unsent 0x1f9385ca)
unsent-Sends p ws none = refl
unsent-Sends p ws (some fd) = refl

-- By the node that is found.
send_found :
    (srv : Server) (uuid : ℕ) (p : Packet) (buf : Option (List ℕ)) (ws : List WriteResult)
    (block : List ℕ) (node : Option (Node ℕ)) (fd : Option ℕ)
    → value node ≡ fd
    → Carries buf p.buf
    → length block ≡ header_len + length p.buf
    → header_len + length p.buf < 2 ^ 64
    → Takes (header_len + length p.buf) ws
    → Willing ws
    → header_len + length p.buf ≤ room ws
    → Sends p ws fd (some block) (
        write_packet ws node
          (fill_packet block p.head buf (length p.buf))
          ((header_len + length p.buf) % 2 ^ 64))
send_found srv uuid p buf ws block none none e carries size small takes willing enough =
    unfold write_packet in refl
send_found srv uuid p buf ws block none (some fd) e carries size small takes willing enough = cc
send_found srv uuid p buf ws block (some node) none e carries size small takes willing enough = cc
send_found srv uuid p buf ws block (some node) (some fd) e carries size small takes willing enough =
    let (r, result, ret, sent) =
      write_packet-packet ws node block p buf carries size small takes willing enough in
    (r, result ∙ ap (λ (f : ℕ). wrote f r) (some_injective e), ret, sent)

module _ (malloc : ℕ → Option (List ℕ)) (ws : List WriteResult) (srv : Server)
    (valid : IsServer srv) (uuid : ℕ) where
  send_block-Sends :
      (p : Packet) (buf : Option (List ℕ)) (got : Option (List ℕ))
      → ((block : List ℕ) → got ≡ some block → length block ≡ header_len + length p.buf)
      → Carries buf p.buf
      → header_len + length p.buf < 2 ^ 64
      → Takes (header_len + length p.buf) ws
      → Willing ws
      → header_len + length p.buf ≤ room ws
      → (s : Sent) × (send_block malloc ws srv uuid p.head buf (length p.buf) got ≡ ok (srv, s))
        × Sends p ws (fd_of srv uuid) got s
  unfolding send_block
  send_block-Sends p buf none sized carries small takes willing enough =
      (unsent 0x1f9385ca, refl, unsent-Sends p ws (fd_of srv uuid))
  send_block-Sends p buf (some block) sized carries small takes willing enough =
      let (node, found, val) =
        find-view valid.valid (uuid_key uuid)
          (uuid_key-IsKey uuid srv.fds.mem_key_len valid.mem_key_len) in
      (
        write_packet ws node (fill_packet block p.head buf (length p.buf))
            ((header_len + length p.buf) % 2 ^ 64),
        rw found refl,
        send_found srv uuid p buf ws block node (fd_of srv uuid) val carries (sized block refl)
            small takes willing enough,
      )

module _ (malloc : ℕ → Option (List ℕ)) (ws : List WriteResult) (srv : Server)
    (valid : IsServer srv) (uuid : ℕ) where
  -- Sending takes the next number, and then, where `malloc` has no block, or where the client is no
  -- longer there, returns the error of either with nothing written. Else it writes to the descriptor
  -- that the table has for the client now, exactly the bytes of the packet: the header, with the length
  -- of the payload, the type, the number and the number that is answered, then the payload. `uc_io_write`
  -- returns 0, when write(2) does not fail and accepts all the bytes.
  -- The table of descriptors is valid, `malloc` gives blocks of the size that it is asked for, and the
  -- packet has fewer than 2 ^ 64 bytes.
  pub send_msg-Sends :
      (ack_id msg_type : ℕ) (buf : Option (List ℕ)) (bs : List ℕ)
      → CanSend malloc ws (header_len + length bs)
      → Carries buf bs
      → (s : Sent) × (send_msg malloc ws srv uuid ack_id msg_type buf (length bs)
          ≡ ok (counted srv, s))
        × Sends
            (outgoing srv ack_id msg_type bs)
            ws
            (fd_of srv uuid)
            (malloc (header_len + length bs))
            s
  unfolding send_msg next_seq_id
  send_msg-Sends ack_id msg_type buf bs can carries =
      let len : (header_len + length bs) % 2 ^ 64 ≡ header_len + length bs =
        omega (arith, can.small) in
      let (s, e, sends) =
        send_block-Sends malloc ws (counted srv) (counted-IsServer srv valid) uuid
          (outgoing srv ack_id msg_type bs) buf (malloc (header_len + length bs)) can.sized carries
          can.small can.takes can.willing can.enough in
      (s, simp len e, sends)
