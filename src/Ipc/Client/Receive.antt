-- ===== src/Ipc/Client/Receive.antt =====
-- ipc/uc_ipc_client.c: what a round of the receiving loop does with a packet.
use utils_c.Hash.Table.Find.{value}
use mathlib.Core.List.{append_assoc}
use utils_c.Base.{
  ℕ, ◌+◌, ◌%◌, ◌^◌, ◌<◌, ◌≤◌, ◌≡◌, refl, sym, ap, subst, ◌∙◌, ◌⊎◌, inl, inr, arith, ltb, false,
  Option, none, some, List, [], ◌∷◌, ◌++◌, length, take, drop, length-append, length-drop, ok,
  ◌>>=◌,
}
use utils_c.Hash.Table.{Node, find, update}
use utils_c.Io.{ReadResult, ReadEnd, left, bytes, Fits, io_read}
use utils_c.Io.Read.{Steady, io_read-Complete}
use utils_c.Io.Random.{put}
use utils_c.Io.Random.Put.{put-all}
use utils_c.Ipc.Proto
use utils_c.Ipc.Proto.{
  Header, Packet, header_len, header_bytes, header_of, packet_bytes, header_of-header_bytes,
  length-header_bytes, u64_key, seq_id_min,
}
use utils_c.Ipc.Frame.Place.{IsPacket}
use utils_c.Ipc.Numbered.{IsNumbered, entry, Sets, find-entry, update-Sets}
use utils_c.Ipc.Client.{Acks, keeps, rcv_ack, rcv_msg, rcv_end, rcv_body, rcv_head, rcv_round}

-- read(2) without an error or an end, which fills in at least one byte of what it is asked for and no
-- more, for a header and then for a payload of `n` bytes.
pub record Reads (rs : List ReadResult) (n : ℕ) : Type 0 where
  pub head_fits : Fits header_len rs
  pub head_steady : Steady rs
  pub body_fits : (r : ReadEnd) → io_read rs header_len ≡ some r → Fits n r.rest
  pub body_steady : (r : ReadEnd) → io_read rs header_len ≡ some r → Steady r.rest

abbrev whole_read : List ℕ → List ReadResult → ReadEnd
whole_read buf rest = record { ret = left 0; buf = buf; closed = false; rest = rest }

take-front : (xs ys : List ℕ) (n : ℕ) → n ≡ length xs → take n (xs ++ ys) ≡ xs
take-front xs ys n e = ap (λ (k : ℕ). take k (xs ++ ys)) e ∙ front xs
  where
    front : (zs : List ℕ) → take (length zs) (zs ++ ys) ≡ zs
    front [] = refl
    front (z ∷ zs) = ap (◌∷◌ z) (front zs)

drop-front : (xs ys : List ℕ) (n : ℕ) → n ≡ length xs → drop n (xs ++ ys) ≡ ys
drop-front xs ys n e = ap (λ (k : ℕ). drop k (xs ++ ys)) e ∙ behind xs
  where
    behind : (zs : List ℕ) → drop (length zs) (zs ++ ys) ≡ ys
    behind [] = refl
    behind (z ∷ zs) = behind zs

-- Reading bytes that stand in front of the stream.
read_front :
    (rs : List ReadResult) (xs more : List ℕ)
    → length xs < 2 ^ 64
    → Fits (length xs) rs
    → Steady rs
    → bytes rs ≡ xs ++ more
    → (rest : List ReadResult) × (io_read rs (length xs) ≡ some (whole_read xs rest))
      × (bytes rest ≡ more)
read_front rs xs more small fits steady e =
    let c =
      io_read-Complete rs (length xs) small fits steady
        (omega (arith, length-append xs more, ap (length {A = ℕ}) e)) in
    let front : take (length xs) (bytes rs) ≡ xs =
      ap (take (length xs)) e ∙ take-front xs more (length xs) refl in
    let behind : drop (length xs) (bytes rs) ≡ more =
      ap (drop (length xs)) e ∙ drop-front xs more (length xs) refl in
    (c.rest, c.result ∙ ap (λ (b : List ℕ). some (whole_read b c.rest)) front, c.unread ∙ behind)

module _ (malloc : ℕ → Option (List ℕ)) (acks : Acks) (p : Packet) (w : IsPacket p)
    (numbered : seq_id_min ≤ p.head.seq_id) where
  head_read :
      (rs rest : List ReadResult)
      → io_read rs header_len ≡ some (whole_read (header_bytes p.head) rest)
      → rcv_round malloc acks rs ≡ rcv_body malloc acks p.head rest
  unfolding rcv_round rcv_head
  head_read rs rest e =
      let same : header_of (header_bytes p.head) ≡ p.head = header_of-header_bytes p.head w.head in
      let fine : ltb p.head.seq_id seq_id_min ≡ false = ground (arith, numbered) in
      simp (e, same, fine) refl

  end_read :
      (rest : List ReadResult) (block : List ℕ)
      → length block ≡ header_len + length p.buf
      → rcv_end acks p.head block (some (whole_read p.buf rest))
        ≡ (rcv_msg acks p >>= λ d. ok (d, rest))
  unfolding rcv_end
  end_read rest block size =
      let room : ltb (length block) (header_len + length p.buf) ≡ false = ground arith in
      let all : put (drop header_len block) 0 p.buf ≡ p.buf =
        put-all (drop header_len block) [] p.buf refl
          (omega (arith, size, length-drop header_len block (omega arith))) in
      simp room (
        ap (λ (b : List ℕ). rcv_msg acks (record { head = p.head; buf = b }) >>= λ d. ok (d, rest))
          all)

  body_block :
      (rs : List ReadResult) (block : List ℕ)
      → malloc (header_len + length p.buf) ≡ some block
      → rcv_body malloc acks p.head rs ≡ rcv_end acks p.head block (io_read rs p.head.ttl)
  unfolding rcv_body
  body_block rs block given =
      let len : (header_len + p.head.ttl) % 2 ^ 64 ≡ header_len + length p.buf =
        omega (arith, w.counted, w.room) in
      rw (rcv_body, len, given) refl

  -- A packet that comes in any pieces is handled whole, and the stream goes on behind it.
  pub rcv_round-rcv_msg :
      (rs : List ReadResult) (more block : List ℕ)
      → malloc (header_len + length p.buf) ≡ some block
      → length block ≡ header_len + length p.buf
      → Reads rs (length p.buf)
      → bytes rs ≡ packet_bytes p ++ more
      → (rest : List ReadResult) × (rcv_round malloc acks rs
          ≡ (rcv_msg acks p >>= λ d. ok (d, rest)))
        × (bytes rest ≡ more)
  rcv_round-rcv_msg rs more block given size reads e =
      let len : length (header_bytes p.head) ≡ header_len = length-header_bytes p.head in
      let (mid, first, left_over) =
        read_front rs (header_bytes p.head) (p.buf ++ more) (omega (arith, len))
          (subst (λ n. Fits n rs) (sym len) reads.head_fits) reads.head_steady
          (e ∙ append_assoc (header_bytes p.head) p.buf more) in
      let head = ap (io_read rs) (sym len) ∙ first in
      let (rest, second, behind) =
        read_front mid p.buf more (omega (arith, w.room)) (reads.body_fits _ head)
          (reads.body_steady _ head) left_over in
      (
        rest,
        head_read rs mid head
            ∙ (body_block mid block given
                ∙ (ap (rcv_end acks p.head block) (ap (io_read mid) w.counted ∙ second)
                    ∙ end_read rest block size)),
        behind,
      )

-- A packet that answers a message.
pub record IsAnswer (p : Packet) : Type 0 where
  pub kind : (p.head.msg_type ≡ Proto.async_ack) ⊎ (p.head.msg_type ≡ Proto.sync_ack)
  pub numbered : seq_id_min ≤ p.head.ack_id
  pub fits : p.head.ack_id < 2 ^ 64

module _ (acks : Acks) (w : IsNumbered acks) (p : Packet) (answer : IsAnswer p) where
  rcv_msg-rcv_ack : rcv_msg acks p ≡ rcv_ack acks p
  unfolding rcv_msg
  rcv_msg-rcv_ack =
      let fine : ltb p.head.ack_id seq_id_min ≡ false = ground (arith, answer.numbered) in
      elim answer.kind [ inl e ↦ simp (e, fine) refl | inr e ↦ simp (e, fine) refl ]

  -- An answer that is waited for is noted under the number that it answers, and nothing else changes;
  -- an older answer under that number is lost.
  pub rcv_msg-awaited :
      (old : Option Packet)
      → entry acks p.head.ack_id ≡ some old
      → (acks' : Acks) × (rcv_msg acks p ≡ ok (keeps acks'))
        × Sets acks p.head.ack_id (some (some p)) acks'
  unfolding rcv_ack
  rcv_msg-awaited old at =
      let (node, found, val) = find-entry acks w p.head.ack_id in
      let (acks', e, sets) = update-Sets acks w p.head.ack_id (some p) old answer.fits at in
      (acks', rcv_msg-rcv_ack ∙ by_node node found (val ∙ at) acks' e, sets)
    where
      by_node :
          (node : Option (Node (Option Packet)))
          → find acks (u64_key p.head.ack_id) ≡ ok node
          → value node ≡ some old
          → (acks' : Acks) → update acks (u64_key p.head.ack_id) (some p) ≡ ok (some old, acks')
          → rcv_ack acks p ≡ ok (keeps acks')
      by_node none found val acks' e = cc
      by_node (some n) found val acks' e = rw (rcv_ack, found, e) refl

  -- One that nothing waits for changes nothing.
  pub rcv_msg-late : entry acks p.head.ack_id ≡ none → rcv_msg acks p ≡ ok (keeps acks)
  unfolding rcv_ack
  rcv_msg-late at =
      let (node, found, val) = find-entry acks w p.head.ack_id in
      rcv_msg-rcv_ack ∙ by_node node found (val ∙ at)
    where
      by_node :
          (node : Option (Node (Option Packet)))
          → find acks (u64_key p.head.ack_id) ≡ ok node
          → value node ≡ none
          → rcv_ack acks p ≡ ok (keeps acks)
      by_node none found val = rw (rcv_ack, found) refl
      by_node (some n) found val = cc
