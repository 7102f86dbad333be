-- ===== src/Ipc/Proto.antt =====
-- ipc/uc_ipc_common.h: the packets, and the numbers of messages.
use utils_c.Base.{
  ℕ, zero, suc, ◌+◌, ◌/◌, ◌%◌, ◌^◌, ◌<◌, ◌≡◌, refl, arith, ltb, if◌then◌else◌, List, [], ◌∷◌, ◌++◌,
  length, take, drop, replicate,
}
use utils_c.Hash.Key.{value_of, Key}

-- The members of `uc_ipc_msg_type_t`
abbrev pub heartbeat : ℕ
heartbeat = 1

abbrev pub void : ℕ
void = 2

abbrev pub async_send : ℕ
async_send = 3

abbrev pub async_ack : ℕ
async_ack = 4

abbrev pub sync_send : ℕ
sync_send = 5

abbrev pub sync_ack : ℕ
sync_ack = 6

abbrev pub seq_id_min : ℕ
seq_id_min = 10000

pub record Header : Type 0 where
  pub ttl : ℕ
  pub msg_type : ℕ
  pub seq_id : ℕ
  pub ack_id : ℕ

pub record Packet : Type 0 where
  pub head : Header
  pub buf : List ℕ

abbrev pub header_len : ℕ
header_len = 28

-- The bytes of a number in memory, little-endian
unfoldable pub to_le : ℕ → ℕ → List ℕ
to_le zero v = []
to_le (suc n) v = v % 256 ∷ to_le n (v / 256)

-- `uc_hash_key_t key = {.u64 = n}`
abbrev pub u64_key : ℕ → Key
u64_key n = record { bytes = to_le 8 n ++ replicate 64 0; mem = [] }

-- A header as it stands in memory, packed, and the header that such bytes are.
unfoldable pub header_bytes : Header → List ℕ
unfolding to_le
header_bytes h = to_le 8 h.ttl ++ (to_le 4 h.msg_type ++ (to_le 8 h.seq_id ++ to_le 8 h.ack_id))

unfoldable pub header_of : List ℕ → Header
unfolding value_of
header_of bs = record {
  ttl = value_of (take 8 bs);
  msg_type = value_of (take 4 (drop 8 bs));
  seq_id = value_of (take 8 (drop 12 bs));
  ack_id = value_of (take 8 (drop 20 bs));
}

abbrev pub packet_bytes : Packet → List ℕ
packet_bytes p = header_bytes p.head ++ p.buf

pub record IsHeader (h : Header) : Type 0 where
  pub ttl : h.ttl < 2 ^ 64
  pub msg_type : h.msg_type < 2 ^ 32
  pub seq_id : h.seq_id < 2 ^ 64
  pub ack_id : h.ack_id < 2 ^ 64

pub value_of-to_le_8 : (v : ℕ) → v < 2 ^ 64 → value_of (to_le 8 v) ≡ v
unfolding value_of to_le
value_of-to_le_8 v h = omega arith

pub value_of-to_le_4 : (v : ℕ) → v < 2 ^ 32 → value_of (to_le 4 v) ≡ v
unfolding value_of to_le
value_of-to_le_4 v h = omega arith

pub length-header_bytes : (h : Header) → length (header_bytes h) ≡ header_len
unfolding header_bytes
length-header_bytes h = refl

-- A header in memory reads as that header.
pub header_of-header_bytes : (h : Header) → IsHeader h → header_of (header_bytes h) ≡ h
unfolding header_of header_bytes
header_of-header_bytes h w = λ i. record {
  ttl = value_of-to_le_8 h.ttl w.ttl i;
  msg_type = value_of-to_le_4 h.msg_type w.msg_type i;
  seq_id = value_of-to_le_8 h.seq_id w.seq_id i;
  ack_id = value_of-to_le_8 h.ack_id w.ack_id i;
}

-- `uc_ipc_server_next_seq_id` and `uc_ipc_client_next_seq_id`: the number, and the next state.
unfoldable pub next_seq_id : ℕ → ℕ × ℕ
next_seq_id seq =
    let more = (seq + 1) % 2 ^ 64 in (seq, (if ltb more seq_id_min then seq_id_min else more))
