-- ===== src/Ipc/Frame/Place.antt =====
-- ipc/uc_ipc_server.c: where `uc_ipc_server_read_client` stands in a packet.
use utils_c.Base.{
  ℕ, ◌+◌, ◌^◌, ◌<◌, ◌≤◌, ◌≡◌, refl, sym, ◌⊎◌, arith, true, false, Option, none, some, List, [], ◌∷◌,
  ◌++◌, length, take, ap₂,
}
use utils_c.Ipc.Proto.{Packet, header_len, header_bytes, IsHeader}
use utils_c.Ipc.Frame.{Cli, Next, loops, waits, message, Message, message_of}

-- A packet that its sender can have made: the header fits its members, and counts the payload, whose
-- length leaves room for the header in a `size_t`.
pub record IsPacket (p : Packet) : Type 0 where
  pub head : IsHeader p.head
  pub counted : p.head.ttl ≡ length p.buf
  pub room : length p.buf + header_len < 2 ^ 64

-- Between the first byte of a packet and the end of its header, and from there to the end of the
-- payload, where `part` has come.
abbrev pub heading : List ℕ → List ℕ → Cli
heading part h = record {
  has_read = length part;
  head_done = false;
  buf_done = false;
  ipc_head = h;
  buf = none;
}

abbrev pub filling : Packet → List ℕ → List ℕ → Cli
filling p part block = record {
  has_read = header_len + length part;
  head_done = true;
  buf_done = false;
  ipc_head = header_bytes p.head;
  buf = some block;
}

pub record InHead (p : Packet) (cli : Cli) (need : List ℕ) : Type 0 where
  pub part : List ℕ
  pub more : List ℕ
  pub ipc_head : List ℕ
  pub state : cli ≡ heading part ipc_head
  pub size : length ipc_head ≡ header_len
  pub come : take (length part) ipc_head ≡ part
  pub whole : part ++ more ≡ header_bytes p.head
  pub ahead : need ≡ more ++ p.buf
  pub some_left : 0 < length more

pub record InBuf (p : Packet) (cli : Cli) (need : List ℕ) : Type 0 where
  pub part : List ℕ
  pub block : List ℕ
  pub state : cli ≡ filling p part block
  pub size : length block ≡ length p.buf
  pub come : take (length part) block ≡ part
  pub whole : part ++ need ≡ p.buf
  pub some_left : 0 < length need

abbrev pub Within : Packet → Cli → List ℕ → Type 0
Within p cli need = InHead p cli need ⊎ InBuf p cli need

-- `malloc` has a block for each payload.
abbrev pub Grants : (ℕ → Option (List ℕ)) → Packet → Type 0
Grants malloc p =
    (block : List ℕ) × (malloc (length p.buf) ≡ some block) × (length block ≡ length p.buf)

-- What is handed on for a packet: no block where there is no payload.
unfoldable pub payload : List ℕ → Option (List ℕ)
payload [] = none
payload (b ∷ bs) = some (b ∷ bs)

abbrev pub delivered : Packet → Message
delivered p = (header_bytes p.head, payload p.buf)

-- A round that goes on in the same packet, behind the bytes `bs`.
pub record Goes (p : Packet) (need bs : List ℕ) (n : Next) : Type 0 where
  pub cli : Cli
  pub rest : List ℕ
  pub result : (n ≡ loops cli) ⊎ (n ≡ waits cli)
  pub within : Within p cli rest
  pub split : need ≡ bs ++ rest

-- A round that ends the packet.
pub record Ends (p : Packet) (need bs : List ℕ) (n : Next) : Type 0 where
  pub cli : Cli
  pub result : n ≡ message cli
  pub handed : message_of cli ≡ delivered p
  pub all : need ≡ bs

abbrev pub Moves : Packet → List ℕ → List ℕ → Next → Type 0
Moves p need bs n = Goes p need bs n ⊎ Ends p need bs n

-- What comes next, when as many bytes as `bs` are a beginning of it.
pub beginning :
    (bs more need later : List ℕ)
    → bs ++ more ≡ need ++ later
    → length bs ≤ length need
    → (rest : List ℕ) × (need ≡ bs ++ rest) × (more ≡ rest ++ later)
beginning [] more need later e h = (need, refl, e)
beginning (b ∷ bs) more [] later e h = absurd (omega arith)
beginning (b ∷ bs) more (x ∷ need) later e h =
    let same : b ≡ x = cc in
    let (rest, f, g) = beginning bs more need later (cc) (omega arith) in
    (rest, ap₂ ◌∷◌ (sym same) f, g)
