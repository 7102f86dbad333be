-- ===== src/Ipc/Frame.antt =====
-- ipc/uc_ipc_server.c: `uc_ipc_server_read_client`, which cuts the stream of a client into packets.
pub mod Place
pub mod Fill
pub mod Head
pub mod Step
pub mod Stream
mod Tests
use utils_c.Base.{
  ℕ, zero, suc, ◌+◌, ◌%◌, ◌^◌, ◌==◌, ltb, if◌then◌else◌, Bool, true, false, Option, none, some,
  List, [], ◌∷◌, length, replicate, ◌&&◌,
}
use utils_c.Io.{ReadResult, got, eof, minus}
use utils_c.Io.Random.{put}
use utils_c.Ipc.Proto.{header_len, header_of}

-- The part of `uc_ipc_cli_t` that the reading is about: the bytes of the header as they come, and the
-- block for the payload.
pub record Cli : Type 0 where
  pub has_read : ℕ
  pub head_done : Bool
  pub buf_done : Bool
  pub ipc_head : List ℕ
  pub buf : Option (List ℕ)

-- `uc_ipc_server_reset_cli_proto`, without the `free`
unfoldable pub reset_cli_proto : Cli → Cli
reset_cli_proto cli = record {
  has_read = 0;
  head_done = false;
  buf_done = false;
  ipc_head = replicate 28 0;
  buf = none;
}

-- How a round of the loop ends: the loop goes on, `uc_ipc_server_read_client` returns 0 or 1, or it
-- closes the client and returns an error. Or there is no other result of read(2) yet.
pub data Next : Type 0 where
  loops waits message starved : Cli → Next
  closes : ℕ → Next

abbrev pub ttl_of : Cli → ℕ
ttl_of cli = (header_of cli.ipc_head).ttl

-- How many bytes are asked for. Sums and differences are `size_t`.
pub wants : Cli → ℕ
wants cli =
    if cli.head_done
    then (let want = minus (ttl_of cli) (minus cli.has_read header_len) in
        if ltb 8192 want then 8192 else want)
    else minus header_len cli.has_read

abbrev pub packet_len : Cli → ℕ
packet_len cli = (header_len + ttl_of cli) % 2 ^ 64

-- The bytes stand where read(2) has put them, and are counted.
pub stored : Cli → List ℕ → Cli
stored cli bs =
    if cli.head_done
    then record cli {
      has_read = (cli.has_read + length bs) % 2 ^ 64;
      buf = elim cli.buf [
        | none ↦ none
        | some block ↦ some (put block (minus cli.has_read header_len) bs)
      ];
    }
    else record cli {
      has_read = (cli.has_read + length bs) % 2 ^ 64;
      ipc_head = put cli.ipc_head cli.has_read bs;
    }

-- When a header is whole: the block for the payload. `malloc` tells of each size what block it gives.
pub head_read : (ℕ → Option (List ℕ)) → Cli → Next
head_read malloc cli =
    if cli.has_read == header_len
    then (if cli.has_read == packet_len cli
        then message (record cli { head_done = true; buf = none; buf_done = true })
        else elim (malloc (ttl_of cli)) [
          | none ↦ closes 0x48a6af21
          | some block ↦ loops (record cli { head_done = true; buf = some block })
        ])
    else if ltb header_len cli.has_read
    then closes 0x4a9e0f3d
    else waits cli

pub buf_read : Cli → Next
buf_read cli =
    if cli.has_read == packet_len cli
    then message (record cli { buf_done = true })
    else if ltb (packet_len cli) cli.has_read
    then closes 0x73978bc5
    else waits cli

-- A header is whole exactly when it has given what was asked for, so that the test of `count` against
-- `want` behind it lets the loop go on.
pub read_step : (ℕ → Option (List ℕ)) → Cli → ReadResult → Next
unfolding head_read buf_read stored
read_step malloc cli (got bs) =
    if cli.head_done then buf_read (stored cli bs) else head_read malloc (stored cli bs)
read_step malloc cli eof = closes 0x46dd3fd2
read_step malloc cli ReadResult.interrupted = loops cli
read_step malloc cli ReadResult.again = waits cli
read_step malloc cli ReadResult.broken = closes 0x31ecfc83

pub read_client : (ℕ → Option (List ℕ)) → Cli → List ReadResult → Next × List ReadResult
unfolding read_step
read_client malloc cli [] =
    ((if cli.head_done && cli.buf_done then closes 0x34a82f5c else starved cli), [])
read_client malloc cli (r ∷ rs) =
    if cli.head_done && cli.buf_done
    then (closes 0x34a82f5c, r ∷ rs)
    else elim (read_step malloc cli r) [
      | loops c ↦ read_client malloc c rs
      | waits c ↦ (waits c, rs)
      | message c ↦ (message c, rs)
      | starved c ↦ (starved c, rs)
      | closes e ↦ (closes e, rs)
    ]

-- A message that is handed on: the bytes of its header, and its payload.
abbrev pub Message : Type 0
Message = List ℕ × Option (List ℕ)

abbrev pub message_of : Cli → Message
message_of cli = (cli.ipc_head, cli.buf)

-- `uc_ipc_server_loop_rcv` for one client, each time epoll tells of it: the messages that
-- `uc_ipc_server_handle_client_msg` is called for, and the client, or none when it is closed. `again` is
-- the later rounds.
pub react :
    (Cli → List ReadResult → List Message × Option Cli)
    → Next × List ReadResult
    → List Message × Option Cli
unfolding reset_cli_proto
react again (loops c, rest) = ([], some c)
react again (waits c, rest) = again c rest
react again (message c, rest) =
    let (ms, end) = again (reset_cli_proto c) rest in (message_of c ∷ ms, end)
react again (starved c, rest) = ([], some c)
react again (closes e, rest) = ([], none)

pub serve : ℕ → (ℕ → Option (List ℕ)) → Cli → List ReadResult → List Message × Option Cli
unfolding react read_client
serve zero malloc cli rs = ([], some cli)
serve (suc fuel) malloc cli rs = react (serve fuel malloc) (read_client malloc cli rs)
