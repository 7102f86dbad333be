-- ===== src/Ipc/Server/Clients.antt =====
-- ipc/uc_ipc_server.c: how the server accepts a client, and how it closes one.
pub mod Accept
mod Tests
use utils_c.Base.{
  ℕ, ◌+◌, ◌*◌, ◌%◌, ◌^◌, ltb, if◌then◌else◌, Bool, false, Option, none, some, replicate, Run, ok,
  fault, ◌>>=◌, Status, done, failed,
}
use utils_c.Hash.Key.{Key}
use utils_c.Hash.Table.{Table, insert, delete}
use utils_c.Ipc.Proto.{u64_key}
use utils_c.Ipc.Frame.{Cli}

-- `uc_ipc_cli_t`, without the address.
pub record Info : Type 0 where
  pub fd : ℕ
  pub uuid : ℕ
  pub proto : Cli

-- The two tables of `uc_ipc_server_handler_t`.
pub record Clients : Type 0 where
  pub fds : Table ℕ
  pub infos : Table Info

-- What the calls of `uc_ipc_server_accept_client` give: accept(2) a descriptor with an address and a
-- port, `calloc` a client or not, `uc_urandom` a number, epoll_ctl(2) success, `malloc` room for the
-- descriptor and then the nodes of the two tables.
pub record Accepting : Type 0 where
  pub fd : Option ℕ
  pub s_addr : ℕ
  pub sin_port : ℕ
  pub calloc : Bool
  pub urandom : Option ℕ
  pub epoll_add : Bool
  pub fd_mem : Bool
  pub fd_node : Option Key
  pub info_node : Option Key

-- `closed` is a descriptor that is closed again.
pub record Accepted : Type 0 where
  pub status : Status
  pub closed : Option ℕ
  pub clients : Clients

-- `s_addr << 16 + sin_port`, a shift of 32 bits by the sum.
pub fallback_uuid : ℕ → ℕ → Run ℕ
fallback_uuid s_addr sin_port =
    if ltb (16 + sin_port) 32 then ok (s_addr * 2 ^ (16 + sin_port) % 2 ^ 32) else fault

pub choose_uuid : Accepting → Run ℕ
unfolding fallback_uuid
choose_uuid a = elim a.urandom [ some uuid ↦ ok uuid | none ↦ fallback_uuid a.s_addr a.sin_port ]

-- A client as `calloc` leaves it.
abbrev pub new_info : ℕ → ℕ → Info
new_info fd uuid = record {
  fd = fd;
  uuid = uuid;
  proto = record {
    has_read = 0;
    head_done = false;
    buf_done = false;
    ipc_head = replicate 28 0;
    buf = none;
  };
}

-- That the descriptor could not be noted is only printed.
pub note_client : Clients → Accepting → ℕ → ℕ → Run Accepted
note_client cs a fd uuid = do
  (fd_status, freed, fds) ← insert cs.fds (u64_key uuid) fd a.fd_node
  (status, freed_info, infos) ← insert cs.infos (u64_key uuid) (new_info fd uuid) a.info_node
  ok (record {
    status = elim status [ done ↦ done | failed e ↦ failed 0x59b70e22 ];
    closed = none;
    clients = record { fds = fds; infos = infos };
  })

pub accept_with : Clients → Accepting → ℕ → Run Accepted
unfolding choose_uuid note_client
accept_with cs a fd =
    if a.calloc
    then (choose_uuid a >>= λ uuid.
        (if a.epoll_add
          then (if a.fd_mem
              then note_client cs a fd uuid
              else ok (record { status = failed 0x70a1fdb5; closed = some fd; clients = cs }))
          else ok (record { status = failed 0x59f07af6; closed = some fd; clients = cs })))
    else ok (record { status = failed 0x1d008be0; closed = some fd; clients = cs })

pub accept_client : Clients → Accepting → Run Accepted
unfolding accept_with
accept_client cs a = elim a.fd [
  | none ↦ ok (record { status = failed 0x4f5d7da6; closed = none; clients = cs })
  | some fd ↦ accept_with cs a fd
]

-- `uc_ipc_server_close_cli`: the tables, and the descriptor that is closed.
pub close_cli : Clients → Info → Run (ℕ × Clients)
close_cli cs cli = do
  (status, freed, fds) ← delete cs.fds (u64_key cli.uuid)
  (status_info, freed_info, infos) ← delete cs.infos (u64_key cli.uuid)
  ok (cli.fd, record { fds = fds; infos = infos })
