-- ===== src/Ipc/Server/Clients/Tests.antt =====
-- A client that comes to a server without clients, and its end.
use utils_c.Base.{ℕ, ◌≡◌, refl, arith, true, some, [], ◌∷◌, fault}
use utils_c.Hash.Key.{uint64, cal_key_len}
use utils_c.Hash.Table.{Table}
use utils_c.Hash.Table.Chains.{lookup}
use utils_c.Hash.Table.Invariant.{view, key_len}
use utils_c.Ipc.Proto.{u64_key}
use utils_c.Ipc.Numbered.{IsNumbered, u64_key-IsKey}
use utils_c.Ipc.Server.Clients.{Info, Clients, Accepting, fallback_uuid}
use utils_c.Ipc.Server.Clients.Accept.{Stay, accept_client-Stay}

abbrev empty_table : (V : Type 0) → Table V
empty_table V = record {
  name = [];
  key_type = uint64;
  mem_key_len = 0;
  node_ttl = 0;
  height = 1;
  hash_cal_fun = λ bs. 0;
  nodes = [] ∷ [];
}

empty_table-IsNumbered : (V : Type 0) → IsNumbered (empty_table V)
unfolding key_len cal_key_len
empty_table-IsNumbered V = record {
  valid = record {
    known = refl;
    room = omega arith;
    width = refl;
    placed = (tt, tt);
    counted = refl;
  };
  key_type = refl;
  mem_key_len = refl;
}

abbrev clients : Clients
clients = record { fds = empty_table ℕ; infos = empty_table Info }

abbrev incoming : Accepting
incoming = record {
  fd = some 9;
  s_addr = 0x100007f;
  sin_port = 40000;
  calloc = true;
  urandom = some 123456789;
  epoll_add = true;
  fd_mem = true;
  fd_node = some (u64_key 0);
  info_node = some (u64_key 0);
}

accept_client-Stay_example : Stay clients incoming 9 123456789
accept_client-Stay_example =
    accept_client-Stay clients incoming 9 123456789
      (record { fds = empty_table-IsNumbered ℕ; infos = empty_table-IsNumbered Info })
      (record {
        accepted = refl;
        calloc = refl;
        urandom = refl;
        epoll_add = refl;
        fd_mem = refl;
        fd_key = u64_key 0;
        fd_node = refl;
        fd_room = u64_key-IsKey 0 0 refl;
        info_key = u64_key 0;
        info_node = refl;
        info_room = u64_key-IsKey 0 0 refl;
      })
      (omega arith) (unfold view lookup in refl) (unfold view lookup in refl)

-- Without random bytes the shift is by more than 31 bits, for this port.
fallback_shift : fallback_uuid 0x100007f 40000 ≡ fault
unfolding fallback_uuid
fallback_shift = refl
