-- ===== src/Ipc/Server/Clients/Accept.antt =====
-- ipc/uc_ipc_server.c: a client that is accepted and closed.
use utils_c.Ipc.Proto.{u64_key}
use utils_c.Base.{
  ℕ, ◌^◌, ◌<◌, ◌≡◌, refl, sym, ap, ◌∙◌, inl, inr, ◌==◌, ==_iff, ==_self, Bool-cases, true, none,
  some, ok, done, List,
}
use utils_c.Hash.Key.{Key}
use utils_c.Hash.Key.Compare.{IsKey}
use utils_c.Hash.Table.{Table, insert, delete}
use utils_c.Hash.Table.Invariant.{view}
use utils_c.Ipc.Numbered.{IsNumbered, entry, Sets, insert-Sets, delete-Sets, key_bytes-to_le}
use utils_c.Ipc.Server.Send.{IsServer, fd_of}
use utils_c.Ipc.Server.Clients.{
  Info, Clients, Accepting, choose_uuid, new_info, note_client, accept_with, accept_client,
  close_cli,
}

pub record IsClients (cs : Clients) : Type 0 where
  pub fds : IsNumbered cs.fds
  pub infos : IsNumbered cs.infos

-- Every call gives what it is asked for.
pub record Gives (a : Accepting) (fd uuid : ℕ) : Type 0 where
  pub accepted : a.fd ≡ some fd
  pub calloc : a.calloc ≡ true
  pub urandom : a.urandom ≡ some uuid
  pub epoll_add : a.epoll_add ≡ true
  pub fd_mem : a.fd_mem ≡ true
  pub fd_key : Key
  pub fd_node : a.fd_node ≡ some fd_key
  pub fd_room : IsKey 0 fd_key
  pub info_key : Key
  pub info_node : a.info_node ≡ some info_key
  pub info_room : IsKey 0 info_key

-- A number that was not there, set and then taken away, leaves all entries as they were.
unset {ℓ} :
    {V : Type ℓ} (tbl mid end : Table V) (n : ℕ) (v : V)
    → entry tbl n ≡ none
    → Sets tbl n (some v) mid
    → Sets mid n none end
    → (m : ℕ) → m < 2 ^ 64
    → entry end m ≡ entry tbl m
unset tbl mid end n v new sets gone m k = elim (Bool-cases (n == m)) [
  | inl same ↦ gone.entries m k ∙ rw same (sym new ∙ ap (entry tbl) ((==_iff n m).0 same))
  | inr other ↦ gone.entries m k ∙ rw other (sets.entries m k ∙ rw other refl)
]

chosen : (a : Accepting) (fd uuid : ℕ) → Gives a fd uuid → choose_uuid a ≡ ok uuid
unfolding choose_uuid
chosen a fd uuid g = simp (choose_uuid, g.urandom) refl

accepts_by :
    (cs : Clients) (a : Accepting) (fd uuid : ℕ) (freed_1 : List ℕ) (freed_2 : List Info)
    (fds : Table ℕ) (infos : Table Info)
    → (g : Gives a fd uuid)
    → insert cs.fds (u64_key uuid) fd (some g.fd_key) ≡ ok (done, freed_1, fds)
    → insert cs.infos (u64_key uuid) (new_info fd uuid) (some g.info_key)
      ≡ ok (done, freed_2, infos)
    → accept_client cs a
      ≡ ok (record { status = done; closed = none; clients = record { fds = fds; infos = infos } })
unfolding accept_client accept_with note_client
accepts_by cs a fd uuid freed_1 freed_2 fds infos g e1 e2 =
    simp (accept_client, g.accepted, g.calloc, g.epoll_add, g.fd_mem, g.fd_node, g.info_node)
      (simp (chosen a fd uuid g) (simp (e1, e2) refl))

closes_by :
    (cs : Clients) (fd uuid : ℕ) (freed_1 : List ℕ) (freed_2 : List Info) (fds : Table ℕ)
    (infos : Table Info)
    → delete cs.fds (u64_key uuid) ≡ ok (done, freed_1, fds)
    → delete cs.infos (u64_key uuid) ≡ ok (done, freed_2, infos)
    → close_cli cs (new_info fd uuid) ≡ ok (fd, record { fds = fds; infos = infos })
unfolding close_cli
closes_by cs fd uuid freed_1 freed_2 fds infos e1 e2 = simp (e1, e2) refl

-- A client between its connection and its end.
pub record Stay (cs : Clients) (a : Accepting) (fd uuid : ℕ) : Type 0 where
  pub clients : Clients
  pub after : Clients
  pub accepts : accept_client cs a ≡ ok (record { status = done; closed = none; clients = clients })
  pub server : (seq_id : ℕ) → IsServer (record { seq_id = seq_id; fds = clients.fds })
  pub reached : (seq_id : ℕ) → fd_of (record { seq_id = seq_id; fds = clients.fds }) uuid ≡ some fd
  pub known : entry clients.infos uuid ≡ some (new_info fd uuid)
  pub closes : close_cli clients (new_info fd uuid) ≡ ok (fd, after)
  pub valid : IsClients after
  pub fds_restored : (m : ℕ) → m < 2 ^ 64 → entry after.fds m ≡ entry cs.fds m
  pub infos_restored : (m : ℕ) → m < 2 ^ 64 → entry after.infos m ≡ entry cs.infos m

-- A client that is accepted, where every call gives what it is asked for and its uuid is not in use, is
-- in both tables under its uuid: messages to it are sent on its descriptor. When it is closed, its
-- descriptor is the one that is closed, the tables stay valid, and every uuid has the entries that it
-- had before.
pub accept_client-Stay :
    (cs : Clients) (a : Accepting) (fd uuid : ℕ)
    → IsClients cs
    → Gives a fd uuid
    → uuid < 2 ^ 64
    → entry cs.fds uuid ≡ none
    → entry cs.infos uuid ≡ none
    → Stay cs a fd uuid
accept_client-Stay cs a fd uuid w g small no_fd no_info =
    let (freed_1, fds, e1, s1) = insert-Sets cs.fds w.fds uuid fd g.fd_key small g.fd_room in
    let (freed_2, infos, e2, s2) =
      insert-Sets cs.infos w.infos uuid (new_info fd uuid) g.info_key small g.info_room in
    let (freed_3, fds', e3, s3) = delete-Sets fds s1.numbered uuid small in
    let (freed_4, infos', e4, s4) = delete-Sets infos s2.numbered uuid small in
    record {
      clients = record { fds = fds; infos = infos };
      after = record { fds = fds'; infos = infos' };
      accepts = accepts_by cs a fd uuid freed_1 freed_2 fds infos g e1 e2;
      server = λ seq_id. record {
        valid = s1.numbered.valid;
        key_type = s1.numbered.key_type;
        mem_key_len = s1.numbered.mem_key_len;
      };
      reached = λ seq_id.
          ap (view fds) (key_bytes-to_le fds s1.numbered uuid)
          ∙ (s1.entries uuid small ∙ rw (==_self uuid) refl);
      known = s2.entries uuid small ∙ rw (==_self uuid) refl;
      closes =
          closes_by (record { fds = fds; infos = infos }) fd uuid freed_3 freed_4 fds' infos' e3 e4;
      valid = record { fds = s3.numbered; infos = s4.numbered };
      fds_restored = unset cs.fds fds fds' uuid fd no_fd s1 s3;
      infos_restored = unset cs.infos infos infos' uuid (new_info fd uuid) no_info s2 s4;
    }
