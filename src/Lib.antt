-- ===== src/Lib.antt =====
-- utils_c is a library of C utilities for Unix-like systems. Its parts: a chained hash table
-- (hash/uc_hash.c, include/uc_hash.h); a thread pool with a task queue (threadpool/uc_threadpool.c);
-- a timer wheel that runs its callbacks on a thread pool (time/uc_time.c); messages between
-- processes over TCP, a server and a client (ipc/), which keep their connections and their pending
-- acknowledgements in hash tables and run their loops on thread pools; helpers for MAC and IPv4
-- addresses (util/uc_util.c), random numbers (random/uc_random.c), socket options (tcp_ip/) and
-- logging (log/). The intrusive list of include/list.h is the Linux kernel's, and the skip list of
-- skiplist/skiplist.c is Redis's.
--
-- Base has the shared names: Base/Tests the Boolean tests on numbers, Base/Lists lists with native
-- indices and equality of byte strings, Base/Members membership and lists without repetition,
-- Base/Words conversions of machine words, and Base/Outcome how a C function ends (it returns, it
-- calls `exit`, or it reads outside an object).
--
-- Hash models hash/uc_hash.c. Hash/Key has the key types and the key union, as its bytes and the
-- memory behind its member `mem`, with `uc_hash_key_compare` (key_compare), `uc_hash_key_copy`
-- (key_copy), `uc_cal_key_len` and `uc_cal_key_addr`. Hash/Crc has the checksum that is the
-- default hash function. Hash/Table has `struct uc_hash_table_s` (Table), whose chains are lists
-- of nodes, and create, insert, find, delete, update, reset and free. Hash/Walk has
-- `uc_hash_next`, the walk of `uc_hash_test_print_table` (visit) and `uc_hash_random_node`. What
-- an operation frees is part of its result; whether `malloc` and `calloc` succeed, and the bytes
-- that a new block holds, are arguments. `size_t` wraps at 2 ^ 64: a block may be too small for
-- the fields that creation sets, which is a fault. A hash function that the user sets is a
-- function of the bytes of the key. The proofs stand below the definitions: Hash/Key/Compare on
-- keys, Hash/Table/Chains and Writes on one chain, Invariant and Effect on the table, and a
-- module for each operation. The walk takes fuel, which the number of nodes is enough for.
--
-- Hash/History has sequences of calls, run on the table and on a map from keys to values.
--
-- Io models ipc/uc_ipc_io.c, the loops over read(2) and write(2) (`uc_io_read` is io_read,
-- `uc_io_write` is io_write). The results of the system calls are a list, which is an argument: a
-- loop is by recursion on it, and gives none when the list ends before the loop does. Io/Read and
-- Io/Write have the proofs. That a call moves at most as many bytes as it is asked to is a hypothesis
-- (Fits, Takes). Io/Random models random/uc_random.c, whose loops over read(2) are of the same kind,
-- with the proofs in Io/Random/Fill; whether the device opens is an argument.
--
-- ListHead is what the repository calls of include/list.h, as an interface: a store of circular lists
-- with the operations, and the laws that list.h states of them. ListHead/Relink has what follows for a
-- node that changes its list, and ListHead/Plain a store that meets the laws.
--
-- Timer models time/uc_time.c over that interface. A tick is what `uc_timer_check_timeout` does while
-- it holds the lock (tick); its five blocks are the stages, their common loop is sweep, and the block
-- that they repeat for a timer that goes off is go_off. `uc_timer_node_reinsert` is node_reinsert,
-- `uc_timer_add_do` and `uc_timer_delete_do` are add_do and delete_do. The tasks that are handed to the
-- thread pool are listed in calls. Timer/Home has the arithmetic of clock and due time, Timer/Wheel the
-- invariant and the plan that a timer is without the wheel, Timer/Visit, Sweep, Tick, Carry and Run the
-- proofs from one round of a loop to many ticks, Timer/Add new and deleted timers, and Timer/Sleep the
-- pauses. `uc_timer_init` and the loops around `select` are not modelled.
--
-- ThreadPool models threadpool/uc_threadpool.c over the same interface, one function for what a
-- function of the code does between taking the lock and giving it back: take_task and recycle are the
-- two sections of `uc_threadpool_thread_work`, add_task that of `uc_threadpool_add_to_void_task_do` and
-- add_rest the part that a caller who has waited does, activty_try_do that of
-- `uc_threadpool_activty_try`, and so on. ThreadPool/Steps has their interleavings as a relation of
-- steps; a thread that waits for a signal takes no step. ThreadPool/Valid and Queue are about the lists
-- and the order of the tasks, Sound and Reach about all steps, Create about a new pool, and Errors about
-- the lock that an addition without memory does not give back. When `uc_threadpool_create` fails, the
-- model tells which lists the pool has that it hands to `uc_threadpool_close` (closes).
--
-- Ipc models ipc/uc_ipc_server.c and ipc/uc_ipc_client.c. Ipc/Proto has the packets of ipc/uc_ipc_common.h as
-- values and as bytes in memory, and the numbers of messages. Ipc/Frame has `uc_ipc_server_read_client`
-- as a state machine on the results of read(2): read_step is a round of its loop, head_read and buf_read
-- what the round does when bytes have come, and serve is `uc_ipc_server_loop_rcv` for one client, on fuel,
-- which the number of results of read(2) is enough for. Ipc/Server has `uc_ipc_server_send_msg`
-- (send_msg), `uc_ipc_server_handle_client_msg` (handle_client_msg, which goes on in dispatch by the type
-- of the message), `uc_ipc_server_heartbeat_cb` and a round of `uc_ipc_server_loop_callback` (callback).
-- The descriptors of the clients are the hash table of Hash/Table, and packets go out by io_write. What
-- `malloc` gives, the results of read(2) and write(2) and the callback are arguments. A message in the
-- pipe is the record that its pointer stands for. What a message makes the server write, to the client and
-- to the pipe, is listed in its order (events). Below Ipc/Frame stand the proofs on the
-- stream, Ipc/Server/Send, Answer and Pipe those on messages.
-- Ipc/Server/Clients has `uc_ipc_server_accept_client` and `uc_ipc_server_close_cli` on the two tables of
-- clients. Ipc/Numbered has what the tables with numbers for keys are as maps. Ipc/Client models the
-- client, one function for what the code does under the lock of the pending answers: insert_seq and
-- delete_seq, the sections of `uc_ipc_client_wait_ack` (wait_enter up to the first wait, wait_wake after
-- each, wait_finish when the answer is there), and `uc_ipc_client_loop_rcv` as rcv_round, which goes on
-- in rcv_msg with a whole packet. begin_send is what comes before the waiting in
-- `uc_ipc_client_async_send` and `uc_ipc_client_sync_send`. Ipc/Client/System has the interleavings of all
-- callers with the receiving thread as a relation of steps; Ipc/Client/Outcome has what a section can do,
-- Receive, Wait, Send and Exchange have the way of one message and its answer, and Deadline the time
-- limit. Ipc/Server/Start and Ipc/Client/Start have `uc_ipc_init_server` and `uc_ipc_init_client` as the
-- list of what they take and give back (Ipc/Resources); which of their calls succeed is an argument.
--
-- Util models the MAC addresses of util/uc_util.c: `uc_utils_mac_hexstr_to_digit`,
-- `uc_utils_mac_digit_to_hexstr` and `uc_utils_mac_hexstr_to_lower` keep their names without the
-- prefix. A string is the list of its characters without the final zero. Util/Mac has the proofs.
--
-- Not modelled: the accounting of memory that a macro switches on, printing and logging, the other
-- helpers of util/uc_util.c, the loops that connect a client of ipc/ again and send its
-- heartbeats, the addresses and options of sockets, and the parts named above that no file here is
-- about. List and skip list are other projects' libraries.
pub mod Base
pub mod Hash
pub mod Io
pub mod Ipc
pub mod ListHead
pub mod ThreadPool
pub mod Timer
pub mod Util
