-- ===== src/ThreadPool.antt =====
-- threadpool/uc_threadpool.c: the thread pool, by its critical sections.
pub mod Valid
pub mod Queue
pub mod Errors
pub mod Create
pub mod Steps
pub mod Sound
pub mod Reach
mod Tests
use utils_c.Base.{
  ℕ, zero, suc, ◌+◌, ◌-◌, ◌%◌, ◌^◌, ◌==◌, if◌then◌else◌, Bool, true, false, not, ◌&&◌, ◌||◌, leb,
  ltb, Option, none, some, List, [], ◌∷◌, Status, done, failed,
}
use utils_c.ListHead.{ListOps}

-- The lists of a pool
pub data PoolHead : Type 0 where
  task_list free_list pid_list : PoolHead

pub record Task : Type 0 where
  pub fun : ℕ
  pub arg : ℕ

-- `locked` tells whether a thread has gone off with the lock; the lists have the nodes of tasks and of
-- threads, by their addresses.
pub record Pool (S : Type 0) : Type 0 where
  pub lists : S
  pub tasks : ℕ → Task
  pub list_task_ttl : ℕ
  pub list_task_max : ℕ
  pub thread_min : ℕ
  pub thread_max : ℕ
  pub thread_alive : ℕ
  pub shutdown : Bool
  pub locked : Bool

abbrev pub set_task : (ℕ → Task) → ℕ → Task → ℕ → Task
set_task tasks i task j = if j == i then task else tasks j

-- How a worker's section ends: it waits for another signal, it leaves, or it has a task.
pub data Taken : Type 0 where
  waits exits : Taken
  took : ℕ → Taken

-- How an addition ends: it waits for another signal, or it returns.
pub data Added : Type 0 where
  blocked : Added
  returns : Status → Added

-- How `uc_threadpool_create` goes on: it returns NULL; or it calls `uc_threadpool_close` on a block in
-- which these lists have been set up, and all else is zero; or it returns a pool.
pub data Created (S : Type 0) : Type 0 where
  null : Created S
  closes : List PoolHead → Created S
  created : Pool S → Created S

module _ {S : Type 0} (ops : ListOps PoolHead S) where
  -- The first section of `uc_threadpool_thread_work`
  pub take_task : Pool S → Taken × Pool S
  take_task p =
      if p.shutdown
      then (exits, record p { thread_alive = (p.thread_alive + 2 ^ 32 - 1) % 2 ^ 32 })
      else elim (ops.entries p.lists task_list) [
        | [] ↦ (waits, p)
        | i ∷ is ↦ (
          took i,
          record p {
            lists = ops.del p.lists i;
            list_task_ttl = (p.list_task_ttl + 2 ^ 64 - 1) % 2 ^ 64;
          },
        )
      ]

  -- The second section, when the task has been carried out
  pub recycle : Pool S → ℕ → Pool S
  recycle p i = record p {
    tasks = set_task p.tasks i (record (p.tasks i) { arg = 0 });
    lists = ops.add_tail p.lists i free_list;
  }

  abbrev pub enqueue : Pool S → ℕ → Task → Bool → Pool S
  enqueue p i task to_head = record p {
    tasks = set_task p.tasks i task;
    lists = if to_head then ops.add_head p.lists i task_list else ops.add_tail p.lists i task_list;
    list_task_ttl = (p.list_task_ttl + 1) % 2 ^ 64;
  }

  -- `uc_threadpool_add_to_void_task_do` from its waiting loop on, up to giving the lock back. The
  -- return on a failed `malloc` does not give it back.
  pub add_rest : Pool S → Task → Bool → Option ℕ → Added × Pool S
  add_rest p task to_head malloc =
      if not (p.list_task_max == 0) && leb p.list_task_max p.list_task_ttl
      then (blocked, p)
      else elim (ops.entries p.lists free_list) [
        | [] ↦ elim malloc [
          | none ↦ (returns (failed 0x18aa3f60), record p { locked = true })
          | some i ↦ (returns done, enqueue p i task to_head)
        ]
        | i ∷ is ↦ (returns done, enqueue (record p { lists = ops.del p.lists i }) i task to_head)
      ]

  -- The whole section; the pool is looked at for a shutdown before the loop only.
  pub add_task : Pool S → Task → Bool → Option ℕ → Added × Pool S
  unfolding add_rest
  add_task p task to_head malloc =
      if p.shutdown then (returns (failed 0x7d1a4672), p) else add_rest p task to_head malloc

  -- `malloc` is the node of a new thread, and `started` whether `pthread_create` succeeds. `thread_max`
  -- is an `int`, kept by its 32 bits: from 2 ^ 31 on it is negative, and less than any count.
  pub activty_try_do : Pool S → Option ℕ → Bool → Status × Pool S
  activty_try_do p malloc started =
      if leb (2 ^ 31) p.thread_max || leb p.thread_max p.thread_alive
      then (done, p)
      else if ltb p.list_task_ttl p.thread_alive
      then (done, p)
      else elim malloc [
        | none ↦ (failed 0x77094f73, p)
        | some i ↦
            if started
            then (
              done,
              record p {
                thread_alive = p.thread_alive + 1;
                lists = ops.add_tail p.lists i pid_list;
              },
            )
            else (failed 0x3c5a31ed, p)
      ]

  pub set_task_max : Pool S → ℕ → ℕ × Pool S
  set_task_max p max = (p.list_task_max, record p { list_task_max = max })

  -- Whether `uc_threadpool_wait_task_done` goes on waiting
  pub wait_task_done : Pool S → Bool
  wait_task_done p = elim (ops.entries p.lists task_list) [ [] ↦ false | i ∷ is ↦ true ]

  -- The sections of `uc_threadpool_close`: the signal, one thread to join, and what is freed.
  pub close_signal : Pool S → Pool S
  close_signal p = record p { shutdown = true }

  pub close_join : Pool S → Option (ℕ × Pool S)
  close_join p = elim (ops.entries p.lists pid_list) [
    | [] ↦ none
    | i ∷ is ↦ some (i, record p { lists = ops.del p.lists i })
  ]

  pub unlink_all : S → List ℕ → S
  unlink_all s [] = s
  unlink_all s (i ∷ is) = unlink_all (ops.del s i) is

  pub close_free : Pool S → List ℕ × List ℕ × Pool S
  unfolding unlink_all
  close_free p =
      let free_tasks = ops.entries p.lists free_list in
      let s = unlink_all p.lists free_tasks in
      let tasks = ops.entries s task_list in
      (free_tasks, tasks, record p { lists = unlink_all s tasks })

  -- The loop of `uc_threadpool_create`, on what `malloc` and `pthread_create` give for each thread
  pub start_threads : Pool S → List (Option ℕ × Bool) → ℕ → Pool S
  start_threads p rs zero = p
  start_threads p [] (suc n) = p
  start_threads p ((none, started) ∷ rs) (suc n) = p
  start_threads p ((some i, false) ∷ rs) (suc n) = p
  start_threads p ((some i, true) ∷ rs) (suc n) =
      start_threads
        (record p { thread_alive = p.thread_alive + 1; lists = ops.add_tail p.lists i pid_list }) rs
        n

  -- `calloc`, `pthread_mutex_init` and `pthread_cond_init` as whether they succeed, and a new store.
  pub create : Bool → Bool → Bool → S → List (Option ℕ × Bool) → ℕ → ℕ → Created S
  unfolding start_threads
  create calloc mutex_init cond_init s rs thr_num_min thr_num_max =
      if not calloc
      then null
      else if not mutex_init || not cond_init
      then closes []
      else if thr_num_max == 0 || ltb thr_num_max thr_num_min
      then closes (task_list ∷ free_list ∷ [])
      else created (
          start_threads
            (record {
              lists = ops.init (ops.init (ops.init s task_list) free_list) pid_list;
              tasks = λ i. record { fun = 0; arg = 0 };
              list_task_ttl = 0;
              list_task_max = 0;
              thread_min = thr_num_min;
              thread_max = thr_num_max;
              thread_alive = 0;
              shutdown = false;
              locked = false;
            })
            rs thr_num_min)
