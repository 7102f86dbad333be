-- ===== src/ThreadPool/Create.antt =====
-- uc_threadpool_create of threadpool/uc_threadpool.c.
use utils_c.Base.{
  ℕ, zero, suc, ◌+◌, ◌<◌, ◌≤◌, ◌≡◌, ◌≢◌, ◌⊎◌, Bool, true, false, Option, none, some, List, [], ◌∷◌,
  length, get_elem?,
}
use utils_c.ListHead.{ListOps, ListLaws}
use utils_c.ThreadPool.{
  PoolHead, task_list, free_list, pid_list, Pool, Created, null, closes, created,
}
use utils_c.ThreadPool.Valid.{IsValid}
use utils_c.ThreadPool.Steps.{IsSound}

-- The blocks that `malloc` gives for the threads
unfoldable pub nodes : List (Option ℕ × Bool) → List ℕ
nodes [] = []
nodes ((none, started) ∷ rs) = nodes rs
nodes ((some i, started) ∷ rs) = i ∷ nodes rs

-- So many threads can be started.
abbrev pub AllStart : List (Option ℕ × Bool) → ℕ → Type 0
AllStart rs zero = Unit
AllStart [] (suc n) = ⊥
AllStart ((none, started) ∷ rs) (suc n) = ⊥
AllStart ((some i, false) ∷ rs) (suc n) = ⊥
AllStart ((some i, true) ∷ rs) (suc n) = AllStart rs n

-- What the loop that starts threads leaves of a pool `p`.
record Started {S : Type 0} (ops : ListOps PoolHead S) (p q : Pool S) (rs : List (Option ℕ × Bool))
    (n : ℕ) : Type 0 where
  valid : IsValid ops q
  unlocked : q.locked ≡ p.locked
  same_max : q.thread_max ≡ p.thread_max
  tasks : ops.entries q.lists task_list ≡ ops.entries p.lists task_list
  threads : length (ops.entries q.lists pid_list) ≡ q.thread_alive
  most : q.thread_alive ≤ p.thread_alive + n
  all : AllStart rs n → q.thread_alive ≡ p.thread_alive + n

module _ {S : Type 0} (ops : ListOps PoolHead S) (laws : ListLaws ops) where
  abbrev with_thread : Pool S → ℕ → Pool S
  with_thread p i = record p {
    thread_alive = p.thread_alive + 1;
    lists = ops.add_tail p.lists i pid_list;
  }

  -- A pool with no task and so many threads
  abbrev pub IsReady : Pool S → Type 0
  IsReady p =
      IsSound ops (record { pool = p; running = []; idle = p.thread_alive })
      × (p.locked ≡ false)
      × (ops.entries p.lists task_list ≡ [])
      × (length (ops.entries p.lists pid_list) ≡ p.thread_alive)

  abbrev pub Creates :
      (calloc mutex_init cond_init : Bool) (rs : List (Option ℕ × Bool))
      (thr_num_min thr_num_max : ℕ)
      → Created S
      → Type 0
  Creates calloc mutex_init cond_init rs thr_num_min thr_num_max null = calloc ≡ false
  Creates calloc mutex_init cond_init rs thr_num_min thr_num_max (closes hs) =
      (calloc ≡ true)
      × ((mutex_init ≡ false)
          ⊎ (cond_init ≡ false)
          ⊎ (thr_num_max ≡ 0)
          ⊎ (thr_num_max < thr_num_min))
      × ((i : ℕ) → get_elem? hs i ≢ some pid_list)
  Creates calloc mutex_init cond_init rs thr_num_min thr_num_max (created p) =
      (calloc ≡ true)
      × (mutex_init ≡ true)
      × (cond_init ≡ true)
      × (thr_num_min ≤ thr_num_max)
      × IsReady p
      × (p.thread_alive ≤ thr_num_min)
      × (AllStart rs thr_num_min → p.thread_alive ≡ thr_num_min)

  abbrev set_up : S → S
  set_up s = ops.init (ops.init (ops.init s task_list) free_list) pid_list

  abbrev new_pool : S → ℕ → ℕ → Pool S
  new_pool s thr_num_min thr_num_max = record {
    lists = set_up s;
    tasks = λ i. record { fun = 0; arg = 0 };
    list_task_ttl = 0;
    list_task_max = 0;
    thread_min = thr_num_min;
    thread_max = thr_num_max;
    thread_alive = 0;
    shutdown = false;
    locked = false;
  }
