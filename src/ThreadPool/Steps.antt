-- ===== src/ThreadPool/Steps.antt =====
-- The critical sections of threadpool/uc_threadpool.c as steps of a system of threads.
use utils_c.ThreadPool.Valid.{IsValid}
use utils_c.Base.{
  NoRepeat, length, ◌≤◌, ℕ, suc, ◌+◌, ◌-◌, ◌^◌, ◌<◌, ◌≡◌, Bool, false, Option, some, List, ◌∷◌, In,
  remove, Status,
}
use utils_c.ListHead.{ListOps, IsFree}
use utils_c.ThreadPool.{
  PoolHead, Task, Pool, took, exits, returns, take_task, recycle, add_rest, activty_try_do,
  set_task_max, close_signal,
}

-- A pool, the nodes of the tasks that workers are carrying out, and the number of the other workers.
pub record System (S : Type 0) : Type 0 where
  pub pool : Pool S
  pub running : List ℕ
  pub idle : ℕ

module _ {S : Type 0} (ops : ListOps PoolHead S) where
  -- A block that `malloc` gives is in no one's hands.
  abbrev pub IsFresh : System S → Option ℕ → Type 0
  IsFresh a malloc = (i : ℕ) → malloc ≡ some i → IsFree ops a.pool.lists i × (¬ In i a.running)

  -- A step takes the lock, which nobody has gone off with. A thread that waits takes no step. An
  -- addition that has waited goes on by add_rest.
  pub data Step (a b : System S) : Type 0 where
    works :
        (i k : ℕ) (p : Pool S)
        → a.pool.locked ≡ false
        → a.idle ≡ suc k
        → take_task ops a.pool ≡ (took i, p)
        → b ≡ record { pool = p; running = i ∷ a.running; idle = k }
        → Step a b
    leaves :
        (k : ℕ) (p : Pool S)
        → a.pool.locked ≡ false
        → a.idle ≡ suc k
        → take_task ops a.pool ≡ (exits, p)
        → b ≡ record { pool = p; running = a.running; idle = k }
        → Step a b
    finishes :
        (i : ℕ)
        → a.pool.locked ≡ false
        → In i a.running
        → b
          ≡ record { pool = recycle ops a.pool i; running = remove i a.running; idle = a.idle + 1 }
        → Step a b
    adds :
        (task : Task) (to_head : Bool) (malloc : Option ℕ) (s : Status) (p : Pool S)
        → a.pool.locked ≡ false
        → IsFresh a malloc
        → a.pool.list_task_ttl + 1 < 2 ^ 64
        → add_rest ops a.pool task to_head malloc ≡ (returns s, p)
        → b ≡ record a { pool = p }
        → Step a b
    spawns :
        (malloc : Option ℕ) (created : Bool) (s : Status) (p : Pool S)
        → a.pool.locked ≡ false
        → IsFresh a malloc
        → activty_try_do ops a.pool malloc created ≡ (s, p)
        → b ≡ record a { pool = p; idle = a.idle + (p.thread_alive - a.pool.thread_alive) }
        → Step a b
    limits :
        (max : ℕ)
        → a.pool.locked ≡ false
        → b ≡ record a { pool = (set_task_max ops a.pool max).1 }
        → Step a b
    signals : a.pool.locked ≡ false → b ≡ record a { pool = close_signal ops a.pool } → Step a b

  pub data Reach (a : System S) : System S → Type 0 where
    here : Reach a a
    next : {b c : System S} → Reach a b → Step b c → Reach a c

  -- Every node is in one list or in one worker's hands, once; the count of the waiting tasks is
  -- right; and the living threads are the idle workers and the busy ones, at most as many as the
  -- maximum.
  pub record IsSound (a : System S) : Type 0 where
    pub valid : IsValid ops a.pool
    pub running_once : NoRepeat a.running
    pub running_free : (i : ℕ) → In i a.running → IsFree ops a.pool.lists i
    pub alive : a.pool.thread_alive ≡ a.idle + length a.running
    pub bounded : a.pool.thread_alive ≤ a.pool.thread_max
    pub int_max : a.pool.thread_max < 2 ^ 31
