-- ===== src/ThreadPool/Tests.antt =====
-- The pool at concrete tasks.
use utils_c.Base.{
  ℕ, ◌+◌, ◌≡◌, ◌≢◌, ◌↔◌, refl, arith, inl, inr, Bool, true, false, Option, none, some, List, [],
  ◌∷◌, done, In, NoRepeat,
}
use utils_c.ListHead.Plain.{plain, plain-ListLaws}
use utils_c.ThreadPool.{
  PoolHead, task_list, free_list, pid_list, Task, Pool, took, returns, take_task, add_task,
}
use utils_c.ThreadPool.Valid.{IsValid}
use utils_c.ThreadPool.Queue.{Takes, take_task-Takes, Adds, add_task-Adds}
use utils_c.ThreadPool.Errors.{RunsOut, add_task-Stuck}
use utils_c.ThreadPool.Steps.{System, works, Reach, here, next, IsSound}
use utils_c.ThreadPool.Reach.{Reach-IsSound}

head_eq : PoolHead → PoolHead → Bool
head_eq task_list task_list = true
head_eq free_list free_list = true
head_eq pid_list pid_list = true
head_eq _ _ = false

head_eq_iff : (g h : PoolHead) → (head_eq g h ≡ true) ↔ (g ≡ h)
unfolding head_eq
head_eq_iff g h = ground arith

-- The tasks at 5 and 6 wait, and there is one thread, whose node is 9.
abbrev some_lists : PoolHead → List ℕ
some_lists task_list = 5 ∷ 6 ∷ []
some_lists free_list = []
some_lists pid_list = 9 ∷ []

abbrev some_pool : Pool (PoolHead → List ℕ)
some_pool = record {
  lists = some_lists;
  tasks = λ i. record { fun = i + 100; arg = i };
  list_task_ttl = 2;
  list_task_max = 3;
  thread_min = 1;
  thread_max = 4;
  thread_alive = 1;
  shutdown = false;
  locked = false;
}

six : (¬ In 5 (6 ∷ []))
six (inl e) = let other : ◌≢◌ {A = ℕ} 5 6 = omega arith in other e
six (inr z) = z

five_nine : ¬ In 5 (9 ∷ [])
five_nine (inl e) = let other : ◌≢◌ {A = ℕ} 5 9 = omega arith in other e
five_nine (inr z) = z

some_once : (h : PoolHead) → NoRepeat (some_lists h)
some_once task_list = (six, ((λ m. m), tt))
some_once free_list = tt
some_once pid_list = ((λ m. m), tt)

not_both : (i : ℕ) → In i (5 ∷ 6 ∷ []) → ¬ In i (9 ∷ [])
not_both i (inl e) (inl f) = omega arith
not_both i (inr (inl e)) (inl f) = omega arith
not_both i (inr (inr z)) m = z
not_both i m (inr z) = z

some_one : (i : ℕ) (g h : PoolHead) → In i (some_lists g) → In i (some_lists h) → g ≡ h
some_one i task_list task_list m n = refl
some_one i task_list free_list m n = absurd n
some_one i task_list pid_list m n = absurd (not_both i m n)
some_one i free_list h m n = absurd m
some_one i pid_list task_list m n = absurd (not_both i n m)
some_one i pid_list free_list m n = absurd n
some_one i pid_list pid_list m n = refl

some_pool-IsValid : IsValid (plain head_eq) some_pool
some_pool-IsValid = record {
  split = record { once = some_once; one = some_one };
  counted = refl;
  small = omega arith;
}

take_task-Takes_example : Takes (plain head_eq) some_pool
take_task-Takes_example =
    take_task-Takes (plain head_eq) (plain-ListLaws head_eq head_eq_iff) some_pool some_pool-IsValid
      refl

seven : (h : PoolHead) → ¬ In 7 (some_lists h)
seven task_list (inl e) = let other : ◌≢◌ {A = ℕ} 7 5 = omega arith in other e
seven task_list (inr (inl e)) = let other : ◌≢◌ {A = ℕ} 7 6 = omega arith in other e
seven task_list (inr (inr z)) = z
seven free_list z = z
seven pid_list (inl e) = let other : ◌≢◌ {A = ℕ} 7 9 = omega arith in other e
seven pid_list (inr z) = z

abbrev new_task : Task
new_task = record { fun = 70; arg = 71 }

add_task-Adds_example :
    (p' : Pool (PoolHead → List ℕ)) × (add_task (plain head_eq) some_pool new_task true (some 7)
      ≡ (returns done, p'))
    × Adds (plain head_eq) some_pool p' new_task true
add_task-Adds_example =
    add_task-Adds (plain head_eq) (plain-ListLaws head_eq head_eq_iff) some_pool some_pool-IsValid
      (omega arith) refl refl new_task true (some 7) (inr (7, refl, seven))

-- Two threads are started.
abbrev two_threads : List (Option ℕ × Bool)
two_threads = (some 3, true) ∷ (some 4, true) ∷ []

abbrev start : System (PoolHead → List ℕ)
start = record { pool = some_pool; running = []; idle = 1 }

start-IsSound : IsSound (plain head_eq) start
start-IsSound = record {
  valid = some_pool-IsValid;
  running_once = tt;
  running_free = λ i m. absurd m;
  alive = refl;
  bounded = omega arith;
  int_max = omega arith;
}

-- One worker takes the first task.
abbrev busy_pool : Pool (PoolHead → List ℕ)
busy_pool = (take_task (plain head_eq) some_pool).1

abbrev busy : System (PoolHead → List ℕ)
busy = record { pool = busy_pool; running = 5 ∷ []; idle = 0 }

busy_run : take_task (plain head_eq) some_pool ≡ (took 5, busy_pool)
unfolding take_task
busy_run = refl

busy-Reach : Reach (plain head_eq) start busy
busy-Reach = next here (works 5 0 busy_pool refl refl busy_run refl)

Reach-IsSound_example : IsSound (plain head_eq) busy
Reach-IsSound_example =
    Reach-IsSound (plain head_eq) (plain-ListLaws head_eq head_eq_iff) start busy start-IsSound
      busy-Reach

-- There is room, no node in the free list, and no memory.
abbrev jammed : System (PoolHead → List ℕ)
jammed = record {
  pool = (add_task (plain head_eq) some_pool new_task true none).1;
  running = [];
  idle = 1;
}

add_task-Stuck_example :
    ((jammed.pool.locked ≡ true) ↔ RunsOut (plain head_eq) some_pool none)
    × (RunsOut (plain head_eq) some_pool none
        → (a b : System (PoolHead → List ℕ)) → a.pool ≡ jammed.pool
        → Reach (plain head_eq) a b
        → b ≡ a)
add_task-Stuck_example = add_task-Stuck (plain head_eq) some_pool new_task true none refl
