-- ===== src/ThreadPool/Reach.antt =====
-- What holds of the pool and its threads after any number of steps.
use utils_c.Base.{
  ℕ, suc, ◌+◌, ◌-◌, ◌<◌, ◌≡◌, refl, sym, ap, subst, ◌∙◌, ◌⊎◌, inl, inr, arith, leb, ltb, ◌||◌, ◌^◌,
  if◌then◌else◌, Bool, true, false, Bool-cases, Option, none, some, length, Status, done, failed,
}
use utils_c.ListHead.{ListOps, ListLaws}
use utils_c.ListHead.Relink.{add_tail-Relinks}
use utils_c.ThreadPool.{
  PoolHead, task_list, pid_list, Pool, exits, take_task, activty_try_do, set_task_max, close_signal,
}
use utils_c.ThreadPool.Valid.{apart, Relinks-IsSplit}
use utils_c.ThreadPool.Queue.{none_waits, first, take_task-Takes}
use utils_c.ThreadPool.Steps.{
  System, IsFresh, Step, works, leaves, finishes, adds, spawns, limits, signals, Reach, here, next,
  IsSound,
}
use utils_c.ThreadPool.Sound.{keeps_IsFree, works-IsSound, finishes-IsSound, adds-IsSound}

-- How an attempt to start a thread ends.
activty_try_do-cases :
    {S : Type 0} (ops : ListOps PoolHead S) (p p' : Pool S) (malloc : Option ℕ) (created : Bool)
    (s : Status)
    → activty_try_do ops p malloc created ≡ (s, p')
    → (p' ≡ p)
      ⊎ ((i : ℕ) × (malloc ≡ some i)
          × (p.thread_alive < p.thread_max)
          × (p' ≡ record p {
            thread_alive = p.thread_alive + 1;
            lists = ops.add_tail p.lists i pid_list;
          }))
unfolding activty_try_do
activty_try_do-cases {S} ops p p' malloc created s e =
    elim (Bool-cases (leb (2 ^ 31) p.thread_max || leb p.thread_max p.thread_alive)) [
      | inl full ↦ let f = simp full at e in inl (sym (ap (λ x. x.1) f))
      | inr room ↦ elim (Bool-cases (ltb p.list_task_ttl p.thread_alive)) [
        | inl few ↦ let f = simp (room, few) at e in inl (sym (ap (λ x. x.1) f))
        | inr many ↦ let f = simp (room, many) at e in by_results malloc created (ground arith) f
      ]
    ]
  where
    by_results :
        (o : Option ℕ) (c : Bool)
        → p.thread_alive < p.thread_max
        → elim o as (λ x. Status × Pool S) [
          | none ↦ (failed 0x77094f73, p)
          | some i ↦
              if c
              then (
                done,
                record p {
                  thread_alive = p.thread_alive + 1;
                  lists = ops.add_tail p.lists i pid_list;
                },
              )
              else (failed 0x3c5a31ed, p)
        ]
          ≡ (s, p')
        → (p' ≡ p)
          ⊎ ((i : ℕ) × (o ≡ some i)
              × (p.thread_alive < p.thread_max)
              × (p' ≡ record p {
                thread_alive = p.thread_alive + 1;
                lists = ops.add_tail p.lists i pid_list;
              }))
    by_results none c room f = inl (sym (ap (λ x. x.1) f))
    by_results (some i) false room f = inl (sym (ap (λ x. x.1) f))
    by_results (some i) true room f = inr (i, refl, room, sym (ap (λ x. x.1) f))

module _ {S : Type 0} (ops : ListOps PoolHead S) (laws : ListLaws ops) where
  leaves-IsSound :
      (a : System S) (k : ℕ) (p : Pool S)
      → IsSound ops a
      → a.idle ≡ suc k
      → take_task ops a.pool ≡ (exits, p)
      → IsSound ops (record { pool = p; running = a.running; idle = k })
  unfolding take_task
  leaves-IsSound a k p sound e t = elim (Bool-cases a.pool.shutdown) [
    | inl down ↦
        let f = simp down at t in
        let g = ap (λ x. x.1) f in
        subst (λ x. IsSound ops (record { pool = x; running = a.running; idle = k })) g
          (record {
            valid = record {
              split = sound.valid.split;
              counted = sound.valid.counted;
              small = sound.valid.small;
            };
            running_once = sound.running_once;
            running_free = sound.running_free;
            alive = omega (arith, sound.alive, sound.bounded, sound.int_max);
            bounded = omega (arith, sound.alive, sound.bounded, sound.int_max);
            int_max = sound.int_max;
          })
    | inr up ↦ elim (take_task-Takes ops laws a.pool sound.valid up) [
      | none_waits q w ↦ let g = ap (λ x. x.0) (sym w ∙ t) in cc g
      | first j q m shape w order tasks free valid ↦ let g = ap (λ x. x.0) (sym w ∙ t) in cc g
    ]
  ]

  spawns-IsSound :
      (a : System S) (malloc : Option ℕ) (created : Bool) (s : Status) (p : Pool S)
      → IsSound ops a
      → IsFresh ops a malloc
      → activty_try_do ops a.pool malloc created ≡ (s, p)
      → IsSound ops (record a { pool = p; idle = a.idle + (p.thread_alive - a.pool.thread_alive) })
  spawns-IsSound a malloc created s p sound fresh t =
      elim (activty_try_do-cases ops a.pool p malloc created s t) [
        | inl e ↦
            subst
              (λ x.
                IsSound ops
                  (record a { pool = x; idle = a.idle + (x.thread_alive - a.pool.thread_alive) }))
              (sym e)
              (record {
                valid = sound.valid;
                running_once = sound.running_once;
                running_free = sound.running_free;
                alive = omega (arith, sound.alive);
                bounded = sound.bounded;
                int_max = sound.int_max;
              })
        | inr n ↦
            let f = fresh n.0 n.1 in
            let l = ops.add_tail a.pool.lists n.0 pid_list in
            let links = add_tail-Relinks ops laws apart a.pool.lists n.0 pid_list f.0 in
            let same = laws.add_tail_other a.pool.lists n.0 pid_list task_list f.0 (λ e. cc) in
            subst
              (λ x.
                IsSound ops
                  (record a { pool = x; idle = a.idle + (x.thread_alive - a.pool.thread_alive) }))
              (sym n.3)
              (record {
                valid = record {
                  split =
                      Relinks-IsSplit ops a.pool.lists l n.0 (some pid_list) links
                        sound.valid.split;
                  counted = sound.valid.counted ∙ ap length (sym same);
                  small = sound.valid.small;
                };
                running_once = sound.running_once;
                running_free = keeps_IsFree ops laws a sound l n.0 (some pid_list) links f.1;
                alive = omega (arith, sound.alive);
                bounded = omega (arith, n.2);
                int_max = sound.int_max;
              })
      ]

  Step-IsSound : (a b : System S) → IsSound ops a → Step ops a b → IsSound ops b
  unfolding set_task_max close_signal
  Step-IsSound a b sound (works i k p u e t f) =
      subst (IsSound ops) (sym f) (works-IsSound ops laws a sound i k p e t)
  Step-IsSound a b sound (leaves k p u e t f) =
      subst (IsSound ops) (sym f) (leaves-IsSound a k p sound e t)
  Step-IsSound a b sound (finishes i u m f) =
      subst (IsSound ops) (sym f) (finishes-IsSound ops laws a sound i m)
  Step-IsSound a b sound (adds task to_head malloc s p u fresh room t f) =
      subst (IsSound ops) (sym f)
        (adds-IsSound ops laws a sound task to_head malloc s p fresh room t)
  Step-IsSound a b sound (spawns malloc created s p u fresh t f) =
      subst (IsSound ops) (sym f) (spawns-IsSound a malloc created s p sound fresh t)
  Step-IsSound a b sound (limits max u f) = subst (IsSound ops) (sym f) (record {
    valid = record {
      split = sound.valid.split;
      counted = sound.valid.counted;
      small = sound.valid.small;
    };
    running_once = sound.running_once;
    running_free = sound.running_free;
    alive = sound.alive;
    bounded = sound.bounded;
    int_max = sound.int_max;
  })
  Step-IsSound a b sound (signals u f) = subst (IsSound ops) (sym f) (record {
    valid = record {
      split = sound.valid.split;
      counted = sound.valid.counted;
      small = sound.valid.small;
    };
    running_once = sound.running_once;
    running_free = sound.running_free;
    alive = sound.alive;
    bounded = sound.bounded;
    int_max = sound.int_max;
  })

  -- From a system in order, any interleaving of the critical sections of workers that take and finish
  -- tasks or leave, of callers that add tasks, start threads or set the limit, and of the signal to
  -- close, leads to a system in order: every node is in one list or in one worker's hands, once, the
  -- count of the waiting tasks is right, and the living threads are the idle and the busy workers, at
  -- most as many as the maximum. The queue has fewer than 2 ^ 64 - 1 tasks when one is added.
  pub Reach-IsSound : (a b : System S) → IsSound ops a → Reach ops a b → IsSound ops b
  Reach-IsSound a b sound here = sound
  Reach-IsSound a b sound (next {b = m} r st) = Step-IsSound m b (Reach-IsSound a m sound r) st
