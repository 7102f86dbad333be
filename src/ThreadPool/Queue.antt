-- ===== src/ThreadPool/Queue.antt =====
-- The pool as a queue of tasks.
use mathlib.Core.List.{map-append}
use utils_c.Base.{
  ap₂, ℕ, ◌+◌, ◌-◌, ◌%◌, ◌^◌, ◌<◌, ◌≡◌, ◌≢◌, refl, sym, ap, subst, ◌∙◌, ◌⊎◌, inl, inr, arith, ◌==◌,
  if◌then◌else◌, Bool, true, false, not, ◌&&◌, leb, Option, none, some, List, [], ◌∷◌, ◌++◌, length,
  length-append, map, In, NoRepeat, remove, done,
}
use utils_c.ListHead.{ListOps, ListLaws, IsFree}
use utils_c.ListHead.Relink.{del-Relinks, del-IsFree, add_tail-Relinks, add_head-Relinks}
use utils_c.ThreadPool.{
  PoolHead, task_list, free_list, Task, Pool, waits, took, returns, take_task, enqueue, add_task,
}
use utils_c.ThreadPool.Valid.{
  apart, IsValid, queue, set_task_same, map-set_task, remove_absent, remove_first, Relinks-IsSplit,
}

-- The first task is off the queue.
abbrev pub unlinked : {S : Type 0} → ListOps PoolHead S → Pool S → ℕ → Pool S
unlinked ops p i = record p {
  lists = ops.del p.lists i;
  list_task_ttl = (p.list_task_ttl + 2 ^ 64 - 1) % 2 ^ 64;
}

-- How a worker's section ends on a pool that is not shut down.
pub data Takes {S : Type 0} (ops : ListOps PoolHead S) (p : Pool S) : Type 0 where
  none_waits : queue ops p ≡ [] → take_task ops p ≡ (waits, p) → Takes ops p
  first :
      (i : ℕ) (p' : Pool S)
      → In i (ops.entries p.lists task_list)
      → p' ≡ unlinked ops p i
      → take_task ops p ≡ (took i, p')
      → queue ops p ≡ p.tasks i ∷ queue ops p'
      → p'.tasks ≡ p.tasks
      → IsFree ops p'.lists i
      → IsValid ops p'
      → Takes ops p

module _ {S : Type 0} (ops : ListOps PoolHead S) (laws : ListLaws ops) (p : Pool S)
    (valid : IsValid ops p) where
  take_first :
      (i : ℕ) (is : List ℕ)
      → p.shutdown ≡ false
      → ops.entries p.lists task_list ≡ i ∷ is
      → Takes ops p
  unfolding take_task
  take_first i is open_ e =
      let m : In i (ops.entries p.lists task_list) = rw e (inl refl) in
      let links = del-Relinks ops laws p.lists i task_list m in
      let new : ¬ In i is = (subst NoRepeat e (valid.split.once task_list)).0 in
      let left : ops.entries (ops.del p.lists i) task_list ≡ is =
        laws.del_entries p.lists i task_list task_list m
        ∙ ap (remove i) e
        ∙ remove_first i is new in
      let counted = valid.counted ∙ ap length e in
      let p' = unlinked ops p i in
      first i p' m refl (simp (open_, e))
        (ap (map p.tasks) e ∙ ap (λ l. p.tasks i ∷ map p.tasks l) (sym left)) refl
        (del-IsFree ops laws p.lists i task_list m)
        (record {
          split = Relinks-IsSplit ops p.lists (ops.del p.lists i) i none links valid.split;
          counted =
              let less : (p.list_task_ttl + 2 ^ 64 - 1) % 2 ^ 64 ≡ length is =
                omega (arith, counted, valid.small) in
              less ∙ ap length (sym left);
          small = omega arith;
        })

  -- A worker of a pool that is not shut down takes the first task of the queue, whose node is then in
  -- no list, and leaves the others in their order and the pool in order; on an empty queue it waits,
  -- and nothing changes.
  pub take_task-Takes : p.shutdown ≡ false → Takes ops p
  unfolding take_task
  take_task-Takes open_ = by_entries (ops.entries p.lists task_list) refl
    where
      by_entries : (xs : List ℕ) → ops.entries p.lists task_list ≡ xs → Takes ops p
      by_entries [] e = none_waits (ap (map p.tasks) e) (simp (open_, e))
      by_entries (i ∷ is) e = take_first i is open_ e

-- What an addition of a task does when it does not wait.
pub record Adds {S : Type 0} (ops : ListOps PoolHead S) (p p' : Pool S) (task : Task)
    (to_head : Bool) : Type 0 where
  pub added : queue ops p' ≡ (if to_head then task ∷ queue ops p else queue ops p ++ task ∷ [])
  pub valid : IsValid ops p'
  pub unlocked : p'.locked ≡ p.locked

-- An addition finds a node in the free list, or `malloc` gives one that is in no list.
abbrev pub HasNode : {S : Type 0} → ListOps PoolHead S → Pool S → Option ℕ → Type 0
HasNode ops p malloc =
    (ops.entries p.lists free_list ≢ []) ⊎ ((i : ℕ) × (malloc ≡ some i) × IsFree ops p.lists i)

module _ {S : Type 0} (ops : ListOps PoolHead S) (laws : ListLaws ops) where
  enqueue_tail :
      (p : Pool S) (i : ℕ) (task : Task)
      → IsValid ops p
      → IsFree ops p.lists i
      → p.list_task_ttl + 1 < 2 ^ 64
      → Adds ops p (enqueue ops p i task false) task false
  enqueue_tail p i task valid free room =
      let links = add_tail-Relinks ops laws apart p.lists i task_list free in
      let here = laws.add_tail_here p.lists i task_list free in
      let p' : Pool S = enqueue ops p i task false in
      let old = ops.entries p.lists task_list in
      let one : map p'.tasks (i ∷ []) ≡ task ∷ [] =
        ap (λ t. t ∷ []) (set_task_same p.tasks i task) in
      record {
        added =
            ap (map p'.tasks) here
            ∙ map-append p'.tasks old (i ∷ [])
            ∙ ap₂ ◌++◌ (map-set_task p.tasks i task old (free task_list)) one;
        valid = record {
          split = Relinks-IsSplit ops p.lists p'.lists i (some task_list) links valid.split;
          counted =
              let more : (p.list_task_ttl + 1) % 2 ^ 64 ≡ length (old ++ i ∷ []) =
                omega (arith, valid.counted, length-append old (i ∷ [])) in
              more ∙ ap length (sym here);
          small = omega arith;
        };
        unlocked = refl;
      }

  enqueue_head :
      (p : Pool S) (i : ℕ) (task : Task)
      → IsValid ops p
      → IsFree ops p.lists i
      → p.list_task_ttl + 1 < 2 ^ 64
      → Adds ops p (enqueue ops p i task true) task true
  enqueue_head p i task valid free room =
      let links = add_head-Relinks ops laws apart p.lists i task_list free in
      let here = laws.add_head_here p.lists i task_list free in
      let p' : Pool S = enqueue ops p i task true in
      let old = ops.entries p.lists task_list in
      record {
        added =
            ap (map p'.tasks) here
            ∙ ap₂ ◌∷◌ (set_task_same p.tasks i task)
                (map-set_task p.tasks i task old (free task_list));
        valid = record {
          split = Relinks-IsSplit ops p.lists p'.lists i (some task_list) links valid.split;
          counted =
              let more : (p.list_task_ttl + 1) % 2 ^ 64 ≡ length (i ∷ old) =
                omega (arith, valid.counted) in
              more ∙ ap length (sym here);
          small = omega arith;
        };
        unlocked = refl;
      }

  pub enqueue-Adds :
      (p : Pool S) (i : ℕ) (task : Task) (to_head : Bool)
      → IsValid ops p
      → IsFree ops p.lists i
      → p.list_task_ttl + 1 < 2 ^ 64
      → Adds ops p (enqueue ops p i task to_head) task to_head
  enqueue-Adds p i task true valid free room = enqueue_head p i task valid free room
  enqueue-Adds p i task false valid free room = enqueue_tail p i task valid free room

  -- A node that is used again is taken from the free list first.
  pub reuse-IsValid :
      (p : Pool S) (i : ℕ)
      → IsValid ops p
      → In i (ops.entries p.lists free_list)
      → IsValid ops (record p { lists = ops.del p.lists i })
        × (ops.entries (ops.del p.lists i) task_list ≡ ops.entries p.lists task_list)
  reuse-IsValid p i valid m =
      let links = del-Relinks ops laws p.lists i free_list m in
      let out : ¬ In i (ops.entries p.lists task_list) =
        λ n. different (valid.split.one i task_list free_list n m) in
      let same =
        laws.del_entries p.lists i free_list task_list m
        ∙ remove_absent i (ops.entries p.lists task_list) out in
      (
        record {
          split = Relinks-IsSplit ops p.lists (ops.del p.lists i) i none links valid.split;
          counted = valid.counted ∙ ap length (sym same);
          small = valid.small;
        },
        same,
      )
    where
      different : task_list ≢ free_list
      different e = cc

  module _ (p : Pool S) (valid : IsValid ops p) (room : p.list_task_ttl + 1 < 2 ^ 64)
      (open_ : p.shutdown ≡ false)
      (not_full : (not (p.list_task_max == 0) && leb p.list_task_max p.list_task_ttl) ≡ false) where
    -- On a pool that is neither shut down nor full, with fewer than 2 ^ 64 - 1 tasks, an addition
    -- returns 0 when there is a node in the free list, whatever `malloc` gives, and when `malloc` gives
    -- one that is in no list: the task is then the first or the last of the queue, as it was asked for,
    -- the others stay in their order, and the pool stays in order.
    pub add_task-Adds :
        (task : Task) (to_head : Bool) (malloc : Option ℕ)
        → HasNode ops p malloc
        → (p' : Pool S) × (add_task ops p task to_head malloc ≡ (returns done, p'))
          × Adds ops p p' task to_head
    unfolding add_task
    add_task-Adds task to_head malloc node = by_entries (ops.entries p.lists free_list) refl
      where
        by_malloc :
            ops.entries p.lists free_list ≡ []
            → HasNode ops p malloc
            → (p' : Pool S) × (add_task ops p task to_head malloc ≡ (returns done, p'))
              × Adds ops p p' task to_head
        by_malloc e (inl some_free) = absurd (some_free e)
        by_malloc e (inr (i, given, free)) = (
          enqueue ops p i task to_head,
          simp (open_, not_full, e, given),
          enqueue-Adds p i task to_head valid free room,
        )

        by_entries :
            (xs : List ℕ)
            → ops.entries p.lists free_list ≡ xs
            → (p' : Pool S) × (add_task ops p task to_head malloc ≡ (returns done, p'))
              × Adds ops p p' task to_head
        by_entries [] e = by_malloc e node
        by_entries (k ∷ ks) e =
            let m : In k (ops.entries p.lists free_list) = rw e (inl refl) in
            let q : Pool S = record p { lists = ops.del p.lists k } in
            let reuse = reuse-IsValid p k valid m in
            let adds =
              enqueue-Adds q k task to_head reuse.0 (del-IsFree ops laws p.lists k free_list m)
                room in
            (
              enqueue ops q k task to_head,
              simp (open_, not_full, e),
              record {
                added =
                    adds.added
                    ∙ ap (λ l. if to_head then task ∷ map p.tasks l else map p.tasks l ++ task ∷ [])
                        reuse.1;
                valid = adds.valid;
                unlocked = adds.unlocked;
              },
            )
