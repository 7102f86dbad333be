-- ===== src/ThreadPool/Errors.antt =====
-- The error paths of the pool.
use utils_c.Base.{
  ℕ, ◌<◌, ◌≡◌, ◌⊎◌, ◌↔◌, refl, sym, ap, subst, ◌∙◌, inl, inr, arith, ◌==◌, leb, not, ◌&&◌, Bool,
  true, false, Bool-cases, Option, none, some, List, [], ◌∷◌,
}
use utils_c.ListHead.{ListOps}
use utils_c.ThreadPool.{PoolHead, free_list, Task, Pool, add_task}
use utils_c.ThreadPool.Steps.{
  System, Step, works, leaves, finishes, adds, spawns, limits, signals, Reach, here, next,
}

module _ {S : Type 0} (ops : ListOps PoolHead S) where
  -- An addition wants a node from `malloc`, which has none.
  abbrev pub RunsOut : Pool S → Option ℕ → Type 0
  RunsOut p malloc =
      (p.shutdown ≡ false)
      × ((p.list_task_max ≡ 0) ⊎ (p.list_task_ttl < p.list_task_max))
      × (ops.entries p.lists free_list ≡ [])
      × (malloc ≡ none)

  Step-unlocked : (a b : System S) → Step ops a b → a.pool.locked ≡ false
  Step-unlocked a b (works i k p u e t f) = u
  Step-unlocked a b (leaves k p u e t f) = u
  Step-unlocked a b (finishes i u m f) = u
  Step-unlocked a b (adds task to_head malloc s p u fresh room t f) = u
  Step-unlocked a b (spawns malloc created s p u fresh t f) = u
  Step-unlocked a b (limits max u f) = u
  Step-unlocked a b (signals u f) = u

  Reach-locked : (a b : System S) → a.pool.locked ≡ true → Reach ops a b → b ≡ a
  Reach-locked a b lost here = refl
  Reach-locked a b lost (next {b = m} r st) =
      let same = Reach-locked a m lost r in
      let free : a.pool.locked ≡ false =
        subst (λ x. x.pool.locked ≡ false) same (Step-unlocked m b st) in
      let clash : true ≡ false = sym lost ∙ free in cc

  -- Whether the lock is lost, by what an addition finds.
  lost_if_room :
      (p : Pool S) (task : Task) (to_head : Bool) (malloc : Option ℕ) (xs : List ℕ)
      → p.locked ≡ false
      → p.shutdown ≡ false
      → (not (p.list_task_max == 0) && leb p.list_task_max p.list_task_ttl) ≡ false
      → ops.entries p.lists free_list ≡ xs
      → ((add_task ops p task to_head malloc).1.locked ≡ true) ↔ RunsOut p malloc
  unfolding add_task
  lost_if_room p task to_head none [] unlocked open_ room e =
      ((λ lost. (open_, ground arith, e, refl)), (λ out. rw (open_, room, e) refl))
  lost_if_room p task to_head (some i) [] unlocked open_ room e = (
    (λ lost. let kept = rw (open_, room, e, unlocked) at lost in cc),
    (λ out. let f = out.3 in cc),
  )
  lost_if_room p task to_head malloc (k ∷ ks) unlocked open_ room e = (
    (λ lost. let kept = rw (open_, room, e, unlocked) at lost in cc),
    (λ out. let f = sym e ∙ out.2 in cc),
  )

  lost_lock :
      (p : Pool S) (task : Task) (to_head : Bool) (malloc : Option ℕ)
      → p.locked ≡ false
      → ((add_task ops p task to_head malloc).1.locked ≡ true) ↔ RunsOut p malloc
  unfolding add_task
  lost_lock p task to_head malloc unlocked = elim (Bool-cases p.shutdown) [
    | inl down ↦ (
      (λ lost. let kept = rw (down, unlocked) at lost in cc),
      (λ out. let f = sym down ∙ out.0 in cc),
    )
    | inr open_ ↦
        elim (Bool-cases (not (p.list_task_max == 0) && leb p.list_task_max p.list_task_ttl)) [
          | inl full ↦ (
            (λ lost. let kept = rw (open_, full, unlocked) at lost in cc),
            (λ out. let f = out.1 in absurd (ground arith)),
          )
          | inr room ↦
              lost_if_room p task to_head malloc (ops.entries p.lists free_list) unlocked open_ room
                refl
        ]
  ]

  -- An addition to a pool whose lock is free goes off with the lock exactly when the pool is neither
  -- shut down nor full, no node is in the free list and `malloc` has none. From then on nothing happens
  -- to the pool: no worker takes or finishes a task or leaves, no caller adds a task, starts a thread,
  -- sets the limit or closes it.
  pub add_task-Stuck :
      (p : Pool S) (task : Task) (to_head : Bool) (malloc : Option ℕ)
      → p.locked ≡ false
      → (((add_task ops p task to_head malloc).1.locked ≡ true) ↔ RunsOut p malloc)
        × (RunsOut p malloc
            → (a b : System S) → a.pool ≡ (add_task ops p task to_head malloc).1
            → Reach ops a b
            → b ≡ a)
  add_task-Stuck p task to_head malloc unlocked =
      let lost = lost_lock p task to_head malloc unlocked in
      (lost, λ out a b at r. Reach-locked a b (ap (λ (q : Pool S). q.locked) at ∙ lost.1 out) r)
