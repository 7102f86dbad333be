-- ===== src/ThreadPool/Sound.antt =====
-- What each critical section leaves of the order in the pool and its threads.
use utils_c.Base.{
  ℕ, suc, ◌+◌, ◌^◌, ◌<◌, ◌≡◌, ◌≢◌, refl, sym, ap, subst, ◌∙◌, ◌⊎◌, inl, inr, arith, ◌==◌, ==_iff,
  leb, not, ◌&&◌, Bool, true, false, Bool-cases, Option, none, some, List, [], ◌∷◌, length, In,
  NoRepeat, remove, In-remove, remove-NoRepeat, Status, done, failed,
}
use utils_c.ListHead.{ListOps, ListLaws, IsFree}
use utils_c.ListHead.Relink.{Relinks, del-Relinks, del-IsFree, add_tail-Relinks, add_head-Relinks}
use utils_c.ThreadPool.{
  PoolHead, task_list, free_list, Task, Pool, Taken, waits, took, exits, Added, returns, take_task,
  recycle, enqueue, add_rest,
}
use utils_c.ThreadPool.Valid.{remove_absent, apart, IsValid, Relinks-IsSplit}
use utils_c.ThreadPool.Queue.{
  none_waits, first, unlinked, take_task-Takes, enqueue-Adds, reuse-IsValid,
}
use utils_c.ThreadPool.Steps.{System, IsFresh, IsSound}

Relinks-IsFree :
    {S : Type 0} (ops : ListOps PoolHead S) (s s' : S) (i j : ℕ) (dest : Option PoolHead)
    → Relinks ops s s' i dest
    → j ≢ i
    → IsFree ops s j
    → IsFree ops s' j
Relinks-IsFree ops s s' i j dest links ne free g m = elim (links.members g j m) [
  | inl a ↦ ne a.0
  | inr b ↦ free g b.1
]

length-remove : (i : ℕ) (xs : List ℕ) → NoRepeat xs → In i xs → length (remove i xs) + 1 ≡ length xs
length-remove i [] w m = elim m [ ]
length-remove i (x ∷ xs) w m = elim (Bool-cases (i == x)) [
  | inl e ↦
      let same = (==_iff i x).0 e in
      rw e (
        ap (λ l. length l + 1) (remove_absent i xs (λ n. w.0 (subst (λ k. In k xs) same n)))
        ∙ omega arith)
  | inr e ↦ elim m [
    | inl f ↦ cc ((==_iff i x).1 f)
    | inr n ↦ rw e (omega (arith, length-remove i xs w.1 n))
  ]
]

-- How an addition that returns ends.
add_rest-cases :
    {S : Type 0} (ops : ListOps PoolHead S) (p p' : Pool S) (task : Task) (to_head : Bool)
    (malloc : Option ℕ) (s : Status)
    → add_rest ops p task to_head malloc ≡ (returns s, p')
    → (p' ≡ record p { locked = true })
      ⊎ (((i : ℕ) × (malloc ≡ some i) × (p' ≡ enqueue ops p i task to_head))
          ⊎ ((k : ℕ) × In k (ops.entries p.lists free_list)
              × (p' ≡ enqueue ops (record p { lists = ops.del p.lists k }) k task to_head)))
unfolding add_rest
add_rest-cases {S} ops p p' task to_head malloc s e =
    elim (Bool-cases (not (p.list_task_max == 0) && leb p.list_task_max p.list_task_ttl)) [
      | inl full ↦ let f = simp full at e in cc f
      | inr room ↦
          let f = simp room at e in by_entries (ops.entries p.lists free_list) malloc refl f
    ]
  where
    by_entries :
        (xs : List ℕ) (o : Option ℕ)
        → ops.entries p.lists free_list ≡ xs
        → elim xs as (λ x. Added × Pool S) [
          | [] ↦ elim o [
            | none ↦ (returns (failed 0x18aa3f60), record p { locked = true })
            | some i ↦ (returns done, enqueue ops p i task to_head)
          ]
          | i ∷ is ↦
              (returns done, enqueue ops (record p { lists = ops.del p.lists i }) i task to_head)
        ]
          ≡ (returns s, p')
        → (p' ≡ record p { locked = true })
          ⊎ (((i : ℕ) × (o ≡ some i) × (p' ≡ enqueue ops p i task to_head))
              ⊎ ((k : ℕ) × In k (ops.entries p.lists free_list)
                  × (p' ≡ enqueue ops (record p { lists = ops.del p.lists k }) k task to_head)))
    by_entries [] none h f = inl (sym (ap (λ x. x.1) f))
    by_entries [] (some i) h f = inr (inl (i, refl, sym (ap (λ x. x.1) f)))
    by_entries (k ∷ ks) o h f = inr (inr (k, rw h (inl refl), sym (ap (λ x. x.1) f)))

enqueue-Relinks :
    {S : Type 0} (ops : ListOps PoolHead S) (laws : ListLaws ops) (p : Pool S) (i : ℕ) (task : Task)
    (to_head : Bool)
    → IsFree ops p.lists i
    → Relinks ops p.lists (enqueue ops p i task to_head).lists i (some task_list)
enqueue-Relinks ops laws p i task true free =
    add_head-Relinks ops laws apart p.lists i task_list free
enqueue-Relinks ops laws p i task false free =
    add_tail-Relinks ops laws apart p.lists i task_list free

taken : Taken → ℕ
taken waits = 0
taken exits = 0
taken (took i) = i

module _ {S : Type 0} (ops : ListOps PoolHead S) (laws : ListLaws ops) (a : System S)
    (sound : IsSound ops a) where
  -- A node that is relinked is in no worker's hands, so that what the workers have stays free.
  pub keeps_IsFree :
      (s : S) (i : ℕ) (dest : Option PoolHead)
      → Relinks ops a.pool.lists s i dest
      → ¬ In i a.running
      → (j : ℕ) → In j a.running
      → IsFree ops s j
  keeps_IsFree s i dest links out j m =
      Relinks-IsFree ops a.pool.lists s i j dest links (λ e. out (subst (λ k. In k a.running) e m))
        (sound.running_free j m)

  work-IsSound :
      (i k : ℕ)
      → a.idle ≡ suc k
      → In i (ops.entries a.pool.lists task_list)
      → IsValid ops (unlinked ops a.pool i)
      → IsSound ops (record { pool = unlinked ops a.pool i; running = i ∷ a.running; idle = k })
  work-IsSound i k e m valid =
      let out : ¬ In i a.running = λ n. sound.running_free i n task_list m in
      let links = del-Relinks ops laws a.pool.lists i task_list m in
      record {
        valid = valid;
        running_once = (out, sound.running_once);
        running_free = λ j n. elim n [
          | inl f ↦
              subst (IsFree ops (ops.del a.pool.lists i)) (sym f)
                (del-IsFree ops laws a.pool.lists i task_list m)
          | inr n' ↦ keeps_IsFree (ops.del a.pool.lists i) i none links out j n'
        ];
        alive = omega (arith, sound.alive);
        bounded = sound.bounded;
        int_max = sound.int_max;
      }

  pub works-IsSound :
      (i k : ℕ) (p : Pool S)
      → a.idle ≡ suc k
      → take_task ops a.pool ≡ (took i, p)
      → IsSound ops (record { pool = p; running = i ∷ a.running; idle = k })
  unfolding take_task taken
  works-IsSound i k p e t = elim (Bool-cases a.pool.shutdown) [
    | inl down ↦ let f = simp down at t in let g = ap (λ x. x.0) f in cc g
    | inr up ↦ elim (take_task-Takes ops laws a.pool sound.valid up) [
      | none_waits q w ↦ let g = ap (λ x. x.0) (sym w ∙ t) in cc g
      | first j q m shape w order tasks free valid ↦
          let same = sym w ∙ t in
          let done = work-IsSound j k e m (subst (IsValid ops) shape valid) in
          subst
            (λ x. IsSound ops (record { pool = x.1; running = taken x.0 ∷ a.running; idle = k }))
            same
            (subst (λ x. IsSound ops (record { pool = x; running = j ∷ a.running; idle = k }))
              (sym shape) done)
    ]
  ]

  pub finishes-IsSound :
      (i : ℕ)
      → In i a.running
      → IsSound ops
          (record { pool = recycle ops a.pool i; running = remove i a.running; idle = a.idle + 1 })
  unfolding recycle
  finishes-IsSound i m =
      let free = sound.running_free i m in
      let links = add_tail-Relinks ops laws apart a.pool.lists i free_list free in
      let s = ops.add_tail a.pool.lists i free_list in
      let same = laws.add_tail_other a.pool.lists i free_list task_list free (λ e. cc) in
      record {
        valid = record {
          split = Relinks-IsSplit ops a.pool.lists s i (some free_list) links sound.valid.split;
          counted = sound.valid.counted ∙ ap length (sym same);
          small = sound.valid.small;
        };
        running_once = remove-NoRepeat i a.running sound.running_once;
        running_free = λ j n.
            let r = In-remove i j a.running n in
            Relinks-IsFree ops a.pool.lists s i j (some free_list) links r.0
              (sound.running_free j r.1);
        alive = omega (arith, sound.alive, length-remove i a.running sound.running_once m);
        bounded = sound.bounded;
        int_max = sound.int_max;
      }

  -- A task is put into the queue on a node that no worker has.
  enqueue-IsSound :
      (p : Pool S) (i : ℕ) (task : Task) (to_head : Bool)
      → IsSound ops (record a { pool = p })
      → p.list_task_ttl + 1 < 2 ^ 64
      → IsFree ops p.lists i
      → ¬ In i a.running
      → IsSound ops (record a { pool = enqueue ops p i task to_head })
  enqueue-IsSound p i task to_head w room free out =
      let added = enqueue-Adds ops laws p i task to_head w.valid free room in
      record {
        valid = added.valid;
        running_once = w.running_once;
        running_free = λ j m.
            Relinks-IsFree ops p.lists (enqueue ops p i task to_head).lists i j (some task_list)
              (enqueue-Relinks ops laws p i task to_head free)
              (λ e. out (subst (λ k. In k a.running) e m)) (w.running_free j m);
        alive = w.alive;
        bounded = w.bounded;
        int_max = w.int_max;
      }

  pub adds-IsSound :
      (task : Task) (to_head : Bool) (malloc : Option ℕ) (s : Status) (p : Pool S)
      → IsFresh ops a malloc
      → a.pool.list_task_ttl + 1 < 2 ^ 64
      → add_rest ops a.pool task to_head malloc ≡ (returns s, p)
      → IsSound ops (record a { pool = p })
  adds-IsSound task to_head malloc s p fresh room t =
      elim (add_rest-cases ops a.pool p task to_head malloc s t) [
        | inl e ↦
            subst (λ x. IsSound ops (record a { pool = x })) (sym e)
              (record {
                valid = record {
                  split = sound.valid.split;
                  counted = sound.valid.counted;
                  small = sound.valid.small;
                };
                running_once = sound.running_once;
                running_free = sound.running_free;
                alive = sound.alive;
                bounded = sound.bounded;
                int_max = sound.int_max;
              })
        | inr c ↦ elim c [
          | inl n ↦
              let f = fresh n.0 n.1 in
              subst (λ x. IsSound ops (record a { pool = x })) (sym n.2)
                (enqueue-IsSound a.pool n.0 task to_head sound room f.0 f.1)
          | inr n ↦
              let out : ¬ In n.0 a.running = λ m. sound.running_free n.0 m free_list n.1 in
              let links = del-Relinks ops laws a.pool.lists n.0 free_list n.1 in
              let q : Pool S = record a.pool { lists = ops.del a.pool.lists n.0 } in
              let w : IsSound ops (record a { pool = q }) = record {
                valid = (reuse-IsValid ops laws a.pool n.0 sound.valid n.1).0;
                running_once = sound.running_once;
                running_free = keeps_IsFree q.lists n.0 none links out;
                alive = sound.alive;
                bounded = sound.bounded;
                int_max = sound.int_max;
              } in
              subst (λ x. IsSound ops (record a { pool = x })) (sym n.2)
                (enqueue-IsSound q n.0 task to_head w room
                  (del-IsFree ops laws a.pool.lists n.0 free_list n.1) out)
        ]
      ]
