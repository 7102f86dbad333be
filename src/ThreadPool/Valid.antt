-- ===== src/ThreadPool/Valid.antt =====
-- When the lists of a pool are in order, and its queue of tasks.
use utils_c.Base.{
  ℕ, ◌^◌, ◌<◌, ◌≡◌, ◌≢◌, refl, sym, ap, subst, ◌∙◌, ◌⊎◌, inl, inr, ◌==◌, ==_iff, ==_self,
  Bool-cases, Option, some_injective, List, [], ◌∷◌, length, map, In, NoRepeat, remove, map_on,
}
use native.Mathlib.Decide.{ℕ_discrete}
use utils_c.ListHead.{ListOps}
use utils_c.ListHead.Relink.{Relinks}
use utils_c.ThreadPool.{PoolHead, task_list, Task, Pool, set_task}

PoolHead-discrete : Discrete PoolHead
PoolHead-discrete = hlevel ℕ_discrete

pub apart : (g h : PoolHead) → (g ≡ h) ⊎ (g ≢ h)
apart g h = elim (PoolHead-discrete g h) [ yes e ↦ inl e | no ne ↦ inr ne ]

-- Every node is in one list, once.
pub record IsSplit {S : Type 0} (ops : ListOps PoolHead S) (s : S) : Type 0 where
  pub once : (h : PoolHead) → NoRepeat (ops.entries s h)
  pub one : (i : ℕ) (g h : PoolHead) → In i (ops.entries s g) → In i (ops.entries s h) → g ≡ h

pub record IsValid {S : Type 0} (ops : ListOps PoolHead S) (p : Pool S) : Type 0 where
  pub split : IsSplit ops p.lists
  pub counted : p.list_task_ttl ≡ length (ops.entries p.lists task_list)
  pub small : p.list_task_ttl < 2 ^ 64

-- The tasks that wait, the next one first
abbrev pub queue : {S : Type 0} → ListOps PoolHead S → Pool S → List Task
queue ops p = map p.tasks (ops.entries p.lists task_list)

pub set_task_same : (tasks : ℕ → Task) (i : ℕ) (task : Task) → set_task tasks i task i ≡ task
set_task_same tasks i task = rw (==_self i)

pub map-set_task :
    (tasks : ℕ → Task) (i : ℕ) (task : Task) (xs : List ℕ)
    → ¬ In i xs
    → map (set_task tasks i task) xs ≡ map tasks xs
map-set_task tasks i task xs out = map_on xs (λ j m. elim (Bool-cases (j == i)) [
  | inl e ↦ absurd (out (subst (λ k. In k xs) ((==_iff j i).0 e) m))
  | inr e ↦ rw e
])

pub remove_absent : (i : ℕ) (xs : List ℕ) → ¬ In i xs → remove i xs ≡ xs
remove_absent i [] out = refl
remove_absent i (x ∷ xs) out = elim (Bool-cases (i == x)) [
  | inl e ↦ absurd (out (inl ((==_iff i x).0 e)))
  | inr e ↦ rw e (ap (◌∷◌ x) (remove_absent i xs (λ m. out (inr m))))
]

pub remove_first : (i : ℕ) (xs : List ℕ) → ¬ In i xs → remove i (i ∷ xs) ≡ xs
remove_first i xs out = rw (==_self i) (remove_absent i xs out)

pub Relinks-IsSplit :
    {S : Type 0} (ops : ListOps PoolHead S) (s s' : S) (i : ℕ) (dest : Option PoolHead)
    → Relinks ops s s' i dest
    → IsSplit ops s
    → IsSplit ops s'
Relinks-IsSplit ops s s' i dest links w = record {
  once = links.once w.once;
  one = λ j g h m n. elim (links.members g j m) [
    | inl a ↦ elim (links.members h j n) [
      | inl b ↦ some_injective (sym a.1 ∙ b.1)
      | inr b ↦ absurd (b.0 a.0)
    ]
    | inr a ↦ elim (links.members h j n) [ inl b ↦ absurd (a.0 b.0) | inr b ↦ w.one j g h a.1 b.1 ]
  ];
}
