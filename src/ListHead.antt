-- ===== src/ListHead.antt =====
-- What the repository calls of include/list.h, the Linux kernel's circular lists: an interface.
pub mod Relink
pub mod Plain
use utils_c.Base.{ℕ, ◌≡◌, ◌≢◌, List, [], ◌∷◌, ◌++◌, In, remove}

-- The operations on a store of lists, each behind one of the heads `H`. A node is given by the
-- address of the structure that it stands in, and `entries` are the nodes that list_for_each goes
-- through.
pub record ListOps (H S : Type 0) : Type 0 where
  pub init : S → H → S
  pub add_head : S → ℕ → H → S
  pub add_tail : S → ℕ → H → S
  pub del : S → ℕ → S
  pub entries : S → H → List ℕ

-- A node stands in no list.
abbrev pub IsFree : {H S : Type 0} → ListOps H S → S → ℕ → Type 0
IsFree {H} ops s i = (g : H) → ¬ In i (ops.entries s g)

-- What list.h says of them. INIT_LIST_HEAD empties a list; `list_add` and `list_add_tail` take a node
-- that is in no list; `list_del` takes a node that is in a list.
pub record ListLaws {H S : Type 0} (ops : ListOps H S) : Type 0 where
  pub init_here : (s : S) (h : H) → ops.entries (ops.init s h) h ≡ []
  pub init_other : (s : S) (h g : H) → g ≢ h → ops.entries (ops.init s h) g ≡ ops.entries s g
  pub add_head_here :
      (s : S) (i : ℕ) (h : H)
      → IsFree ops s i
      → ops.entries (ops.add_head s i h) h ≡ i ∷ ops.entries s h
  pub add_head_other :
      (s : S) (i : ℕ) (h g : H)
      → IsFree ops s i
      → g ≢ h
      → ops.entries (ops.add_head s i h) g ≡ ops.entries s g
  pub add_tail_here :
      (s : S) (i : ℕ) (h : H)
      → IsFree ops s i
      → ops.entries (ops.add_tail s i h) h ≡ ops.entries s h ++ i ∷ []
  pub add_tail_other :
      (s : S) (i : ℕ) (h g : H)
      → IsFree ops s i
      → g ≢ h
      → ops.entries (ops.add_tail s i h) g ≡ ops.entries s g
  pub del_entries :
      (s : S) (i : ℕ) (h g : H)
      → In i (ops.entries s h)
      → ops.entries (ops.del s i) g ≡ remove i (ops.entries s g)
