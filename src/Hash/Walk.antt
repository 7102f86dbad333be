-- ===== src/Hash/Walk.antt =====
-- hash/uc_hash.c: going from node to node, and picking a node by a random number.
pub mod Next
pub mod Random
use utils_c.Base.{
  ℕ, zero, suc, ◌+◌, ◌-◌, ◌==◌, if◌then◌else◌, Run, ok, fault, ◌>>=◌, List, [], ◌∷◌, length, Option,
  none, some,
}
use utils_c.Hash.Key.{KeyType, Key, key_compare}
use utils_c.Hash.Table.{Table, Node, Chain, at, remainder, locate}

module _ {ℓ} {V : Type ℓ} where
  -- The head of the first chain from index `i` on that has one, of `m` chains.
  pub first_node : ℕ → ℕ → List (Chain V) → Run (Option (Node V))
  first_node zero i nodes = ok none
  first_node (suc m) i nodes =
      at nodes i >>= λ c. elim c [ n ∷ rest ↦ ok (some n) | [] ↦ first_node m (i + 1) nodes ]

  -- The loop of `uc_hash_next_node`: no node has the key, or what follows the one that has it.
  pub after_loop : KeyType → ℕ → Chain V → Key → Run (Option (Chain V))
  after_loop t len [] key = ok none
  after_loop t len (n ∷ c) key =
      let rest = after_loop t len c key in
      do r ← key_compare t len n.keys key; if r == 0 then ok (some c) else rest

  -- The next node of the chain, or the first one of the chains behind the index `h`.
  pub follow : Table V → ℕ → Chain V → Run (Option (Node V))
  follow tbl h (n ∷ c) = ok (some n)
  follow tbl h [] = first_node (tbl.height - (h + 1)) (h + 1) tbl.nodes

  pub next_node : Table V → Key → Run (Option (Node V))
  next_node tbl key = do
    (key_len, h, chain) ← locate tbl key
    found ← after_loop tbl.key_type key_len chain key
    elim found [ none ↦ ok none | some c ↦ follow tbl h c ]

  -- A null pointer in place of a key asks for the first node.
  pub next : Table V → Option Key → Run (Option (Node V))
  next tbl (some key) = next_node tbl key
  next tbl none = first_node tbl.height 0 tbl.nodes

  -- The loop of `uc_hash_test_print_table`, as the list of the nodes that it prints; `none` means
  -- that the fuel ran out.
  pub visit_loop : ℕ → Table V → Option (Node V) → Run (Option (List (Node V)))
  visit_loop fuel tbl none = ok (some [])
  visit_loop zero tbl (some item) = ok none
  visit_loop (suc fuel) tbl (some item) = do
    following ← next tbl (some item.keys)
    rest ← visit_loop fuel tbl following
    ok (elim rest [ none ↦ none | some items ↦ some (item ∷ items) ])

  pub visit : ℕ → Table V → Run (Option (List (Node V)))
  visit fuel tbl = do item ← next tbl none; visit_loop fuel tbl item

  -- `while (list_idx >= 1) { node = node->next; --list_idx; }`
  pub walk : ℕ → Chain V → Run (Node V)
  walk list_idx [] = fault
  walk zero (n ∷ c) = ok n
  walk (suc list_idx) (n ∷ c) = walk list_idx c

  pub pick : ℕ → Chain V → Run (Option (Node V))
  unfolding walk
  pick rdm_idx chain = do
    list_idx ← remainder rdm_idx (length chain)
    n ← walk list_idx chain
    ok (some n)

  -- `for (i = idx; i < tbl->height; ++i)`
  pub random_up : ℕ → ℕ → ℕ → List (Chain V) → Run (Option (Node V))
  unfolding pick
  random_up rdm_idx zero i nodes = ok none
  random_up rdm_idx (suc m) i nodes = at nodes i >>= λ c. elim c [
    | n ∷ rest ↦ pick rdm_idx (n ∷ rest)
    | [] ↦ random_up rdm_idx m (i + 1) nodes
  ]

  -- `for (; loop_idx >= 0; --loop_idx)`, from the index below `i`
  pub random_down : ℕ → ℕ → List (Chain V) → Run (Option (Node V))
  unfolding pick
  random_down rdm_idx zero nodes = ok none
  random_down rdm_idx (suc i) nodes = at nodes i >>= λ c. elim c [
    | n ∷ rest ↦ pick rdm_idx (n ∷ rest)
    | [] ↦ random_down rdm_idx i nodes
  ]

  pub random_node : Table V → ℕ → Run (Option (Node V))
  unfolding random_up random_down
  random_node tbl rdm_idx = if tbl.node_ttl == 0 then ok none else do
    idx ← remainder rdm_idx tbl.height
    found ← random_up rdm_idx (tbl.height - idx) idx tbl.nodes
    elim found [ some n ↦ ok (some n) | none ↦ random_down rdm_idx idx tbl.nodes ]
