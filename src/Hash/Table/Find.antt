-- ===== src/Hash/Table/Find.antt =====
-- Reading and updating the value of a key.
use utils_c.Base.{
  ℕ, ◌≡◌, refl, sym, ◌∙◌, arith, List, [], ◌∷◌, get_elem?, ok, ◌>>=◌, Option, none, some,
  length-flatten-set,
}
use utils_c.Hash.Key.{Key}
use utils_c.Hash.Key.Compare.{IsKey}
use utils_c.Hash.Table.{Table, Node, Chain}
use utils_c.Hash.Table.Chains.{lookup, find_node, replace, node_bytes}
use utils_c.Hash.Table.Invariant.{
  key_len, home, view, key_bytes, IsValid, home_chain, home_chain-IsChain,
}
use utils_c.Hash.Table.Writes.{replace-Outcome, replace-Leaves}
use utils_c.Hash.Table.{find, update}
use utils_c.Hash.Table.Chains.{find_loop-find_node, replace_loop-replace}
use utils_c.Hash.Table.Invariant.{locate-home, IsChain-keys}
use utils_c.Hash.Table.Effect.{with_chain, Writes, with_chain-Writes, view-lookup}

-- The value of the node that `find` returns.
abbrev pub value {ℓ} : {V : Type ℓ} → Option (Node V) → Option V
value none = none
value (some n) = some n.val

find_node-lookup {ℓ} :
    {V : Type ℓ} (kb : Node V → List ℕ) (q : List ℕ) (c : Chain V)
    → value (find_node kb q c) ≡ lookup kb q c
unfolding find_node lookup
find_node-lookup kb q [] = refl
find_node-lookup kb q (n ∷ c) = ground (arith, find_node-lookup kb q c)

module _ {ℓ} {V : Type ℓ} {tbl : Table V} (v : IsValid tbl) (k : Key)
    (ik : IsKey tbl.mem_key_len k) where
  -- In a valid table, for a key of the right size, `find` returns the node that has the value of
  -- the key in the map that the table stands for, and the null pointer when the key is not there.
  pub find-view :
      (n : Option (Node V)) × (find tbl k ≡ ok n) × (value n ≡ view tbl (key_bytes tbl k))
  unfolding find
  find-view =
      let (c, at) = home_chain v (key_bytes tbl k) in
      let kept = home_chain-IsChain v (key_bytes tbl k) at in
      (
        find_node (node_bytes tbl.key_type (key_len tbl)) (key_bytes tbl k) c,
        rw (locate-home v k at, ◌>>=◌)
            (find_loop-find_node tbl.key_type v.known ik c (
              IsChain-keys tbl.key_type tbl.mem_key_len (key_len tbl) (home tbl)
                (home tbl (key_bytes tbl k)) c kept)),
        find_node-lookup _ _ c ∙ sym (view-lookup v (key_bytes tbl k) at),
      )

-- What an update is to do, by the value that the key has before.
abbrev pub Updates {ℓ} :
    {V : Type ℓ} → Table V → List ℕ → V → Option V → Option V × Table V → Type ℓ
Updates tbl q x (some old) (result, tbl') =
    (result ≡ some old) × (tbl'.node_ttl ≡ tbl.node_ttl) × Writes tbl q (some x) tbl'
Updates tbl q x none (result, tbl') = (result ≡ none) × (tbl' ≡ tbl)

module _ {ℓ} {V : Type ℓ} {tbl : Table V} (v : IsValid tbl) (k : Key) (ik : IsKey tbl.mem_key_len k)
    (x : V) where
  update_found :
      (n : Node V) {c : Chain V}
      → find tbl k ≡ ok (some n)
      → some n.val ≡ view tbl (key_bytes tbl k)
      → get_elem? tbl.nodes (home tbl (key_bytes tbl k)) ≡ some c
      → (w : Option (V × Chain V))
      → replace (node_bytes tbl.key_type (key_len tbl)) (key_bytes tbl k) x c ≡ w
      → (r : Option V × Table V) × (update tbl k x ≡ ok r)
        × Updates tbl (key_bytes tbl k) x (view tbl (key_bytes tbl k)) r
  unfolding update
  update_found n {c} run val at none e =
      let q = key_bytes tbl k in
      let kept = home_chain-IsChain v q at in
      let outcome =
        replace-Outcome tbl.key_type tbl.mem_key_len (key_len tbl) (home tbl) _ q c x kept in
      let missing = rw e at outcome in
      let there : some n.val ≡ none = val ∙ view-lookup v q at ∙ missing in cc
  update_found n {c} run val at (some (old, c')) e =
      let q = key_bytes tbl k in
      let kept = home_chain-IsChain v q at in
      let outcome =
        replace-Outcome tbl.key_type tbl.mem_key_len (key_len tbl) (home tbl) _ q c x kept in
      let found = rw e at outcome in
      let leaves = replace-Leaves (node_bytes tbl.key_type (key_len tbl)) q c x in
      let size = rw e at leaves in
      (
        (some n.val, with_chain tbl tbl.node_ttl q c'),
        rw (
          run,
          ◌>>=◌,
          locate-home v k at,
          replace_loop-replace tbl.key_type v.known ik x c (
              IsChain-keys tbl.key_type tbl.mem_key_len (key_len tbl) (home tbl) (home tbl q) c
                kept),
          e,
        ),
        rw (← val) (
          refl,
          refl,
          with_chain-Writes v q at _ (some x) c' found.1
              (omega (arith, v.counted, length-flatten-set tbl.nodes (home tbl q) c c' at, size)),
        ),
      )

  update_from :
      (n : Option (Node V))
      → find tbl k ≡ ok n
      → value n ≡ view tbl (key_bytes tbl k)
      → (r : Option V × Table V) × (update tbl k x ≡ ok r)
        × Updates tbl (key_bytes tbl k) x (view tbl (key_bytes tbl k)) r
  unfolding update
  update_from none run val = ((none, tbl), rw run, rw (← val) (refl, refl))
  update_from (some n) run val =
      let (c, at) = home_chain v (key_bytes tbl k) in update_found n run val at _ refl

  -- In a valid table, for a key of the right size, an update of a key that is there returns the old
  -- value, which is not freed, and writes the new one. The number of nodes stays, the table stays
  -- valid, and all other keys read as before. For a key that is not there it returns the null
  -- pointer, where include/uc_hash.h says that it returns the value given, and changes nothing.
  pub update-Updates :
      (r : Option V × Table V) × (update tbl k x ≡ ok r)
      × Updates tbl (key_bytes tbl k) x (view tbl (key_bytes tbl k)) r
  update-Updates = let (n, run, val) = find-view v k ik in update_from n run val
